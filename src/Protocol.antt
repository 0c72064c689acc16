-- ===== src/Protocol.antt =====
-- Protocol/Protocol.h and Protocol/Protocol.c: the messages, as the bytes of the C structs, and
-- what `Pack` and `UnPack` do to them. An `Answers` is a word of 4 bytes aligned to 4, so
-- `m_answer` stands at offset 4 behind `m_type`, and at 20 behind `m_type` and `m_groupIP`.
pub mod Returns
pub mod Extend
pub mod RoundTrip
mod Tests
use chat_project.Prelude.{
  ℕ, zero, suc, ◌+◌, ◌*◌, Bool, true, false, Option, none, some, List, [], ◌∷◌, Run, ok, fault,
  ◌>>=◌, load, store, ◌==◌, Bytes, get_elem?, if◌then◌else◌,
}

-- `Protocol_Type`
pub data ProtocolType : Type 0 where
  register_req register_ans login_req login_ans logout unregister_req unregister_ans : ProtocolType
  create_group_conversation_req create_group_conversation_ans : ProtocolType
  join_conversation_req join_conversation_ans create_private_conversation : ProtocolType
  leave_conversation_req leave_conversation_ans get_user_list get_group_chat_list : ProtocolType

-- the number of the enumerator
unfoldable pub type_code : ProtocolType → ℕ
type_code register_req = 0
type_code register_ans = 1
type_code login_req = 2
type_code login_ans = 3
type_code logout = 4
type_code unregister_req = 5
type_code unregister_ans = 6
type_code create_group_conversation_req = 7
type_code create_group_conversation_ans = 8
type_code join_conversation_req = 9
type_code join_conversation_ans = 10
type_code create_private_conversation = 11
type_code leave_conversation_req = 12
type_code leave_conversation_ans = 13
type_code get_user_list = 14
type_code get_group_chat_list = 15

abbrev all_types : List ProtocolType
all_types =
    register_req ∷ register_ans ∷ login_req ∷ login_ans ∷ logout ∷ unregister_req ∷ unregister_ans
    ∷ create_group_conversation_req ∷ create_group_conversation_ans ∷ join_conversation_req
    ∷ join_conversation_ans ∷ create_private_conversation ∷ leave_conversation_req
    ∷ leave_conversation_ans ∷ get_user_list ∷ get_group_chat_list ∷ []

-- the enumerator of a number; a message may hold any byte
unfoldable pub type_of : ℕ → Option ProtocolType
type_of n = get_elem? all_types n

-- `Answers`
pub data Answers : Type 0 where
  register_success register_user_name_allready_exist : Answers
  login_user_successfully_connected login_user_name_not_exist login_wrong_psw : Answers
  login_allready_connected group_successfully_insert group_name_already_exist : Answers
  group_name_not_exist group_successfully_join group_successfully_found : Answers

unfoldable pub answer_code : Answers → ℕ
answer_code register_success = 0
answer_code register_user_name_allready_exist = 1
answer_code login_user_successfully_connected = 2
answer_code login_user_name_not_exist = 3
answer_code login_wrong_psw = 4
answer_code login_allready_connected = 5
answer_code group_successfully_insert = 6
answer_code group_name_already_exist = 7
answer_code group_name_not_exist = 8
answer_code group_successfully_join = 9
answer_code group_successfully_found = 10

-- the byte order of the host, which `htonl` and `ntohl` depend on
pub data ByteOrder : Type 0 where
  little_endian big_endian : ByteOrder

-- the 4 bytes at `offset`, turned round
unfoldable pub swap_word : (offset : ℕ) → Bytes → Run Bytes
swap_word zero (a ∷ b ∷ c ∷ d ∷ rest) = ok (d ∷ c ∷ b ∷ a ∷ rest)
swap_word zero _ = fault
swap_word (suc n) [] = fault
swap_word (suc n) (x ∷ xs) = swap_word n xs >>= λ ys. ok (x ∷ ys)

-- `p->m_answer = htonl( p->m_answer )`, and with `ntohl`, for the word at `offset`
unfoldable pub convert_word : ByteOrder → (offset : ℕ) → Bytes → Run Bytes
unfolding swap_word
convert_word little_endian offset value = swap_word offset value
convert_word big_endian offset value = swap_word offset value >>= λ _. ok value

-- the word at `offset` as the host reads it
unfoldable pub read_word : ByteOrder → (offset : ℕ) → Bytes → Run ℕ
read_word little_endian zero (a ∷ b ∷ c ∷ d ∷ rest) =
    ok (a + 0x100 * b + 0x1_0000 * c + 0x100_0000 * d)
read_word big_endian zero (a ∷ b ∷ c ∷ d ∷ rest) =
    ok (d + 0x100 * c + 0x1_0000 * b + 0x100_0000 * a)
read_word order zero _ = fault
read_word order (suc n) [] = fault
read_word order (suc n) (x ∷ xs) = read_word order n xs

-- `m_answer` of a `Register_Ans` and a `Login_Ans`, and of a `Create_Group_Ans`
abbrev pub short_answer : ℕ
short_answer = 4

abbrev pub group_answer : ℕ
group_answer = 20

-- `Pack`. The request to leave a group goes on into the case of `REGISTER_ANS`.
unfoldable pub pack : ByteOrder → ProtocolType → Bytes → Run Bytes
pack order type value = elim type [
  | register_req ↦ store value 0 (type_code register_req)
  | login_req ↦ store value 0 (type_code login_req)
  | create_group_conversation_req ↦ store value 0 (type_code create_group_conversation_req)
  | join_conversation_req ↦ store value 0 (type_code join_conversation_req)
  | leave_conversation_req ↦ store value 0 (type_code leave_conversation_req) >>= λ v.
      store v 0 (type_code leave_conversation_req) >>= convert_word order short_answer
  | register_ans ↦ store value 0 (type_code register_ans) >>= convert_word order short_answer
  | login_ans ↦ store value 0 (type_code login_ans) >>= convert_word order short_answer
  | create_group_conversation_ans ↦
      store value 0 (type_code create_group_conversation_ans) >>= convert_word order group_answer
  | join_conversation_ans ↦
      store value 0 (type_code join_conversation_ans) >>= convert_word order group_answer
  | _ ↦ ok value
]

unpack_answer : ByteOrder → Option ProtocolType → Bytes → Run Bytes
unpack_answer order none value = ok value
unpack_answer order (some type) value = elim type [
  | login_ans ↦ convert_word order short_answer value
  | register_ans ↦ convert_word order short_answer value
  | create_group_conversation_ans ↦ convert_word order group_answer value
  | join_conversation_ans ↦ convert_word order group_answer value
  | leave_conversation_ans ↦ convert_word order group_answer value
  | _ ↦ ok value
]

-- `UnPack`: the type of the message, and the message
unfoldable pub unpack : ByteOrder → Bytes → Run (Option ProtocolType × Bytes)
unfolding unpack_answer
unpack order value = do
  copy ← load value 0
  value' ← unpack_answer order (type_of copy) value
  ok (type_of copy, value')
