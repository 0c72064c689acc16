-- ===== src/ServerApp/Answer.antt =====
-- ServerApp/ServerApp.c: what the client reads in the answer that the server sends.
use chat_project.Prelude.{
  ℕ, zero, suc, ◌+◌, ◌-◌, ◌≤◌, ◌<◌, ◌≡◌, refl, ap, arith, true, Option, none, some, [], ◌∷◌, ◌++◌,
  Run, ok, load, store, Bytes, length, strcpy-ok, >>=-eq-ok, ◌>>=◌, Option-cases, inl, inr, Bool,
  false, if◌then◌else◌, drop, length-append, length-drop,
}
use chat_project.Protocol.{
  ProtocolType, ByteOrder, little_endian, big_endian, Answers, answer_code, type_code, type_of,
  register_req, register_ans, login_ans, register_success, register_user_name_allready_exist,
  create_group_conversation_ans, join_conversation_ans, read_word, short_answer, group_answer,
  unpack,
}
use chat_project.Protocol.RoundTrip.{answer_offset, unpack-pack}
use chat_project.Buffer.{UserDetails, user_details, group_details}
use chat_project.DataBase.{
  uniqe, already_exist, disconnect, names_of, is_not_found, DataBase, DbErr,
  db_group_successfully_insert, db_group_name_already_exist, db_group_name_not_exist,
  db_group_join_successfully, db_group_remove_successfully,
}
use chat_project.HashMap
use chat_project.DataBase.Users.{
  UserMemory, insert_user_to_list, is_user_name_unique, check_client_status_and_connect,
}
use chat_project.DataBase.Groups.{check_group_name_and_insert, try_to_join_to_group}
use chat_project.ServerApp.{
  RequestMemory, write_word, write_ip, group_reply, write_reply, group_answer_of,
  ans_for_group_requests, short_answer_of, login_reply, check_user_name_on_db, pack_answer,
  dispatch, get_from_client_and_send_to_server,
}

pub write_word-reads :
    (order : ByteOrder) (n c : ℕ) (xs : Bytes)
    → n + 4 ≤ length xs
    → (ys : Bytes) × (write_word order n c xs ≡ ok ys)
      × (read_word order n ys ≡ ok c)
      × (length ys ≡ length xs)
unfolding write_word read_word
write_word-reads order zero c [] h = absurd (omega arith)
write_word-reads order zero c (_ ∷ []) h = absurd (omega arith)
write_word-reads order zero c (_ ∷ _ ∷ []) h = absurd (omega arith)
write_word-reads order zero c (_ ∷ _ ∷ _ ∷ []) h = absurd (omega arith)
write_word-reads little_endian zero c (_ ∷ _ ∷ _ ∷ _ ∷ rest) h =
    (c ∷ 0 ∷ 0 ∷ 0 ∷ rest, refl, ap ok (omega arith), refl)
write_word-reads big_endian zero c (_ ∷ _ ∷ _ ∷ _ ∷ rest) h =
    (0 ∷ 0 ∷ 0 ∷ c ∷ rest, refl, ap ok (omega arith), refl)
write_word-reads order (suc n) c [] h = absurd (omega arith)
write_word-reads order (suc n) c (x ∷ xs) h =
    let (ys, writes, reads, same) = write_word-reads order n c xs (omega arith) in
    (x ∷ ys, rw writes refl, reads, ap suc same)

pub type_of-type_code : (type : ProtocolType) → type_of (type_code type) ≡ some type
unfolding type_of type_code
type_of-type_code register_req = refl
type_of-type_code _ = refl

-- the answer is sent as `sent`, and a client of the same byte order reads its type and `c`
abbrev pub Arrives : ByteOrder → ProtocolType → (offset : ℕ) → (c : ℕ) → Bytes → Type 0
Arrives order type offset c sent =
    (v : Bytes) × (unpack order sent ≡ ok (some type, v)) × (read_word order offset v ≡ ok c)

pack_answer-Arrives :
    (order : ByteOrder) (type : ProtocolType) (n c : ℕ) (xs : Bytes) (db : Option DataBase)
    → answer_offset type ≡ some (suc n)
    → n + 4 ≤ length xs
    → read_word order n xs ≡ ok c
    → (sent : Bytes) × (pack_answer order (some (type_code type ∷ xs)) db ≡ ok (some sent, db))
      × Arrives order type (suc n) c sent
unfolding pack_answer load read_word
pack_answer-Arrives order type n c xs db e h reads =
    let (sent, packs, unpacks) = unpack-pack order type (type_code type) xs e (omega (arith, h)) in
    (sent, ground (arith, type_of-type_code type, packs), (type_code type ∷ xs, unpacks, reads))

short_answer_of-Arrives :
    (order : ByteOrder) (block : Bytes) (type : ProtocolType) (a : Answers) (db : Option DataBase)
    → 8 ≤ length block
    → answer_offset type ≡ some short_answer
    → (answer sent : Bytes) × (short_answer_of order block type (some a) db ≡ ok (some answer, db))
      × (pack_answer order (some answer) db ≡ ok (some sent, db))
      × Arrives order type short_answer (answer_code a) sent
unfolding short_answer_of store write_word
short_answer_of-Arrives order [] type a db h e = absurd (omega arith)
short_answer_of-Arrives order (x ∷ xs) type a db h e =
    let (ys, writes, reads, same) = write_word-reads order 3 (answer_code a) xs (omega arith) in
    let (sent, packs, arrives) =
      pack_answer-Arrives order type 3 (answer_code a) ys db e (rw same (omega arith)) reads in
    (type_code type ∷ ys, sent, rw writes refl, packs, arrives)

-- Where there is a block of at least the 8 bytes of a `Login_Ans`, the server sends what the data
-- base answers to a login, if that is one of the four results that `CheckUserNameOnDB` has an
-- answer for, and a client on a host of the same byte order reads exactly that answer.
pub login_answered :
    (order : ByteOrder) (a : RequestMemory) (rest : Bytes) (db : DataBase) (db' : Option DataBase)
    (rcv : DbErr) (reply : Answers)
    → a.answer_ok ≡ true
    → 8 ≤ length a.block
    → check_client_status_and_connect a.user (2 ∷ rest) (some db) (some user_details)
      ≡ ok (rcv, db')
    → login_reply rcv ≡ some reply
    → (sent : Bytes) × (get_from_client_and_send_to_server order a (2 ∷ rest) (some db)
        ≡ ok (some sent, db'))
      × Arrives order login_ans short_answer (answer_code reply) sent
unfolding get_from_client_and_send_to_server unpack load type_of dispatch check_user_name_on_db
login_answered order a rest db db' rcv reply given size answers replies =
    let (answer, sent, writes, packs, arrives) =
      short_answer_of-Arrives order a.block login_ans reply db' size refl in
    (sent, rw (given, answers, replies, writes) packs, arrives)

unique_end-le :
    (a : UserMemory) (buffer : Bytes) (db db' : DataBase) (user : UserDetails) (free : Bool)
    (res : ℕ)
    → if◌then◌else◌ {A = Run (ℕ × DataBase)} free
        (insert_user_to_list a buffer db user disconnect >>= λ r. ok (uniqe, r.1))
        (ok (already_exist, db))
      ≡ ok (res, db')
    → res ≤ 1
unique_end-le a buffer db db' user true res e =
    let (r, _, done) = >>=-eq-ok (insert_user_to_list a buffer db user disconnect) _ e in
    ground (arith, done)
unique_end-le a buffer db db' user false res e = ground (arith, e)

is_user_name_unique-le :
    (a : UserMemory) (buffer : Bytes) (db db' : DataBase) (user : UserDetails) (res : ℕ)
    → is_user_name_unique a buffer db user ≡ ok (res, db')
    → res ≤ 1
unfolding is_user_name_unique
is_user_name_unique-le a buffer db db' user res e =
    let (names, _, e₁) = >>=-eq-ok (names_of db) _ e in
    let (r, _, e₂) = >>=-eq-ok (HashMap.find buffer names (some user.user_name)) _ e₁ in
    unique_end-le a buffer db db' user (is_not_found r.0) res e₂

-- Where there is a block of at least the 8 bytes of a `Register_Ans`, a request to register is
-- answered by success exactly if the data base takes the name for free, and a client on a host of
-- the same byte order reads that answer.
pub register_answered :
    (order : ByteOrder) (a : RequestMemory) (rest : Bytes) (db db' : DataBase) (res : ℕ)
    → a.answer_ok ≡ true
    → 8 ≤ length a.block
    → is_user_name_unique a.user (0 ∷ rest) db user_details ≡ ok (res, db')
    → (sent : Bytes) × (get_from_client_and_send_to_server order a (0 ∷ rest) (some db)
        ≡ ok (some sent, some db'))
      × Arrives order register_ans short_answer (1 - res) sent
unfolding get_from_client_and_send_to_server unpack load type_of dispatch check_user_name_on_db
    answer_code
register_answered order a rest db db' zero given size answers =
    let (answer, sent, writes, packs, arrives) =
      short_answer_of-Arrives order a.block register_ans register_user_name_allready_exist
        (some db') size refl in
    (sent, rw (given, answers, writes) packs, arrives)
register_answered order a rest db db' (suc zero) given size answers =
    let (answer, sent, writes, packs, arrives) =
      short_answer_of-Arrives order a.block register_ans register_success (some db') size refl in
    (sent, rw (given, answers, writes) packs, arrives)
register_answered order a rest db db' (suc (suc n)) given size answers =
    let two = is_user_name_unique-le a.user (0 ∷ rest) db db' user_details (suc (suc n)) answers in
    absurd (omega (arith, two))

write_ip-head :
    (ip : Bytes) (t : ℕ) (xs : Bytes)
    → length ip < 17
    → 23 ≤ length xs
    → (ys : Bytes) × (write_ip ip (t ∷ xs) ≡ ok (t ∷ ys)) × (23 ≤ length ys)
unfolding write_ip
write_ip-head ip t xs fits size = (
  ip ++ (0 ∷ drop (length ip + 1) xs),
  rw (strcpy-ok 17 ip fits) refl,
  rw (length-append ip (0 ∷ drop (length ip + 1) xs))
      (omega (arith, length-drop (length ip + 1) xs)),
)

group_reply-fits :
    (err : DbErr) (created joined left : Bytes) {ip : Bytes} {reply : Answers}
    → length created < 17
    → length joined < 17
    → length left < 17
    → group_reply err created joined left ≡ some (some ip, reply)
    → length ip < 17
unfolding group_reply
group_reply-fits db_group_successfully_insert created joined left c j l h = ground arith
group_reply-fits db_group_name_already_exist created joined left c j l h = ground arith
group_reply-fits db_group_name_not_exist created joined left c j l h = ground arith
group_reply-fits db_group_join_successfully created joined left c j l h = ground arith
group_reply-fits db_group_remove_successfully created joined left c j l h = ground arith
group_reply-fits _ created joined left c j l h = ground arith

group_answer_of-Arrives :
    (order : ByteOrder) (block : Bytes) (type : ProtocolType) (err : DbErr)
    (created joined left : Bytes) (db : Option DataBase) (copied : Option Bytes) (reply : Answers)
    → 24 ≤ length block
    → answer_offset type ≡ some group_answer
    → length created < 17
    → length joined < 17
    → length left < 17
    → group_reply err created joined left ≡ some (copied, reply)
    → (answer sent : Bytes) × (group_answer_of order block type err created joined left db
        ≡ ok (some answer, db))
      × (pack_answer order (some answer) db ≡ ok (some sent, db))
      × Arrives order type group_answer (answer_code reply) sent
unfolding group_answer_of store write_reply write_word
group_answer_of-Arrives order [] type err created joined left db copied reply h e c j l r =
    absurd (omega arith)
group_answer_of-Arrives order (x ∷ xs) type err created joined left db none reply h e c j l r =
    let (ys, writes, reads, same) =
      write_word-reads order 19 (answer_code reply) xs (omega arith) in
    let (sent, packs, arrives) =
      pack_answer-Arrives order type 19 (answer_code reply) ys db e (rw same (omega arith)) reads in
    (type_code type ∷ ys, sent, rw (r, writes) refl, packs, arrives)
group_answer_of-Arrives order (x ∷ xs) type err created joined left db (some ip) reply h e c j l r =
    let fits = group_reply-fits err created joined left c j l r in
    let (zs, copies, size) = write_ip-head ip (type_code type) xs fits (omega arith) in
    let (ys, writes, reads, same) =
      write_word-reads order 19 (answer_code reply) zs (omega arith) in
    let (sent, packs, arrives) =
      pack_answer-Arrives order type 19 (answer_code reply) ys db e (rw same (omega arith)) reads in
    (type_code type ∷ ys, sent, rw (r, copies, writes) refl, packs, arrives)

-- Where the data base gives what there is no answer for, `m_answer` stays as it stood in the block.
group_answer_of-unwritten :
    (order : ByteOrder) (block : Bytes) (type : ProtocolType) (err : DbErr)
    (created joined left : Bytes) (db : Option DataBase) (old : ℕ)
    → 24 ≤ length block
    → answer_offset type ≡ some group_answer
    → group_reply err created joined left ≡ none
    → read_word order group_answer block ≡ ok old
    → (answer sent : Bytes) × (group_answer_of order block type err created joined left db
        ≡ ok (some answer, db))
      × (pack_answer order (some answer) db ≡ ok (some sent, db))
      × Arrives order type group_answer old sent
unfolding group_answer_of store write_reply read_word
group_answer_of-unwritten order [] type err created joined left db old h e r reads =
    absurd (omega (arith, h))
group_answer_of-unwritten order (x ∷ xs) type err created joined left db old h e r reads =
    let (sent, packs, arrives) =
      pack_answer-Arrives order type 19 old xs db e (omega (arith, h)) reads in
    (type_code type ∷ xs, sent, rw r refl, packs, arrives)

-- `m_answer` behind the switch, where `old` is what stood there before
abbrev pub answered_word : Option (Option Bytes × Answers) → (old : ℕ) → ℕ
answered_word none old = old
answered_word (some (copied, reply)) old = answer_code reply

-- Where there is a block of at least the 24 bytes of a `Create_Group_Ans` and the address has at
-- most 16 characters, a request to create a group is answered by what the switch of
-- `ANSForGroupRequests` has for the result of the data base, and where it has nothing, as after a
-- failing allocation, by whatever stood in the block; a client on a host of the same byte order
-- reads exactly that.
pub create_answered :
    (order : ByteOrder) (a : RequestMemory) (rest : Bytes) (db db' : Option DataBase) (err : DbErr)
    (ip : Bytes) (old : ℕ)
    → a.answer_ok ≡ true
    → 24 ≤ length a.block
    → check_group_name_and_insert a.group (7 ∷ rest) (some group_details) db [] ≡ ok (err, ip, db')
    → length ip < 17
    → read_word order group_answer a.block ≡ ok old
    → (sent : Bytes) × (get_from_client_and_send_to_server order a (7 ∷ rest) db
        ≡ ok (some sent, db'))
      × Arrives order create_group_conversation_ans group_answer
          (answered_word (group_reply err ip [] []) old)
          sent
unfolding get_from_client_and_send_to_server unpack load type_of dispatch ans_for_group_requests
create_answered order a rest db db' err ip old given size answers fits stood =
    elim (Option-cases (group_reply err ip [] [])) [
      | inl nothing ↦
          let (answer, sent, writes, packs, arrives) =
            group_answer_of-unwritten order a.block create_group_conversation_ans err ip [] [] db'
              old size refl nothing stood in
          (sent, rw (given, answers, writes) packs, rw nothing arrives)
      | inr ((copied, reply), replies) ↦
          let (answer, sent, writes, packs, arrives) =
            group_answer_of-Arrives order a.block create_group_conversation_ans err ip [] [] db'
              copied reply size refl fits (omega arith) (omega arith) replies in
          (sent, rw (given, answers, writes) packs, rw replies arrives)
    ]

-- Where there is a block for the answer and the address fits in it, the server sends what the data
-- base answers to a request to join a group, and a client on a host of the same byte order reads
-- exactly that answer.
join_answered :
    (order : ByteOrder) (a : RequestMemory) (rest : Bytes) (db db' : Option DataBase) (err : DbErr)
    (ip joined : Bytes) (copied : Option Bytes) (reply : Answers)
    → a.answer_ok ≡ true
    → 24 ≤ length a.block
    → try_to_join_to_group (9 ∷ rest) (some group_details) db [] [] ≡ ok (err, ip, joined, db')
    → length joined < 17
    → group_reply err [] joined [] ≡ some (copied, reply)
    → (sent : Bytes) × (get_from_client_and_send_to_server order a (9 ∷ rest) db
        ≡ ok (some sent, db'))
      × Arrives order join_conversation_ans group_answer (answer_code reply) sent
unfolding get_from_client_and_send_to_server unpack load type_of dispatch ans_for_group_requests
join_answered order a rest db db' err ip joined copied reply given size answers fits replies =
    let (answer, sent, writes, packs, arrives) =
      group_answer_of-Arrives order a.block join_conversation_ans err [] joined [] db' copied reply
        size refl (omega arith) fits (omega arith) replies in
    (sent, rw (given, answers, writes) packs, arrives)
