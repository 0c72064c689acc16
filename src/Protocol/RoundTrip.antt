-- ===== src/Protocol/RoundTrip.antt =====
-- Protocol/Protocol.c: what a message goes through between `Pack` on one side and `UnPack` on the
-- other.
use chat_project.Prelude.{
  ℕ, zero, suc, ◌+◌, ◌*◌, ◌^◌, ◌≤◌, ◌≡◌, ◌↔◌, refl, ap, arith, Option, none, some, [], ◌∷◌, ◌++◌,
  ok, load, store, Bytes, length,
}
use chat_project.Protocol.{
  ProtocolType, ByteOrder, Answers, answer_code, little_endian, big_endian, type_code, type_of,
  register_ans, login_ans, create_group_conversation_ans, join_conversation_ans,
  leave_conversation_ans, leave_conversation_req, swap_word, convert_word, read_word, short_answer,
  group_answer, pack, unpack, unpack_answer,
}

-- Turning the bytes of a word round twice gives them back.
swap_word-back :
    (n : ℕ) (value : Bytes)
    → n + 4 ≤ length value
    → (v : Bytes) × (swap_word n value ≡ ok v) × (swap_word n v ≡ ok value)
unfolding swap_word
swap_word-back zero [] h = absurd (omega arith)
swap_word-back zero (a ∷ []) h = absurd (omega arith)
swap_word-back zero (a ∷ b ∷ []) h = absurd (omega arith)
swap_word-back zero (a ∷ b ∷ c ∷ []) h = absurd (omega arith)
swap_word-back zero (a ∷ b ∷ c ∷ d ∷ rest) h = (d ∷ c ∷ b ∷ a ∷ rest, refl, refl)
swap_word-back (suc n) [] h = absurd (omega arith)
swap_word-back (suc n) (x ∷ xs) h =
    let (v, there, back) = swap_word-back n xs (omega arith) in (x ∷ v, rw there, rw back)

convert_word-back :
    (order : ByteOrder) (n t : ℕ) (xs : Bytes)
    → n + 4 ≤ length xs
    → (ys : Bytes) × (convert_word order (suc n) (t ∷ xs) ≡ ok (t ∷ ys))
      × (convert_word order (suc n) (t ∷ ys) ≡ ok (t ∷ xs))
unfolding convert_word swap_word
convert_word-back little_endian n t xs h =
    let (ys, there, back) = swap_word-back n xs h in (ys, rw there, rw back)
convert_word-back big_endian n t xs h =
    let (ys, there, back) = swap_word-back n xs h in (xs, rw there, rw there)

-- Where the answers that `Pack` converts have their `m_answer`.
abbrev pub answer_offset : ProtocolType → Option ℕ
answer_offset register_ans = some short_answer
answer_offset login_ans = some short_answer
answer_offset create_group_conversation_ans = some group_answer
answer_offset join_conversation_ans = some group_answer
answer_offset _ = none

-- An answer to a request to register, to log in, to create or to join a group, as long at least as
-- its struct, arrives as it was sent, on hosts of either byte order: `UnPack` undoes `Pack`, which
-- sets the type byte.
pub unpack-pack :
    (order : ByteOrder) (type : ProtocolType) (x : ℕ) (xs : Bytes) {offset : ℕ}
    → answer_offset type ≡ some offset
    → offset + 4 ≤ length (x ∷ xs)
    → (v : Bytes) × (pack order type (x ∷ xs) ≡ ok v)
      × (unpack order v ≡ ok (some type, type_code type ∷ xs))
unfolding pack unpack unpack_answer type_code type_of store load
unpack-pack order register_ans x xs {offset} e h =
    let at : short_answer ≡ offset = ground (arith, e) in
    let (ys, there, back) = convert_word-back order 3 1 xs (omega (arith, at, h)) in
    (1 ∷ ys, there, rw back)
unpack-pack order login_ans x xs {offset} e h =
    let at : short_answer ≡ offset = ground (arith, e) in
    let (ys, there, back) = convert_word-back order 3 3 xs (omega (arith, at, h)) in
    (3 ∷ ys, there, rw back)
unpack-pack order create_group_conversation_ans x xs {offset} e h =
    let at : group_answer ≡ offset = ground (arith, e) in
    let (ys, there, back) = convert_word-back order 19 8 xs (omega (arith, at, h)) in
    (8 ∷ ys, there, rw back)
unpack-pack order join_conversation_ans x xs {offset} e h =
    let at : group_answer ≡ offset = ground (arith, e) in
    let (ys, there, back) = convert_word-back order 19 10 xs (omega (arith, at, h)) in
    (10 ∷ ys, there, rw back)
unpack-pack order _ x xs {offset} e h = ground arith

leave_word :
    (n : ℕ) (front : Bytes) (a : ℕ) (rest : Bytes)
    → length front ≡ n
    → (v : Bytes) × (swap_word n (front ++ (a ∷ 0 ∷ 0 ∷ 0 ∷ rest)) ≡ ok v)
      × (read_word little_endian n v ≡ ok (a * 2 ^ 24))
unfolding swap_word read_word
leave_word zero [] a rest h = (0 ∷ 0 ∷ 0 ∷ a ∷ rest, refl, ap ok (omega arith))
leave_word zero (x ∷ front) a rest h = absurd (omega arith)
leave_word (suc n) [] a rest h = absurd (omega arith)
leave_word (suc n) (x ∷ front) a rest h =
    let (v, there, reads) = leave_word n front a rest (omega arith) in (x ∷ v, rw there, reads)

-- The answer to a request to leave a group is not converted by `Pack`, but it is by `UnPack`: a
-- client on a little-endian host reads 2 ^ 24 times the number that a server on such a host wrote.
pub unpack-leave_ans :
    (a : Answers) (front rest : Bytes)
    → length front ≡ 19
    → let sent = 13 ∷ front ++ (answer_code a ∷ 0 ∷ 0 ∷ 0 ∷ rest) in
      (v : Bytes) × (pack little_endian leave_conversation_ans sent ≡ ok sent)
      × (unpack little_endian sent ≡ ok (some leave_conversation_ans, v))
      × (read_word little_endian group_answer v ≡ ok (answer_code a * 2 ^ 24))
unfolding pack unpack unpack_answer type_of load convert_word swap_word read_word
unpack-leave_ans a front rest h =
    let (v, there, reads) = leave_word 19 front (answer_code a) rest h in
    (13 ∷ v, refl, rw there, reads)

-- `Pack` of a request to leave a group goes on into the next case and, on a little-endian host,
-- turns round the bytes 4 to 7, which are characters 3 to 6 of the group's name; so the name is
-- sent as it is exactly if these four characters read the same backwards.
pack-leave_req :
    (t n0 n1 n2 a b c d : ℕ) (rest : Bytes)
    → let name = λ (w x y z : ℕ). n0 ∷ n1 ∷ n2 ∷ w ∷ x ∷ y ∷ z ∷ rest in
      (pack little_endian leave_conversation_req (t ∷ name a b c d) ≡ ok (12 ∷ name d c b a))
      × ((name d c b a ≡ name a b c d) ↔ ((a ≡ d) × (b ≡ c)))
unfolding pack type_code store convert_word swap_word
pack-leave_req t n0 n1 n2 a b c d rest = (refl, (λ e. ground arith, λ e. ground arith))
