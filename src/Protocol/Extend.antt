-- ===== src/Protocol/Extend.antt =====
-- Protocol/Protocol.c: reading a message does not depend on what stands behind it.
use chat_project.Prelude.{
  ℕ, zero, suc, ◌≡◌, ap, Option, none, some, [], ◌∷◌, ◌++◌, Run, ok, ◌>>=◌, >>=-eq-ok, load, Bytes,
}
use chat_project.Protocol.{
  ProtocolType, ByteOrder, little_endian, big_endian, register_ans, login_ans,
  create_group_conversation_ans, join_conversation_ans, leave_conversation_ans, type_of, swap_word,
  convert_word, read_word, short_answer, group_answer, unpack, unpack_answer,
}

-- a run with more bytes behind its result
abbrev more : Bytes → Run Bytes → Run Bytes
more ys r = r >>= λ v. ok (v ++ ys)

swap_word-append :
    (n : ℕ) (xs ys : Bytes) {v : Bytes}
    → swap_word n xs ≡ ok v
    → swap_word n (xs ++ ys) ≡ ok (v ++ ys)
unfolding swap_word
swap_word-append zero [] ys h = cc
swap_word-append zero (a ∷ []) ys h = cc
swap_word-append zero (a ∷ b ∷ []) ys h = cc
swap_word-append zero (a ∷ b ∷ c ∷ []) ys h = cc
swap_word-append zero (a ∷ b ∷ c ∷ d ∷ rest) ys h = ap (more ys) h
swap_word-append (suc n) [] ys h = cc
swap_word-append (suc n) (x ∷ xs) ys h =
    let (v, step, e) = >>=-eq-ok (swap_word n xs) (λ v. ok (x ∷ v)) h in
    rw (swap_word-append n xs ys step) (ap (more ys) e)

convert_word-append :
    (order : ByteOrder) (n : ℕ) (xs ys : Bytes) {v : Bytes}
    → convert_word order n xs ≡ ok v
    → convert_word order n (xs ++ ys) ≡ ok (v ++ ys)
unfolding convert_word
convert_word-append little_endian n xs ys h = swap_word-append n xs ys h
convert_word-append big_endian n xs ys h =
    let (w, step, e) = >>=-eq-ok (swap_word n xs) (λ _. ok xs) h in
    rw (swap_word-append n xs ys step) (ap (more ys) e)

unpack_answer-append :
    (order : ByteOrder) (type : Option ProtocolType) (xs ys : Bytes) {v : Bytes}
    → unpack_answer order type xs ≡ ok v
    → unpack_answer order type (xs ++ ys) ≡ ok (v ++ ys)
unfolding unpack_answer
unpack_answer-append order none xs ys h = ap (more ys) h
unpack_answer-append order (some login_ans) xs ys h = convert_word-append order short_answer xs ys h
unpack_answer-append order (some register_ans) xs ys h =
    convert_word-append order short_answer xs ys h
unpack_answer-append order (some create_group_conversation_ans) xs ys h =
    convert_word-append order group_answer xs ys h
unpack_answer-append order (some join_conversation_ans) xs ys h =
    convert_word-append order group_answer xs ys h
unpack_answer-append order (some leave_conversation_ans) xs ys h =
    convert_word-append order group_answer xs ys h
unpack_answer-append order (some _) xs ys h = ap (more ys) h

pub unpack-append :
    (order : ByteOrder) (xs ys : Bytes) {type : Option ProtocolType} {v : Bytes}
    → unpack order xs ≡ ok (type, v)
    → unpack order (xs ++ ys) ≡ ok (type, v ++ ys)
unfolding unpack load
unpack-append order [] ys h = cc
unpack-append order (t ∷ xs) ys h =
    let (v, step, e) =
      >>=-eq-ok (unpack_answer order (type_of t) (t ∷ xs)) (λ v. ok (type_of t, v)) h in
    rw (unpack_answer-append order (type_of t) (t ∷ xs) ys step)
      (ap (λ r. r >>= λ (type, w). ok (type, w ++ ys)) e)

pub read_word-append :
    (order : ByteOrder) (n : ℕ) (xs ys : Bytes) {a : ℕ}
    → read_word order n xs ≡ ok a
    → read_word order n (xs ++ ys) ≡ ok a
unfolding read_word
read_word-append little_endian zero (a ∷ b ∷ c ∷ d ∷ rest) ys h = h
read_word-append big_endian zero (a ∷ b ∷ c ∷ d ∷ rest) ys h = h
read_word-append little_endian zero [] ys h = cc
read_word-append big_endian zero [] ys h = cc
read_word-append little_endian zero (a ∷ []) ys h = cc
read_word-append big_endian zero (a ∷ []) ys h = cc
read_word-append little_endian zero (a ∷ b ∷ []) ys h = cc
read_word-append big_endian zero (a ∷ b ∷ []) ys h = cc
read_word-append little_endian zero (a ∷ b ∷ c ∷ []) ys h = cc
read_word-append big_endian zero (a ∷ b ∷ c ∷ []) ys h = cc
read_word-append order (suc n) [] ys h = cc
read_word-append order (suc n) (x ∷ xs) ys h = read_word-append order n xs ys h
