-- ===== src/Protocol/Returns.antt =====
-- Protocol/Protocol.c: reading a message either goes beyond its end or gives its type.
use chat_project.Prelude.{
  ℕ, zero, suc, ◌≡◌, refl, Option, none, some, [], ◌∷◌, ok, fault, load, Bytes, ◌⊎◌, inl, inr,
}
use chat_project.Protocol.{
  ProtocolType, ByteOrder, little_endian, big_endian, register_ans, login_ans,
  create_group_conversation_ans, join_conversation_ans, leave_conversation_ans, type_of, swap_word,
  convert_word, short_answer, group_answer, unpack, unpack_answer,
}

swap_word-returns :
    (n : ℕ) (xs : Bytes) → (swap_word n xs ≡ fault) ⊎ ((ys : Bytes) × (swap_word n xs ≡ ok ys))
unfolding swap_word
swap_word-returns zero [] = inl refl
swap_word-returns zero (a ∷ []) = inl refl
swap_word-returns zero (a ∷ b ∷ []) = inl refl
swap_word-returns zero (a ∷ b ∷ c ∷ []) = inl refl
swap_word-returns zero (a ∷ b ∷ c ∷ d ∷ rest) = inr (d ∷ c ∷ b ∷ a ∷ rest, refl)
swap_word-returns (suc n) [] = inl refl
swap_word-returns (suc n) (x ∷ xs) = elim (swap_word-returns n xs) [
  | inl e ↦ inl (rw e refl)
  | inr (ys, e) ↦ inr (x ∷ ys, rw e refl)
]

convert_word-returns :
    (order : ByteOrder) (n : ℕ) (xs : Bytes)
    → (convert_word order n xs ≡ fault) ⊎ ((ys : Bytes) × (convert_word order n xs ≡ ok ys))
unfolding convert_word
convert_word-returns little_endian n xs = swap_word-returns n xs
convert_word-returns big_endian n xs = elim (swap_word-returns n xs) [
  | inl e ↦ inl (rw e refl)
  | inr (ys, e) ↦ inr (xs, rw e refl)
]

unpack_answer-returns :
    (order : ByteOrder) (type : Option ProtocolType) (xs : Bytes)
    → (unpack_answer order type xs ≡ fault) ⊎ ((ys : Bytes) × (unpack_answer order type xs ≡ ok ys))
unfolding unpack_answer
unpack_answer-returns order none xs = inr (xs, refl)
unpack_answer-returns order (some login_ans) xs = convert_word-returns order short_answer xs
unpack_answer-returns order (some register_ans) xs = convert_word-returns order short_answer xs
unpack_answer-returns order (some create_group_conversation_ans) xs =
    convert_word-returns order group_answer xs
unpack_answer-returns order (some join_conversation_ans) xs =
    convert_word-returns order group_answer xs
unpack_answer-returns order (some leave_conversation_ans) xs =
    convert_word-returns order group_answer xs
unpack_answer-returns order (some _) xs = inr (xs, refl)

pub unpack-returns :
    (order : ByteOrder) (t : ℕ) (xs : Bytes)
    → (unpack order (t ∷ xs) ≡ fault)
      ⊎ ((ys : Bytes) × (unpack order (t ∷ xs) ≡ ok (type_of t, ys)))
unfolding unpack load
unpack-returns order t xs = elim (unpack_answer-returns order (type_of t) (t ∷ xs)) [
  | inl e ↦ inl (rw e refl)
  | inr (ys, e) ↦ inr (ys, rw e refl)
]
