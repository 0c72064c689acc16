-- ===== src/Buffer/Keys.antt =====
-- ServerDB/DataBase.c: the callbacks meet what a hash map asks of them while the buffer stays as it
-- is. What two pointers into the buffer have in common.
use chat_project.Prelude.{
  ℕ, zero, suc, ◌≡◌, ◌≢◌, refl, sym, ◌∙◌, arith, false, [], ◌∷◌, Bytes, until_nul, str_equal,
  str_equal_refl, str_equal_sound, str_equal-cons_self, ◌==◌, Bool-cases, inl, inr,
}
use chat_project.HashMap.View.{KeyFuncs}
use chat_project.Buffer.{CharPtr, received, c_string, hash_function, equality_function}

pub equality_function-one :
    (buffer : Bytes) (a b : CharPtr)
    → equality_function buffer a b ≡ 1
    → c_string buffer a ≡ c_string buffer b
unfolding equality_function
equality_function-one buffer a b h =
    elim (Bool-cases (str_equal (c_string buffer a) (c_string buffer b))) [
      | inl same ↦ str_equal_sound _ _ same
      | inr differ ↦ ground (arith, differ)
    ]

pub equality_function_of_eq :
    (buffer : Bytes) (a b : CharPtr)
    → c_string buffer a ≡ c_string buffer b
    → equality_function buffer a b ≡ 1
unfolding equality_function
equality_function_of_eq buffer a b e = rw (e, str_equal_refl)

-- At one state of the buffer the two callbacks are an equivalence and a hash that respects it.
pub callbacks-KeyFuncs : (buffer : Bytes) → KeyFuncs hash_function equality_function buffer
unfolding hash_function
callbacks-KeyFuncs buffer = record {
  equal_refl = λ a. equality_function_of_eq buffer a a refl;
  equal_symm =
      λ a b h. equality_function_of_eq buffer b a (sym (equality_function-one buffer a b h));
  equal_trans = λ a b c h k.
      equality_function_of_eq buffer a c
        (equality_function-one buffer a b h ∙ equality_function-one buffer b c k);
  hash-equal = λ a b h. rw (equality_function-one buffer a b h);
}

str_equal-nil : (s : Bytes) → s ≢ [] → str_equal [] s ≡ false
unfolding str_equal
str_equal-nil [] h = absurd (h refl)
str_equal-nil (b ∷ s) h = refl

-- The string that begins at `n` and the one that begins a byte later are equal only if the later
-- one is empty.
pub next_string :
    (buffer : Bytes) (n : ℕ)
    → c_string buffer (received (suc n)) ≢ []
    → equality_function buffer (received n) (received (suc n)) ≡ 0
unfolding equality_function c_string
next_string [] zero h = absurd (h refl)
next_string (b ∷ bs) zero h = elim (Bool-cases (b == 0)) [
  | inl nul ↦ rw nul (rw (str_equal-nil (until_nul bs) h) refl)
  | inr char ↦ rw (char, until_nul) (rw str_equal-cons_self refl)
]
next_string [] (suc n) h = absurd (h refl)
next_string (b ∷ bs) (suc n) h = next_string bs n h
