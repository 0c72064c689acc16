-- ===== src/Prelude/CString.antt =====
-- C strings: the bytes before the terminating NUL.
use Prim.Native.Nat.{ℕ, ◌<◌}
use Prim.Native.Char.{code}
use Prim.Native.String.{String}
use mathlib.Core.Path.{◌≡◌, refl}
use mathlib.Core.Logic.{inl, inr}
use mathlib.Core.Bool.{Bool, true, false, ◌&&◌}
use mathlib.Core.List.{List, [], ◌∷◌, ◌++◌}
use native.Mathlib.Omega.{arith}
use chat_project.Prelude.Tests.{◌==◌, ltb, if◌then◌else◌, Bool-cases}
use chat_project.Prelude.Lists.{length}
use chat_project.Prelude.Outcome.{Run, ok, fault}

abbrev pub Bytes : Type 0
Bytes = List ℕ

-- The bytes of a literal.
abbrev pub codes : String → Bytes
codes String.[] = []
codes (String.◌∷◌ c s) = code c ∷ codes s

-- The string that begins where these bytes do; the end of the object ends it too.
unfoldable pub until_nul : Bytes → Bytes
until_nul [] = []
until_nul (b ∷ bs) = if b == 0 then [] else b ∷ until_nul bs

-- `strcmp(s, t) == 0`
unfoldable pub str_equal : Bytes → Bytes → Bool
str_equal [] [] = true
str_equal [] (_ ∷ _) = false
str_equal (_ ∷ _) [] = false
str_equal (a ∷ s) (b ∷ t) = (a == b) && str_equal s t

-- `strcpy(dst, s)` into an array of `size` bytes: the string and its NUL have to fit.
unfoldable pub strcpy : ℕ → Bytes → Run Bytes
strcpy size s = if ltb (length s) size then ok s else fault

pub str_equal_refl : (s : Bytes) → str_equal s s ≡ true
unfolding str_equal
str_equal_refl [] = refl
str_equal_refl (a ∷ s) = ground (arith, str_equal_refl s)

pub str_equal_sound : (s t : Bytes) → str_equal s t ≡ true → s ≡ t
unfolding str_equal
str_equal_sound [] [] h = refl
str_equal_sound [] (_ ∷ _) h = ground arith
str_equal_sound (_ ∷ _) [] h = ground arith
str_equal_sound (a ∷ s) (b ∷ t) h = ground (arith, str_equal_sound s t)

pub strcpy-ok : (size : ℕ) (s : Bytes) → length s < size → strcpy size s ≡ ok s
unfolding strcpy
strcpy-ok size s h = ground arith

-- No string equals the one that begins a byte later, unless both are empty.
pub str_equal-cons_self : (a : ℕ) (s : Bytes) → str_equal (a ∷ s) s ≡ false
unfolding str_equal
str_equal-cons_self a [] = refl
str_equal-cons_self a (b ∷ s) = ground (arith, str_equal-cons_self b s)

-- A string with its NUL, whatever stands behind that.
pub until_nul-append : (s rest : Bytes) → until_nul s ≡ s → until_nul (s ++ 0 ∷ rest) ≡ s
unfolding until_nul
until_nul-append [] rest h = refl
until_nul-append (b ∷ s) rest h = elim (Bool-cases (b == 0)) [
  | inl nul ↦ ground (arith, h, nul)
  | inr char ↦
      let h' = rw (char) at h in
      let same : until_nul s ≡ s = ground (arith, h') in
      rw (char, until_nul-append s rest same) refl
]
