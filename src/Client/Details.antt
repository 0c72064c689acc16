-- ===== src/Client/Details.antt =====
-- Client/Client.c, `CreateUserDetails`: the message that it makes, byte by byte.
use chat_project.Prelude.{
  ℕ, zero, suc, ◌+◌, ◌<◌, ◌≤◌, ◌≡◌, refl, sym, ap, ◌∙◌, arith, true, some, [], ◌∷◌, ◌++◌, ok, ltb,
  Bytes, strcpy-ok, take, drop, length, drop-append, length-append, length-drop,
}
use mathlib.Core.List.{append_assoc}
use chat_project.Client.{put_string, create_user_details, max_field}

-- An array behind a `strcpy` into it: the string, its NUL, and the rest as it was.
abbrev pub written : (s old : Bytes) → Bytes
written s old = s ++ (0 ∷ drop (length s + 1) old)

pub length-written : (s old : Bytes) → length s < length old → length (written s old) ≡ length old
length-written s old fits =
    length-append s (0 ∷ drop (length s + 1) old)
    ∙ omega (arith, length-drop (length s + 1) old, fits)

take-front : (n : ℕ) (front back : Bytes) → n ≡ length front → take n (front ++ back) ≡ front
take-front zero [] back h = refl
take-front zero (x ∷ front) back h = absurd (omega (arith, h))
take-front (suc n) [] back h = absurd (omega (arith, h))
take-front (suc n) (x ∷ front) back h = ap (λ f. x ∷ f) (take-front n front back (omega (arith, h)))

drop-front : (n : ℕ) (old back : Bytes) → n ≤ length old → drop n (old ++ back) ≡ drop n old ++ back
drop-front zero old back h = refl
drop-front (suc n) [] back h = absurd (omega (arith, h))
drop-front (suc n) (x ∷ old) back h = drop-front n old back (omega (arith, h))

-- What stands in front of the array and behind it is kept.
put_string-written :
    (size offset : ℕ) (s front old back : Bytes)
    → offset ≡ length front
    → length old ≡ size
    → length s < size
    → put_string size offset s (front ++ (old ++ back)) ≡ ok (front ++ (written s old ++ back))
unfolding put_string
put_string-written size offset s front old back at wide fits =
    let block = front ++ (old ++ back) in
    let size_of : length block ≡ length front + (length old + length back) =
      length-append front (old ++ back) ∙ ap (λ k. length front + k) (length-append old back) in
    let room : ltb (offset + length s) (length block) ≡ true =
      ground (arith, size_of, at, wide, fits) in
    let before = take-front offset front (old ++ back) at in
    let behind : drop (offset + length s + 1) block ≡ drop (length s + 1) old ++ back =
      (drop-append (offset + length s + 1) (length s + 1) front (old ++ back) (omega (arith, at))
        ∙ drop-front (length s + 1) old back (omega (arith, wide, fits))) in
    let joined : s ++ (0 ∷ (drop (length s + 1) old ++ back)) ≡ written s old ++ back =
      sym (append_assoc s (0 ∷ drop (length s + 1) old) back) in
    rw (strcpy-ok size s fits, room, before, behind) (ap (λ f. ok (front ++ f)) joined)

pub create_user_details-written :
    (t : ℕ) (name psw old_psw old_name rest : Bytes)
    → length old_psw ≡ max_field
    → length old_name ≡ max_field
    → length name < max_field
    → length psw < max_field
    → create_user_details (some (t ∷ (old_psw ++ (old_name ++ rest)))) name psw
      ≡ ok (some (t ∷ (written psw old_psw ++ (written name old_name ++ rest))))
unfolding create_user_details
create_user_details-written t name psw old_psw old_name rest wide_psw wide_name few_name few_psw =
    let named =
      put_string-written max_field 18 name (t ∷ old_psw) old_name rest (omega (arith, wide_psw))
        wide_name few_name in
    let given =
      put_string-written max_field 1 psw (t ∷ []) old_psw (written name old_name ++ rest) refl
        wide_psw few_psw in
    rw (named, given) refl
