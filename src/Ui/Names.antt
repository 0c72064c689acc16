-- ===== src/Ui/Names.antt =====
-- UI/UI.c: how long the names are that the user gives, and that the client's message has room for
-- them.
use chat_project.Prelude.{
  ℕ, zero, suc, ◌≤◌, ◌<◌, ◌≡◌, refl, sym, ◌∙◌, arith, Option, none, some, ◌∷◌, ◌++◌, ok, ◌>>=◌,
  >>=-eq-ok, ltb, if◌then◌else◌, Bytes, length, Bool-cases, inl, inr, Option-cases,
}
use chat_project.Client.{create_user_details, max_field}
use chat_project.Client.Details.{written, length-written, create_user_details-written}
use chat_project.Ui.{Calls, fit_word, read_name, init_name, init_username, init_psw, max_size}

fit_word-fits :
    (room : ℕ) (word : Option Bytes) (s : Bytes) → fit_word room word ≡ ok s → length s < room
unfolding fit_word
fit_word-fits room none s e = ground (arith, e)
fit_word-fits room (some t) s e = ground (arith, e)

module _ {W : Type 0} (calls : Calls W) where
  read_name-next :
      (fuel limit room : ℕ) (w : W) (s : Bytes)
      → fit_word room (calls.scan_word w).0 ≡ ok s
      → read_name calls (suc fuel) limit room w ≡ (
          if ltb limit (length s)
          then read_name calls fuel limit room (calls.scan_word w).1
          else ok (s, (calls.scan_word w).1))
  unfolding read_name
  read_name-next fuel limit room w s e = rw e refl

  read_name-fits :
      (fuel limit room : ℕ) (w w' : W) (s : Bytes)
      → read_name calls fuel limit room w ≡ ok (s, w')
      → (length s ≤ limit) × (length s < room)
  unfolding read_name
  read_name-fits zero limit room w w' s e = ground (arith, e)
  read_name-fits (suc fuel) limit room w w' s e =
      let (t, fits, later) = >>=-eq-ok (fit_word room (calls.scan_word w).0) _ e in
      let small = fit_word-fits room (calls.scan_word w).0 t fits in
      elim (Bool-cases (ltb limit (length t))) [
        | inl long ↦ read_name-fits fuel limit room (calls.scan_word w).1 w' s (rw long at later)
        | inr short ↦ ground (arith, later, short, small)
      ]

  init_name-null :
      (fuel limit : ℕ) (w : W)
      → (calls.malloc 1 w).0 ≡ none
      → init_name calls fuel limit w ≡ ok (none, (calls.malloc 1 w).1)
  unfolding init_name
  init_name-null fuel limit w e = rw (init_name, e) refl

  init_name-block :
      (fuel limit room : ℕ) (w : W)
      → (calls.malloc 1 w).0 ≡ some room
      → init_name calls fuel limit w
        ≡ (read_name calls fuel limit room (calls.malloc 1 w).1 >>= λ (s, w'). ok (some s, w'))
  unfolding init_name
  init_name-block fuel limit room w e = rw (init_name, e) refl

  -- A name that is read has no more characters than are asked for, and with its NUL it is within
  -- the block that `malloc` gave for one byte.
  init_name-fits :
      (fuel limit : ℕ) (w w' : W) (s : Bytes)
      → init_name calls fuel limit w ≡ ok (some s, w')
      → (length s ≤ limit) × ((room : ℕ) × ((calls.malloc 1 w).0 ≡ some room) × (length s < room))
  init_name-fits fuel limit w w' s e = elim (Option-cases (calls.malloc 1 w).0) [
    | inl null ↦ absurd (ground (arith, e, init_name-null fuel limit w null))
    | inr (room, block) ↦
        let ((t, w₂), reads, returns) =
          >>=-eq-ok (read_name calls fuel limit room (calls.malloc 1 w).1) _
            (sym (init_name-block fuel limit room w block) ∙ e) in
        let (few, small) = read_name-fits fuel limit room (calls.malloc 1 w).1 w₂ t reads in
        let same : t ≡ s = ground (arith, returns) in
        (rw (← same) few, (room, block, rw (← same) small))
  ]

-- The name and the password that `RunUI` reads always fit into the message that the client makes of
-- them: in a block of at least the 35 bytes of a `UserDetails`, `CreateUserDetails` writes each
-- into its own field of 17 bytes, with its NUL, and no byte outside these fields, nor one of them
-- behind the NUL, is changed.
pub names_fit :
    {W : Type 0} (calls : Calls W) (fuel : ℕ) (w₀ w₁ w₂ w₃ : W) (t : ℕ)
    (name psw old_psw old_name rest : Bytes)
    → init_username calls fuel w₀ ≡ ok (some name, w₁)
    → init_psw calls fuel w₂ ≡ ok (some psw, w₃)
    → length old_psw ≡ max_field
    → length old_name ≡ max_field
    → (create_user_details (some (t ∷ (old_psw ++ (old_name ++ rest)))) name psw
        ≡ ok (some (t ∷ (written psw old_psw ++ (written name old_name ++ rest)))))
      × (length (written psw old_psw) ≡ max_field)
      × (length (written name old_name) ≡ max_field)
unfolding init_username init_psw
names_fit calls fuel w₀ w₁ w₂ w₃ t name psw old_psw old_name rest e₁ e₂ wide_psw wide_name =
    let (few_name, _) = init_name-fits calls fuel max_size w₀ w₁ name e₁ in
    let (few_psw, _) = init_name-fits calls fuel max_size w₂ w₃ psw e₂ in
    (
      create_user_details-written t name psw old_psw old_name rest wide_psw wide_name
          (omega (arith, few_name)) (omega (arith, few_psw)),
      length-written psw old_psw (omega (arith, few_psw, wide_psw)) ∙ wide_psw,
      length-written name old_name (omega (arith, few_name, wide_name)) ∙ wide_name,
    )
