-- ===== src/Ui/Menu.antt =====
-- UI/UI.c: the menu is never left.
use chat_project.Prelude.{
  ℕ, zero, suc, ◌≡◌, ◌≢◌, refl, sym, ◌∙◌, arith, Bool, true, false, Option, none, some, ok, fault,
  ◌>>=◌, >>=-eq-ok, Bytes, Option-cases, inl, inr,
}
use chat_project.Ui.{Calls, number_or_old, choose, menu, enter, run_ui}

module _ {W : Type 0} (calls : Calls W) where
  menu-unset :
      (fuel : ℕ) (choice : Option ℕ) (user : Option Bytes) (w : W)
      → number_or_old choice (calls.scan_number w).0 ≡ none
      → menu calls (suc fuel) choice user w ≡ fault
  unfolding menu
  menu-unset fuel choice user w e = rw (menu, e) refl

  menu-chosen :
      (fuel c : ℕ) (choice : Option ℕ) (user : Option Bytes) (w : W)
      → number_or_old choice (calls.scan_number w).0 ≡ some c
      → menu calls (suc fuel) choice user w ≡ (
          choose calls fuel c user (calls.scan_number w).1 >>= λ (_, w').
          menu calls fuel (some c) user w')
  unfolding menu
  menu-chosen fuel c choice user w e = rw (menu, e) refl

  menu-ne-ok :
      (fuel : ℕ) (choice : Option ℕ) (user : Option Bytes) (w : W) (r : ℕ)
      → menu calls fuel choice user w ≢ ok r
  unfolding menu
  menu-ne-ok zero choice user w r e = ground (arith, e)
  menu-ne-ok (suc fuel) choice user w r e =
      elim (Option-cases (number_or_old choice (calls.scan_number w).0)) [
        | inl unset ↦ ground (arith, e, menu-unset fuel choice user w unset)
        | inr (c, chosen) ↦
            let ((_, w'), _, later) =
              >>=-eq-ok (choose calls fuel c user (calls.scan_number w).1) _
                (sym (menu-chosen fuel c choice user w chosen) ∙ e) in
            menu-ne-ok fuel (some c) user w' r later
      ]

  -- `RunUI` returns only where it is given no interface, and then it returns 0; with an interface
  -- it does not return, whatever the user enters and the client library answers.
  run_ui-returns :
      (fuel : ℕ) (given : Bool) (w : W) (r : ℕ)
      → run_ui calls fuel given w ≡ ok r
      → (given ≡ false) × (r ≡ 0)
  unfolding run_ui
  run_ui-returns fuel false w r e = (refl, ground (arith, e))
  run_ui-returns fuel true w r e =
      let ((user, w₁), _, later) = >>=-eq-ok (enter calls fuel 5 w) _ e in
      absurd (menu-ne-ok fuel none user w₁ r later)
