-- ===== src/Ui/Entry.antt =====
-- UI/UI.c: how a user comes to the menu.
use chat_project.Prelude.{
  ℕ, zero, suc, not, ◌≡◌, ◌≢◌, refl, ◌∙◌, arith, Bool, true, false, Option, none, some, Run, ok,
  ◌>>=◌, >>=-eq-ok, ◌==◌, ◌&&◌, if◌then◌else◌, Bytes, Bool-cases, ◌⊎◌, inl, inr,
}
use mathlib.Core.Path.{subst}
use chat_project.Client.{ClientErr, client_success, client_fail}
use chat_project.Ui.{
  Calls, number_or, login_accepted, register_accepted, first_answer, init_username, init_psw,
  register_option, login_option, register_and_ask, round, enter, registered_op, login_op,
}

login_accepted-success :
    (err : Option ClientErr) → login_accepted err ≡ true → err ≡ some client_success
unfolding login_accepted
login_accepted-success none e = ground (arith, e)
login_accepted-success (some client_success) e = refl
login_accepted-success (some _) e = ground (arith, e)

register_accepted-not_fail : (err : ClientErr) → register_accepted err ≡ true → err ≢ client_fail
unfolding register_accepted
register_accepted-not_fail err e same =
    let refused : register_accepted err ≡ false = rw same refl in ground (arith, e, refused)

module _ {W : Type 0} (calls : Calls W) where
  -- the last thing before the menu was a login of the user that succeeded
  abbrev pub LoggedIn : (user : Option Bytes) → W → Type 0
  LoggedIn user w =
      (psw : Option Bytes) × (w₀ : W) × (calls.log_in user psw w₀ ≡ ok (some client_success, w))

  -- or a registration of the user that was not refused, and an answer other than 1 to the question
  -- whether to log in
  abbrev pub RegisteredOnly : (user : Option Bytes) → W → Type 0
  RegisteredOnly user w =
      (psw : Option Bytes) × (err : ClientErr) × (w₀ : W) × (w₁ : W) × (calls.register user psw w₀
        ≡ ok (err, w₁))
      × (err ≢ client_fail)
      × ((number_or registered_op (calls.scan_number w₁).0 == login_op) ≡ false)
      × ((calls.scan_number w₁).1 ≡ w)

  login_option-success :
      (name psw : Option Bytes) (w w' : W)
      → login_option calls name psw w ≡ ok (true, w')
      → calls.log_in name psw w ≡ ok (some client_success, w')
  unfolding login_option
  login_option-success name psw w w' e =
      let ((err, w₁), called, returns) = >>=-eq-ok (calls.log_in name psw w) _ e in
      let accepted : login_accepted err ≡ true = cc in
      let same : w₁ ≡ w' = cc in
      let success = login_accepted-success err accepted in called ∙ (λ i. ok (success i, same i))

  register_option-not_refused :
      (name psw : Option Bytes) (w w' : W)
      → register_option calls name psw w ≡ ok (true, w')
      → (err : ClientErr) × (calls.register name psw w ≡ ok (err, w')) × (err ≢ client_fail)
  unfolding register_option
  register_option-not_refused name psw w w' e =
      let ((err, w₁), called, returns) = >>=-eq-ok (calls.register name psw w) _ e in
      let accepted : register_accepted err ≡ true = cc in
      let same : w₁ ≡ w' = cc in
      (err, called ∙ (λ i. ok (err, same i)), register_accepted-not_fail err accepted)

  register_and_ask-on :
      (name psw : Option Bytes) (answer second : ℕ) (w w' : W)
      → register_and_ask calls name psw answer w ≡ ok (true, second, w')
      → (w₁ : W) × (register_option calls name psw w ≡ ok (true, w₁))
        × (second ≡ number_or answer (calls.scan_number w₁).0)
        × ((calls.scan_number w₁).1 ≡ w')
  unfolding register_and_ask
  register_and_ask-on name psw answer second w w' e =
      let ((on, w₁), called, returns) = >>=-eq-ok (register_option calls name psw w) _ e in
      elim (Bool-cases on) [
        | inl yes_on ↦
            let done = rw yes_on at returns in (w₁, called ∙ (λ i. ok (yes_on i, w₁)), cc, cc)
        | inr stop ↦ let done = rw stop at returns in absurd (ground arith)
      ]

  first_answer-next :
      (fuel answer : ℕ) (w : W)
      → (let a = number_or answer (calls.scan_number w).0 in
          first_answer calls (suc fuel) answer w ≡ (
            if not (a == registered_op) && not (a == login_op)
            then first_answer calls fuel a (calls.scan_number w).1
            else ok (a, (calls.scan_number w).1)))
  unfolding first_answer
  first_answer-next fuel answer w = refl

  -- The first answer is one of the two options.
  first_answer-option :
      (fuel answer first : ℕ) (w w' : W)
      → first_answer calls fuel answer w ≡ ok (first, w')
      → (first == registered_op) ≡ false
      → (first == login_op) ≡ true
  unfolding first_answer
  first_answer-option zero answer first w w' e other = ground (arith, e)
  first_answer-option (suc fuel) answer first w w' e other =
      let a = number_or answer (calls.scan_number w).0 in
      elim (Bool-cases (not (a == registered_op) && not (a == login_op))) [
        | inl again ↦
            first_answer-option fuel a first (calls.scan_number w).1 w' (rw again at e) other
        | inr option ↦
            let done = rw option at e in
            let same : a ≡ first = ground (arith, done) in ground (arith, option, other, same)
      ]

  -- The login at the end of a round.
  round-login :
      (on : Bool) (second : ℕ) (name psw : Option Bytes) (w w' : W)
      → (if on && second == login_op then login_option calls name psw w else ok (on, w))
        ≡ ok (true, w')
      → LoggedIn name w' ⊎ ((on ≡ true) × ((second == login_op) ≡ false) × (w ≡ w'))
  round-login false second name psw w w' e = ground (arith, e)
  round-login true second name psw w w' e = elim (Bool-cases (second == login_op)) [
    | inl login ↦ inl (psw, w, login_option-success name psw w w' (rw login at e))
    | inr other ↦ let done = rw other at e in inr (refl, other, cc)
  ]

  round-register :
      (first second : ℕ) (name psw : Option Bytes) (w w' : W)
      → (if first == registered_op
          then register_and_ask calls name psw first w
          else ok (true, first, w))
        ≡ ok (true, second, w')
      → ((first == registered_op) ≡ false → (first == login_op) ≡ true)
      → (second == login_op) ≡ false
      → RegisteredOnly name w'
  round-register first second name psw w w' e options other =
      elim (Bool-cases (first == registered_op)) [
        | inl register ↦
            let (w₁, registered, asked, same) =
              register_and_ask-on name psw first second w w' (rw register at e) in
            let (err, called, accepted) = register_option-not_refused name psw w w₁ registered in
            let zero_first : first ≡ registered_op = ground (arith, register) in
            let answer =
              subst (λ f. second ≡ number_or f (calls.scan_number w₁).0) zero_first asked in
            (psw, err, w, w₁, called, accepted, rw (← answer) other, same)
        | inr login ↦
            let done = rw login at e in
            let same : first ≡ second = ground (arith, done) in
            absurd (ground (arith, options login, other, same))
      ]

  result-parts :
      (i j : Bool) (m n : Option Bytes) (a b : ℕ) (w w' : W)
      → ◌≡◌ {A = Run (Bool × Option Bytes × ℕ × W)} (ok (i, m, a, w)) (ok (j, n, b, w'))
      → (i ≡ j) × (m ≡ n) × (w ≡ w')
  result-parts i j m n a b w w' e = (cc, cc, cc)

  round-inside :
      (fuel answer second : ℕ) (name : Option Bytes) (w w' : W)
      → round calls fuel answer w ≡ ok (true, name, second, w')
      → LoggedIn name w' ⊎ RegisteredOnly name w'
  unfolding round
  round-inside fuel answer second name w w' e =
      let ((first, w₁), asked, e₁) = >>=-eq-ok (first_answer calls fuel answer w) _ e in
      let ((name₂, w₂), named, e₂) = >>=-eq-ok (init_username calls fuel w₁) _ e₁ in
      let ((psw, w₃), read, e₃) = >>=-eq-ok (init_psw calls fuel w₂) _ e₂ in
      let ((on, second₄, w₄), gone, e₄) =
        >>=-eq-ok
          (if first == registered_op
            then register_and_ask calls name₂ psw first w₃
            else ok (true, first, w₃))
          _ e₃ in
      let ((inside, w₅), logged, e₅) =
        >>=-eq-ok
          (if on && second₄ == login_op then login_option calls name₂ psw w₄ else ok (on, w₄)) _
          e₄ in
      let (yes_inside, same_name, same_w) =
        result-parts inside true name₂ name second₄ second w₅ w' e₅ in
      let way =
        round-login on second₄ name₂ psw w₄ w' (logged ∙ (λ i. ok (yes_inside i, same_w i))) in
      elim way [
        | inl login ↦ inl (subst (λ n. LoggedIn n w') same_name login)
        | inr (is_on, other, same) ↦ inr (
            subst (λ n. RegisteredOnly n w') same_name
              (round-register first second₄ name₂ psw w₃ w'
                (gone ∙ (λ i. ok (is_on i, second₄, same i)))
                (first_answer-option fuel answer first w w₁ asked) other))
      ]

  enter-next :
      (fuel answer : ℕ) (w : W)
      → enter calls (suc fuel) answer w ≡ (
          round calls fuel answer w >>= λ (inside, name, a, w₁).
          if inside then ok (name, w₁) else enter calls fuel a w₁)
  unfolding enter
  enter-next fuel answer w = refl

  -- A user comes to the menu of `RunUI` only by a login under that name that succeeds, or by a
  -- registration under that name that is not refused, followed by an answer other than 1, or none
  -- that is a number, to the question whether to log in; nothing is done between that and the menu.
  pub enter-guarded :
      (fuel answer : ℕ) (name : Option Bytes) (w w' : W)
      → enter calls fuel answer w ≡ ok (name, w')
      → LoggedIn name w' ⊎ RegisteredOnly name w'
  unfolding enter
  enter-guarded zero answer name w w' e = ground (arith, e)
  enter-guarded (suc fuel) answer name w w' e =
      let ((inside, name₁, a, w₁), went, later) = >>=-eq-ok (round calls fuel answer w) _ e in
      elim (Bool-cases inside) [
        | inl yes_inside ↦
            let done = rw yes_inside at later in
            let same_name : name₁ ≡ name = cc in
            let same_w : w₁ ≡ w' = cc in
            round-inside fuel answer a name w w'
              (went ∙ (λ i. ok (yes_inside i, same_name i, a, same_w i)))
        | inr out ↦ enter-guarded fuel a name w₁ w' (rw out at later)
      ]
