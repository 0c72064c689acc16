-- ===== src/Primes/Tests.antt =====
-- The search for primes at concrete inputs.
use chat_project.Prelude.{ℕ, ◌≤◌, ◌≡◌, ◌↔◌, refl, sym, ◌∙◌, rem, arith, Bool, true, ok}
use chat_project.Primes.{check_if_prime, find_prime_larger_than}
use chat_project.Primes.Check.{HasNoDivisor, check_if_prime_iff}
use chat_project.Primes.Find.{IsNext, find_prime_larger_than-IsNext}

check_if_prime_iff_example :
    (b : Bool) × (check_if_prime 100 91 ≡ ok b) × ((b ≡ true) ↔ HasNoDivisor 91)
check_if_prime_iff_example = check_if_prime_iff 100 91 (omega arith) (omega arith) (omega arith)

eleven_passes : check_if_prime 100 11 ≡ ok true
unfolding check_if_prime rem
eleven_passes = refl

eleven-HasNoDivisor : HasNoDivisor 11
eleven-HasNoDivisor =
    let (b, e, accepts) = check_if_prime_iff 100 11 (omega arith) (omega arith) (omega arith) in
    let accepted : ok b ≡ ok true = sym e ∙ eleven_passes in accepts.0 (cc)

find_prime_larger_than-IsNext_example :
    (q : ℕ) × (find_prime_larger_than 20 20 8 ≡ ok q) × IsNext 8 q × (q ≤ 11)
find_prime_larger_than-IsNext_example =
    find_prime_larger_than-IsNext 20 20 8 11 (omega arith) (omega arith) eleven-HasNoDivisor
      (omega arith) (omega arith) (omega arith)
