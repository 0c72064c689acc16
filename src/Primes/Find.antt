-- ===== src/Primes/Find.antt =====
-- GenericHash/GenericHash.c, `FindPrimeLargerThan`: the first number that `CheckIfPrime` accepts.
use chat_project.Prelude.{
  ℕ, zero, suc, ◌+◌, ◌%◌, ◌^◌, ◌<◌, ◌≤◌, ◌≡◌, inl, inr, arith, ok, ◌==◌, Bool-cases,
}
use chat_project.Primes.{find_prime_larger_than}
use chat_project.Primes.Check.{HasNoDivisor, check_if_prime_iff}

-- `q` is the least number from `n` on that has no divisor.
pub record IsNext (n q : ℕ) : Type 0 where
  pub from_n : n ≤ q
  pub prime : HasNoDivisor q
  pub least : (m : ℕ) → n ≤ m → m < q → ¬ HasNoDivisor m

-- Where there is a number without divisors at or above a positive `n`, below 2 ^ 31 and within
-- reach of the fuel, `FindPrimeLargerThan` returns the least one. It may be `n` itself, so it is
-- not always larger.
pub find_prime_larger_than-IsNext :
    (tests fuel n p : ℕ)
    → 0 < n
    → n ≤ p
    → HasNoDivisor p
    → p < 2 ^ 31
    → p ≤ tests
    → p < n + fuel
    → (q : ℕ) × (find_prime_larger_than tests fuel n ≡ ok q) × IsNext n q × (q ≤ p)
unfolding find_prime_larger_than
find_prime_larger_than-IsNext tests zero n p positive below prime small test_fuel fuel =
    absurd (omega arith)
find_prime_larger_than-IsNext tests (suc fuel) n p positive below prime small test_fuel enough =
    let (b, run, b_iff) = check_if_prime_iff tests n positive (omega arith) (omega arith) in
    elim (Bool-cases b) [
      | inl accepted ↦ (
        n,
        rw (run, accepted),
        record { from_n = omega arith; prime = b_iff.0 accepted; least = λ m lo hi. omega arith },
        below,
      )
      | inr refused ↦
          let composite : ¬ HasNoDivisor n = (λ h. let t = b_iff.1 h in cc) in
          let above : n < p = elim (Bool-cases (n == p)) [
            | inl same ↦ let e : n ≡ p = ground arith in absurd (composite (rw e prime))
            | inr differ ↦ ground arith
          ] in
          let (q, found, next, q_le) =
            find_prime_larger_than-IsNext tests fuel (n + 1) p (omega arith) (omega arith) prime
              small test_fuel (omega arith) in
          let unwrapped : (n + 1) % 2 ^ 64 ≡ n + 1 = omega arith in
          (
            q,
            rw (run, refused, unwrapped) found,
            record {
              from_n = omega (arith, next.from_n);
              prime = next.prime;
              least = λ m lo hi. elim (Bool-cases (m == n)) [
                | inl same ↦ let e : m ≡ n = ground arith in rw e composite
                | inr differ ↦ next.least m (ground arith) hi
              ];
            },
            q_le,
          )
    ]
