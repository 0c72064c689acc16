-- ===== src/Primes.antt =====
-- GenericHash/GenericHash.c, `CheckIfPrime` and `FindPrimeLargerThan`: the size of a hash table.
-- The loops take fuel.
pub mod Check
pub mod Find
mod Tests
use chat_project.Prelude.{
  ℕ, zero, suc, ◌+◌, ◌*◌, ◌%◌, ◌^◌, Bool, true, false, not, Run, ok, out_of_fuel, ◌>>=◌, rem, ◌==◌,
  leb, if◌then◌else◌,
}

-- the loop of `CheckIfPrime` from `i` on; `i * i` is a product of `size_t`
check_from : (fuel : ℕ) → (n i : ℕ) → Run Bool
check_from zero n i = out_of_fuel
check_from (suc fuel) n i =
    let rest = check_from fuel n ((i + 2) % 2 ^ 64) in
    if not (leb (i * i % 2 ^ 64) n)
    then ok true
    else (rem n i >>= (λ r. if r == 0 then ok false else rest))

-- `CheckIfPrime`
unfoldable pub check_if_prime : (fuel : ℕ) → ℕ → Run Bool
unfolding check_from
check_if_prime fuel n =
    if n == 2 then ok true else if n % 2 == 0 then ok false else check_from fuel n 3

-- `FindPrimeLargerThan`; each test has the fuel `tests`
unfoldable pub find_prime_larger_than : (tests fuel : ℕ) → ℕ → Run ℕ
find_prime_larger_than tests zero n = out_of_fuel
find_prime_larger_than tests (suc fuel) n =
    let rest = find_prime_larger_than tests fuel ((n + 1) % 2 ^ 64) in
    check_if_prime tests n >>= (λ prime. if prime then ok n else rest)
