-- ===== src/Primes/Check.antt =====
-- GenericHash/GenericHash.c, `CheckIfPrime`: what it accepts.
use chat_project.Prelude.{
  ℕ, zero, suc, ◌+◌, ◌*◌, ◌/◌, ◌%◌, ◌^◌, ◌<◌, ◌≤◌, ◌≡◌, ◌≢◌, ◌↔◌, inl, inr, refl, ap, sym, ◌∙◌,
  arith, Bool, true, false, ok, rem-ok, ◌==◌, leb, Bool-cases,
}
use native.Mathlib.Nat.{div-add-mod, mul-mod_left, mul_comm, mul_assoc}
use chat_project.Primes.{check_if_prime, check_from}

-- No number strictly between 1 and `n` divides `n`; 1 has none either.
abbrev pub HasNoDivisor : ℕ → Type 0
HasNoDivisor n = (d : ℕ) → 1 < d → d < n → n % d ≢ 0

-- the same of the odd numbers from `i` on whose square is at most `n`
abbrev NoSmall : ℕ → ℕ → Type 0
NoSmall n i = (d : ℕ) → i ≤ d → d % 2 ≡ 1 → d * d ≤ n → n % d ≢ 0

square_mono : (i d : ℕ) → i ≤ d → i * i ≤ d * d
square_mono i d h = grind arith

square_bound : (i : ℕ) → i ≤ 2 ^ 31 + 1 → i * i % 2 ^ 64 ≡ i * i
square_bound i h = let b = square_mono i (2 ^ 31 + 1) h in omega arith

NoSmall-past : (n i : ℕ) → n < i * i → NoSmall n i
NoSmall-past n i past d hd odd sq e = absurd (omega (arith, square_mono i d hd))

NoSmall-next : (n i : ℕ) → i % 2 ≡ 1 → n % i ≢ 0 → NoSmall n (i + 2) → NoSmall n i
NoSmall-next n i odd here rest d hd hodd sq = elim (Bool-cases (d == i)) [
  | inl same ↦ let e : d ≡ i = ground arith in rw e here
  | inr ne ↦ rest d (ground arith) hodd sq
]

-- From an odd `i` on, with fuel for the rounds left, the loop decides whether there is no odd
-- divisor up to the square root. Below 2 ^ 31 the square does not wrap.
check_from-ok :
    (fuel n i : ℕ)
    → n < 2 ^ 31
    → i % 2 ≡ 1
    → 2 < i
    → i ≤ n + 2
    → n + 2 < i + fuel
    → (b : Bool) × (check_from fuel n i ≡ ok b) × ((b ≡ true) ↔ NoSmall n i)
unfolding check_from
check_from-ok zero n i small odd big low enough = absurd (omega arith)
check_from-ok (suc fuel) n i small odd big low enough = elim (Bool-cases (leb (i * i) n)) [
  | inr past ↦ (
    true,
    rw (square_bound i (omega arith), past),
    (λ _. NoSmall-past n i (ground arith), λ _. refl),
  )
  | inl more ↦
      let within : i ≤ n = grind arith in
      elim (Bool-cases (n % i == 0)) [
        | inl divides ↦ (
          false,
          rw (square_bound i (omega arith), more, rem-ok n i (omega arith), divides),
          (
            λ h. cc,
            λ none_small. absurd (none_small i (omega arith) odd (ground arith) (ground arith)),
          ),
        )
        | inr spared ↦
            let (b, run, b_iff) =
              check_from-ok fuel n (i + 2) small (omega arith) (omega arith) (omega arith)
                (omega arith) in
            let unwrapped : (i + 2) % 2 ^ 64 ≡ i + 2 = omega arith in
            (
              b,
              rw (square_bound i (omega arith), more, rem-ok n i (omega arith), spared, unwrapped)
                  run,
              (
                λ h. NoSmall-next n i odd (ground arith) (b_iff.0 h),
                λ none_small. b_iff.1 (λ d hd. none_small d (omega arith)),
              ),
            )
      ]
]

odd_factor : (d e : ℕ) → (d * e) % 2 ≡ 1 → e % 2 ≡ 1
odd_factor d e odd = elim (Bool-cases (e % 2 == 1)) [
  | inl yes_odd ↦ ground arith
  | inr even ↦
      let half : e ≡ e / 2 * 2 = ground arith in
      let twice : d * e ≡ d * (e / 2) * 2 = (ap (λ t. d * t) half ∙ sym (mul_assoc d (e / 2) 2)) in
      absurd (omega (arith, mul-mod_left (d * (e / 2)) 2))
]

-- The other factor of an odd product, where the first factor is above the square root.
cofactor :
    (d e : ℕ)
    → (d * e) % 2 ≡ 1
    → 1 < d
    → d < d * e
    → d * e < d * d
    → (2 < e) × (e % 2 ≡ 1) × (e * e ≤ d * e) × ((d * e) % e ≡ 0)
cofactor d e odd big less past =
    let e_odd = odd_factor d e odd in
    let below : e < d = grind arith in
    let above : e ≢ 1 = (λ one. let same : d * e ≡ d = rw one (omega arith) in omega arith) in
    (omega arith, e_odd, grind arith, mul-mod_left d e)

NoSmall-HasNoDivisor : (n : ℕ) → n % 2 ≡ 1 → NoSmall n 3 → HasNoDivisor n
NoSmall-HasNoDivisor n odd none_small d big less divides =
    let e = n / d in
    let split : d * e ≡ n = omega (arith, div-add-mod n d) in
    let d_odd = odd_factor e d (rw (mul_comm e d, split) odd) in
    elim (Bool-cases (leb (d * d) n)) [
      | inl within ↦ none_small d (omega arith) d_odd (ground arith) divides
      | inr past ↦
          let (e_big, e_odd, e_sq, e_div) =
            cofactor d e (rw split odd) big (rw split less) (rw split (ground arith)) in
          none_small e e_big e_odd (rw split at e_sq) (rw split at e_div)
    ]

HasNoDivisor-NoSmall : (n : ℕ) → HasNoDivisor n → NoSmall n 3
HasNoDivisor-NoSmall n h d big odd sq = h d (omega arith) (grind arith)

-- `CheckIfPrime` of a positive number below 2 ^ 31 returns, with as many rounds as the number
-- allows, and accepts it exactly if no number strictly between 1 and it divides it; so it accepts
-- the primes, and also 1.
pub check_if_prime_iff :
    (fuel n : ℕ)
    → 0 < n
    → n < 2 ^ 31
    → n ≤ fuel
    → (b : Bool) × (check_if_prime fuel n ≡ ok b) × ((b ≡ true) ↔ HasNoDivisor n)
unfolding check_if_prime
check_if_prime_iff fuel n positive small enough = elim (Bool-cases (n == 2)) [
  | inl two ↦ (true, rw two, (λ _ d big less. absurd (ground arith), λ _. refl))
  | inr other ↦ elim (Bool-cases (n % 2 == 0)) [
    | inl even ↦ (
      false,
      rw (other, even),
      (λ h. cc, λ h. absurd (h 2 (omega arith) (ground arith) (ground arith))),
    )
    | inr odd ↦
        let n_odd : n % 2 ≡ 1 = ground arith in
        let (b, run, b_iff) =
          check_from-ok fuel n 3 small refl (omega arith) (omega arith) (omega arith) in
        (
          b,
          rw (other, odd) run,
          (λ h. NoSmall-HasNoDivisor n n_odd (b_iff.0 h), λ h. b_iff.1 (HasNoDivisor-NoSmall n h)),
        )
  ]
]
