-- ===== src/HashMap/Chain.antt =====
-- GenericHash/GenericHash.c: the loop over one chain, and the writes to it.
use chat_project.Prelude.{
  ℕ, ◌+◌, ◌≤◌, ◌≡◌, inl, inr, refl, arith, false, Option, none, some, List, [], ◌∷◌, ◌==◌, length,
  if◌then◌else◌, Bool-cases,
}
use chat_project.HashMap.{DataItem, find_item, remove_item}

module _ {K V : Type 0} where
  -- how many items of the chain have a key that the test accepts
  unfoldable pub count : (K → ℕ) → List (DataItem K V) → ℕ
  count same [] = 0
  count same (d ∷ chain) = (if same d.key == 1 then 1 else 0) + count same chain

  -- The value that the loop finds.
  unfoldable pub value_of : (K → ℕ) → List (DataItem K V) → Option V
  value_of same [] = none
  value_of same (d ∷ chain) = if same d.key == 1 then some d.value else value_of same chain

  pub find_item-none :
      (same : K → ℕ) (chain : List (DataItem K V))
      → find_item same chain ≡ none
      → (value_of same chain ≡ none) × (count same chain ≡ 0)
  unfolding find_item value_of count
  find_item-none same [] h = (refl, refl)
  find_item-none same (d ∷ chain) h = ground (arith, find_item-none same chain)

  pub find_item-some :
      (same : K → ℕ) (chain : List (DataItem K V)) (d : DataItem K V)
      → find_item same chain ≡ some d
      → (value_of same chain ≡ some d.value)
        × (same d.key ≡ 1)
        × (length (remove_item same chain) + 1 ≡ length chain)
  unfolding find_item value_of remove_item
  find_item-some same [] d h = ground arith
  find_item-some same (c ∷ chain) d h = ground (arith, find_item-some same chain d)

  pub value_of-none :
      (same : K → ℕ) (chain : List (DataItem K V))
      → count same chain ≡ 0
      → value_of same chain ≡ none
  unfolding value_of count
  value_of-none same [] h = refl
  value_of-none same (d ∷ chain) h = ground (arith, value_of-none same chain)

  -- Two tests that accept the same keys count alike.
  pub count_congr :
      (same other : K → ℕ) (chain : List (DataItem K V))
      → ((k : K) → (same k == 1) ≡ (other k == 1))
      → (count same chain ≡ count other chain) × (value_of same chain ≡ value_of other chain)
  unfolding count value_of
  count_congr same other [] h = (refl, refl)
  count_congr same other (d ∷ chain) h =
      let (c, v) = count_congr same other chain h in ground (arith, h d.key)

  -- Taking out the first item that `same` accepts leaves what another test sees alone, if no key
  -- is accepted by both.
  pub remove_item-apart :
      (same other : K → ℕ) (chain : List (DataItem K V))
      → ((k : K) → same k ≡ 1 → (other k == 1) ≡ false)
      → (count other (remove_item same chain) ≡ count other chain)
        × (value_of other (remove_item same chain) ≡ value_of other chain)
  unfolding count value_of remove_item
  remove_item-apart same other [] h = (refl, refl)
  remove_item-apart same other (d ∷ chain) h =
      let (c, v) = remove_item-apart same other chain h in
      elim (Bool-cases (same d.key == 1)) [
        | inl hit ↦ let miss = h d.key (ground arith) in rw (hit, miss) (omega arith, refl)
        | inr miss ↦ rw miss (omega arith, rw v)
      ]

  -- and if it accepts at most one item, none is left that it accepts
  pub remove_item-count :
      (same : K → ℕ) (chain : List (DataItem K V))
      → count same chain ≤ 1
      → count same (remove_item same chain) ≡ 0
  unfolding count remove_item
  remove_item-count same [] h = refl
  remove_item-count same (d ∷ chain) h = ground (arith, remove_item-count same chain)
