-- ===== src/HashMap/Create.antt =====
-- GenericHash/GenericHash.c: what `HashMap_Create` gives.
use chat_project.Prelude.{
  ℕ, zero, suc, ◌+◌, ◌%◌, ◌^◌, ◌<◌, ◌≤◌, ◌≡◌, refl, arith, none, some, List, [], ok, live,
  length-replicate, replicate,
}
use chat_project.HashMap.{HashMap, Slot, magic_number, map_made, create}
use chat_project.HashMap.Chain.{count, value_of}
use chat_project.HashMap.View.{IsMap, view, total, chain_at}
use chat_project.Primes.Check.{HasNoDivisor}
use chat_project.Primes.Find.{find_prime_larger_than-IsNext}

abbrev no_items : (K V : Type 0) → ℕ → List (Slot K V)
no_items K V n = replicate n none

chain_at-no_items : (K V : Type 0) (n i : ℕ) → chain_at (no_items K V n) i ≡ []
chain_at-no_items K V zero i = refl
chain_at-no_items K V (suc n) zero = refl
chain_at-no_items K V (suc n) (suc i) = chain_at-no_items K V n i

total-no_items : (K V : Type 0) (n : ℕ) → total (no_items K V n) ≡ 0
unfolding total
total-no_items K V zero = refl
total-no_items K V (suc n) = omega (arith, total-no_items K V n)

-- Where there is a number without divisors at or above the capacity, below 2 ^ 31 and within reach
-- of the fuel, `HashMap_Create`, with memory, gives a map that has nothing under any key, with a
-- table of at least that capacity.
pub create-IsMap :
    {M K V : Type 0} (mem : M) (hash : M → K → ℕ) (equal : M → K → K → ℕ) (fuel capacity p : ℕ)
    → 0 < capacity
    → capacity ≤ p
    → HasNoDivisor p
    → p < 2 ^ 31
    → p ≤ fuel
    → p < capacity + fuel
    → (map : HashMap M K V) × (slots : List (Slot K V)) × (create fuel map_made capacity
          (some hash)
          (some equal)
        ≡ ok (live map))
      × IsMap mem map slots
      × ((q : K) → view mem map slots q ≡ none)
      × (capacity ≤ map.alloc_size)
unfolding create value_of count
create-IsMap {M = M} {K = K} {V = V} mem hash equal fuel capacity p positive above prime small
      enough reach =
    let (n, found, next, _) =
      find_prime_larger_than-IsNext fuel fuel capacity p positive above prime small enough reach in
    let least : capacity ≤ n = next.from_n in
    let map : HashMap M K V = record {
      m_data = some (no_items K V n);
      hash_size = capacity;
      alloc_size = n;
      num_of_items = 0;
      magic_num = magic_number;
      hash_func = hash;
      keys_equal_func = equal;
    } in
    (
      map,
      no_items K V n,
      ground (arith, positive, found),
      record {
        at = refl;
        magic = refl;
        width = length-replicate n none;
        pos = omega arith;
        counted = rw (total-no_items K V n) refl;
        once = λ q i. rw (chain_at-no_items K V n i) (omega arith);
        placed = λ q i away. rw (chain_at-no_items K V n i) refl;
      },
      (λ q. rw (chain_at-no_items K V n (hash mem q % n)) refl),
      least,
    )
