-- ===== src/HashMap/OnList/Start.antt =====
-- GenericHash/GenericHash.c: the table that `HashMap_Create` makes, in memory.
use chat_project.Prelude.{
  ℕ, zero, suc, ◌<◌, ◌≡◌, refl, ap, none, some, List, ◌∷◌, All, replicate, length-replicate, inl,
}
use chat_project.HashMap.{magic_number}
use chat_project.HashMap.OnList.{Heap}
use chat_project.HashMap.OnList.Foot.{no_foot}
use chat_project.HashMap.OnList.Rows.{Disjoint, Row, pointers, slots_of, InMemory}
use chat_project.HashMap.OnList.Calls.{Represents}

abbrev pub no_rows : (K V : Type 0) → ℕ → List (Row K V)
no_rows K V n = replicate n (record { pointer = none; slot = none; foot = no_foot })

pointers-no_rows : (K V : Type 0) (n : ℕ) → replicate n none ≡ pointers (no_rows K V n)
pointers-no_rows K V zero = refl
pointers-no_rows K V (suc n) = ap (λ p. none ∷ p) (pointers-no_rows K V n)

slots_of-no_rows : (K V : Type 0) (n : ℕ) → replicate n none ≡ slots_of (no_rows K V n)
slots_of-no_rows K V zero = refl
slots_of-no_rows K V (suc n) = ap (λ p. none ∷ p) (slots_of-no_rows K V n)

no_rows-Disjoint :
    (K V : Type 0) (n : ℕ) → All (λ (r : Row K V). Disjoint no_foot r.foot) (no_rows K V n)
no_rows-Disjoint K V zero = tt
no_rows-Disjoint K V (suc n) =
    (record { nodes = λ q. inl tt; items = λ a. inl tt }, no_rows-Disjoint K V n)

module _ {K V : Type 0} where
  no_rows-InMemory : (h : Heap K V) (n : ℕ) → InMemory h (no_rows K V n)
  no_rows-InMemory h zero = tt
  no_rows-InMemory h (suc n) = (refl, no_rows-Disjoint K V n, no_rows-InMemory h n)

  -- A table of NULLs, in any memory, is an empty map.
  pub empty-Represents :
      {M : Type 0} (h : Heap K V) (hash : M → K → ℕ) (equal : M → K → K → ℕ) (capacity n : ℕ)
      → 0 < n
      → Represents
          (record {
            slots = replicate n none;
            alloc_size = n;
            num_of_items = 0;
            hash_func = hash;
            keys_equal_func = equal;
            heap = h;
          })
          (record {
            m_data = some (replicate n none);
            hash_size = capacity;
            alloc_size = n;
            num_of_items = 0;
            magic_num = magic_number;
            hash_func = hash;
            keys_equal_func = equal;
          })
          (no_rows K V n)
  empty-Represents h hash equal capacity n positive = record {
    lists = pointers-no_rows K V n;
    chains = ap some (slots_of-no_rows K V n);
    magic = refl;
    alloc = refl;
    pos = positive;
    width = length-replicate n _;
    count = refl;
    hash = refl;
    equal = refl;
    stored = no_rows-InMemory h n;
  }
