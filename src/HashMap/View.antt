-- ===== src/HashMap/View.antt =====
-- GenericHash/GenericHash.c: what a map stands for while the memory that its keys point to stays
-- as it is, and what one write to one chain does to that.
use chat_project.Prelude.{
  ℕ, zero, suc, ◌+◌, ◌-◌, ◌%◌, ◌^◌, ◌<◌, ◌≤◌, ◌≡◌, refl, ap, arith, false, Option, none, some, List,
  [], ◌∷◌, ok, load, rem-ok, load-ok, ◌==◌, length, get_elem?, get_or, set, length-set,
  if◌then◌else◌,
}
use chat_project.HashMap.{HashMap, DataItem, Slot, magic_number, valid_data, index_of}
use chat_project.HashMap.Chain.{count, value_of}

-- What a hash map asks of its callbacks, at one state of the memory.
pub record KeyFuncs {M K : Type 0} (hash : M → K → ℕ) (equal : M → K → K → ℕ) (mem : M)
    : Type 0 where
  pub equal_refl : (a : K) → equal mem a a ≡ 1
  pub equal_symm : (a b : K) → equal mem a b ≡ 1 → equal mem b a ≡ 1
  pub equal_trans : (a b c : K) → equal mem a b ≡ 1 → equal mem b c ≡ 1 → equal mem a c ≡ 1
  pub hash-equal : (a b : K) → equal mem a b ≡ 1 → hash mem a ≡ hash mem b

module _ {K V : Type 0} where
  -- the items behind one pointer of the table
  abbrev pub items : Slot K V → List (DataItem K V)
  items none = []
  items (some chain) = chain

  abbrev pub chain_at : List (Slot K V) → ℕ → List (DataItem K V)
  chain_at slots i = items (get_or slots i none)

  -- how many items the table holds
  unfoldable pub total : List (Slot K V) → ℕ
  total [] = 0
  total (s ∷ slots) = length (items s) + total slots

  pub get_elem?-chain_at :
      (slots : List (Slot K V)) (i : ℕ)
      → i < length slots
      → get_elem? slots i ≡ some (get_or slots i none)
  get_elem?-chain_at [] i h = elim h [ ]
  get_elem?-chain_at (s ∷ slots) zero h = refl
  get_elem?-chain_at (s ∷ slots) (suc i) h = get_elem?-chain_at slots i (omega arith)

  pub chain_at-set :
      (slots : List (Slot K V)) (i j : ℕ) (chain : List (DataItem K V))
      → i < length slots
      → chain_at (set slots i (some chain)) j ≡ (if i == j then chain else chain_at slots j)
  chain_at-set [] i j chain h = elim h [ ]
  chain_at-set (s ∷ slots) zero zero chain h = refl
  chain_at-set (s ∷ slots) zero (suc j) chain h = ground arith
  chain_at-set (s ∷ slots) (suc i) zero chain h = ground arith
  chain_at-set (s ∷ slots) (suc i) (suc j) chain h = ground (arith, chain_at-set slots i j chain)

  pub total-set :
      (slots : List (Slot K V)) (i : ℕ) (chain : List (DataItem K V))
      → i < length slots
      → total (set slots i (some chain)) + length (chain_at slots i) ≡ total slots + length chain
  unfolding total
  total-set [] i chain h = elim h [ ]
  total-set (s ∷ slots) zero chain h = omega arith
  total-set (s ∷ slots) (suc i) chain h = omega (arith, total-set slots i chain (omega arith))

module _ {M K V : Type 0} (mem : M) where
  -- the test that a search for `q` makes at the key of an item
  abbrev pub matches : HashMap M K V → K → K → ℕ
  matches map q = λ k. map.keys_equal_func mem k q

  abbrev pub home : HashMap M K V → K → ℕ
  home map q = map.hash_func mem q % map.alloc_size

  -- The table is whole, every key stands in the chain that its hash names, no key stands twice,
  -- and the items are counted.
  pub record IsMap (map : HashMap M K V) (slots : List (Slot K V)) : Type 0 where
    pub at : map.m_data ≡ some slots
    pub magic : map.magic_num ≡ magic_number
    pub width : length slots ≡ map.alloc_size
    pub pos : 0 < map.alloc_size
    pub counted : map.num_of_items ≡ total slots % 2 ^ 64
    pub once : (q : K) (i : ℕ) → count (matches map q) (chain_at slots i) ≤ 1
    pub placed :
        (q : K) (i : ℕ) → (home map q == i) ≡ false → count (matches map q) (chain_at slots i) ≡ 0

  -- The value under `q`.
  abbrev pub view : HashMap M K V → List (Slot K V) → K → Option V
  view map slots q = value_of (matches map q) (chain_at slots (home map q))

  -- `map` with another chain at the home of `k`
  abbrev pub with_chain :
      HashMap M K V → List (Slot K V) → K → List (DataItem K V) → ℕ → HashMap M K V
  with_chain map slots k chain n = record map {
    m_data = some (set slots (home map k) (some chain));
    num_of_items = n;
  }

  module _ (map : HashMap M K V) (slots : List (Slot K V)) (w : IsMap map slots)
      (keys : KeyFuncs map.hash_func map.keys_equal_func mem) (k : K) where
    pub home-lt : home map k < length slots
    home-lt = rw w.width (let p = w.pos in omega arith)

    pub valid : valid_data map ≡ some slots
    unfolding valid_data
    valid = ground (arith, w.at, w.magic)

    pub index_of-ok : index_of mem map k ≡ ok (home map k)
    unfolding index_of
    index_of-ok = rem-ok (map.hash_func mem k) map.alloc_size w.pos

    pub load-home : load slots (home map k) ≡ ok (get_or slots (home map k) none)
    load-home = load-ok slots (home map k) (get_elem?-chain_at slots (home map k) home-lt)

    pub home_congr : (q : K) → map.keys_equal_func mem k q ≡ 1 → home map k ≡ home map q
    home_congr q e = ap (λ h. h % map.alloc_size) (keys.hash-equal k q e)

    -- A new chain at the home of `k` that differs from the old one only for the keys equal to `k`.
    pub with_chain-IsMap :
        (chain : List (DataItem K V)) (n : ℕ)
        → n ≡ (total slots + length chain - length (chain_at slots (home map k))) % 2 ^ 64
        → ((q : K) → count (matches map q) chain ≤ 1)
        → ((q : K)
            → (map.keys_equal_func mem k q == 1) ≡ false
            → (count (matches map q) chain ≡ count (matches map q) (chain_at slots (home map k)))
              × (value_of (matches map q) chain
                  ≡ value_of (matches map q) (chain_at slots (home map k))))
        → IsMap (with_chain map slots k chain n) (set slots (home map k) (some chain))
          × ((q : K)
              → value_of
                  (matches map q)
                  (chain_at (set slots (home map k) (some chain)) (home map q))
                ≡ (if map.keys_equal_func mem k q == 1
                    then value_of (matches map q) chain
                    else view map slots q))
    with_chain-IsMap chain n size one apart = (
      record {
        at = refl;
        magic = w.magic;
        width = rw length-set w.width;
        pos = w.pos;
        counted =
            let t = total-set slots (home map k) chain home-lt in
            let e : total (set slots (home map k) (some chain))
                ≡ total slots + length chain - length (chain_at slots (home map k)) =
              omega arith in
            rw e size;
        once = λ q i.
            rw (chain_at-set slots (home map k) i chain home-lt)
              (ground (arith, one q, w.once q i));
        placed = λ q i away.
            rw (chain_at-set slots (home map k) i chain home-lt)
              (ground (arith, apart q, home_congr q, w.placed q i));
      },
      λ q.
          rw (chain_at-set slots (home map k) (home map q) chain home-lt)
            (ground (arith, apart q, home_congr q)),
    )
