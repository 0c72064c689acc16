-- ===== src/HashMap.antt =====
-- GenericHash/GenericHash.c: a hash map with chaining. Keys are pointers: the two callbacks read
-- what they point to in the memory `M`, which is an argument of every operation that calls them.
-- A chain is the sequence of its items, front first; `size_t` arithmetic is modulo 2 ^ 64.
pub mod Chain
pub mod View
pub mod Create
pub mod Methods
pub mod Remove
pub mod Destroy
pub mod Write
pub mod OnList
mod Tests
use chat_project.Prelude.{
  ℕ, ◌+◌, ◌-◌, ◌%◌, ◌^◌, Bool, true, false, not, Option, none, some, List, [], ◌∷◌, Run, ok, fault,
  Ref, null, dangling, live, ◌>>=◌, load, store, rem, ◌==◌, replicate, if◌then◌else◌,
}
use chat_project.Primes.{find_prime_larger_than}

-- `Map_Result`
pub data MapResult : Type 0 where
  map_success map_uninitialized_error map_key_null_error : MapResult
  map_key_duplicate_error map_key_not_found_error map_allocation_error : MapResult

abbrev pub magic_number : ℕ
magic_number = 52_214_221

-- `struct DataItem`
pub record DataItem (K V : Type 0) : Type 0 where
  pub value : V
  pub key : K

-- one slot of `m_data`: NULL, or a list of items
abbrev pub Slot : Type 0 → Type 0 → Type 0
Slot K V = Option (List (DataItem K V))

-- `struct HashMap`; a NULL `m_data` is `none`
pub record HashMap (M K V : Type 0) : Type 0 where
  pub m_data : Option (List (Slot K V))
  pub hash_size : ℕ
  pub alloc_size : ℕ
  pub num_of_items : ℕ
  pub magic_num : ℕ
  pub hash_func : M → K → ℕ
  pub keys_equal_func : M → K → K → ℕ

-- whether the allocations of `HashMap_Create` succeed
pub record CreateMemory : Type 0 where
  pub map_ok : Bool
  pub table_ok : Bool

-- whether the allocations of `HashMap_Insert` succeed: `List_Create`, the item, the list's node
pub record InsertMemory : Type 0 where
  pub list_ok : Bool
  pub item_ok : Bool
  pub node_ok : Bool

abbrev pub map_made : CreateMemory
map_made = record { map_ok = true; table_ok = true }

abbrev pub item_made : InsertMemory
item_made = record { list_ok = true; item_ok = true; node_ok = true }

module _ {K V : Type 0} where
  -- the loop over a chain that stops at the first item whose key equals the one that is looked for
  unfoldable pub find_item : (K → ℕ) → List (DataItem K V) → Option (DataItem K V)
  find_item is_equal [] = none
  find_item is_equal (d ∷ chain) = if is_equal d.key == 1 then some d else find_item is_equal chain

  -- `ListItr_Remove` at the item where that loop stops
  unfoldable pub remove_item : (K → ℕ) → List (DataItem K V) → List (DataItem K V)
  remove_item is_equal [] = []
  remove_item is_equal (d ∷ chain) =
      if is_equal d.key == 1 then chain else d ∷ remove_item is_equal chain

module _ {M K V : Type 0} where
  -- `HashMap_Create`; `fuel` bounds the two loops that look for the size of the table
  unfoldable pub create :
      (fuel : ℕ)
      → CreateMemory
      → ℕ
      → Option (M → K → ℕ)
      → Option (M → K → K → ℕ)
      → Run (Ref (HashMap M K V))
  create fuel mem capacity none equal = ok null
  create fuel mem capacity (some hash) none = ok null
  create fuel mem capacity (some hash) (some equal) =
      if capacity == 0 then ok null else if not mem.map_ok then ok null else do
        new_size ← find_prime_larger_than fuel fuel capacity
        if not mem.table_ok
            then ok null
            else ok (
                live (record {
                  m_data = some (replicate new_size none);
                  hash_size = capacity;
                  alloc_size = new_size;
                  num_of_items = 0;
                  magic_num = magic_number;
                  hash_func = hash;
                  keys_equal_func = equal;
                }))

  -- `HashMapIsValid`, with the table where it is valid
  unfoldable pub valid_data : HashMap M K V → Option (List (Slot K V))
  valid_data map = elim map.m_data [
    | none ↦ none
    | some slots ↦ if map.magic_num == magic_number then some slots else none
  ]

  -- `m_hashFunc( key ) % m_allocSize`
  unfoldable pub index_of : M → HashMap M K V → K → Run ℕ
  index_of mem map key = rem (map.hash_func mem key) map.alloc_size

  -- The part of `HashMap_Insert` behind the search. `List_PushHead` reports a NULL list by another
  -- code than the one that is tested, and its own failed allocation by that one.
  push_item :
      InsertMemory
      → HashMap M K V
      → List (Slot K V)
      → ℕ
      → Slot K V
      → K
      → V
      → Run (MapResult × Ref (HashMap M K V))
  push_item a map slots index slot key value =
      let done = record map { num_of_items = (map.num_of_items + 1) % 2 ^ 64 } in
      if not a.item_ok
      then (store slots index slot >>= λ slots'.
          ok (map_allocation_error, live (record map { m_data = some slots' })))
      else elim slot [
        | none ↦
            (store slots index none >>= λ slots'.
            ok (map_success, live (record done { m_data = some slots' })))
        | some chain ↦
            if not a.node_ok
            then (store slots index (some chain) >>= λ slots'.
                ok (map_allocation_error, live (record map { m_data = some slots' })))
            else (store slots index (some (record { key = key; value = value } ∷ chain))
                >>= λ slots'. ok (map_success, live (record done { m_data = some slots' })))
      ]

  insert_table :
      InsertMemory
      → M
      → HashMap M K V
      → List (Slot K V)
      → K
      → V
      → Run (MapResult × Ref (HashMap M K V))
  unfolding push_item
  insert_table a mem map slots key value = do
    index ← index_of mem map key
    slot ← load slots index
    elim slot [
      | none ↦ push_item a map slots index (if a.list_ok then some [] else none) key value
      | some chain ↦ elim (find_item (λ k. map.keys_equal_func mem k key) chain) [
        | none ↦ push_item a map slots index (some chain) key value
        | some d ↦ ok (map_key_duplicate_error, live map)
      ]
    ]

  -- `HashMap_Insert`
  unfoldable pub insert :
      InsertMemory → M → Ref (HashMap M K V) → Option K → V → Run (MapResult × Ref (HashMap M K V))
  unfolding insert_table
  insert a mem null key value = ok (map_uninitialized_error, null)
  insert a mem dangling key value = fault
  insert a mem (live map) key value = elim (valid_data map) [
    | none ↦ ok (map_uninitialized_error, live map)
    | some slots ↦ elim key [
      | none ↦ ok (map_key_null_error, live map)
      | some k ↦ insert_table a mem map slots k value
    ]
  ]

  remove_table :
      M
      → HashMap M K V
      → List (Slot K V)
      → K
      → Run (MapResult × Option (DataItem K V) × Ref (HashMap M K V))
  remove_table mem map slots key = do
    index ← index_of mem map key
    slot ← load slots index
    elim slot [
      | none ↦ ok (map_key_not_found_error, none, live map)
      | some chain ↦ elim (find_item (λ k. map.keys_equal_func mem k key) chain) [
        | none ↦ ok (map_key_not_found_error, none, live map)
        | some d ↦ do
          slots' ← store slots index (some (remove_item (λ k. map.keys_equal_func mem k key) chain))
          let map' = record map {
            m_data = some slots';
            num_of_items = (map.num_of_items + 2 ^ 64 - 1) % 2 ^ 64;
          }
          ok (map_success, some d, live map')
      ]
    ]

  -- `HashMap_Remove`; the second result is what it writes to `*_pKey` and `*_pValue`
  unfoldable pub remove :
      M
      → Ref (HashMap M K V)
      → Option K
      → Run (MapResult × Option (DataItem K V) × Ref (HashMap M K V))
  unfolding remove_table
  remove mem null key = ok (map_uninitialized_error, none, null)
  remove mem dangling key = fault
  remove mem (live map) key = elim (valid_data map) [
    | none ↦ ok (map_uninitialized_error, none, live map)
    | some slots ↦ elim key [
      | none ↦ ok (map_key_null_error, none, live map)
      | some k ↦ remove_table mem map slots k
    ]
  ]

  -- `HashMap_Size`
  unfoldable pub size : Ref (HashMap M K V) → Run ℕ
  size null = ok 0
  size dangling = fault
  size (live map) = elim (valid_data map) [ none ↦ ok 0 | some slots ↦ ok map.num_of_items ]

  find_table : M → HashMap M K V → List (Slot K V) → K → Run (MapResult × Option V)
  find_table mem map slots key = do
    index ← index_of mem map key
    slot ← load slots index
    elim slot [
      | none ↦ ok (map_key_not_found_error, none)
      | some chain ↦ elim (find_item (λ k. map.keys_equal_func mem k key) chain) [
        | none ↦ ok (map_key_not_found_error, none)
        | some d ↦ ok (map_success, some d.value)
      ]
    ]

  -- `HashMap_Find`; the second result is what it writes to `*_pValue`
  unfoldable pub find : M → Ref (HashMap M K V) → Option K → Run (MapResult × Option V)
  unfolding find_table
  find mem null key = ok (map_uninitialized_error, none)
  find mem dangling key = fault
  find mem (live map) key = elim (valid_data map) [
    | none ↦ ok (map_uninitialized_error, none)
    | some slots ↦ elim key [
      | none ↦ ok (map_key_null_error, none)
      | some k ↦ find_table mem map slots k
    ]
  ]
