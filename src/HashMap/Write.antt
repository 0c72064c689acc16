-- ===== src/HashMap/Write.antt =====
-- A write through the pointer to a value that `HashMap_Find` (GenericHash/GenericHash.c) gives.
use chat_project.Prelude.{
  ℕ, zero, suc, ◌%◌, none, some, List, [], ◌∷◌, Ref, null, dangling, live, ◌==◌, if◌then◌else◌,
}
use chat_project.HashMap.{HashMap, DataItem, Slot, valid_data}

module _ {K V : Type 0} where
  write_first : (K → ℕ) → V → List (DataItem K V) → List (DataItem K V)
  write_first is_equal v [] = []
  write_first is_equal v (d ∷ chain) =
      if is_equal d.key == 1
      then record d { value = v } ∷ chain
      else d ∷ write_first is_equal v chain

  write_slots : ℕ → (K → ℕ) → V → List (Slot K V) → List (Slot K V)
  write_slots index is_equal v [] = []
  write_slots zero is_equal v (none ∷ slots) = none ∷ slots
  write_slots zero is_equal v (some chain ∷ slots) = some (write_first is_equal v chain) ∷ slots
  write_slots (suc index) is_equal v (s ∷ slots) = s ∷ write_slots index is_equal v slots

module _ {M K V : Type 0} where
  -- A write of `v` through the pointer that `HashMap_Find` has given for `key`: the object behind
  -- it belongs to that item alone.
  unfoldable pub write_found : M → Ref (HashMap M K V) → K → V → Ref (HashMap M K V)
  unfolding write_slots write_first
  write_found mem null key v = null
  write_found mem dangling key v = dangling
  write_found mem (live map) key v = elim (valid_data map) [
    | none ↦ live map
    | some slots ↦
        let index = map.hash_func mem key % map.alloc_size in
        let slots' = write_slots index (λ k. map.keys_equal_func mem k key) v slots in
        live (record map { m_data = some slots' })
  ]
