-- ===== src/HashMap/Tests.antt =====
-- The hash map at concrete inputs: a table of one slot with one item, whose keys are strings that
-- nobody changes, and the table that `HashMap_Create` gives.
use chat_project.Prelude.{
  ℕ, zero, suc, ◌%◌, ◌≤◌, ◌≡◌, refl, arith, true, false, none, some, List, [], ◌∷◌, ok, null, live,
  Bytes, codes, str_equal, ◌==◌,
}
use chat_project.HashMap.{
  HashMap, Slot, map_success, map_key_duplicate_error, map_key_not_found_error, magic_number,
  item_made, map_made, create, find, insert, remove,
}
use chat_project.HashMap.Chain.{count, value_of}
use chat_project.HashMap.View.{IsMap, view, total, matches, home, chain_at}
use chat_project.HashMap.Methods.{Writes, find-view, insert-absent, insert-present}
use chat_project.HashMap.Remove.{Removed, remove-present, remove-absent}
use chat_project.HashMap.Create.{create-IsMap}
use chat_project.HashMap.Destroy.{destroy, destroy-filled, destroy-unfilled}
use chat_project.Primes.Check.{HasNoDivisor}
use chat_project.Buffer.{CharPtr, owned, c_string, hash_function, equality_function}
use chat_project.Buffer.Keys.{callbacks-KeyFuncs}

abbrev ann : CharPtr
ann = owned (codes "ann")

abbrev bob : CharPtr
bob = owned (codes "bob")

abbrev one_slot : List (Slot CharPtr ℕ)
one_slot = some (record { key = ann; value = 7 } ∷ []) ∷ []

abbrev one_item : HashMap Bytes CharPtr ℕ
one_item = record {
  m_data = some one_slot;
  hash_size = 1;
  alloc_size = 1;
  num_of_items = 1;
  magic_num = magic_number;
  hash_func = hash_function;
  keys_equal_func = equality_function;
}

one_item-once : (q : CharPtr) (i : ℕ) → count (matches [] one_item q) (chain_at one_slot i) ≤ 1
unfolding count
one_item-once q zero = ground arith
one_item-once q (suc i) = omega arith

one_item-placed :
    (q : CharPtr) (i : ℕ)
    → (home [] one_item q == i) ≡ false
    → count (matches [] one_item q) (chain_at one_slot i) ≡ 0
unfolding count
one_item-placed q zero away =
    let at_home : hash_function [] q % 1 ≡ 0 = omega arith in absurd (ground (arith, away))
one_item-placed q (suc i) away = refl

one_item-IsMap : IsMap [] one_item one_slot
unfolding total
one_item-IsMap = record {
  at = refl;
  magic = refl;
  width = refl;
  pos = omega arith;
  counted = refl;
  once = one_item-once;
  placed = one_item-placed;
}

ann-view : view [] one_item one_slot ann ≡ some 7
unfolding value_of hash_function c_string equality_function str_equal
ann-view = refl

bob-view : view [] one_item one_slot bob ≡ none
unfolding value_of hash_function c_string equality_function str_equal
bob-view = refl

find-view_example : find [] (live one_item) (some ann) ≡ ok (map_success, some 7)
unfolding value_of hash_function c_string equality_function str_equal
find-view_example = find-view [] one_item one_slot one_item-IsMap (callbacks-KeyFuncs []) ann

insert-absent_example :
    (map' : HashMap Bytes CharPtr ℕ) × (insert item_made [] (live one_item) (some bob) 9
      ≡ ok (map_success, live map'))
    × Writes [] one_item one_slot bob (some 9) map'
    × (map'.num_of_items ≡ 2)
insert-absent_example =
    insert-absent [] one_item one_slot one_item-IsMap (callbacks-KeyFuncs []) bob 9 bob-view

insert-present_example :
    insert item_made [] (live one_item) (some ann) 9 ≡ ok (map_key_duplicate_error, live one_item)
insert-present_example =
    insert-present [] one_item one_slot one_item-IsMap (callbacks-KeyFuncs []) ann 9 7 ann-view

remove-present_example : Removed [] one_item one_slot one_item-IsMap (callbacks-KeyFuncs []) ann 7
remove-present_example =
    remove-present [] one_item one_slot one_item-IsMap (callbacks-KeyFuncs []) ann 7 ann-view

remove-absent_example :
    remove [] (live one_item) (some bob) ≡ ok (map_key_not_found_error, none, live one_item)
remove-absent_example =
    remove-absent [] one_item one_slot one_item-IsMap (callbacks-KeyFuncs []) bob bob-view

two-HasNoDivisor : HasNoDivisor 2
two-HasNoDivisor d big less divides = omega arith

create-IsMap_example :
    (map : HashMap Bytes CharPtr ℕ) × (slots : List (Slot CharPtr ℕ)) × (create 2 map_made 2
        (some hash_function)
        (some equality_function)
      ≡ ok (live map))
    × IsMap [] map slots
    × ((q : CharPtr) → view [] map slots q ≡ none)
    × (2 ≤ map.alloc_size)
create-IsMap_example =
    create-IsMap [] hash_function equality_function 2 2 2 (omega arith) (omega arith)
      two-HasNoDivisor (omega arith) (omega arith) (omega arith)

destroy-filled_example : destroy true true 1 (live one_item) ≡ ok ([], null)
destroy-filled_example = destroy-filled true true 0 one_item one_slot refl refl refl (tt, tt)

-- the map after its only item was removed
abbrev emptied : HashMap Bytes CharPtr ℕ
emptied = record one_item { m_data = some (some [] ∷ []); num_of_items = 0 }

destroy-unfilled_example : ¬ (destroy true true 9 (live emptied) ≡ ok ([], null))
destroy-unfilled_example =
    destroy-unfilled true true 9 emptied (some [] ∷ []) refl refl refl ([], null)
      (λ filled. filled.0)
