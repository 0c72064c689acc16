-- ===== src/HashMap/OnList/Steps.antt =====
-- GenericHash/GenericHash.c: each call at a slot in memory does what it does on the slot's chain.
use chat_project.Prelude.{
  ℕ, ◌≡◌, refl, sym, ap, ◌∙◌, true, false, Option, none, some, List, ◌++◌, ok, inl, inr,
}
use mathlib.Core.Path.{subst}
use chat_project.DLinkedList.{Ptr, Memory}
use chat_project.DLinkedList.Shape.{Cell, IsList}
use chat_project.ListItr
use chat_project.ListItr.Gap.{remove-IsList}
use chat_project.ListFunctions.Find.{Unmarked}
use chat_project.DLinkedList.Path.{Distinct}
use chat_project.HashMap.{
  MapResult, map_success, map_key_duplicate_error, map_key_not_found_error, DataItem, Slot,
  remove_item,
}
use chat_project.HashMap.OnList.{
  Heap, Given, put_block, block_at, search_list, find_slot, remove_slot, insert_slot, push_slot,
}
use chat_project.HashMap.OnList.Search.{addresses, IsChain, Hit, search_list-Stops}
use chat_project.HashMap.OnList.Slot.{find_in, remove_from, IsSlot, Short}
use chat_project.HashMap.OnList.Foot.{Foot, foot_of, Step, stay, remove-Step, At}
use chat_project.HashMap.OnList.Kept.{Unmarked-split, addresses-Distinct, Stored-kept}

module _ {K V : Type 0} (fuel : ℕ) (same : K → ℕ) (h : Heap K V) where
  -- `HashMap_Find` and the others behind the search.
  find_slot-missing :
      (list found : ℕ) (at : Ptr)
      → search_list fuel same h (some list) ≡ ok (true, at, found)
      → find_slot fuel same h (some list) ≡ ok (map_key_not_found_error, none)
  unfolding find_slot
  find_slot-missing list found at e = rw e refl

  find_slot-there :
      (list found : ℕ) (at : Ptr) (d : DataItem K V)
      → search_list fuel same h (some list) ≡ ok (false, at, found)
      → block_at h found ≡ ok d
      → find_slot fuel same h (some list) ≡ ok (map_success, some d.value)
  unfolding find_slot
  find_slot-there list found at d e reads = rw (e, reads) refl

  remove_slot-missing :
      (list found : ℕ) (at : Ptr)
      → search_list fuel same h (some list) ≡ ok (true, at, found)
      → remove_slot fuel same h (some list) ≡ ok (map_key_not_found_error, none, h)
  unfolding remove_slot
  remove_slot-missing list found at e = rw e refl

  remove_slot-there :
      (list found : ℕ) (at : Ptr) (d : DataItem K V) (nodes : Memory)
      → search_list fuel same h (some list) ≡ ok (false, at, found)
      → ListItr.remove h.nodes at ≡ ok (found, nodes)
      → block_at h found ≡ ok d
      → remove_slot fuel same h (some list)
        ≡ ok (map_success, some d, put_block (record h { nodes = nodes }) found none)
  unfolding remove_slot
  remove_slot-there list found at d nodes e removed reads = rw (e, removed, reads) refl

  pub insert_slot-missing :
      (given : Given) (list found : ℕ) (at : Ptr) (key : K) (value : V)
      → search_list fuel same h (some list) ≡ ok (true, at, found)
      → insert_slot fuel given same h (some list) key value
        ≡ push_slot given h (some list) key value
  unfolding insert_slot
  insert_slot-missing given list found at key value e = rw e refl

  pub insert_slot-there :
      (given : Given) (list found : ℕ) (at : Ptr) (key : K) (value : V)
      → search_list fuel same h (some list) ≡ ok (false, at, found)
      → insert_slot fuel given same h (some list) key value
        ≡ ok (map_key_duplicate_error, some list, h)
  unfolding insert_slot
  insert_slot-there given list found at key value e = rw e refl

  pub find_slot-find_in :
      (list : Ptr) (slot : Slot K V)
      → IsSlot h list slot
      → Short fuel slot
      → find_slot fuel same h list ≡ ok (find_in same slot)
  unfolding find_slot
  find_slot-find_in none none w short = refl
  find_slot-find_in none (some chain) w short = absurd w
  find_slot-find_in (some list) none w short = absurd w
  find_slot-find_in (some list) (some chain) (mark, cells, w) short =
      elim (search_list-Stops fuel h list mark same cells chain w short) [
        | inl (missing, (found, run)) ↦ find_slot-missing list found _ run ∙ rw missing refl
        | inr (c, d, hit, run) ↦ find_slot-there list c.item _ d run hit.reads ∙ rw hit.first refl
      ]

  -- A call that ends with this answer, in a memory for this slot, without touching the others.
  abbrev RemoveEnds : Ptr → Foot → MapResult × Option (DataItem K V) × Slot K V → Type 0
  RemoveEnds list f (result, item, slot) =
      (h' : Heap K V) × (f' : Foot) × (remove_slot fuel same h list ≡ ok (result, item, h'))
      × At h' list slot f'
      × Step h h' f f'

  remove-IsChain :
      (list mark : ℕ) (cells : List Cell) (chain : List (DataItem K V)) (c : Cell)
      (d : DataItem K V)
      → IsChain h list mark cells chain
      → (hit : Hit h mark same cells chain c d) → (nodes : Memory)
      → IsList nodes list mark (hit.front ++ hit.back)
      → IsChain
          (put_block (record h { nodes = nodes }) c.item none)
          list
          mark
          (hit.front ++ hit.back)
          (remove_item same chain)
  unfolding put_block
  remove-IsChain list mark cells chain c d w hit nodes linked =
      let unmarked = subst (λ p. Unmarked mark p) hit.split w.unmarked in
      let distinct = subst (λ p. Distinct (addresses p)) hit.split w.distinct in
      let (apart, distinct') = addresses-Distinct c hit.front hit.back distinct in
      record {
        linked = linked;
        unmarked = Unmarked-split mark c hit.front hit.back unmarked;
        distinct = distinct';
        stored =
            Stored-kept (record h { nodes = nodes }) c.item none (hit.front ++ hit.back)
              (remove_item same chain) apart hit.left;
      }

  pub remove_slot-remove_from :
      (list : Ptr) (slot : Slot K V) (f : Foot)
      → At h list slot f
      → Short fuel slot
      → RemoveEnds list f (remove_from same slot)
  unfolding remove_slot
  remove_slot-remove_from none none f w short = (h, f, refl, w, stay h f)
  remove_slot-remove_from none (some chain) f w short = absurd w
  remove_slot-remove_from (some list) none f w short = absurd w
  remove_slot-remove_from (some list) (some chain) f (mark, cells, w, e) short =
      elim (search_list-Stops fuel h list mark same cells chain w short) [
        | inl (missing, (found, run)) ↦
            rw missing (h, f, remove_slot-missing list found _ run, (mark, cells, w, e), stay h f)
        | inr (c, d, hit, run) ↦
            let there = subst (IsList h.nodes list mark) hit.split w.linked in
            let (nodes, removed, linked, _) =
              remove-IsList h.nodes list mark c hit.front hit.back there in
            let h' = put_block (record h { nodes = nodes }) c.item none in
            let f' = foot_of list (hit.front ++ hit.back) in
            let step : Step h h' f f' =
              (let steps = remove-Step h nodes list mark c hit.front hit.back there removed in
                subst (λ g. Step h h' g f') (ap (foot_of list) (sym hit.split) ∙ sym e) steps) in
            rw hit.first (
              h',
              f',
              remove_slot-there list c.item _ d nodes run removed hit.reads,
              (
                mark,
                hit.front ++ hit.back,
                remove-IsChain list mark cells chain c d w hit nodes linked,
                refl,
              ),
              step,
            )
      ]
