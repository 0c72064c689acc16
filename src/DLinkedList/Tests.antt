-- ===== src/DLinkedList/Tests.antt =====
-- Runs of GenericDLinkedList/LinkedListGeneric.c on a small memory.
use chat_project.Prelude.{◌≡◌, refl, arith, true, none, some, List, [], ◌∷◌, ok, ◌>>=◌}
use chat_project.DLinkedList.{
  Memory, list_success, list_is_empty, create, push_head, push_tail, pop_head, pop_tail, destroy,
  update, get_next, get_prev, get_item, set_next, set_prev, set_item, free, node_at, same_ptr,
}
use chat_project.DLinkedList.Sequence.{
  Operation, add_first, add_last, take_last, call, calls, apply, apply_all, split_last, AllServed,
}
use chat_project.DLinkedList.Refine.{calls_refine}
use chat_project.DLinkedList.Shape.{IsList, Cell}
use chat_project.DLinkedList.Destroy.{Released, destroy-Released}

abbrev nothing : Memory
nothing a = none

-- the list at 100, its tail sentinel at 101
abbrev made : Memory
unfolding create update
made = (create (some 100) 7 8 nothing).1

abbrev steps : List Operation
steps =
    add_last (some 10) 5
    ∷ add_first (some 20) 6
    ∷ add_last (some 30) 0
    ∷ take_last true
    ∷ add_first (some 10) 9
    ∷ []

calls_test :
    (calls
        (add_last (some 10) 5
          ∷ add_first (some 20) 6
          ∷ take_last true
          ∷ take_last true
          ∷ take_last true
          ∷ [])
        made
        100
      >>= λ done. ok done.0)
    ≡ ok (
        (list_success, none)
        ∷ (list_success, none)
        ∷ (list_success, some 5)
        ∷ (list_success, some 6)
        ∷ (list_is_empty, none)
        ∷ [])
unfolding calls call push_head push_tail pop_head pop_tail get_next get_prev get_item set_next
    set_prev set_item free node_at update same_ptr made create
calls_test = refl

abbrev steps_served : AllServed 100 [] steps
unfolding apply split_last
steps_served = (
  (refl, (refl, tt)),
  (
    (refl, (refl, (refl, tt))),
    ((refl, (refl, (refl, (refl, tt)))), (tt, ((refl, (refl, (refl, tt))), tt))),
  ),
)

calls_refine_example :
    (m' : Memory) × (calls steps (create (some 100) 7 8 nothing).1 100
      ≡ ok ((apply_all steps []).0, m'))
    × IsList m' 100 8 (apply_all steps []).1
calls_refine_example = calls_refine 100 7 8 nothing steps steps_served

-- the memory after these steps
abbrev after : Memory
after = (calls_refine 100 7 8 nothing steps steps_served).0

abbrev cells_after : List Cell
cells_after = record { place = 10; item = 9 } ∷ record { place = 20; item = 6 } ∷ []

abbrev after-IsList : IsList after 100 8 cells_after
unfolding apply_all apply split_last
after-IsList = (calls_refine 100 7 8 nothing steps steps_served).2

destroy-Released_example :
    (m' : Memory) × (destroy 3 after (some 100) true ≡ ok (9 ∷ 6 ∷ [], m', none))
    × Released after m' (10 ∷ 20 ∷ 100 ∷ 101 ∷ [])
destroy-Released_example =
    destroy-Released 3 after 100 8 cells_after true after-IsList (omega arith)
