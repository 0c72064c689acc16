-- ===== src/ListFunctions/Tests.antt =====
-- A search in a list of two elements.
use chat_project.Prelude.{◌≡◌, refl, arith, some, none, List, [], ◌∷◌, ok, ltb}
use chat_project.DLinkedList.{Memory}
use chat_project.DLinkedList.Shape.{Cell, IsList}
use chat_project.DLinkedList.Sequence.{Operation, add_last, AllServed, apply, apply_all}
use chat_project.DLinkedList.Refine.{calls_refine}
use chat_project.ListFunctions.{find_first}
use chat_project.ListFunctions.Find.{find_first-failing}

abbrev nothing : Memory
nothing a = none

abbrev steps : List Operation
steps = add_last (some 10) 5 ∷ add_last (some 20) 6 ∷ []

abbrev steps_served : AllServed 100 [] steps
unfolding apply
steps_served = ((refl, (refl, tt)), ((refl, (refl, (refl, tt))), tt))

abbrev memory : Memory
memory = (calls_refine 100 7 8 nothing steps steps_served).0

abbrev cells : List Cell
cells = record { place = 10; item = 5 } ∷ record { place = 20; item = 6 } ∷ []

abbrev memory-IsList : IsList memory 100 8 cells
unfolding apply_all apply
memory-IsList = (calls_refine 100 7 8 nothing steps steps_served).2

find_first-failing_example :
    find_first 3 memory (some 10) (some 101) (some (λ item. ltb item 6)) ≡ ok (some 20)
find_first-failing_example =
    find_first-failing 3 memory 100 8 (λ item. ltb item 6) cells memory-IsList (refl, (refl, tt))
      (omega arith)
