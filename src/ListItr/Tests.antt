-- ===== src/ListItr/Tests.antt =====
-- An insertion before an iterator of a list of one element.
use chat_project.Prelude.{◌≡◌, refl, none, some, List, [], ◌∷◌, ok}
use chat_project.DLinkedList.{Memory}
use chat_project.DLinkedList.Shape.{IsList}
use chat_project.DLinkedList.Sequence.{Operation, add_last, AllServed, apply, apply_all}
use chat_project.DLinkedList.Refine.{calls_refine}
use chat_project.ListItr.{insert_before}
use chat_project.ListItr.Gap.{insert_before-IsList}

abbrev nothing : Memory
nothing a = none

abbrev one : List Operation
one = add_last (some 10) 5 ∷ []

abbrev one_served : AllServed 100 [] one
one_served = ((refl, (refl, tt)), tt)

abbrev memory : Memory
memory = (calls_refine 100 7 8 nothing one one_served).0

abbrev memory-IsList : IsList memory 100 8 (record { place = 10; item = 5 } ∷ [])
unfolding apply_all apply
memory-IsList = (calls_refine 100 7 8 nothing one one_served).2

-- `malloc( 8 )` that gives 24 bytes
insert_before-IsList_example :
    (m' : Memory) × (insert_before (some 20) 24 memory (some 10) 6 ≡ ok (some 20, m'))
    × IsList m' 100 8 (record { place = 20; item = 6 } ∷ record { place = 10; item = 5 } ∷ [])
insert_before-IsList_example =
    insert_before-IsList memory 24 100 8 20 6 [] (record { place = 10; item = 5 } ∷ [])
      memory-IsList (refl, (refl, (refl, tt))) refl
