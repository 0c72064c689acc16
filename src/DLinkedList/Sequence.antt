-- ===== src/DLinkedList/Sequence.antt =====
-- GenericDLinkedList/LinkedListGeneric.c: runs of pushes and pops, and the same runs on a
-- sequence.
use chat_project.Prelude.{
  ℕ, ◌≡◌, Bool, true, false, Option, none, some, List, [], ◌∷◌, ◌++◌, Run, ok, ◌>>=◌, ◌==◌,
  if◌then◌else◌,
}
use chat_project.DLinkedList.{
  Ptr, Memory, ListResult, list_success, list_uninitialized_error, list_allocation_error,
  list_null_element_error, list_is_empty, push_head, push_tail, pop_head, pop_tail,
}
use chat_project.DLinkedList.Path.{Apart}
use chat_project.DLinkedList.Shape.{Cell, path_of}

-- A call of one of the four; a push says what `malloc` gives to it.
pub data Operation : Type 0 where
  add_first add_last : (given : Ptr) (item : ℕ) → Operation
  take_first take_last : (wanted : Bool) → Operation

-- The result of the call and what a pop writes for the caller.
abbrev pub Answer : Type 0
Answer = ListResult × Option ℕ

unfoldable pub call : Operation → Memory → ℕ → Run (Answer × Memory)
call (add_first given item) m list = do
  (result, m') ← push_head given m (some list) item
  ok ((result, none), m')
call (add_last given item) m list = do
  (result, m') ← push_tail given m (some list) item
  ok ((result, none), m')
call (take_first wanted) m list = do
  (result, item, m') ← pop_head m (some list) wanted
  ok ((result, item), m')
call (take_last wanted) m list = do
  (result, item, m') ← pop_tail m (some list) wanted
  ok ((result, item), m')

unfoldable pub calls : List Operation → Memory → ℕ → Run (List Answer × Memory)
calls [] m list = ok ([], m)
calls (op ∷ ops) m list = do
  (answer, m') ← call op m list
  (answers, m'') ← calls ops m' list
  ok (answer ∷ answers, m'')

-- A sequence without its last element, and that element.
unfoldable pub split_last : List Cell → Option (List Cell × Cell)
split_last [] = none
split_last (c ∷ cells) = elim (split_last cells) [
  | none ↦ some ([], c)
  | some (front, last) ↦ some (c ∷ front, last)
]

abbrev pub without_last : List Cell → Option (List Cell × Cell) → Answer × List Cell
without_last cells none = ((list_is_empty, none), cells)
without_last cells (some (front, last)) = ((list_success, some last.item), front)

-- The same call on the sequence of the elements.
unfoldable pub apply : Operation → List Cell → Answer × List Cell
apply (add_first given item) cells =
    if item == 0 then ((list_null_element_error, none), cells) else elim given [
      | none ↦ ((list_allocation_error, none), cells)
      | some n ↦ ((list_success, none), record { place = n; item = item } ∷ cells)
    ]
apply (add_last given item) cells =
    if item == 0 then ((list_null_element_error, none), cells) else elim given [
      | none ↦ ((list_allocation_error, none), cells)
      | some n ↦ ((list_success, none), cells ++ (record { place = n; item = item } ∷ []))
    ]
apply (take_first false) cells = ((list_uninitialized_error, none), cells)
apply (take_first true) [] = ((list_is_empty, none), [])
apply (take_first true) (c ∷ cells) = ((list_success, some c.item), cells)
apply (take_last false) cells = ((list_uninitialized_error, none), cells)
apply (take_last true) cells = without_last cells (split_last cells)

unfoldable pub apply_all : List Operation → List Cell → List Answer × List Cell
apply_all [] cells = ([], cells)
apply_all (op ∷ ops) cells =
    let (answer, cells') = apply op cells in
    let (answers, cells'') = apply_all ops cells' in (answer ∷ answers, cells'')

-- `malloc` gives no address that the list uses, and to `List_PushTail` it gives one.
abbrev pub Served : ℕ → List Cell → Operation → Type 0
Served list cells (add_first none item) = Unit
Served list cells (add_first (some n) item) = Apart n (path_of list cells)
Served list cells (add_last none item) = item ≡ 0
Served list cells (add_last (some n) item) = Apart n (path_of list cells)
Served list cells (take_first wanted) = Unit
Served list cells (take_last wanted) = Unit

abbrev pub AllServed : ℕ → List Cell → List Operation → Type 0
AllServed list cells [] = Unit
AllServed list cells (op ∷ ops) = Served list cells op × AllServed list (apply op cells).1 ops
