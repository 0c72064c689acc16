-- ===== src/ListItr.antt =====
-- GeneticListIter/LinkedListGenericIter.c: iterators over a doubly linked list. A `ListItr` is the
-- address of a node; a returned `int` is a Boolean.
pub mod Splice
pub mod Gap
pub mod Walk
mod Tests
use chat_project.Prelude.{
  ℕ, zero, suc, ◌+◌, Bool, true, false, Option, none, some, Run, ok, fault, ◌>>=◌, ◌==◌, ltb,
  if◌then◌else◌,
}
use chat_project.DLinkedList.{
  Ptr, Memory, update, get_next, get_prev, get_item, set_next, set_prev, set_item, free, blank,
  tail_of, same_ptr,
}

-- `ListItr_Begin`
unfoldable pub begin : Memory → Ptr → Run Ptr
begin m none = ok none
begin m (some list) = get_next m (some list)

-- `ListItr_End`
unfoldable pub end_of : Memory → Ptr → Run Ptr
unfolding same_ptr
end_of m none = ok none
end_of m (some list) = do
  last ← get_prev m (some (tail_of list))
  if same_ptr last (some list)
      then get_next m (some (tail_of list))
      else get_next m (some (tail_of list))

-- `ListItr_Equals`: the data is compared, not the nodes
unfoldable pub equals : Memory → Ptr → Ptr → Run Bool
equals m none b = ok false
equals m (some a) none = ok false
equals m (some a) (some b) = do
  item_a ← get_item m (some a)
  item_b ← get_item m (some b)
  ok (item_a == item_b)

-- `ListItr_Next`
unfoldable pub step_next : Memory → Ptr → Run Ptr
step_next m none = ok none
step_next m (some a) = get_next m (some a)

-- `ListItr_Prev`
unfoldable pub step_prev : Memory → Ptr → Run Ptr
unfolding same_ptr
step_prev m none = ok none
step_prev m (some a) = do
  node ← get_prev m (some a)
  before ← get_prev m node
  if same_ptr before node then ok (some a) else get_prev m (some a)

-- `ListItr_Get`
unfoldable pub get : Memory → Ptr → Run ℕ
unfolding same_ptr
get m none = ok 0
get m (some a) = do
  next ← get_next m (some a)
  if same_ptr next (some a) then ok 0 else get_item m (some a)

-- `ListItr_Set`
unfoldable pub set : Memory → Ptr → (element : ℕ) → Run (ℕ × Memory)
set m none element = ok (0, m)
set m (some a) element =
    if element == 0
    then ok (0, m)
    else (do item ← get_item m (some a); m' ← set_item m (some a) element; ok (item, m'))

-- a write of the second word of a block, which ends at byte 16, or of the third, which ends at byte
-- 24
unfoldable pub within : (size end : ℕ) → Run Memory → Run Memory
within size end write = if ltb size end then fault else write

-- `ListItr_InsertBefore`. It asks `malloc` for `sizeof(Node*)` bytes; `size` is how many there
-- really are at the address `given`.
unfoldable pub insert_before :
    (given : Ptr) → (size : ℕ) → Memory → Ptr → (element : ℕ) → Run (Ptr × Memory)
unfolding within
insert_before given size m none element = ok (none, m)
insert_before given size m (some a) element = if element == 0 then ok (none, m) else elim given [
  | none ↦ ok (none, m)
  | some n ↦ do
    let m₀ = update m n (some blank)
    m₁ ← set_item m₀ (some n) element
    m₂ ← within size 16 (set_next m₁ (some n) (some a))
    before ← get_prev m₂ (some a)
    m₃ ← within size 24 (set_prev m₂ (some n) before)
    m₄ ← set_prev m₃ (some a) (some n)
    back ← get_prev m₄ (some n)
    m₅ ← set_next m₄ back (some n)
    ok (some n, m₅)
]

-- `ListItr_Remove`
unfoldable pub remove : Memory → Ptr → Run (ℕ × Memory)
unfolding same_ptr step_next
remove m none = ok (0, m)
remove m (some n) = do
  next ← step_next m (some n)
  if same_ptr next (some n) then ok (0, m) else (do
    item ← get_item m (some n)
    after ← get_next m (some n)
    before ← get_prev m (some n)
    m₁ ← set_prev m after before
    before' ← get_prev m₁ (some n)
    after' ← get_next m₁ (some n)
    m₂ ← set_next m₁ before' after'
    m₃ ← free m₂ (some n)
    ok (item, m₃))
