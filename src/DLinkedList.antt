-- ===== src/DLinkedList.antt =====
-- GenericDLinkedList/LinkedListGeneric.c: a doubly linked list between two sentinels, in a memory
-- of nodes. A `List*` is the address of its head sentinel, the tail sentinel is the node behind
-- that. A `void*` is a number, 0 for NULL. What `malloc` gives is an argument.
pub mod Path
pub mod Writes
pub mod Splice
pub mod Unsplice
pub mod Shape
pub mod Push
pub mod Pop
mod Tests
pub mod Walk
pub mod Destroy
pub mod Sequence
pub mod Refine
use chat_project.Prelude.{
  ℕ, zero, suc, ◌+◌, ◌-◌, ◌%◌, ◌^◌, Bool, true, false, Option, none, some, List, [], ◌∷◌, Run, ok,
  fault, out_of_fuel, ◌>>=◌, ◌==◌, ltb, if◌then◌else◌,
}

-- NULL, or the address of a node
abbrev pub Ptr : Type 0
Ptr = Option ℕ

-- `struct Node`
pub record Node : Type 0 where
  pub item : ℕ
  pub next : Ptr
  pub prev : Ptr

-- The nodes that are allocated, by address.
abbrev pub Memory : Type 0
Memory = ℕ → Option Node

-- `List_Result`
pub data ListResult : Type 0 where
  list_success list_uninitialized_error list_allocation_error : ListResult
  list_null_element_error list_is_empty : ListResult

-- `m` with `node` at the address `a`
unfoldable pub update : Memory → ℕ → Option Node → Memory
update m a node q = if q == a then node else m q

-- `*p`
unfoldable pub node_at : Memory → Ptr → Run Node
node_at m none = fault
node_at m (some a) = elim (m a) [ none ↦ fault | some node ↦ ok node ]

-- `p->m_next`, `p->m_prev` and `p->m_data`
unfoldable pub get_next : Memory → Ptr → Run Ptr
unfolding node_at
get_next m p = node_at m p >>= λ node. ok node.next

unfoldable pub get_prev : Memory → Ptr → Run Ptr
unfolding node_at
get_prev m p = node_at m p >>= λ node. ok node.prev

unfoldable pub get_item : Memory → Ptr → Run ℕ
unfolding node_at
get_item m p = node_at m p >>= λ node. ok node.item

-- a write to each of the three
unfoldable pub set_next : Memory → Ptr → Ptr → Run Memory
set_next m none v = fault
set_next m (some a) v = elim (m a) [
  | none ↦ fault
  | some node ↦ ok (update m a (some (record node { next = v })))
]

unfoldable pub set_prev : Memory → Ptr → Ptr → Run Memory
set_prev m none v = fault
set_prev m (some a) v = elim (m a) [
  | none ↦ fault
  | some node ↦ ok (update m a (some (record node { prev = v })))
]

unfoldable pub set_item : Memory → Ptr → ℕ → Run Memory
set_item m none v = fault
set_item m (some a) v = elim (m a) [
  | none ↦ fault
  | some node ↦ ok (update m a (some (record node { item = v })))
]

-- `free( p )`
unfoldable pub free : Memory → Ptr → Run Memory
free m none = ok m
free m (some a) = elim (m a) [ none ↦ fault | some node ↦ ok (update m a none) ]

-- a node as `malloc` gives it; each of its fields is written before it is read
abbrev pub blank : Node
blank = record { item = 0; next = none; prev = none }

-- `&( _list->tail )`
abbrev pub tail_of : ℕ → ℕ
tail_of list = list + 1

-- `List_Create`: where the list stands, or NULL. Nothing is written to the data of the sentinels,
-- which is what the block had there.
unfoldable pub create : (given : Ptr) → (head_data tail_data : ℕ) → Memory → Ptr × Memory
unfolding update
create none head_data tail_data m = (none, m)
create (some list) head_data tail_data m = (
  some list,
  update
      (update m list (some (record { item = head_data; next = some (tail_of list); prev = none })))
      (tail_of list)
      (some (record { item = tail_data; next = some (tail_of list); prev = some list })),
)

-- `List_PushHead`
unfoldable pub push_head : (given : Ptr) → Memory → Ptr → (item : ℕ) → Run (ListResult × Memory)
push_head given m none item = ok (list_uninitialized_error, m)
push_head given m (some list) item =
    if item == 0 then ok (list_null_element_error, m) else elim given [
      | none ↦ ok (list_allocation_error, m)
      | some n ↦ do
        let m₀ = update m n (some blank)
        first ← get_next m₀ (some list)
        m₁ ← set_next m₀ (some n) first
        m₂ ← set_prev m₁ (some n) (some list)
        m₃ ← set_next m₂ (some list) (some n)
        after ← get_next m₃ (some n)
        m₄ ← set_prev m₃ after (some n)
        m₅ ← set_item m₄ (some n) item
        ok (list_success, m₅)
    ]

-- `List_PushTail`; what `malloc` gives is not compared with NULL
unfoldable pub push_tail : (given : Ptr) → Memory → Ptr → (item : ℕ) → Run (ListResult × Memory)
push_tail given m none item = ok (list_uninitialized_error, m)
push_tail given m (some list) item =
    if item == 0 then ok (list_null_element_error, m) else elim given [
      | none ↦ fault
      | some n ↦ do
        let m₀ = update m n (some blank)
        last ← get_prev m₀ (some (tail_of list))
        m₁ ← set_prev m₀ (some n) last
        m₂ ← set_next m₁ (some n) (some (tail_of list))
        before ← get_prev m₂ (some (tail_of list))
        m₃ ← set_next m₂ before (some n)
        after ← get_next m₃ (some n)
        m₄ ← set_prev m₃ after (some n)
        m₅ ← set_item m₄ (some n) item
        ok (list_success, m₅)
    ]

-- whether two pointers are the same
unfoldable pub same_ptr : Ptr → Ptr → Bool
same_ptr none none = true
same_ptr none (some b) = false
same_ptr (some a) none = false
same_ptr (some a) (some b) = a == b

-- `List_PopHead`; `wanted` says whether `_pItem` is given, the second result is what is written
-- there
unfoldable pub pop_head : Memory → Ptr → (wanted : Bool) → Run (ListResult × Option ℕ × Memory)
unfolding same_ptr
pop_head m none wanted = ok (list_uninitialized_error, none, m)
pop_head m (some list) false = ok (list_uninitialized_error, none, m)
pop_head m (some list) true = do
  first ← get_next m (some list)
  if same_ptr first (some (tail_of list)) then ok (list_is_empty, none, m) else (do
    item ← get_item m first
    second ← get_next m first
    m₁ ← set_next m (some list) second
    new_first ← get_next m₁ (some list)
    m₂ ← set_prev m₁ new_first (some list)
    m₃ ← free m₂ first
    ok (list_success, some item, m₃))

-- `List_PopTail`
unfoldable pub pop_tail : Memory → Ptr → (wanted : Bool) → Run (ListResult × Option ℕ × Memory)
unfolding same_ptr
pop_tail m none wanted = ok (list_uninitialized_error, none, m)
pop_tail m (some list) false = ok (list_uninitialized_error, none, m)
pop_tail m (some list) true = do
  first ← get_next m (some list)
  if same_ptr first (some (tail_of list)) then ok (list_is_empty, none, m) else (do
    last ← get_prev m (some (tail_of list))
    item ← get_item m last
    before ← get_prev m last
    m₁ ← set_next m before (some (tail_of list))
    before' ← get_prev m₁ last
    m₂ ← set_prev m₁ (some (tail_of list)) before'
    m₃ ← free m₂ last
    ok (list_success, some item, m₃))

-- the loop of `List_Size`; the counter is an `int`, as its bit pattern
unfoldable pub count_from : (fuel : ℕ) → Memory → (list : ℕ) → (at : Ptr) → (counter : ℕ) → Run ℕ
unfolding same_ptr
count_from zero m list at counter = out_of_fuel
count_from (suc fuel) m list at counter =
    let rest = λ (next : Ptr). count_from fuel m list next ((counter + 1) % 2 ^ 32) in
    if same_ptr at (some (tail_of list)) then ok counter else (get_next m at >>= rest)

-- `List_Size`; the `int` is returned as a `size_t`
unfoldable pub size : (fuel : ℕ) → Memory → Ptr → Run ℕ
size fuel m none = ok 0
size fuel m (some list) = do
  first ← get_next m (some list)
  counter ← count_from fuel m list first 0
  ok (if ltb counter (2 ^ 31) then counter else counter + 2 ^ 64 - 2 ^ 32)

-- the loop of `List_Destroy`: the items handed to the destroyer. A node is freed through the back
-- pointer of the next one.
unfoldable pub destroy_from :
    (fuel : ℕ) → Memory → (list : ℕ) → (at : Ptr) → (given : Bool) → Run (List ℕ × Memory)
unfolding same_ptr
destroy_from zero m list at given = out_of_fuel
destroy_from (suc fuel) m list at given =
    let rest = λ (m' : Memory) (next : Ptr). destroy_from fuel m' list next given in
    if same_ptr at (some (tail_of list)) then ok ([], m) else (do
      item ← get_item m at
      next ← get_next m at
      back ← get_prev m next
      m' ← free m back
      (gone, m'') ← rest m' next
      ok (if given then item ∷ gone else gone, m''))

-- `List_Destroy`, with a pointer given; the last result is what is left of `*_pList`
unfoldable pub destroy : (fuel : ℕ) → Memory → Ptr → (given : Bool) → Run (List ℕ × Memory × Ptr)
destroy fuel m none given = ok ([], m, none)
destroy fuel m (some list) given = do
  first ← get_next m (some list)
  (gone, m') ← destroy_from fuel m list first given
  m'' ← free m' (some list)
  m''' ← free m'' (some (tail_of list))
  ok (gone, m''', none)
