-- ===== src/DLinkedList/Refine.antt =====
-- GenericDLinkedList/LinkedListGeneric.c: any run of pushes and pops does what it does to a
-- sequence.
use chat_project.Prelude.{
  ℕ, ◌≡◌, refl, ap, arith, Bool, true, false, none, some, List, [], ◌∷◌, ◌++◌, ok, ◌==◌, Bool-cases,
  ◌⊎◌, inl, inr,
}
use mathlib.Core.Path.{subst}
use chat_project.DLinkedList.{
  Ptr, Memory, list_success, list_is_empty, create, push_head, push_tail, pop_head, pop_tail,
  update, same_ptr,
}
use chat_project.DLinkedList.Writes.{get_next-ok}
use chat_project.DLinkedList.Shape.{Cell, IsList}
use chat_project.DLinkedList.Push.{push_head-IsList, push_tail-IsList}
use chat_project.DLinkedList.Pop.{pop_head-IsList, pop_tail-IsList}
use chat_project.DLinkedList.Sequence.{
  Operation, add_first, add_last, take_first, take_last, call, calls, split_last, without_last,
  apply, apply_all, Served, AllServed,
}

pub create-IsList :
    (list head_data tail_data : ℕ) (m : Memory)
    → IsList (create (some list) head_data tail_data m).1 list tail_data []
unfolding create update
create-IsList list head_data tail_data m = record {
  ended = record { loops = ground arith; marked = ground arith };
  links = (ground arith, ground arith, tt);
  distinct = ((ground arith, tt), (tt, tt));
  holds = tt;
}

split_last-snoc : (cells : List Cell) (c : Cell) → split_last (cells ++ (c ∷ [])) ≡ some (cells, c)
unfolding split_last
split_last-snoc [] c = refl
split_last-snoc (d ∷ cells) c = rw (split_last-snoc cells c) refl

snoc_cases :
    (cells : List Cell)
    → (cells ≡ []) ⊎ ((front : List Cell) × (c : Cell) × (cells ≡ front ++ (c ∷ [])))
snoc_cases [] = inl refl
snoc_cases (d ∷ cells) = elim (snoc_cases cells) [
  | inl e ↦ inr ([], d, ap (λ p. d ∷ p) e)
  | inr (front, c, e) ↦ inr (d ∷ front, c, ap (λ p. d ∷ p) e)
]

-- A pop of an empty list.
pop_head-empty :
    (m : Memory) (list mark : ℕ)
    → IsList m list mark []
    → pop_head m (some list) true ≡ ok (list_is_empty, none, m)
unfolding pop_head same_ptr
pop_head-empty m list mark w = rw (get_next-ok m list w.links.0) (ground arith)

pop_tail-empty :
    (m : Memory) (list mark : ℕ)
    → IsList m list mark []
    → pop_tail m (some list) true ≡ ok (list_is_empty, none, m)
unfolding pop_tail same_ptr
pop_tail-empty m list mark w = rw (get_next-ok m list w.links.0) (ground arith)

-- One call: it returns, with the answer and the elements of the call on the sequence.
abbrev Agrees : Operation → Memory → (list mark : ℕ) → List Cell → Type 0
Agrees op m list mark cells =
    (m' : Memory) × (call op m list ≡ ok ((apply op cells).0, m'))
    × IsList m' list mark (apply op cells).1

add_first-Agrees :
    (given : Ptr) (item : ℕ) (m : Memory) (list mark : ℕ) (cells : List Cell)
    → IsList m list mark cells
    → Served list cells (add_first given item)
    → Agrees (add_first given item) m list mark cells
unfolding call apply push_head
add_first-Agrees none item m list mark cells w h = elim (Bool-cases (item == 0)) [
  | inl e ↦ (m, ground (arith, e), rw e w)
  | inr e ↦ (m, ground (arith, e), rw e w)
]
add_first-Agrees (some n) item m list mark cells w h = elim (Bool-cases (item == 0)) [
  | inl e ↦ (m, ground (arith, e), rw e w)
  | inr e ↦
      let (m', run, w') = push_head-IsList m list mark n item cells w h e in
      (m', rw (run, e) refl, rw e w')
]

add_last-Agrees :
    (given : Ptr) (item : ℕ) (m : Memory) (list mark : ℕ) (cells : List Cell)
    → IsList m list mark cells
    → Served list cells (add_last given item)
    → Agrees (add_last given item) m list mark cells
unfolding call apply push_tail
add_last-Agrees none item m list mark cells w h = (m, ground (arith, h), rw h w)
add_last-Agrees (some n) item m list mark cells w h = elim (Bool-cases (item == 0)) [
  | inl e ↦ (m, ground (arith, e), rw e w)
  | inr e ↦
      let (m', run, w') = push_tail-IsList m list mark n item cells w h e in
      (m', rw (run, e) refl, rw e w')
]

take_first-Agrees :
    (wanted : Bool) (m : Memory) (list mark : ℕ) (cells : List Cell)
    → IsList m list mark cells
    → Agrees (take_first wanted) m list mark cells
unfolding call apply pop_head
take_first-Agrees false m list mark cells w = (m, refl, w)
take_first-Agrees true m list mark [] w = (m, rw (pop_head-empty m list mark w) refl, w)
take_first-Agrees true m list mark (c ∷ cells) w =
    let (m', run, w') = pop_head-IsList m list mark c cells w in (m', rw run refl, w')

apply-last :
    (cells front : List Cell) (c : Cell)
    → cells ≡ front ++ (c ∷ [])
    → apply (take_last true) cells ≡ ((list_success, some c.item), front)
unfolding apply
apply-last cells front c e = rw e (ap (without_last (front ++ (c ∷ []))) (split_last-snoc front c))

take_last-Agrees :
    (wanted : Bool) (m : Memory) (list mark : ℕ) (cells : List Cell)
    → IsList m list mark cells
    → Agrees (take_last wanted) m list mark cells
unfolding call apply split_last pop_tail
take_last-Agrees false m list mark cells w = (m, refl, w)
take_last-Agrees true m list mark cells w = elim (snoc_cases cells) [
  | inl e ↦
      let w₀ : IsList m list mark [] = subst (IsList m list mark) e w in
      (m, rw (pop_tail-empty m list mark w₀, e) refl, rw e w₀)
  | inr (front, c, e) ↦
      let (m', run, w') = pop_tail-IsList m list mark c front (subst (IsList m list mark) e w) in
      (m', rw (apply-last cells front c e, run) refl, rw (apply-last cells front c e) w')
]

call-Agrees :
    (op : Operation) (m : Memory) (list mark : ℕ) (cells : List Cell)
    → IsList m list mark cells
    → Served list cells op
    → Agrees op m list mark cells
call-Agrees (add_first given item) m list mark cells w h =
    add_first-Agrees given item m list mark cells w h
call-Agrees (add_last given item) m list mark cells w h =
    add_last-Agrees given item m list mark cells w h
call-Agrees (take_first wanted) m list mark cells w h = take_first-Agrees wanted m list mark cells w
call-Agrees (take_last wanted) m list mark cells w h = take_last-Agrees wanted m list mark cells w

calls_from :
    (ops : List Operation) (m : Memory) (list mark : ℕ) (cells : List Cell)
    → IsList m list mark cells
    → AllServed list cells ops
    → (m' : Memory) × (calls ops m list ≡ ok ((apply_all ops cells).0, m'))
      × IsList m' list mark (apply_all ops cells).1
unfolding calls apply_all
calls_from [] m list mark cells w h = (m, refl, w)
calls_from (op ∷ ops) m list mark cells w (served, h) =
    let (m₁, run, w₁) = call-Agrees op m list mark cells w served in
    let (m₂, runs, w₂) = calls_from ops m₁ list mark (apply op cells).1 w₁ h in
    (m₂, rw (run, runs) refl, w₂)

-- From `List_Create` on, any run of `List_PushHead`, `List_PushTail`, `List_PopHead` and
-- `List_PopTail`, with NULL arguments and a failing `malloc` among them, returns; it gives the
-- results and the data that the same run gives on a sequence, and leaves in memory a list of that
-- sequence, linked in both directions. `malloc` gives no address that the list uses at that time,
-- and does not fail in a `List_PushTail` of data that is not NULL.
pub calls_refine :
    (list head_data tail_data : ℕ) (m : Memory) (ops : List Operation)
    → AllServed list [] ops
    → (m' : Memory) × (calls ops (create (some list) head_data tail_data m).1 list
        ≡ ok ((apply_all ops []).0, m'))
      × IsList m' list tail_data (apply_all ops []).1
calls_refine list head_data tail_data m ops h =
    calls_from ops (create (some list) head_data tail_data m).1 list tail_data []
      (create-IsList list head_data tail_data m) h
