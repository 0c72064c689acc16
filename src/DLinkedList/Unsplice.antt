-- ===== src/DLinkedList/Unsplice.antt =====
-- GenericDLinkedList/LinkedListGeneric.c: what the writes of a removal come to.
use chat_project.Prelude.{ℕ, ◌≡◌, refl, ◌∙◌, arith, true, false, none, some, ok, ◌==◌}
use chat_project.DLinkedList.{
  Memory, list_success, get_next, get_prev, get_item, set_next, set_prev, free, tail_of, pop_head,
  pop_tail, same_ptr,
}
use chat_project.DLinkedList.Path.{next_at, prev_at, item_at, Removed}
use chat_project.DLinkedList.Writes.{
  NextSet, PrevSet, PlaceSet, get_next-ok, get_prev-ok, get_item-ok, set_next-ok, set_prev-ok,
  free-ok,
}

module _ (m : Memory) (x n y item : ℕ) (after_x : next_at m x ≡ some (some n))
    (after_n : next_at m n ≡ some (some y)) (before_n : prev_at m n ≡ some (some x))
    (before_y : prev_at m y ≡ some (some n)) (holds : item_at m n ≡ some item)
    (x≠n : (x == n) ≡ false) (y≠n : (y == n) ≡ false) where
  -- One link of each neighbour, and the node given back.
  pop_head-writes :
      (m₁ m₂ m₃ : Memory)
      → NextSet m m₁ x (some y)
      → PrevSet m₁ m₂ y (some x)
      → PlaceSet m₂ m₃ n none
      → Removed m m₃ x n y
  pop_head-writes m₁ m₂ m₃ w₁ w₂ w₃ = record {
    nexts = λ q. ground (arith, w₃.nexts q, w₂.nexts q, w₁.nexts q);
    prevs = λ q. ground (arith, w₃.prevs q, w₂.prevs q, w₁.prevs q);
    items = λ q. ground (arith, w₃.items q, w₂.items q, w₁.items q);
  }

  pop_head-run :
      (m₁ m₂ m₃ : Memory)
      → (n == tail_of x) ≡ false
      → get_next m (some x) ≡ ok (some n)
      → get_item m (some n) ≡ ok item
      → get_next m (some n) ≡ ok (some y)
      → set_next m (some x) (some y) ≡ ok m₁
      → get_next m₁ (some x) ≡ ok (some y)
      → set_prev m₁ (some y) (some x) ≡ ok m₂
      → free m₂ (some n) ≡ ok m₃
      → pop_head m (some x) true ≡ ok (list_success, some item, m₃)
  unfolding pop_head same_ptr
  pop_head-run m₁ m₂ m₃ some_left first it second run₁ new_first run₂ run₃ =
      rw (first, some_left, it, second, run₁, new_first, run₂, run₃) refl

  pub pop_head-Removed :
      (n == tail_of x) ≡ false
      → (m' : Memory) × (pop_head m (some x) true ≡ ok (list_success, some item, m'))
        × Removed m m' x n y
  pop_head-Removed some_left =
      let (m₁, run₁, w₁) = set_next-ok m x (some y) after_x in
      let new_first = get_next-ok m₁ x {v = some y} (w₁.nexts x ∙ ground arith) in
      let (m₂, run₂, w₂) = set_prev-ok m₁ y (some x) {old = some n} (w₁.prevs y ∙ before_y) in
      let (m₃, run₃, w₃) =
        free-ok m₂ n {old = some y} (w₂.nexts n ∙ w₁.nexts n ∙ ground (arith, x≠n, after_n)) in
      (
        m₃,
        pop_head-run m₁ m₂ m₃ some_left (get_next-ok m x after_x) (get_item-ok m n holds)
            (get_next-ok m n after_n) run₁ new_first run₂ run₃,
        pop_head-writes m₁ m₂ m₃ w₁ w₂ w₃,
      )

  pop_tail-run :
      (list first : ℕ) (m₁ m₂ m₃ : Memory)
      → y ≡ tail_of list
      → (first == y) ≡ false
      → get_next m (some list) ≡ ok (some first)
      → get_prev m (some y) ≡ ok (some n)
      → get_item m (some n) ≡ ok item
      → get_prev m (some n) ≡ ok (some x)
      → set_next m (some x) (some y) ≡ ok m₁
      → get_prev m₁ (some n) ≡ ok (some x)
      → set_prev m₁ (some y) (some x) ≡ ok m₂
      → free m₂ (some n) ≡ ok m₃
      → pop_tail m (some list) true ≡ ok (list_success, some item, m₃)
  unfolding pop_tail same_ptr
  pop_tail-run list first m₁ m₂ m₃ tail some_left head last it before run₁ before' run₂ run₃ =
      rw (head, ← tail, some_left, last, it, before, run₁, before', run₂, run₃) refl

  pub pop_tail-Removed :
      (list first : ℕ)
      → y ≡ tail_of list
      → (first == y) ≡ false
      → next_at m list ≡ some (some first)
      → (m' : Memory) × (pop_tail m (some list) true ≡ ok (list_success, some item, m'))
        × Removed m m' x n y
  pop_tail-Removed list first tail some_left head =
      let (m₁, run₁, w₁) = set_next-ok m x (some y) after_x in
      let before' = get_prev-ok m₁ n {v = some x} (w₁.prevs n ∙ before_n) in
      let (m₂, run₂, w₂) = set_prev-ok m₁ y (some x) {old = some n} (w₁.prevs y ∙ before_y) in
      let (m₃, run₃, w₃) =
        free-ok m₂ n {old = some y} (w₂.nexts n ∙ w₁.nexts n ∙ ground (arith, x≠n, after_n)) in
      (
        m₃,
        pop_tail-run list first m₁ m₂ m₃ tail some_left (get_next-ok m list head)
            (get_prev-ok m y before_y) (get_item-ok m n holds) (get_prev-ok m n before_n) run₁
            before' run₂ run₃,
        pop_head-writes m₁ m₂ m₃ w₁ w₂ w₃,
      )
