-- ===== src/DLinkedList/Splice.antt =====
-- GenericDLinkedList/LinkedListGeneric.c: what the writes of an insertion come to.
use chat_project.Prelude.{ℕ, ◌≡◌, refl, ◌∙◌, arith, false, none, some, ok, ◌==◌}
use chat_project.DLinkedList.{
  Memory, list_success, update, get_next, get_prev, set_next, set_prev, set_item, blank, tail_of,
  push_head, push_tail,
}
use chat_project.DLinkedList.Path.{next_at, prev_at, Inserted}
use chat_project.DLinkedList.Writes.{
  NextSet, PrevSet, ItemSet, PlaceSet, update-PlaceSet, get_next-ok, get_prev-ok, set_next-ok,
  set_prev-ok, set_item-ok,
}

module _ (m : Memory) (x n y item : ℕ) (after_x : next_at m x ≡ some (some y))
    (before_y : prev_at m y ≡ some (some x)) (x≠n : (x == n) ≡ false) (y≠n : (y == n) ≡ false)
    (y≠x : (y == x) ≡ false) (given : (item == 0) ≡ false) where
  -- Two links of the new node, one of each neighbour and the data, in the order of `List_PushHead`.
  push_head-writes :
      (m₀ m₁ m₂ m₃ m₄ m₅ : Memory)
      → PlaceSet m m₀ n (some blank)
      → NextSet m₀ m₁ n (some y)
      → PrevSet m₁ m₂ n (some x)
      → NextSet m₂ m₃ x (some n)
      → PrevSet m₃ m₄ y (some n)
      → ItemSet m₄ m₅ n item
      → Inserted m m₅ x n y item
  push_head-writes m₀ m₁ m₂ m₃ m₄ m₅ w₀ w₁ w₂ w₃ w₄ w₅ = record {
    nexts = λ q.
        w₅.nexts q
        ∙ w₄.nexts q
        ∙ ground (arith, w₃.nexts q, w₂.nexts q, w₁.nexts q, w₀.nexts q, x≠n);
    prevs = λ q.
        w₅.prevs q
        ∙ ground (arith, w₄.prevs q, w₃.prevs q, w₂.prevs q, w₁.prevs q, w₀.prevs q, y≠n);
    items = λ q.
        w₅.items q ∙ ground (arith, w₄.items q, w₃.items q, w₂.items q, w₁.items q, w₀.items q);
  }

  push_head-run :
      (m₁ m₂ m₃ m₄ m₅ : Memory)
      → get_next (update m n (some blank)) (some x) ≡ ok (some y)
      → set_next (update m n (some blank)) (some n) (some y) ≡ ok m₁
      → set_prev m₁ (some n) (some x) ≡ ok m₂
      → set_next m₂ (some x) (some n) ≡ ok m₃
      → get_next m₃ (some n) ≡ ok (some y)
      → set_prev m₃ (some y) (some n) ≡ ok m₄
      → set_item m₄ (some n) item ≡ ok m₅
      → push_head (some n) m (some x) item ≡ ok (list_success, m₅)
  unfolding push_head
  push_head-run m₁ m₂ m₃ m₄ m₅ first run₁ run₂ run₃ after run₄ run₅ =
      ground (arith, given, first, run₁, run₂, run₃, after, run₄, run₅)

  pub push_head-Inserted :
      (m' : Memory) × (push_head (some n) m (some x) item ≡ ok (list_success, m'))
      × Inserted m m' x n y item
  push_head-Inserted =
      let m₀ = update m n (some blank) in
      let w₀ = update-PlaceSet m n (some blank) in
      let first = get_next-ok m₀ x {v = some y} (w₀.nexts x ∙ ground (arith, x≠n, after_x)) in
      let (m₁, run₁, w₁) = set_next-ok m₀ n (some y) {old = none} (w₀.nexts n ∙ ground arith) in
      let (m₂, run₂, w₂) =
        set_prev-ok m₁ n (some x) {old = none} (w₁.prevs n ∙ w₀.prevs n ∙ ground arith) in
      let (m₃, run₃, w₃) =
        set_next-ok m₂ x (some n) {old = some y}
          (w₂.nexts x ∙ w₁.nexts x ∙ rw x≠n (w₀.nexts x ∙ rw x≠n after_x)) in
      let after =
        get_next-ok m₃ n {v = some y} (w₃.nexts n ∙ ground (arith, w₂.nexts n ∙ w₁.nexts n, x≠n)) in
      let (m₄, run₄, w₄) =
        set_prev-ok m₃ y (some n) {old = some x}
          (w₃.prevs y ∙ w₂.prevs y ∙ rw y≠n (w₁.prevs y ∙ w₀.prevs y ∙ rw y≠n before_y)) in
      let (m₅, run₅, w₅) =
        set_item-ok m₄ n item {old = 0}
          (w₄.items n ∙ w₃.items n ∙ w₂.items n ∙ w₁.items n ∙ w₀.items n ∙ ground arith) in
      (
        m₅,
        push_head-run m₁ m₂ m₃ m₄ m₅ first run₁ run₂ run₃ after run₄ run₅,
        push_head-writes m₀ m₁ m₂ m₃ m₄ m₅ w₀ w₁ w₂ w₃ w₄ w₅,
      )

  -- The same in the order of `List_PushTail`.
  push_tail-writes :
      (m₀ m₁ m₂ m₃ m₄ m₅ : Memory)
      → PlaceSet m m₀ n (some blank)
      → PrevSet m₀ m₁ n (some x)
      → NextSet m₁ m₂ n (some y)
      → NextSet m₂ m₃ x (some n)
      → PrevSet m₃ m₄ y (some n)
      → ItemSet m₄ m₅ n item
      → Inserted m m₅ x n y item
  push_tail-writes m₀ m₁ m₂ m₃ m₄ m₅ w₀ w₁ w₂ w₃ w₄ w₅ = record {
    nexts = λ q.
        w₅.nexts q
        ∙ w₄.nexts q
        ∙ ground (arith, w₃.nexts q, w₂.nexts q, w₁.nexts q, w₀.nexts q, x≠n);
    prevs = λ q.
        w₅.prevs q
        ∙ ground (arith, w₄.prevs q, w₃.prevs q, w₂.prevs q, w₁.prevs q, w₀.prevs q, y≠n);
    items = λ q.
        w₅.items q ∙ ground (arith, w₄.items q, w₃.items q, w₂.items q, w₁.items q, w₀.items q);
  }

  push_tail-run :
      (list : ℕ) (m₁ m₂ m₃ m₄ m₅ : Memory)
      → y ≡ tail_of list
      → get_prev (update m n (some blank)) (some y) ≡ ok (some x)
      → set_prev (update m n (some blank)) (some n) (some x) ≡ ok m₁
      → set_next m₁ (some n) (some y) ≡ ok m₂
      → get_prev m₂ (some y) ≡ ok (some x)
      → set_next m₂ (some x) (some n) ≡ ok m₃
      → get_next m₃ (some n) ≡ ok (some y)
      → set_prev m₃ (some y) (some n) ≡ ok m₄
      → set_item m₄ (some n) item ≡ ok m₅
      → push_tail (some n) m (some list) item ≡ ok (list_success, m₅)
  unfolding push_tail
  push_tail-run list m₁ m₂ m₃ m₄ m₅ tail last run₁ run₂ before run₃ after run₄ run₅ =
      rw (given, ← tail, last, run₁, run₂, before, run₃, after, run₄, run₅) refl

  pub push_tail-Inserted :
      (list : ℕ)
      → y ≡ tail_of list
      → (m' : Memory) × (push_tail (some n) m (some list) item ≡ ok (list_success, m'))
        × Inserted m m' x n y item
  push_tail-Inserted list tail =
      let m₀ = update m n (some blank) in
      let w₀ = update-PlaceSet m n (some blank) in
      let last = get_prev-ok m₀ y {v = some x} (w₀.prevs y ∙ ground (arith, y≠n, before_y)) in
      let (m₁, run₁, w₁) = set_prev-ok m₀ n (some x) {old = none} (w₀.prevs n ∙ ground arith) in
      let (m₂, run₂, w₂) =
        set_next-ok m₁ n (some y) {old = none} (w₁.nexts n ∙ w₀.nexts n ∙ ground arith) in
      let before =
        get_prev-ok m₂ y {v = some x}
          (w₂.prevs y ∙ w₁.prevs y ∙ rw y≠n (w₀.prevs y ∙ rw y≠n before_y)) in
      let (m₃, run₃, w₃) =
        set_next-ok m₂ x (some n) {old = some y}
          (w₂.nexts x ∙ rw x≠n (w₁.nexts x ∙ w₀.nexts x ∙ rw x≠n after_x)) in
      let after = get_next-ok m₃ n {v = some y} (w₃.nexts n ∙ ground (arith, w₂.nexts n, x≠n)) in
      let (m₄, run₄, w₄) =
        set_prev-ok m₃ y (some n) {old = some x}
          (w₃.prevs y ∙ w₂.prevs y ∙ w₁.prevs y ∙ rw y≠n (w₀.prevs y ∙ rw y≠n before_y)) in
      let (m₅, run₅, w₅) =
        set_item-ok m₄ n item {old = 0}
          (w₄.items n ∙ w₃.items n ∙ w₂.items n ∙ w₁.items n ∙ w₀.items n ∙ ground arith) in
      (
        m₅,
        push_tail-run list m₁ m₂ m₃ m₄ m₅ tail last run₁ run₂ before run₃ after run₄ run₅,
        push_tail-writes m₀ m₁ m₂ m₃ m₄ m₅ w₀ w₁ w₂ w₃ w₄ w₅,
      )
