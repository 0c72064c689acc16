-- ===== src/ListItr/Splice.antt =====
-- GeneticListIter/LinkedListGenericIter.c: an insertion before an iterator, and the removal of its
-- node.
use chat_project.Prelude.{
  ℕ, ◌<◌, ◌≤◌, ◌≡◌, refl, ◌∙◌, arith, true, false, none, some, ok, fault, ◌==◌, ltb, Bool-cases,
  inl, inr,
}
use chat_project.DLinkedList.{
  Memory, update, get_next, get_prev, get_item, set_next, set_prev, set_item, free, blank, same_ptr,
}
use chat_project.DLinkedList.Path.{next_at, prev_at, item_at, Inserted, Removed}
use chat_project.DLinkedList.Writes.{
  NextSet, PrevSet, ItemSet, PlaceSet, update-PlaceSet, get_next-ok, get_prev-ok, get_item-ok,
  set_next-ok, set_prev-ok, set_item-ok, free-ok,
}
use chat_project.ListItr.{within, insert_before, step_next, remove}

module _ (m : Memory) (x n y item : ℕ) (after_x : next_at m x ≡ some (some n))
    (after_n : next_at m n ≡ some (some y)) (before_n : prev_at m n ≡ some (some x))
    (before_y : prev_at m y ≡ some (some n)) (holds : item_at m n ≡ some item)
    (x≠n : (x == n) ≡ false) (y≠n : (y == n) ≡ false) where
  -- One link of each neighbour, and the node given back, in the order of `ListItr_Remove`.
  remove-writes :
      (m₁ m₂ m₃ : Memory)
      → PrevSet m m₁ y (some x)
      → NextSet m₁ m₂ x (some y)
      → PlaceSet m₂ m₃ n none
      → Removed m m₃ x n y
  remove-writes m₁ m₂ m₃ w₁ w₂ w₃ = record {
    nexts = λ q. ground (arith, w₃.nexts q, w₂.nexts q, w₁.nexts q);
    prevs = λ q. ground (arith, w₃.prevs q, w₂.prevs q, w₁.prevs q);
    items = λ q. ground (arith, w₃.items q, w₂.items q, w₁.items q);
  }

  remove-run :
      (m₁ m₂ m₃ : Memory)
      → get_next m (some n) ≡ ok (some y)
      → get_item m (some n) ≡ ok item
      → get_prev m (some n) ≡ ok (some x)
      → set_prev m (some y) (some x) ≡ ok m₁
      → get_prev m₁ (some n) ≡ ok (some x)
      → get_next m₁ (some n) ≡ ok (some y)
      → set_next m₁ (some x) (some y) ≡ ok m₂
      → free m₂ (some n) ≡ ok m₃
      → remove m (some n) ≡ ok (item, m₃)
  unfolding remove same_ptr step_next
  remove-run m₁ m₂ m₃ after it before run₁ before' after' run₂ run₃ =
      rw (after, y≠n, it, before, run₁, before', after', run₂, run₃) refl

  pub remove-Removed : (m' : Memory) × (remove m (some n) ≡ ok (item, m')) × Removed m m' x n y
  remove-Removed =
      let (m₁, run₁, w₁) = set_prev-ok m y (some x) before_y in
      let before' = get_prev-ok m₁ n {v = some x} (w₁.prevs n ∙ ground (arith, y≠n, before_n)) in
      let after' = get_next-ok m₁ n {v = some y} (w₁.nexts n ∙ after_n) in
      let (m₂, run₂, w₂) = set_next-ok m₁ x (some y) {old = some n} (w₁.nexts x ∙ after_x) in
      let (m₃, run₃, w₃) =
        free-ok m₂ n {old = some y} (w₂.nexts n ∙ ground (arith, x≠n, w₁.nexts n, after_n)) in
      (
        m₃,
        remove-run m₁ m₂ m₃ (get_next-ok m n after_n) (get_item-ok m n holds)
            (get_prev-ok m n before_n) run₁ before' after' run₂ run₃,
        remove-writes m₁ m₂ m₃ w₁ w₂ w₃,
      )

module _ (size : ℕ) (m : Memory) (x n y item : ℕ) (after_x : next_at m x ≡ some (some y))
    (before_y : prev_at m y ≡ some (some x)) (x≠n : (x == n) ≡ false) (y≠n : (y == n) ≡ false)
    (given : (item == 0) ≡ false) where
  -- The data, two links of the new node and one of each neighbour, in the order of
  -- `ListItr_InsertBefore`.
  insert_before-writes :
      (m₀ m₁ m₂ m₃ m₄ m₅ : Memory)
      → PlaceSet m m₀ n (some blank)
      → ItemSet m₀ m₁ n item
      → NextSet m₁ m₂ n (some y)
      → PrevSet m₂ m₃ n (some x)
      → PrevSet m₃ m₄ y (some n)
      → NextSet m₄ m₅ x (some n)
      → Inserted m m₅ x n y item
  insert_before-writes m₀ m₁ m₂ m₃ m₄ m₅ w₀ w₁ w₂ w₃ w₄ w₅ = record {
    nexts = λ q.
        w₅.nexts q
        ∙ ground (arith, w₄.nexts q, w₃.nexts q, w₂.nexts q, w₁.nexts q, w₀.nexts q, x≠n);
    prevs = λ q.
        w₅.prevs q
        ∙ w₄.prevs q
        ∙ ground (arith, w₃.prevs q, w₂.prevs q, w₁.prevs q, w₀.prevs q, y≠n);
    items = λ q.
        w₅.items q ∙ w₄.items q ∙ ground (arith, w₃.items q, w₂.items q, w₁.items q, w₀.items q);
  }

  insert_before-run :
      (m₁ m₂ m₃ m₄ m₅ : Memory)
      → 24 ≤ size
      → set_item (update m n (some blank)) (some n) item ≡ ok m₁
      → set_next m₁ (some n) (some y) ≡ ok m₂
      → get_prev m₂ (some y) ≡ ok (some x)
      → set_prev m₂ (some n) (some x) ≡ ok m₃
      → set_prev m₃ (some y) (some n) ≡ ok m₄
      → get_prev m₄ (some n) ≡ ok (some x)
      → set_next m₄ (some x) (some n) ≡ ok m₅
      → insert_before (some n) size m (some y) item ≡ ok (some n, m₅)
  unfolding insert_before within
  insert_before-run m₁ m₂ m₃ m₄ m₅ room run₁ run₂ before run₃ run₄ back run₅ =
      let second : ltb size 16 ≡ false = ground (arith, room) in
      let third : ltb size 24 ≡ false = ground (arith, room) in
      rw (given, run₁, second, run₂, before, third, run₃, run₄, back, run₅) refl

  pub insert_before-Inserted :
      24 ≤ size
      → (m' : Memory) × (insert_before (some n) size m (some y) item ≡ ok (some n, m'))
        × Inserted m m' x n y item
  insert_before-Inserted room =
      let m₀ = update m n (some blank) in
      let w₀ = update-PlaceSet m n (some blank) in
      let (m₁, run₁, w₁) = set_item-ok m₀ n item {old = 0} (w₀.items n ∙ ground arith) in
      let (m₂, run₂, w₂) =
        set_next-ok m₁ n (some y) {old = none} (w₁.nexts n ∙ w₀.nexts n ∙ ground arith) in
      let before =
        get_prev-ok m₂ y {v = some x} (w₂.prevs y ∙ w₁.prevs y ∙ w₀.prevs y ∙ rw y≠n before_y) in
      let (m₃, run₃, w₃) =
        set_prev-ok m₂ n (some x) {old = none}
          (w₂.prevs n ∙ w₁.prevs n ∙ w₀.prevs n ∙ ground arith) in
      let (m₄, run₄, w₄) =
        set_prev-ok m₃ y (some n) {old = some x}
          (w₃.prevs y ∙ rw y≠n (w₂.prevs y ∙ w₁.prevs y ∙ w₀.prevs y ∙ rw y≠n before_y)) in
      let back = get_prev-ok m₄ n {v = some x} (w₄.prevs n ∙ ground (arith, w₃.prevs n, y≠n)) in
      let (m₅, run₅, w₅) = set_next-ok m₄ x (some n) {old = some y} (
        w₄.nexts x ∙ w₃.nexts x ∙ w₂.nexts x ∙ rw x≠n (w₁.nexts x ∙ w₀.nexts x ∙ rw x≠n after_x)) in
      (
        m₅,
        insert_before-run m₁ m₂ m₃ m₄ m₅ room run₁ run₂ before run₃ run₄ back run₅,
        insert_before-writes m₀ m₁ m₂ m₃ m₄ m₅ w₀ w₁ w₂ w₃ w₄ w₅,
      )

  pub insert_before-small : size < 24 → insert_before (some n) size m (some y) item ≡ fault
  unfolding insert_before within
  insert_before-small room =
      let m₀ = update m n (some blank) in
      let w₀ = update-PlaceSet m n (some blank) in
      let (m₁, run₁, w₁) = set_item-ok m₀ n item {old = 0} (w₀.items n ∙ ground arith) in
      let (m₂, run₂, w₂) =
        set_next-ok m₁ n (some y) {old = none} (w₁.nexts n ∙ w₀.nexts n ∙ ground arith) in
      let before =
        get_prev-ok m₂ y {v = some x} (w₂.prevs y ∙ w₁.prevs y ∙ w₀.prevs y ∙ rw y≠n before_y) in
      let third : ltb size 24 ≡ true = ground (arith, room) in
      elim (Bool-cases (ltb size 16)) [
        | inl e ↦ rw (given, run₁, e) refl
        | inr e ↦ rw (given, run₁, e, run₂, before, third) refl
      ]
