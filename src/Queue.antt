-- ===== src/Queue.antt =====
-- GenericQueue/GenericQueue.c: a circular buffer of pointers. A `Queue*` is a `Ref`, an item is an
-- `Option` with `none` for NULL, and `size_t` arithmetic is modulo 2 ^ 64.
pub mod Window
pub mod Refine
pub mod Stale
mod Tests
use chat_project.Prelude.{
  ℕ, zero, suc, ◌+◌, ◌-◌, ◌%◌, ◌^◌, Bool, true, false, not, ◌&&◌, ◌||◌, Option, none, some, List,
  [], ◌∷◌, Run, ok, fault, Ref, null, dangling, live, ◌>>=◌, load, store, rem, ◌==◌, leb, replicate,
  if◌then◌else◌,
}

-- `QueueErr`
pub data QueueErr : Type 0 where
  qerr_ok qerr_not_initialized qerr_underflow qerr_overflow : QueueErr

abbrev pub megic_num : ℕ
megic_num = 873_613

-- `struct Queue`; a NULL `m_queueArray` is `none`
pub record Queue {ℓ} (A : Type ℓ) : Type ℓ where
  pub queue_array : Option (List (Option A))
  pub size : ℕ
  pub head : ℕ
  pub tail : ℕ
  pub n_items : ℕ
  pub magic_number : ℕ

-- What `malloc` left in the fields that `QueueCreate` does not set, and whether both calls succeed.
pub record CreateMemory : Type 0 where
  pub queue_ok : Bool
  pub array_ok : Bool
  pub head : ℕ
  pub tail : ℕ
  pub n_items : ℕ

-- the block that `malloc` and `memset` would give: both calls succeed and the memory is zero
abbrev pub zeroed : CreateMemory
zeroed = record { queue_ok = true; array_ok = true; head = 0; tail = 0; n_items = 0 }

module _ {ℓ} {A : Type ℓ} where
  -- `QueueCreate`
  unfoldable pub create : CreateMemory → ℕ → Ref (Queue A)
  create mem size =
      if leb size 1
      then null
      else if not mem.queue_ok
      then null
      else if not mem.array_ok
      then null
      else live (record {
        queue_array = some (replicate size none);
        size = size;
        head = mem.head;
        tail = mem.tail;
        n_items = mem.n_items;
        magic_number = megic_num;
      })

  -- the loop of `QueueDestroy`: what it frees; it reads past the array where that is shorter
  unfoldable pub free_items : ℕ → List (Option A) → Run (List (Option A))
  free_items zero cells = ok []
  free_items (suc n) [] = fault
  free_items (suc n) (c ∷ cells) = free_items n cells >>= (λ freed. ok (c ∷ freed))

  free_array : ℕ → Option (List (Option A)) → Run (List (Option A))
  free_array zero cells = ok []
  free_array (suc n) none = fault
  free_array (suc n) (some cells) = free_items (suc n) cells

  -- `QueueDestroy`: the pointers it frees, and the caller's pointer. It reads `m_nItems` first.
  unfoldable pub destroy : Ref (Queue A) → Run (List (Option A) × Ref (Queue A))
  unfolding free_array free_items
  destroy null = fault
  destroy dangling = fault
  destroy (live q) =
      if not (q.magic_number == megic_num)
      then ok ([], live q)
      else (free_array q.n_items q.queue_array >>= (λ freed. ok (freed, dangling)))

  insert_array : Queue A → List (Option A) → A → Run (QueueErr × Ref (Queue A))
  insert_array q cells item =
      if not (q.magic_number == megic_num)
      then ok (qerr_not_initialized, live q)
      else if q.n_items == q.size
      then ok (qerr_overflow, live q)
      else do
        cells' ← store cells q.tail (some item)
        tail' ← rem ((q.tail + 1) % 2 ^ 64) q.size
        let n_items' = (q.n_items + 1) % 2 ^ 64
        ok (
          qerr_ok,
          live (record q { queue_array = some cells'; tail = tail'; n_items = n_items' }),
        )

  -- `QueueInsert`
  unfoldable pub insert : Ref (Queue A) → Option A → Run (QueueErr × Ref (Queue A))
  unfolding insert_array
  insert null item = ok (qerr_not_initialized, null)
  insert dangling item = fault
  insert (live q) none = ok (qerr_not_initialized, live q)
  insert (live q) (some item) = elim q.queue_array [
    | none ↦ ok (qerr_not_initialized, live q)
    | some cells ↦ insert_array q cells item
  ]

  remove_array : Queue A → List (Option A) → Option A → Run (QueueErr × Option A × Ref (Queue A))
  remove_array q cells out =
      if not (q.magic_number == megic_num)
      then ok (qerr_not_initialized, out, live q)
      else if q.size == 0
      then ok (qerr_underflow, out, live q)
      else do
        item ← load cells q.head
        head' ← rem ((q.head + 1) % 2 ^ 64) q.size
        let n_items' = (q.n_items + 2 ^ 64 - 1) % 2 ^ 64
        ok (qerr_ok, item, live (record q { head = head'; n_items = n_items' }))

  -- `QueueRemove`; `out` is `*_item` before the call, the second result `*_item` after it
  unfoldable pub remove : Ref (Queue A) → Option A → Run (QueueErr × Option A × Ref (Queue A))
  unfolding remove_array
  remove null out = ok (qerr_not_initialized, out, null)
  remove dangling out = fault
  remove (live q) out = elim q.queue_array [
    | none ↦ ok (qerr_not_initialized, out, live q)
    | some cells ↦ remove_array q cells out
  ]

  -- `QueueIsEmpty`; `none` stands for the result -1
  unfoldable pub is_empty : Ref (Queue A) → Run (Option Bool)
  is_empty null = ok none
  is_empty dangling = fault
  is_empty (live q) = elim q.queue_array [
    | none ↦ ok none
    | some cells ↦
        if not (q.magic_number == megic_num)
        then ok none
        else ok (some ((q.n_items == 0) && (q.head == q.tail)))
  ]
