-- ===== src/Queue/Stale.antt =====
-- GenericQueue/GenericQueue.c at a queue that holds nothing: `QueueRemove` tests `m_size`, the
-- capacity, where it would have to test `m_nItems`. And `QueueDestroy`, which frees by index.
use chat_project.Prelude.{
  ℕ, zero, suc, ◌+◌, ◌-◌, ◌%◌, ◌^◌, ◌<◌, ◌≤◌, ◌≡◌, refl, arith, false, Option, some, List, [], ◌∷◌,
  ok, live, dangling, length, get_elem?, take, load-ok, rem-ok, ◌==◌, get_elem?-of_lt,
}
use chat_project.Queue.{
  Queue, qerr_ok, megic_num, remove, remove_array, is_empty, destroy, free_items,
}
use chat_project.Queue.Window.{Holds}

module _ {ℓ} {A : Type ℓ} where
  -- What `QueueRemove` needs to run: nothing of how many items there are.
  pub record HasCells (q : Queue A) (cells : List (Option A)) : Type ℓ where
    pub array : q.queue_array ≡ some cells
    pub magic : q.magic_number ≡ megic_num
    pub width : length cells ≡ q.size
    pub head_in : q.head < q.size
    pub small : q.size < 2 ^ 64

  -- the queue after one `QueueRemove`
  abbrev pub after_remove : Queue A → Queue A
  after_remove q = record q {
    head = (q.head + 1) % q.size;
    n_items = (q.n_items + 2 ^ 64 - 1) % 2 ^ 64;
  }

  pub remove-HasCells :
      (q : Queue A) (cells : List (Option A)) (item out : Option A)
      → HasCells q cells
      → get_elem? cells q.head ≡ some item
      → (remove (live q) out ≡ ok (qerr_ok, item, live (after_remove q)))
        × HasCells (after_remove q) cells
  unfolding remove remove_array
  remove-HasCells q cells item out w e =
      let sized : (q.size == 0) ≡ false = ground (arith, w.head_in) in
      let unwrapped : (q.head + 1) % 2 ^ 64 ≡ q.head + 1 = omega (arith, w.head_in, w.small) in
      (
        simp (
          w.array,
          w.magic,
          sized,
          load-ok cells q.head e,
          unwrapped,
          rem-ok (q.head + 1) q.size (omega arith),
        ),
        record {
          array = w.array;
          magic = w.magic;
          width = w.width;
          head_in = omega (arith, w.head_in);
          small = w.small;
        },
      )

  pub Holds-HasCells : {q : Queue A} {xs : List A} (w : Holds q xs) → HasCells q w.cells
  Holds-HasCells w = record {
    array = w.array;
    magic = w.magic;
    width = w.width;
    head_in = w.head_in;
    small = w.small;
  }

  -- `QueueRemove` from a queue that holds nothing reports success, hands out what the cell at the
  -- head still has, and wraps the count, so that the queue no longer reads as empty.
  pub remove-drained :
      (q : Queue A) (out : Option A)
      → Holds q []
      → (cells : List (Option A)) × (item : Option A) × (q' : Queue A) × (q.queue_array
          ≡ some cells)
        × (get_elem? cells q.head ≡ some item)
        × (remove (live q) out ≡ ok (qerr_ok, item, live q'))
        × (q'.n_items ≡ 2 ^ 64 - 1)
        × (is_empty (live q') ≡ ok (some false))
  unfolding is_empty
  remove-drained q out w =
      let (item, e) = get_elem?-of_lt w.cells q.head (omega (arith, w.head_in, w.width)) in
      (
        w.cells,
        item,
        after_remove q,
        w.array,
        e,
        (remove-HasCells q w.cells item out (Holds-HasCells w) e).0,
        ground (arith, w.count),
        ground (arith, w.count, w.array, w.magic),
      )

  free_items-take :
      (n : ℕ) (cells : List (Option A)) → n ≤ length cells → free_items n cells ≡ ok (take n cells)
  unfolding free_items
  free_items-take zero cells h = refl
  free_items-take (suc n) [] h = absurd (omega arith)
  free_items-take (suc n) (c ∷ cells) h = rw (free_items-take n cells (omega arith))

  -- `QueueDestroy` frees the pointers in the cells 0 to n - 1, n the number of items, wherever
  -- the head stands, and leaves a dangling pointer.
  pub destroy-take :
      (q : Queue A) (xs : List A) (w : Holds q xs)
      → destroy (live q) ≡ ok (take (length xs) w.cells, dangling)
  unfolding destroy
  destroy-take q [] w = ground (arith, w.count, w.magic)
  destroy-take q (x ∷ xs) w =
      let fits : length (x ∷ xs) ≤ length w.cells = omega (arith, w.room, w.width) in
      simp (w.magic, w.count, w.array, free_items-take (length (x ∷ xs)) w.cells fits)
