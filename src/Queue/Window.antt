-- ===== src/Queue/Window.antt =====
-- GenericQueue/GenericQueue.c against a bounded first-in first-out queue.
use native.Mathlib.Decide.{dec_lt}
use native.Mathlib.Nat.{mod-add-mod, mod-eq_of_lt, mod-eq-sub-mod, add-zero}
use chat_project.Prelude.{
  ℕ, zero, suc, ◌+◌, ◌-◌, ◌%◌, ◌^◌, ◌<◌, ◌≤◌, ◌≡◌, ◌≢◌, refl, ap, ◌∙◌, arith, true, false, Option,
  none, some, List, [], ◌∷◌, ◌++◌, ok, live, length, get_elem?, set, replicate, load-ok, store-ok,
  rem-ok, get_elem?-set_self, get_elem?-set_ne, length-set, length-append, length-replicate, ◌==◌,
}
use chat_project.Queue.{
  Queue, qerr_ok, qerr_overflow, megic_num, zeroed, create, insert, insert_array, remove,
  remove_array, is_empty,
}

-- Fewer than `n` steps round an array of `n` cells do not come back to the start.
step_round_ne : (h k n : ℕ) → h < n → suc k < n → (h + suc k) % n ≢ h
step_round_ne h k n hh hk = elim (dec_lt (h + suc k) n) [
  | yes p ↦ omega (arith, mod-eq_of_lt p)
  | no p ↦ omega (
    arith,
    mod-eq-sub-mod {n = h + suc k} {m = n} (omega arith),
    mod-eq_of_lt {n = h + suc k - n} {m = n} (omega arith),
  )
]

shift_round : (h k n : ℕ) → (h + suc k) % n ≡ ((h + 1) % n + k) % n
shift_round h k n = rw mod-add-mod (ap (λ j. j % n) (omega arith))

module _ {ℓ} {A : Type ℓ} where
  -- From index `h` on, going round at `n`, the cells hold the items `xs` in order.
  abbrev pub Window : List (Option A) → ℕ → ℕ → List A → Type ℓ
  Window cells n h [] = Unit
  Window cells n h (x ∷ xs) = (get_elem? cells h ≡ some (some x)) × Window cells n ((h + 1) % n) xs

  -- The queue at `q` holds the items `xs`, oldest first.
  pub record Holds (q : Queue A) (xs : List A) : Type ℓ where
    pub cells : List (Option A)
    pub array : q.queue_array ≡ some cells
    pub width : length cells ≡ q.size
    pub magic : q.magic_number ≡ megic_num
    pub big : 1 < q.size
    pub small : q.size < 2 ^ 64
    pub head_in : q.head < q.size
    pub count : q.n_items ≡ length xs
    pub room : length xs ≤ q.size
    pub tail_at : q.tail ≡ (q.head + length xs) % q.size
    pub window : Window cells q.size q.head xs

  Window-set :
      (cells : List (Option A)) (n h i : ℕ) (v : A) (xs : List A)
      → n ≤ length cells
      → h < n
      → length xs < n
      → i ≡ (h + length xs) % n
      → Window cells n h xs
      → Window (set cells i (some v)) n h (xs ++ v ∷ [])
  Window-set cells n h i v [] big hh few e w =
      let here : i ≡ h = (e ∙ rw (add-zero, mod-eq_of_lt hh)) in
      (rw here (get_elem?-set_self cells h (some v) (omega arith)), tt)
  Window-set cells n h i v (x ∷ xs) big hh few e (w, ws) =
      let i' : i ≡ ((h + 1) % n + length xs) % n = (e ∙ shift_round h (length xs) n) in
      let ne : i ≢ h = rw e (step_round_ne h (length xs) n hh few) in
      (
        get_elem?-set_ne cells i h (some v) ne ∙ w,
        Window-set cells n ((h + 1) % n) i v xs big (omega arith) (omega arith) i' ws,
      )

  -- In zeroed memory, `QueueCreate` with a capacity above 1 gives an empty queue of that capacity.
  pub create-Holds :
      (size : ℕ)
      → 1 < size
      → size < 2 ^ 64
      → (q : Queue A) × (create zeroed size ≡ live q) × Holds q [] × (q.size ≡ size)
  unfolding create
  create-Holds size big small = (
    record {
      queue_array = some (replicate size none);
      size = size;
      head = 0;
      tail = 0;
      n_items = 0;
      magic_number = megic_num;
    },
    ground arith,
    record {
      cells = replicate size none;
      array = refl;
      width = length-replicate size none;
      magic = refl;
      big = big;
      small = small;
      head_in = omega arith;
      count = refl;
      room = omega arith;
      tail_at = omega (arith, mod-eq_of_lt {n = 0} {m = size} (omega arith));
      window = tt;
    },
    refl,
  )

  next_tail :
      {q : Queue A} (xs : List A)
      → Holds q xs
      → (q.tail + 1) % 2 ^ 64 % q.size ≡ (q.head + (length xs + 1)) % q.size
  next_tail {q} xs w =
      let unwrapped : (q.tail + 1) % 2 ^ 64 ≡ q.tail + 1 = omega (arith, w.tail_at) in
      let shifted : q.head + (length xs + 1) ≡ q.head + length xs + 1 = omega arith in
      rw (unwrapped, w.tail_at, shifted, mod-add-mod)

  module _ {q : Queue A} where
    -- `QueueInsert` into a queue with room appends the item and succeeds.
    pub insert-Holds :
        (xs : List A) (v : A)
        → Holds q xs
        → length xs < q.size
        → (q' : Queue A) × (insert (live q) (some v) ≡ ok (qerr_ok, live q'))
          × Holds q' (xs ++ v ∷ [])
          × (q'.size ≡ q.size)
    unfolding insert insert_array
    insert-Holds xs v w few =
        let tail_in : q.tail < q.size = ground (arith, w.tail_at) in
        let unfull : (q.n_items == q.size) ≡ false = ground (arith, w.count) in
        (
          record q {
            queue_array = some (set w.cells q.tail (some v));
            tail = (q.tail + 1) % 2 ^ 64 % q.size;
            n_items = (q.n_items + 1) % 2 ^ 64;
          },
          rw (
            w.array,
            w.magic,
            unfull,
            store-ok w.cells q.tail (some v) (omega arith),
            rem-ok ((q.tail + 1) % 2 ^ 64) q.size (omega arith),
          ),
          record {
            cells = set w.cells q.tail (some v);
            array = refl;
            width = length-set w.cells q.tail (some v) ∙ w.width;
            magic = w.magic;
            big = w.big;
            small = w.small;
            head_in = w.head_in;
            count = omega (arith, length-append xs (v ∷ []));
            room = omega (arith, length-append xs (v ∷ []));
            tail_at = rw (length-append xs (v ∷ [])) (next_tail xs w);
            window =
                Window-set w.cells q.size q.head q.tail v xs (omega arith) w.head_in few w.tail_at
                  w.window;
          },
          refl,
        )

    -- `QueueInsert` into a full queue refuses and changes nothing.
    pub insert-full :
        (xs : List A) (v : A)
        → Holds q xs
        → length xs ≡ q.size
        → insert (live q) (some v) ≡ ok (qerr_overflow, live q)
    unfolding insert insert_array
    insert-full xs v w full =
        let at_size : (q.n_items == q.size) ≡ true = ground (arith, w.count) in
        simp (w.array, w.magic, at_size)

    -- `QueueRemove` from a queue that holds something takes the oldest item.
    pub remove-Holds :
        (x : A) (xs : List A) (out : Option A)
        → Holds q (x ∷ xs)
        → (q' : Queue A) × (remove (live q) out ≡ ok (qerr_ok, some x, live q'))
          × Holds q' xs
          × (q'.size ≡ q.size)
    unfolding remove remove_array
    remove-Holds x xs out w =
        let sized : (q.size == 0) ≡ false = ground (arith, w.big) in
        let unwrapped : (q.head + 1) % 2 ^ 64 ≡ q.head + 1 = omega (arith, w.head_in, w.small) in
        (
          record q {
            head = (q.head + 1) % 2 ^ 64 % q.size;
            n_items = (q.n_items + 2 ^ 64 - 1) % 2 ^ 64;
          },
          simp (
            w.array,
            w.magic,
            sized,
            load-ok w.cells q.head w.window.0,
            rem-ok ((q.head + 1) % 2 ^ 64) q.size (omega arith),
          ),
          record {
            cells = w.cells;
            array = w.array;
            width = w.width;
            magic = w.magic;
            big = w.big;
            small = w.small;
            head_in = omega arith;
            count = omega arith;
            room = omega arith;
            tail_at = rw unwrapped (w.tail_at ∙ shift_round q.head (length xs) q.size);
            window = rw unwrapped w.window.1;
          },
          refl,
        )

    -- `QueueIsEmpty` tells whether the queue holds anything.
    pub is_empty_lem : (xs : List A) → Holds q xs → is_empty (live q) ≡ ok (some (length xs == 0))
    unfolding is_empty
    is_empty_lem [] w =
        let same : q.tail ≡ q.head = (w.tail_at ∙ rw (add-zero, mod-eq_of_lt w.head_in)) in
        ground (arith, w.array, w.magic, w.count, same)
    is_empty_lem (x ∷ xs) w = ground (arith, w.array, w.magic, w.count)

  -- The j-th item of a window stands j steps round from its first index.
  pub Window-get :
      (cells : List (Option A)) (n h j : ℕ) (xs : List A) {x : A}
      → h < n
      → Window cells n h xs
      → get_elem? xs j ≡ some x
      → get_elem? cells ((h + j) % n) ≡ some (some x)
  Window-get cells n h j [] hh w e = ground arith
  Window-get cells n h zero (x ∷ xs) hh (w, ws) e =
      rw (add-zero, mod-eq_of_lt hh) (ground (arith, w))
  Window-get cells n h (suc j) (x ∷ xs) hh (w, ws) e =
      rw (shift_round h j n) (Window-get cells n ((h + 1) % n) j xs (omega arith) ws e)
