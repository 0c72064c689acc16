-- ===== src/IpPool/Cycle.antt =====
-- PoolAddr/PoolMultyCastAdd.c: which addresses `GetIPAddress` hands out, and in what order. The
-- queue is never seen to be empty, so the addresses come round again after the fiftieth.
use chat_project.Prelude.{
  ℕ, zero, suc, ◌+◌, ◌-◌, ◌/◌, ◌%◌, ◌^◌, ◌<◌, ◌≡◌, ◌↔◌, refl, ap, sym, ◌∙◌, arith, Bool, true,
  Option, none, some, List, [], ◌∷◌, Run, ok, fault, Ref, live, dangling, ◌>>=◌, length, get_elem?,
  ◌==◌, ==_iff, Bool-cases, inl, inr, if◌then◌else◌, Bytes, strcpy-ok, str_equal, str_equal_refl,
  ◌&&◌, replicate,
}
use chat_project.Queue
use chat_project.Queue.{Queue, qerr_ok, qerr_overflow}
use chat_project.Queue.Window.{Holds, Window-get, insert-full}
use chat_project.Queue.Stale.{HasCells, Holds-HasCells, after_remove, remove-HasCells, destroy-take}
use chat_project.IpPool.{
  IpPool, IpAddrErr, addr_success, addr_insert_fail, plenty, create, print_ip, get_ip_address,
  return_ip_address, return_item,
}
use chat_project.IpPool.Fill.{
  address, addresses, get_elem?-addresses, length-print_ip, create-addresses,
}

-- The pool has the 50 addresses in its array, and `k` draws have been made from it.
pub record Drawn (k : ℕ) (pool : IpPool) : Type 0 where
  pub queue : Queue Bytes
  pub cells : List (Option Bytes)
  pub start : ℕ
  pub at : pool.queue_addr ≡ live queue
  pub has : HasCells queue cells
  pub sized : queue.size ≡ 50
  pub head_at : queue.head ≡ (start + k) % 50
  pub reads : (j : ℕ) → j < 50 → get_elem? cells ((start + j) % 50) ≡ some (some (address j))

pub create-Drawn : (pool : IpPool) × (create plenty ≡ ok (live pool)) × Drawn 0 pool
create-Drawn =
    let (pool, q, made, at, w, size) = create-addresses in
    (
      pool,
      made,
      record {
        queue = q;
        cells = w.cells;
        start = q.head;
        at = at;
        has = Holds-HasCells w;
        sized = size;
        head_at = omega (arith, w.head_in);
        reads = λ j h.
            let step : (q.head + j) % 50 ≡ (q.head + j) % q.size = rw size in
            ap (get_elem? w.cells) step
            ∙ Window-get w.cells q.size q.head j (addresses 0 50) w.head_in w.window
                (get_elem?-addresses 0 50 j h ∙ ap (λ i. some (address i)) (omega arith));
      },
    )

length-address : (i : ℕ) → length (address i) < 16
unfolding address
length-address i = length-print_ip (i / 254 % 256) (i % 254 + 1)

-- The draw after `k` others succeeds and gives the address number `k` modulo 50.
pub get_ip_address-Drawn :
    (k : ℕ) (pool : IpPool) (old : Bytes)
    → Drawn k pool
    → (pool' : IpPool) × (get_ip_address (live pool) 16 old
        ≡ ok (addr_success, address (k % 50), live pool'))
      × Drawn (k + 1) pool'
unfolding get_ip_address
get_ip_address-Drawn k pool old w =
    let q = w.queue in
    let place : q.head ≡ (w.start + k % 50) % 50 = omega (arith, w.head_at) in
    let here : get_elem? w.cells q.head ≡ some (some (address (k % 50))) =
      (ap (get_elem? w.cells) place ∙ w.reads (k % 50) (omega arith)) in
    let (step, has') = remove-HasCells q w.cells (some (address (k % 50))) none w.has here in
    let fits = strcpy-ok 16 (address (k % 50)) (length-address (k % 50)) in
    (
      record {
        queue_addr = live (after_remove q);
        pool_size = (pool.pool_size + 2 ^ 64 - 1) % 2 ^ 64;
      },
      rw (w.at, step, fits),
      record {
        queue = after_remove q;
        cells = w.cells;
        start = w.start;
        at = refl;
        has = has';
        sized = w.sized;
        head_at = rw w.sized (omega (arith, w.head_at));
        reads = w.reads;
      },
    )

-- `n` draws one after another: what each returns, and the addresses
unfoldable pub draws : ℕ → Ref IpPool → Run (List IpAddrErr × List Bytes × Ref IpPool)
draws zero pool = ok ([], [], pool)
draws (suc n) pool = do
  (err, ip, pool') ← get_ip_address pool 16 []
  (errs, ips, pool'') ← draws n pool'
  ok (err ∷ errs, ip ∷ ips, pool'')

-- the addresses of draws number k to k + n - 1
pub drawn_from : ℕ → ℕ → List Bytes
drawn_from k zero = []
drawn_from k (suc n) = address (k % 50) ∷ drawn_from (k + 1) n

draws-Drawn :
    (n k : ℕ) (pool : IpPool)
    → Drawn k pool
    → (pool' : IpPool) × (draws n (live pool)
        ≡ ok (replicate n addr_success, drawn_from k n, live pool'))
      × Drawn (k + n) pool'
unfolding draws drawn_from
draws-Drawn zero k pool w = (pool, refl, let e : k + 0 ≡ k = omega arith in rw e w)
draws-Drawn (suc n) k pool w =
    let (pool', step, w') = get_ip_address-Drawn k pool [] w in
    let (pool'', run, w'') = draws-Drawn n (k + 1) pool' w' in
    (pool'', rw (step, run), let e : k + suc n ≡ k + 1 + n = omega arith in rw e w'')

-- whether, of the addresses below number `n`, only number `i` reads as address number `i`
unlike : (i n : ℕ) → Bool
unlike i zero = true
unlike i (suc n) =
    let rest = unlike i n in if str_equal (address i) (address n) then (i == n) && rest else rest

-- the same for all numbers `i` below `m`
distinct : (m n : ℕ) → Bool
distinct zero n = true
distinct (suc m) n = distinct m n && unlike m n

unlike_sound :
    (i n j : ℕ) → j < n → unlike i n ≡ true → str_equal (address i) (address j) ≡ true → i ≡ j
unfolding unlike
unlike_sound i zero j below h same = absurd (omega arith)
unlike_sound i (suc n) j below h same = elim (Bool-cases (j == n)) [
  | inl last ↦ let e : j ≡ n = (==_iff j n).0 last in ground (arith, h, same, e)
  | inr earlier ↦
      let rest : unlike i n ≡ true = ground (arith, h) in
      unlike_sound i n j (ground arith) rest same
]

distinct-unlike : (m n i : ℕ) → i < m → distinct m n ≡ true → unlike i n ≡ true
unfolding distinct
distinct-unlike zero n i below h = absurd (omega arith)
distinct-unlike (suc m) n i below h = elim (Bool-cases (i == m)) [
  | inl last ↦ let e : i ≡ m = (==_iff i m).0 last in rw e (ground (arith, h))
  | inr earlier ↦ distinct-unlike m n i (ground arith) (ground (arith, h))
]

fifty_distinct : distinct 50 50 ≡ true
unfolding distinct unlike str_equal address print_ip
fifty_distinct = refl

address_inj : (i j : ℕ) → i < 50 → j < 50 → address i ≡ address j → i ≡ j
address_inj i j hi hj e =
    let same : str_equal (address i) (address j) ≡ true = rw e (str_equal_refl (address j)) in
    unlike_sound i 50 j hj (distinct-unlike 50 50 i hi fifty_distinct) same

get_elem?-drawn_from :
    (k n i : ℕ) → i < n → get_elem? (drawn_from k n) i ≡ some (address ((k + i) % 50))
unfolding drawn_from
get_elem?-drawn_from k zero i h = absurd (omega arith)
get_elem?-drawn_from k (suc n) zero h = ap (λ j. some (address j)) (omega arith)
get_elem?-drawn_from k (suc n) (suc i) h =
    get_elem?-drawn_from (k + 1) n i (omega arith) ∙ ap (λ j. some (address j)) (omega arith)

same_draw_iff :
    (n i j : ℕ)
    → i < n
    → j < n
    → (get_elem? (drawn_from 0 n) i ≡ get_elem? (drawn_from 0 n) j) ↔ (i % 50 ≡ j % 50)
same_draw_iff n i j hi hj =
    let e = get_elem?-drawn_from 0 n i hi in
    let e' = get_elem?-drawn_from 0 n j hj in
    let inj = address_inj ((0 + i) % 50) ((0 + j) % 50) (omega arith) (omega arith) in
    (
      λ same. let r = inj (cc (sym e ∙ (same ∙ e'))) in omega arith,
      λ same. e ∙ (ap (λ k. some (address k)) (omega arith) ∙ sym e'),
    )

-- Any number of draws from a pool that was made with memory, the block of its queue zero, all
-- report `ADDR_SUCCESS`, and two of them give the same address exactly when their positions agree
-- modulo 50: the first fifty are distinct, and the 51st address is the first again, although it was
-- never returned to the pool.
pub draws_repeat :
    (n i j : ℕ)
    → i < n
    → j < n
    → (ips : List Bytes) × (pool' : Ref IpPool) × ((create plenty >>= draws n)
        ≡ ok (replicate n addr_success, ips, pool'))
      × ((get_elem? ips i ≡ get_elem? ips j) ↔ (i % 50 ≡ j % 50))
draws_repeat n i j hi hj =
    let (pool, made, w) = create-Drawn in
    let (pool', run, w') = draws-Drawn n 0 pool w in
    (drawn_from 0 n, live pool', rw (made, run), same_draw_iff n i j hi hj)

-- `ReturnIPAddress` on a pool that is full destroys the pool's queue, and the next `GetIPAddress`
-- goes through the dangling pointer.
return_ip_address-full :
    (pool : IpPool) (q : Queue Bytes) (xs : List Bytes) (item old : Bytes) (size : ℕ)
    → pool.queue_addr ≡ live q
    → Holds q xs
    → length xs ≡ q.size
    → (pool' : Ref IpPool) × (return_ip_address (live pool) (some (some item))
        ≡ ok (addr_insert_fail, some item, pool'))
      × (get_ip_address pool' size old ≡ fault)
unfolding return_ip_address return_item get_ip_address Queue.remove
return_ip_address-full pool q xs item old size at w full = (
  live (record pool { queue_addr = dangling }),
  simp (at, insert-full xs item w full, destroy-take q xs w),
  refl,
)
