-- ===== src/IpPool/Fill.antt =====
-- PoolAddr/PoolMultyCastAdd.c: what the pool is filled with.
use chat_project.Prelude.{
  ℕ, zero, suc, ◌+◌, ◌/◌, ◌%◌, ◌<◌, ◌≤◌, ◌≡◌, refl, ap, ◌∙◌, arith, true, some, List, [], ◌∷◌, ◌++◌,
  ok, live, length, get_elem?, ◌==◌, if◌then◌else◌, Bytes, codes, strcpy-ok, length-append,
}
use mathlib.Core.List.{append_assoc, append-nil}
use chat_project.Queue.{Queue}
use chat_project.Queue.Window.{Holds, insert-Holds, create-Holds}
use chat_project.IpPool.{
  IpPool, plenty, decimal, print_ip, fill_loop, insert_all_ip_addr_to_list, fill_pool, create,
}

-- The i-th address: the last byte goes from 1 to 254.
unfoldable pub address : ℕ → Bytes
address i = print_ip (i / 254 % 256) (i % 254 + 1)

-- the addresses i to i + n - 1
pub addresses : ℕ → ℕ → List Bytes
addresses i zero = []
addresses i (suc n) = address i ∷ addresses (i + 1) n

pub length-addresses : (i n : ℕ) → length (addresses i n) ≡ n
unfolding addresses
length-addresses i zero = refl
length-addresses i (suc n) = ap suc (length-addresses (i + 1) n)

pub get_elem?-addresses : (i n j : ℕ) → j < n → get_elem? (addresses i n) j ≡ some (address (i + j))
unfolding addresses
get_elem?-addresses i zero j h = absurd (omega arith)
get_elem?-addresses i (suc n) zero h = ap (λ k. some (address k)) (omega arith)
get_elem?-addresses i (suc n) (suc j) h =
    get_elem?-addresses (i + 1) n j (omega arith) ∙ ap (λ k. some (address k)) (omega arith)

length-decimal : (n : ℕ) → length (decimal n) ≤ 3
unfolding decimal
length-decimal n = ground arith

-- Every address fits in a buffer of 16 bytes.
pub length-print_ip : (a b : ℕ) → length (print_ip a b) < 16
unfolding print_ip
length-print_ip a b = omega (
  arith,
  length-append (codes "229.1.") (decimal a ++ (codes "." ++ decimal b)),
  length-append (decimal a) (codes "." ++ decimal b),
  length-append (codes ".") (decimal b),
  length-decimal a,
  length-decimal b,
)

next_host :
    (i : ℕ)
    → ((if (i % 254 + 1 + 1) % 256 == 255 then 1 else (i % 254 + 1 + 1) % 256) ≡ (i + 1) % 254 + 1)
      × ((if (i % 254 + 1 + 1) % 256 == 255 then (i / 254 % 256 + 1) % 256 else i / 254 % 256)
          ≡ (i + 1) / 254 % 256)
next_host i = (ground arith, ground arith)

-- The loop appends the next `n` addresses to a queue with room for them.
fill_loop-Holds :
    (n i : ℕ) (q : Queue Bytes) (xs : List Bytes)
    → Holds q xs
    → length xs + n ≤ q.size
    → (q' : Queue Bytes) × (fill_loop (λ _. true) n i (i / 254 % 256) (i % 254 + 1) (live q)
        ≡ ok (true, live q'))
      × Holds q' (xs ++ addresses i n)
      × (q'.size ≡ q.size)
unfolding fill_loop addresses address
fill_loop-Holds zero i q xs w room = (q, refl, rw append-nil w, refl)
fill_loop-Holds (suc n) i q xs w room =
    let (q', step, w', same) = insert-Holds xs (address i) w (omega arith) in
    let room' : length (xs ++ address i ∷ []) + n ≤ q'.size =
      omega (arith, length-append xs (address i ∷ [])) in
    let (q'', run, w'', same') = fill_loop-Holds n (i + 1) q' (xs ++ address i ∷ []) w' room' in
    let fits =
      strcpy-ok 17 (address i) (omega (arith, length-print_ip (i / 254 % 256) (i % 254 + 1))) in
    (
      q'',
      rw (fits, step, (next_host i).0, (next_host i).1) run,
      rw (append_assoc) at w'',
      same' ∙ same,
    )

-- Where every allocation succeeds and the block of the queue is zero, `CreateIP_Multecaste` gives a
-- pool that holds the 50 addresses 229.1.0.1 to 229.1.0.50 in order.
pub create-addresses :
    (pool : IpPool) × (q : Queue Bytes) × (create plenty ≡ ok (live pool))
    × (pool.queue_addr ≡ live q)
    × Holds q (addresses 0 50)
    × (q.size ≡ 50)
unfolding create fill_pool insert_all_ip_addr_to_list
create-addresses =
    let (q, made, w, size) = create-Holds {A = Bytes} 50 (omega arith) (omega arith) in
    let (q', run, w', same) = fill_loop-Holds 50 0 q [] w (omega arith) in
    (record { queue_addr = live q'; pool_size = 50 }, q', rw (made, run), refl, w', same ∙ size)
