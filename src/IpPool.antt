-- ===== src/IpPool.antt =====
-- PoolAddr/PoolMultyCastAdd.c: a queue of multicast addresses to hand out to chat groups.
pub mod Fill
pub mod Cycle
mod Tests
use chat_project.Prelude.{
  ℕ, zero, suc, ◌+◌, ◌-◌, ◌*◌, ◌/◌, ◌%◌, ◌^◌, Bool, true, false, not, Option, none, some, List, [],
  ◌∷◌, ◌++◌, Run, ok, fault, Ref, null, dangling, live, deref, of_option, ◌>>=◌, ◌==◌, ltb,
  if◌then◌else◌, Bytes, codes, strcpy,
}
use chat_project.Queue
use chat_project.Queue.{Queue, QueueErr, CreateMemory, qerr_ok, zeroed}

-- `IP_Addr_Err`
pub data IpAddrErr : Type 0 where
  addr_not_exist addr_insert_fail addr_success : IpAddrErr

abbrev pub capacity : ℕ
capacity = 50

abbrev pub string_size : ℕ
string_size = 17

-- `struct IP_Pool_Addr`
pub record IpPool : Type 0 where
  pub queue_addr : Ref (Queue Bytes)
  pub pool_size : ℕ

-- What the allocator does: for the pool, for its queue, and for the i-th address.
pub record PoolMemory : Type 0 where
  pub pool_ok : Bool
  pub queue : CreateMemory
  pub address_ok : ℕ → Bool

abbrev pub plenty : PoolMemory
plenty = record { pool_ok = true; queue = zeroed; address_ok = λ i. true }

-- `%d` of an unsigned char
unfoldable pub decimal : ℕ → Bytes
decimal n =
    if ltb n 10
    then (48 + n) ∷ []
    else if ltb n 100
    then (48 + n / 10) ∷ (48 + n % 10) ∷ []
    else (48 + n / 100) ∷ (48 + n / 10 % 10) ∷ (48 + n % 10) ∷ []

-- what `sprintf( newIP, "229.1.%d.%d", addr0, addr1 )` writes
unfoldable pub print_ip : ℕ → ℕ → Bytes
unfolding decimal
print_ip addr0 addr1 = codes "229.1." ++ (decimal addr0 ++ (codes "." ++ decimal addr1))

-- The loop of `InsertAllIPAddrToList`, with `n` rounds left: its result and the queue.
fill_loop : (ℕ → Bool) → (n i addr0 addr1 : ℕ) → Ref (Queue Bytes) → Run (Bool × Ref (Queue Bytes))
fill_loop address_ok zero i addr0 addr1 queue = ok (true, queue)
fill_loop address_ok (suc n) i addr0 addr1 queue =
    let failed = Queue.destroy queue >>= λ r. ok (false, r.1) in
    let addr1' = (addr1 + 1) % 256 in
    let rest = λ (q : Ref (Queue Bytes)).
      fill_loop address_ok n (i + 1) (if addr1' == 255 then (addr0 + 1) % 256 else addr0)
        (if addr1' == 255 then 1 else addr1') q in
    if not (address_ok i) then failed else do
      new_ip ← strcpy string_size (print_ip addr0 addr1)
      (err, queue') ← Queue.insert queue (some new_ip)
      elim err [ qerr_ok ↦ rest queue' | _ ↦ Queue.destroy queue' >>= λ r. ok (false, r.1) ]

-- `InsertAllIPAddrToList`; `false` stands for its result -1
insert_all_ip_addr_to_list : (ℕ → Bool) → IpPool → Run (Bool × IpPool)
unfolding fill_loop
insert_all_ip_addr_to_list address_ok addr = do
  (done, queue') ← fill_loop address_ok capacity 0 0 1 addr.queue_addr
  ok (done, record addr { queue_addr = queue' })

fill_pool : (ℕ → Bool) → Ref (Queue Bytes) → Run (Ref IpPool)
unfolding insert_all_ip_addr_to_list
fill_pool address_ok null = ok null
fill_pool address_ok queue = do
  (_, pool) ←
      insert_all_ip_addr_to_list address_ok (record { queue_addr = queue; pool_size = capacity })
  ok (live pool)

-- `CreateIP_Multecaste`; it does not look at the result of `InsertAllIPAddrToList`
unfoldable pub create : PoolMemory → Run (Ref IpPool)
unfolding fill_pool
create mem =
    if not mem.pool_ok then ok null else fill_pool mem.address_ok (Queue.create mem.queue capacity)

-- `DestroyIP_Multycaste`
unfoldable pub destroy : Ref IpPool → Run (Ref IpPool)
destroy null = ok null
destroy dangling = fault
destroy (live addr) = Queue.destroy addr.queue_addr >>= λ _. ok dangling

-- `GetIPAddress`, with the array of `size` bytes that `_ipAddr` points to. A NULL item would be
-- read by `strcpy`.
unfoldable pub get_ip_address :
    Ref IpPool → (size : ℕ) → Bytes → Run (IpAddrErr × Bytes × Ref IpPool)
get_ip_address null size ip_addr = ok (addr_insert_fail, ip_addr, null)
get_ip_address dangling size ip_addr = fault
get_ip_address (live addr) size ip_addr = do
  (err, res, queue') ← Queue.remove addr.queue_addr none
  elim err [
    | qerr_ok ↦ do
      string ← of_option res
      ip_addr' ← strcpy size string
      let pool_size' = (addr.pool_size + 2 ^ 64 - 1) % 2 ^ 64
      ok (addr_success, ip_addr', live (record { queue_addr = queue'; pool_size = pool_size' }))
    | _ ↦ ok (addr_insert_fail, ip_addr, live (record addr { queue_addr = queue' }))
  ]

return_item : IpPool → Bytes → Run (IpAddrErr × Option Bytes × Ref IpPool)
return_item addr item = do
  (err, queue') ← Queue.insert addr.queue_addr (some item)
  elim err [
    | qerr_ok ↦ ok (addr_success, none, live (record addr { queue_addr = queue' }))
    | _ ↦ do
      (_, queue'') ← Queue.destroy queue'
      ok (addr_insert_fail, some item, live (record addr { queue_addr = queue'' }))
  ]

-- `ReturnIPAddress`; `ip_address` is the pointer, and what it points to. It is read before it is
-- compared with NULL. The second result is `*_Ipaddress` after the call.
unfoldable pub return_ip_address :
    Ref IpPool → Option (Option Bytes) → Run (IpAddrErr × Option Bytes × Ref IpPool)
unfolding return_item
return_ip_address null ip_address = ok (addr_not_exist, none, null)
return_ip_address dangling ip_address = fault
return_ip_address (live addr) none = fault
return_ip_address (live addr) (some none) = ok (addr_not_exist, none, live addr)
return_ip_address (live addr) (some (some item)) = return_item addr item
