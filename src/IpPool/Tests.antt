-- ===== src/IpPool/Tests.antt =====
-- The pool at concrete inputs.
use chat_project.Prelude.{◌%◌, ◌≡◌, ◌↔◌, arith, List, ok, Ref, ◌>>=◌, Bytes, get_elem?, replicate}
use chat_project.IpPool.{IpPool, addr_success, plenty, create}
use chat_project.IpPool.Cycle.{draws, draws_repeat}

draws_repeat_example :
    (ips : List Bytes) × (pool' : Ref IpPool) × ((create plenty >>= draws 60)
      ≡ ok (replicate 60 addr_success, ips, pool'))
    × ((get_elem? ips 3 ≡ get_elem? ips 53) ↔ (3 % 50 ≡ 53 % 50))
draws_repeat_example = draws_repeat 60 3 53 (omega arith) (omega arith)
