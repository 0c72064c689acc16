-- ===== src/TcpServer.antt =====
-- ServerTCP/server_tcp.c: the connected clients. The list of them is the one of
-- GenericDLinkedList/LinkedListGeneric.c, walked by the iterators of
-- GeneticListIter/LinkedListGenericIter.c; its items are the addresses of `ClientData` blocks.
-- Sockets, the clock, the descriptor sets and the functions that the application hands in are an
-- interface over a world of their own.
mod Tests
pub mod Turn
pub mod Serving
pub mod Expiry
pub mod Receive
pub mod Answered
pub mod Accept
pub mod Startup
pub mod Shutdown
pub mod Idle
use chat_project.Prelude.{
  ℕ, zero, suc, ◌+◌, ◌-◌, Bool, true, false, not, ◌||◌, Option, none, some, Run, ok, fault,
  out_of_fuel, ◌>>=◌, ◌==◌, ltb, if◌then◌else◌,
}
use chat_project.DLinkedList.{Ptr, Memory}
use chat_project.ListItr.{begin, end_of, equals, step_next, step_prev, get, remove}

-- What the server calls: the system, over the world `W`, buffers `B` and times `T`, and the
-- functions of `Params`.
pub record System (W B T : Type 0) : Type 0 where
  -- `m_disconnect` and `m_acceptFunc`
  pub goodbye : Option (ℕ → W → W)
  pub welcome : Option (ℕ → W → W)
  -- `FD_SET` and `FD_CLR` on `m_master_fds`
  pub fd_set : ℕ → W → W
  pub fd_clr : ℕ → W → W
  pub close : ℕ → W → W
  -- into the buffer; whether anything came
  pub recv : ℕ → B → W → Bool × B × W
  -- `m_doSometing`: its message, and the buffer as it leaves it
  pub app : B → ℕ → W → B × B × W
  -- whether it did not fail
  pub send : ℕ → B → W → Bool × W
  pub malloc : W → Ptr × W
  -- the socket, unless it fails
  pub accept : W → Option ℕ × W
  -- what stands in the time afterwards, given what stood there: a call that fails leaves it
  pub gettimeofday : T → W → T × W
  -- what stands in a local `struct timeval` that nothing was written to
  pub unwritten : T
  -- `timercmp( a, b, > )`, `timeradd` and `timersub`
  pub later : T → T → Bool
  pub add : T → T → T
  pub sub : T → T → T
  -- with the greatest descriptor and one more, and a time, if there is a limit: unless it fails,
  -- how many descriptors are ready, and which
  pub select : ℕ → Option T → W → Option ℕ × (ℕ → Bool) × W
  -- whether the signal handler has set `stop`
  pub stopped : W → Bool

-- `struct ClientData`; the address of the peer is not read
pub record ClientData (T : Type 0) : Type 0 where
  pub sock : ℕ
  pub timeout : T

-- The `ClientData` blocks that are allocated, by address.
abbrev pub Clients : Type 0 → Type 0
Clients T = ℕ → Option (ClientData T)

-- `MAGIC_NUM`
abbrev pub magic_num : ℕ
magic_num = 32487344

-- `struct Server`, with the memory of the list, the clients' blocks and the world
pub record Server (W B T : Type 0) : Type 0 where
  pub master_socket : ℕ
  pub list : Ptr
  pub nodes : Memory
  pub clients : Clients T
  pub buffer : B
  pub max_wait : T
  pub activity : ℕ
  pub max_socket : ℕ
  pub magic_number : ℕ
  pub world : W

-- `CLIENTS_LIMIT`
abbrev pub clients_limit : ℕ
clients_limit = 1000

-- whether one of the two iterators is NULL
unfoldable pub one_is_null : Ptr → Ptr → Bool
one_is_null none b = true
one_is_null (some a) none = true
one_is_null (some a) (some b) = false

module _ {T : Type 0} where
  unfoldable pub put_client : Clients T → ℕ → Option (ClientData T) → Clients T
  put_client cs a client q = if q == a then client else cs q

  -- `*client`
  unfoldable pub client_at : Clients T → ℕ → Run (ClientData T)
  client_at cs a = elim (cs a) [ none ↦ fault | some client ↦ ok client ]

  -- `free( client )`
  unfoldable pub free_client : Clients T → ℕ → Run (Clients T)
  unfolding put_client
  free_client cs zero = ok cs
  free_client cs (suc a) = elim (cs (suc a)) [
    | none ↦ fault
    | some client ↦ ok (put_client cs (suc a) none)
  ]

module _ {W B T : Type 0} (sys : System W B T) where
  -- `m_goodbye( client, … )`, if there is one
  unfoldable pub say_goodbye : ℕ → W → W
  say_goodbye client w = elim sys.goodbye [ none ↦ w | some goodbye ↦ goodbye client w ]

  -- `Remove_Client_On_timeout`
  unfoldable pub remove_client_on_timeout : ℕ → Server W B T → Ptr → Run (Ptr × Server W B T)
  unfolding client_at
  remove_client_on_timeout client s iter = do
    data_at ← client_at s.clients client
    let w = sys.close data_at.sock (sys.fd_clr data_at.sock (say_goodbye client s.world))
    next ← step_next s.nodes iter
    before ← step_prev s.nodes next
    (_, nodes) ← remove s.nodes before
    ok (next, record s { nodes = nodes; world = w })

  -- the loop of `Check_expiry_of_Clients`
  unfoldable pub expiry_loop :
      (fuel : ℕ) → T → Server W B T → (iter last : Ptr) → Run (Server W B T)
  unfolding client_at
  expiry_loop zero now s iter last = out_of_fuel
  expiry_loop (suc fuel) now s iter last =
      let rest = λ (s' : Server W B T) (next : Ptr). expiry_loop fuel now s' next last in
      equals s.nodes iter last >>= λ at_end. if at_end then ok s else (do
        client ← get s.nodes iter
        data_at ← client_at s.clients client
        if sys.later now data_at.timeout
            then (do
              (next, s') ← remove_client_on_timeout client s iter
              clients ← free_client s'.clients client
              rest (record s' { clients = clients }) next)
            else ok s)

  -- `Check_expiry_of_Clients`; whether it returns 1, and not -1
  unfoldable pub check_expiry_of_clients : (fuel : ℕ) → Server W B T → Run (Bool × Server W B T)
  unfolding one_is_null
  check_expiry_of_clients fuel s = do
    first ← begin s.nodes s.list
    last ← end_of s.nodes s.list
    if one_is_null first last then ok (false, s) else (do
      let (now, w) = sys.gettimeofday sys.unwritten s.world
      s' ← expiry_loop fuel now (record s { world = w }) first last
      ok (true, s'))

  -- `UpdateTimeForClient`
  unfoldable pub update_time_for_client : Server W B T → ℕ → Run (Server W B T)
  unfolding client_at put_client
  update_time_for_client s client = do
    data_at ← client_at s.clients client
    let (now, w) = sys.gettimeofday data_at.timeout s.world
    let timeout = sys.add now s.max_wait
    ok (record s {
      clients = put_client s.clients client (some (record data_at { timeout = timeout }));
      world = w;
    })

  -- `ActionFuncSndRcv`; whether it returns 0, and not -1
  unfoldable pub action_func_snd_rcv : Server W B T → ℕ → Run (Bool × Server W B T)
  unfolding client_at
  action_func_snd_rcv s client = do
    data_at ← client_at s.clients client
    let (came, buffer, w₁) = sys.recv data_at.sock s.buffer s.world
    if not came
        then ok (
          false,
          record s { buffer = buffer; world = sys.close data_at.sock (say_goodbye client w₁) },
        )
        else (do
          let (message, buffer', w₂) = sys.app buffer data_at.sock w₁
          let (sent, w₃) = sys.send data_at.sock message w₂
          if not sent
              then ok (false, record s { buffer = buffer'; world = sys.close data_at.sock w₃ })
              else (do
                s' ← update_time_for_client (record s { buffer = buffer'; world = w₃ }) client
                ok (true, s')))
