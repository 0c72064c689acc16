-- ===== src/TcpServer/Startup.antt =====
-- ServerTCP/server_tcp.c: how a server is made, run and taken down.
use chat_project.Prelude.{
  ℕ, zero, suc, Bool, true, not, ◌||◌, Option, none, some, List, [], ◌∷◌, Run, ok, fault, Ref, null,
  dangling, live, out_of_fuel, ◌>>=◌, ◌==◌, ltb, if◌then◌else◌,
}
use chat_project.DLinkedList.{Ptr, Memory, create, destroy}
use chat_project.TcpServer.{magic_num, System, Clients, Server, client_at, free_client}
use chat_project.TcpServer.Turn.{turn}

-- What a server is made with: sockets, which are none where the system gives -1, and memory.
pub record Setup (W B T : Type 0) : Type 0 where
  pub socket : W → Option ℕ × W
  -- whether the call did not fail
  pub setsockopt : Option ℕ → W → Bool × W
  pub bind : Option ℕ → (port : ℕ) → W → Bool × W
  pub listen : Option ℕ → (back_log : ℕ) → W → Bool × W
  pub close_socket : Option ℕ → W → W
  pub malloc : W → Ptr × W
  -- a zeroed buffer
  pub calloc : W → B × W
  -- a time of so many seconds
  pub seconds : ℕ → T
  -- `FD_ZERO` on `m_master_fds`
  pub fd_zero : W → W

-- `struct Params`, of numbers that are not negative; of the functions, whether the application's is
-- there
pub record Params : Type 0 where
  pub back_log : ℕ
  pub server_port : ℕ
  pub max_wait_time : ℕ
  pub has_do_something : Bool

-- `SERVER_ERR`
pub data ServerErr : Type 0 where
  server_succsses server_allocated_fail server_socket_fail server_too_many_clients : ServerErr
  server_db_create_fail server_fail : ServerErr

-- What `DestroyServer` leaves of a server: the memory of the nodes and of the clients, the pointer
-- to the receive buffer, and the world.
pub record Remains (W B T : Type 0) : Type 0 where
  pub nodes : Memory
  pub clients : Clients T
  pub buffer_rcv : Ref B
  pub world : W

-- the first test of `CreateServer`
unfoldable pub refused : Params → Bool
refused p =
    not p.has_do_something || ltb p.server_port 1024 || (0 == p.max_wait_time) || ltb 128 p.back_log

module _ {W B T : Type 0} (sys : System W B T) (setup : Setup W B T) where
  -- `BindServer`
  unfoldable pub bind_server : Option ℕ → (port : ℕ) → W → ℕ × W
  bind_server sock port w = let (bound, w') = setup.bind sock port w in (if bound then 1 else 0, w')

  -- `InitMasterSocket`; none for -1
  unfoldable pub init_master_socket : (port back_log : ℕ) → W → Option ℕ × W
  init_master_socket port back_log w =
      let (sock, w₁) = setup.socket w in
      let (reused, w₂) = setup.setsockopt sock w₁ in
      let (bound, w₃) = bind_server sock port w₂ in
      let (listening, w₄) = setup.listen sock back_log w₃ in
      if not reused
      then (none, w₂)
      else if ltb bound 0
      then (none, setup.close_socket sock w₃)
      else if not listening
      then (none, setup.close_socket sock w₄)
      else (sock, w₄)

  -- the end of `CreateServer`, with the list made; the list's address is also that of its memory
  unfoldable pub fill_server :
      Params → (sock : ℕ) → (list : Ptr) → Memory → Clients T → W → Server W B T
  fill_server p sock list nodes clients w =
      let (msg, w₁) = setup.calloc w in
      let (buffer, w₂) = setup.calloc w₁ in
      record {
        master_socket = sock;
        list = list;
        nodes = nodes;
        clients = clients;
        buffer = buffer;
        max_wait = setup.seconds p.max_wait_time;
        activity = 0;
        max_socket = 0;
        magic_number = magic_num;
        world = sys.fd_set sock (setup.fd_zero w₂);
      }

  -- `CreateServer` with a master socket, and after the attempt to get one
  unfoldable pub with_socket :
      Params
      → (sock : ℕ) → (head_data tail_data : ℕ) → Memory
      → Clients T
      → W
      → Option (Server W B T) × W
  with_socket p sock head_data tail_data m clients w =
      let (given, w₁) = setup.malloc w in
      elim given [
        | none ↦ (none, sys.close sock w₁)
        | some a ↦
            let (list, nodes) = create (some a) head_data tail_data m in
            let server = fill_server p sock list nodes clients w₁ in (some server, server.world)
      ]

  unfoldable pub with_master :
      Params
      → (head_data tail_data : ℕ) → Memory
      → Clients T
      → Option ℕ × W
      → Option (Server W B T) × W
  with_master p head_data tail_data m clients (none, w) = (none, w)
  with_master p head_data tail_data m clients (some sock, w) =
      with_socket p sock head_data tail_data m clients w

  -- `CreateServer`
  unfoldable pub create_server :
      Params → (head_data tail_data : ℕ) → Memory → Clients T → W → Option (Server W B T) × W
  create_server p head_data tail_data m clients w =
      if refused p
      then (none, w)
      else (let (block, w₁) = setup.malloc w in
          elim block [
            | none ↦ (none, w₁)
            | some _ ↦
                with_master p head_data tail_data m clients
                  (init_master_socket p.server_port p.back_log w₁)
          ])

  -- `elementDestroy`, of one item after the other
  unfoldable pub destroy_elements : List ℕ → Clients T → W → Run (Clients T × W)
  destroy_elements [] clients w = ok (clients, w)
  destroy_elements (item ∷ items) clients w = do
    data_at ← client_at clients item
    clients' ← free_client clients item
    destroy_elements items clients' (sys.close data_at.sock w)

  -- `DestroyServer`, with the pointer afterwards and what is left, unless it has returned at once;
  -- `m_msg` is not given back. The nodes of the list and the blocks that its items point to are
  -- different memory, so that it makes no difference that a node goes before the next block does.
  unfoldable pub destroy_server :
      (fuel : ℕ) → Ref (Server W B T) → Run (Ref (Server W B T) × Option (Remains W B T))
  destroy_server fuel null = ok (null, none)
  destroy_server fuel dangling = fault
  destroy_server fuel (live s) =
      if not (s.magic_number == magic_num) then ok (live s, none) else (do
        (items, nodes, _) ← destroy fuel s.nodes s.list true
        (clients, w) ← destroy_elements items s.clients (setup.fd_zero s.world)
        ok (
          dangling,
          some (record {
            nodes = nodes;
            clients = clients;
            buffer_rcv = dangling;
            world = sys.close s.master_socket w;
          }),
        ))

  -- the loop of `RunServer`, for a number of turns
  unfoldable pub run_loop :
      (turns : ℕ)
      → (fuel : ℕ) → (old : T) → Server W B T
      → Run (Ref (Server W B T) × Option (Remains W B T))
  run_loop zero fuel old s = out_of_fuel
  run_loop (suc turns) fuel old s =
      let rest = λ (s' : Server W B T). run_loop turns fuel old s' in
      if sys.stopped s.world then destroy_server fuel (live s) else (turn sys fuel old s >>= rest)

  -- `RunServer`, but for the signal handler: its result, and what is left
  unfoldable pub run_server :
      (turns : ℕ)
      → (fuel : ℕ) → (old : T) → Ref (Server W B T)
      → Run (ServerErr × Option (Remains W B T))
  run_server turns fuel old null = ok (server_allocated_fail, none)
  run_server turns fuel old dangling = fault
  run_server turns fuel old (live s) =
      if not (s.magic_number == magic_num) then ok (server_allocated_fail, none) else (do
        (_, remains) ← run_loop turns fuel old (record s { max_socket = s.master_socket })
        ok (server_succsses, remains))
