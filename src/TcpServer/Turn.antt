-- ===== src/TcpServer/Turn.antt =====
-- ServerTCP/server_tcp.c: what the server does with the descriptors that `select` finds ready, and
-- one turn of its loop.
use chat_project.Prelude.{
  ℕ, zero, suc, ◌+◌, ◌-◌, Bool, true, false, ◌||◌, Option, none, some, Run, ok, out_of_fuel, ◌>>=◌,
  ◌==◌, ltb, if◌then◌else◌,
}
use chat_project.DLinkedList.{Ptr, ListResult, list_success, push_head, push_tail, size}
use chat_project.ListItr.{begin, end_of, equals, step_next, step_prev, get, remove}
use chat_project.TcpServer.{
  System, Server, clients_limit, client_at, put_client, free_client, one_is_null,
  update_time_for_client, action_func_snd_rcv, check_expiry_of_clients,
}

abbrev is_list_success : ListResult → Bool
is_list_success list_success = true
is_list_success _ = false

module _ {W B T : Type 0} (sys : System W B T) where
  -- the rest of the loop's body for a client whose exchange went wrong: the iterator that is moved
  -- on is the one whose node `ListItr_Remove` has freed
  unfoldable pub drop_client : Server W B T → Ptr → Run (Ptr × Server W B T)
  unfolding client_at
  drop_client s iter = do
    (client, nodes) ← remove s.nodes iter
    data_at ← client_at s.clients client
    clients ← free_client s.clients client
    next ← step_next nodes iter
    ok (
      next,
      record s { nodes = nodes; clients = clients; world = sys.fd_clr data_at.sock s.world },
    )

  -- the same for one that was answered: it moves to the head of the list
  unfoldable pub move_to_head : Server W B T → Ptr → Run (Ptr × Server W B T)
  move_to_head s iter = do
    next ← step_next s.nodes iter
    before ← step_prev s.nodes next
    (client, nodes) ← remove s.nodes before
    let (given, w) = sys.malloc s.world
    (_, nodes') ← push_head given nodes s.list client
    ok (next, record s { nodes = nodes'; world = w })

  -- the body of the loop of `ReceiveAndSend`; `ready` is `FD_ISSET` on `m_forSelect_fds`
  unfoldable pub serve_client : (ready : ℕ → Bool) → Server W B T → Ptr → Run (Ptr × Server W B T)
  unfolding client_at
  serve_client ready s iter = do
    client ← get s.nodes iter
    data_at ← client_at s.clients client
    if ready data_at.sock
        then (do
          (fine, s') ← action_func_snd_rcv sys (record s { activity = s.activity - 1 }) client
          if fine then move_to_head s' iter else drop_client s' iter)
        else (do next ← step_next s.nodes iter; ok (next, s))

  unfoldable pub receive_loop :
      (fuel : ℕ) → (ready : ℕ → Bool) → Server W B T → (iter last : Ptr) → Run (Server W B T)
  receive_loop zero ready s iter last = out_of_fuel
  receive_loop (suc fuel) ready s iter last =
      let rest = λ (s' : Server W B T) (next : Ptr). receive_loop fuel ready s' next last in
      equals s.nodes iter last >>= λ at_end.
      if at_end || (s.activity == 0)
      then ok s
      else (do (next, s') ← serve_client ready s iter; rest s' next)

  -- `ReceiveAndSend`; whether it returns 0, and not -1
  unfoldable pub receive_and_send :
      (fuel : ℕ) → (ready : ℕ → Bool) → Server W B T → Run (Bool × Server W B T)
  unfolding one_is_null
  receive_and_send fuel ready s = do
    first ← begin s.nodes s.list
    last ← end_of s.nodes s.list
    if one_is_null first last
        then ok (false, s)
        else (do s' ← receive_loop fuel ready s first last; ok (true, s'))

  -- `CreateNewClient`, at the block that `malloc` gives; the timeout is what stood there
  unfoldable pub create_new_client :
      (given : Ptr) → (old : T) → ℕ → Server W B T → Ptr × Server W B T
  unfolding put_client
  create_new_client none old sock s = (none, s)
  create_new_client (some a) old sock s = (
    some a,
    record s { clients = put_client s.clients a (some (record { sock = sock; timeout = old })) },
  )

  -- the end of `AcceptClient`: without a block the socket is closed, else the client is welcomed
  unfoldable pub greet_client : ℕ → Ptr × Server W B T → Ptr × Server W B T
  greet_client sock (none, s) = (none, record s { world = sys.close sock s.world })
  greet_client sock (some a, s) = (
    some a,
    record s { world = elim sys.welcome [ none ↦ s.world | some welcome ↦ welcome a s.world ] },
  )

  -- `AcceptClient`: the client, or NULL. Where `accept` fails, the -1 that it gives is closed,
  -- which does nothing.
  unfoldable pub accept_client : (fuel : ℕ) → (old : T) → Server W B T → Run (Ptr × Server W B T)
  accept_client fuel old s =
      let (accepted, w) = sys.accept s.world in
      elim accepted [
        | none ↦ ok (none, record s { world = w })
        | some sock ↦ do
          number ← size fuel s.nodes s.list
          if ltb clients_limit number then ok (none, record s { world = sys.close sock w }) else (do
            let max_socket = if ltb s.max_socket sock then sock else s.max_socket
            let (given, w') = sys.malloc (sys.fd_set sock w)
            ok (
                greet_client sock (
                  create_new_client given old sock
                    (record s { max_socket = max_socket; world = w' }))))
      ]

  -- `AddClientToTheList`; whether it returns 0, and not -1
  unfoldable pub add_client_to_the_list :
      (fuel : ℕ) → (old : T) → Server W B T → Run (Bool × Server W B T)
  add_client_to_the_list fuel old s = do
    (client, s₁) ← accept_client fuel old s
    elim client [
      | none ↦ ok (true, s₁)
      | some a ↦ do
        s₂ ← update_time_for_client sys s₁ a
        let (given, w) = sys.malloc s₂.world
        (result, nodes) ← push_tail given s₂.nodes s₂.list a
        if is_list_success result then ok (true, record s₂ { nodes = nodes; world = w }) else (do
          clients ← free_client s₂.clients a
          ok (false, record s₂ { nodes = nodes; clients = clients; world = w }))
    ]

  -- `Check_list_empty`
  unfoldable pub check_list_empty : (fuel : ℕ) → Server W B T → Run Bool
  check_list_empty fuel s = do number ← size fuel s.nodes s.list; ok (number == 0)

  -- `GetTTL`
  unfoldable pub get_ttl : Server W B T → Run (T × Server W B T)
  unfolding client_at
  get_ttl s = do
    let (now, w) = sys.gettimeofday sys.unwritten s.world
    first ← begin s.nodes s.list
    client ← get s.nodes first
    data_at ← client_at s.clients client
    ok (sys.sub data_at.timeout now, record s { world = w })

  -- what `RunServer` does once `select` has returned
  unfoldable pub act :
      (fuel : ℕ) → (old : T) → Option ℕ → (ready : ℕ → Bool) → Server W B T → Run (Server W B T)
  act fuel old none ready s = ok s
  act fuel old (some zero) ready s = do
    (_, s') ← check_expiry_of_clients sys fuel (record s { activity = 0 })
    ok s'
  act fuel old (some (suc n)) ready s = do
    s₁ ←
        (if ready s.master_socket
          then (do (_, s') ← add_client_to_the_list fuel old (record s { activity = suc n }); ok s')
          else ok (record s { activity = suc n }))
    (_, s₂) ← receive_and_send fuel ready s₁
    ok s₂

  -- one turn of the loop of `RunServer`
  unfoldable pub turn : (fuel : ℕ) → (old : T) → Server W B T → Run (Server W B T)
  turn fuel old s = do
    empty ← check_list_empty fuel s
    (limit, s₁) ← (if empty then ok (none, s) else (do (ttl, s') ← get_ttl s; ok (some ttl, s')))
    let (activity, ready, w) = sys.select (s₁.max_socket + 1) limit s₁.world
    act fuel old activity ready (record s₁ { world = w })
