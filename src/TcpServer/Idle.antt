-- ===== src/TcpServer/Idle.antt =====
-- ServerTCP/server_tcp.c: a turn of `RunServer` in which nothing comes.
use chat_project.Prelude.{
  ℕ, ◌+◌, ◌<◌, ◌^◌, ◌≡◌, refl, ◌∙◌, arith, Bool, true, Option, none, some, List, [], ◌∷◌, ok,
  length,
}
use chat_project.ListItr.Walk.{get-ok}
use chat_project.TcpServer.{System, Server, check_expiry_of_clients}
use chat_project.TcpServer.Turn.{check_list_empty, get_ttl, act, turn}
use chat_project.TcpServer.Serving.{
  Entry, cells_of, Serves, begin-Serves, client_at-ok, size-Serves,
}
use chat_project.TcpServer.Expiry.{drop_expired, see_off, check_expiry_of_clients-drops}

module _ {W B T : Type 0} (sys : System W B T) where
  -- How long to wait for these clients, and the world once that is known: without end for none,
  -- else until the time of the one at the head is over.
  abbrev pub waiting : List (Entry T) → W → Option T × W
  waiting [] w = (none, w)
  waiting (e ∷ entries) w =
      let (now, w') = sys.gettimeofday sys.unwritten w in (some (sys.sub e.client.timeout now), w')

  -- The server in another world has the same clients.
  elsewhere :
      (s : Server W B T) (list mark : ℕ) (entries : List (Entry T)) (world : W) (activity : ℕ)
      → Serves s list mark entries
      → Serves (record s { world = world; activity = activity }) list mark entries
  elsewhere s list mark entries world activity w = record {
    at_list = w.at_list;
    nodes = w.nodes;
    live = w.live;
    own = w.own;
    unlike = w.unlike;
  }

  get_ttl-head :
      (s : Server W B T) (list mark : ℕ) (e : Entry T) (entries : List (Entry T))
      → Serves s list mark (e ∷ entries)
      → let (now, w) = sys.gettimeofday sys.unwritten s.world in
        get_ttl sys s ≡ ok (sys.sub e.client.timeout now, record s { world = w })
  unfolding get_ttl
  get_ttl-head s list mark e entries w =
      rw
        (
          begin-Serves s list mark (e ∷ entries) w,
          get-ok s.nodes list mark e.cell [] (cells_of entries) w.nodes,
          client_at-ok s.clients e.cell.item w.live.0,
        )
        refl

  turn-select :
      (fuel : ℕ) (old : T) (s : Server W B T) (list mark : ℕ) (entries : List (Entry T))
      → Serves s list mark entries
      → length entries < fuel
      → length entries < 2 ^ 31
      → let (limit, w₁) = waiting entries s.world in
        let (activity, ready, w₂) = sys.select (s.max_socket + 1) limit w₁ in
        turn sys fuel old s ≡ act sys fuel old activity ready (record s { world = w₂ })
  unfolding turn check_list_empty
  turn-select fuel old s list mark [] w h small =
      rw (size-Serves fuel s list mark [] w h small) refl
  turn-select fuel old s list mark (e ∷ entries) w h small =
      rw
        (size-Serves fuel s list mark (e ∷ entries) w h small, get_ttl-head s list mark e entries w)
        (ground arith)

  act-idle :
      (fuel : ℕ) (old : T) (ready : ℕ → Bool) (s : Server W B T) (activity : Option ℕ)
      {s' : Server W B T}
      → activity ≡ some 0
      → check_expiry_of_clients sys fuel (record s { activity = 0 }) ≡ ok (true, s')
      → act sys fuel old activity ready s ≡ ok s'
  unfolding act
  act-idle fuel old ready s activity e run = rw (e, run) refl

  -- A turn of `RunServer` in which `select` runs out of time returns. It has waited without limit
  -- if there are no clients, and else until the time of the client at the head is over; then it
  -- takes off the list the clients at the front whose time is over, in their order, and no others.
  -- As many steps as there are clients, and one more, are enough; there are fewer than 2 ^ 31,
  -- and no client's block is where the data of the tail sentinel points to.
  pub turn-idle :
      (fuel : ℕ) (old : T) (s : Server W B T) (list mark : ℕ) (entries : List (Entry T))
      → Serves s list mark entries
      → length entries < fuel
      → length entries < 2 ^ 31
      → let (limit, w₁) = waiting entries s.world in
        let (activity, ready, w₂) = sys.select (s.max_socket + 1) limit w₁ in
        let (now, w₃) = sys.gettimeofday sys.unwritten w₂ in
        activity ≡ some 0
        → (s' : Server W B T) × (turn sys fuel old s ≡ ok s')
          × Serves s' list mark (drop_expired sys now entries)
          × (s'.world ≡ see_off sys now entries w₃)
  turn-idle fuel old s list mark entries w h small idle =
      let (limit, w₁) = waiting entries s.world in
      let (activity, ready, w₂) = sys.select (s.max_socket + 1) limit w₁ in
      let s₀ = record s { world = w₂; activity = 0 } in
      let (s', run, w', _, same) =
        check_expiry_of_clients-drops sys fuel s₀ list mark entries
          (elsewhere s list mark entries w₂ 0 w) h in
      (
        s',
        turn-select fuel old s list mark entries w h small
            ∙ act-idle fuel old ready (record s { world = w₂ }) activity idle run,
        w',
        same,
      )
