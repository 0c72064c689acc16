-- ===== src/TcpServer/Expiry.antt =====
-- ServerTCP/server_tcp.c: which clients `Check_expiry_of_Clients` takes off the list.
use chat_project.Prelude.{
  ℕ, zero, suc, ◌<◌, ◌≡◌, refl, ◌∙◌, arith, true, false, none, some, List, [], ◌∷◌, ok,
  if◌then◌else◌, Bool-cases, inl, inr, length,
}
use chat_project.DLinkedList.{Ptr, Memory, tail_of}
use chat_project.DLinkedList.Shape.{start}
use chat_project.ListItr.{equals, get}
use chat_project.ListItr.Gap.{remove-IsList}
use chat_project.ListItr.Walk.{equals-end, equals-away, get-ok, step_next-ok, step_prev-ok}
use chat_project.TcpServer.{
  System, ClientData, Clients, Server, client_at, put_client, free_client, say_goodbye,
  remove_client_on_timeout, expiry_loop, one_is_null, check_expiry_of_clients,
}
use chat_project.DLinkedList.Path.{Apart}
use chat_project.TcpServer.Serving.{
  BlocksFreed, BlocksFreed-cons, blocks_of, Entry, cells_of, Serves, begin-Serves, end_of-Serves,
  Live-put, client_at-ok, free_client-ok,
}

module _ {W B T : Type 0} (sys : System W B T) where
  -- The clients without the expired ones at the front.
  abbrev pub drop_expired : T → List (Entry T) → List (Entry T)
  drop_expired now [] = []
  drop_expired now (e ∷ entries) =
      if sys.later now e.client.timeout then drop_expired now entries else e ∷ entries

  -- The expired ones at the front.
  abbrev pub expired_front : T → List (Entry T) → List (Entry T)
  expired_front now [] = []
  expired_front now (e ∷ entries) =
      if sys.later now e.client.timeout then e ∷ expired_front now entries else []

  Apart-expired_front :
      (a : ℕ) (now : T) (entries : List (Entry T))
      → Apart a (blocks_of entries)
      → Apart a (blocks_of (expired_front now entries))
  Apart-expired_front a now [] apart = tt
  Apart-expired_front a now (e ∷ entries) (away, apart) =
      elim (Bool-cases (sys.later now e.client.timeout)) [
        | inl expired ↦ rw expired (away, Apart-expired_front a now entries apart)
        | inr live ↦ rw live tt
      ]

  -- What is said and done to one of those, and to all of them in their order.
  abbrev pub leave : Entry T → W → W
  leave e w = sys.close e.client.sock (sys.fd_clr e.client.sock (say_goodbye sys e.cell.item w))

  abbrev pub see_off : T → List (Entry T) → W → W
  see_off now [] w = w
  see_off now (e ∷ entries) w =
      if sys.later now e.client.timeout then see_off now entries (leave e w) else w

  -- The server once the first client has left.
  without_first :
      (s : Server W B T) (list mark : ℕ) (e : Entry T) (entries : List (Entry T))
      → Serves s list mark (e ∷ entries)
      → (nodes : Memory) × (remove_client_on_timeout sys e.cell.item s (some e.cell.place)
          ≡ ok (
            some (start (tail_of list) (cells_of entries)),
            record s { nodes = nodes; world = leave e s.world },
          ))
        × Serves
            (record s {
              nodes = nodes;
              clients = put_client s.clients e.cell.item none;
              world = leave e s.world;
            })
            list
            mark
            entries
  unfolding remove_client_on_timeout
  without_first s list mark e entries w =
      let back = cells_of entries in
      let (nodes, run, w', _) = remove-IsList s.nodes list mark e.cell [] back w.nodes in
      let (h, live) = w.live in
      (
        nodes,
        rw
            (
              client_at-ok s.clients e.cell.item h,
              step_next-ok s.nodes list mark e.cell [] back w.nodes,
              step_prev-ok s.nodes list mark e.cell [] back w.nodes,
              run,
            )
            refl,
        record {
          at_list = w.at_list;
          nodes = w';
          live = Live-put s.clients e.cell.item none entries w.own.0 live;
          own = w.own.1;
          unlike = w.unlike.1;
        },
      )

  expiry_loop-end :
      (fuel : ℕ) (now : T) (s : Server W B T) (iter last : Ptr)
      → equals s.nodes iter last ≡ ok true
      → expiry_loop sys (suc fuel) now s iter last ≡ ok s
  unfolding expiry_loop
  expiry_loop-end fuel now s iter last e = rw e refl

  module _ (fuel : ℕ) (now : T) (s : Server W B T) (iter last : Ptr) (item : ℕ)
      (client : ClientData T) (away : equals s.nodes iter last ≡ ok false)
      (holds : get s.nodes iter ≡ ok item) (block : client_at s.clients item ≡ ok client) where
    expiry_loop-live :
        sys.later now client.timeout ≡ false → expiry_loop sys (suc fuel) now s iter last ≡ ok s
    unfolding expiry_loop
    expiry_loop-live live = rw (away, holds, block, live) refl

    expiry_loop-expired :
        (s' : Server W B T) (clients : Clients T) (next : Ptr)
        → sys.later now client.timeout ≡ true
        → remove_client_on_timeout sys item s iter ≡ ok (next, s')
        → free_client s'.clients item ≡ ok clients
        → expiry_loop sys (suc fuel) now s iter last
          ≡ expiry_loop sys fuel now (record s' { clients = clients }) next last
    unfolding expiry_loop
    expiry_loop-expired s' clients next expired removed freed =
        rw (away, holds, block, expired, removed, freed) refl

  expiry_loop-drops :
      (fuel : ℕ) (now : T) (s : Server W B T) (list mark : ℕ) (entries : List (Entry T))
      → Serves s list mark entries
      → length entries < fuel
      → (s' : Server W B T) × (expiry_loop sys fuel now s
            (some (start (tail_of list) (cells_of entries)))
            (some (tail_of list))
          ≡ ok s')
        × Serves s' list mark (drop_expired now entries)
        × BlocksFreed s.clients s'.clients (expired_front now entries)
        × (s'.world ≡ see_off now entries s.world)
  expiry_loop-drops zero now s list mark entries w h = absurd (omega (arith, h))
  expiry_loop-drops (suc fuel) now s list mark [] w h = (
    s,
    expiry_loop-end fuel now s _ _ (equals-end s.nodes list mark [] w.nodes),
    w,
    record { gone = tt; kept = λ a away. refl },
    refl,
  )
  expiry_loop-drops (suc fuel) now s list mark (e ∷ entries) w h =
      let back = cells_of entries in
      let last = some (tail_of list) in
      let iter = some e.cell.place in
      let away = equals-away s.nodes list mark e.cell [] back w.nodes w.unlike.0.1 in
      let holds = get-ok s.nodes list mark e.cell [] back w.nodes in
      let block = client_at-ok s.clients e.cell.item w.live.0 in
      elim (Bool-cases (sys.later now e.client.timeout)) [
        | inl expired ↦
            let (nodes, removed, w₁) = without_first s list mark e entries w in
            let s₀ = record s { nodes = nodes; world = leave e s.world } in
            let clients = put_client s.clients e.cell.item none in
            let freed = free_client-ok s.clients e.cell.item w.unlike.0.0 w.live.0 in
            let (s', run, w', given_back, same) =
              expiry_loop-drops fuel now (record s₀ { clients = clients }) list mark entries w₁
                (omega (arith, h)) in
            (
              s',
              expiry_loop-expired fuel now s iter last e.cell.item e.client away holds block s₀
                    clients (some (start (tail_of list) back)) expired removed freed
                  ∙ run,
              rw expired w',
              rw expired (
                  BlocksFreed-cons s.clients s'.clients e (expired_front now entries)
                    (Apart-expired_front e.cell.item now entries w.own.0) given_back),
              rw expired same,
            )
        | inr live ↦ (
          s,
          expiry_loop-live fuel now s iter last e.cell.item e.client away holds block live,
          rw live w,
          rw live (record { gone = tt; kept = λ a away. refl }),
          rw live refl,
        )
      ]

  -- `Check_expiry_of_Clients` returns 1; it takes the clients off the list, in their order and each
  -- with its farewell, and gives back their blocks and no others, as long as their time is over,
  -- and stops at the first whose time is not: one behind that stays, whatever its time is. As many
  -- steps as there are clients, and one more, are enough; no client's block is where the data of
  -- the tail sentinel, which nobody writes, points to.
  pub check_expiry_of_clients-drops :
      (fuel : ℕ) (s : Server W B T) (list mark : ℕ) (entries : List (Entry T))
      → Serves s list mark entries
      → length entries < fuel
      → let (now, w) = sys.gettimeofday sys.unwritten s.world in
        (s' : Server W B T) × (check_expiry_of_clients sys fuel s ≡ ok (true, s'))
        × Serves s' list mark (drop_expired now entries)
        × BlocksFreed s.clients s'.clients (expired_front now entries)
        × (s'.world ≡ see_off now entries w)
  unfolding check_expiry_of_clients one_is_null
  check_expiry_of_clients-drops fuel s list mark entries w h =
      let (now, world) = sys.gettimeofday sys.unwritten s.world in
      let (s', run, w', given_back, same) =
        expiry_loop-drops fuel now (record s { world = world }) list mark entries
          (record {
            at_list = w.at_list;
            nodes = w.nodes;
            live = w.live;
            own = w.own;
            unlike = w.unlike;
          })
          h in
      (
        s',
        rw (begin-Serves s list mark entries w, end_of-Serves s list mark entries w, run) refl,
        w',
        given_back,
        same,
      )
