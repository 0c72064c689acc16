-- ===== src/TcpServer/Answered.antt =====
-- ServerTCP/server_tcp.c: a client that `ReceiveAndSend` finds ready, and that gets its answer.
use chat_project.Prelude.{ℕ, ◌-◌, ◌≡◌, refl, arith, Bool, true, some, List, ◌∷◌, ◌++◌, ok}
use chat_project.DLinkedList.{Memory, tail_of, push_head, list_success}
use chat_project.DLinkedList.Path.{Apart}
use chat_project.DLinkedList.Shape.{Cell, start, IsList, path_of}
use chat_project.DLinkedList.Push.{push_head-IsList}
use chat_project.ListItr.Gap.{remove-IsList}
use chat_project.ListItr.Walk.{get-ok, step_next-ok, step_prev-ok}
use chat_project.TcpServer.{
  System, ClientData, Server, put_client, update_time_for_client, action_func_snd_rcv,
}
use chat_project.TcpServer.Turn.{move_to_head, serve_client}
use chat_project.TcpServer.Serving.{Entry, cells_of, Live-put, client_at-ok}
use chat_project.TcpServer.Receive.{Passing}

module _ {W B T : Type 0} (sys : System W B T) where
  -- What a client's message comes to: whether one was received and the answer sent, the buffer and
  -- the world after that, the time then, and the world once the clock is read.
  pub record Exchange : Type 0 where
    pub came : Bool
    pub sent : Bool
    pub buffer : B
    pub now : T
    pub world : W

  abbrev pub exchange : ClientData T → B → W → Exchange
  exchange client buffer w =
      let (came, buffer₁, w₁) = sys.recv client.sock buffer w in
      let (message, buffer₂, w₂) = sys.app buffer₁ client.sock w₁ in
      let (sent, w₃) = sys.send client.sock message w₂ in
      let (now, w₄) = sys.gettimeofday client.timeout w₃ in
      record { came = came; sent = sent; buffer = buffer₂; now = now; world = w₄ }

  action-answered :
      (s : Server W B T) (item : ℕ) (client : ClientData T)
      → s.clients item ≡ some client
      → let x = exchange client s.buffer s.world in
        x.came ≡ true
        → x.sent ≡ true
        → action_func_snd_rcv sys s item
          ≡ ok (
            true,
            record s {
              buffer = x.buffer;
              clients =
                  put_client s.clients item
                    (some (record client { timeout = sys.add x.now s.max_wait }));
              world = x.world;
            },
          )
  unfolding action_func_snd_rcv update_time_for_client
  action-answered s item client h came sent = rw (client_at-ok s.clients item h, came, sent) refl

  move_to_head-Passing :
      (s : Server W B T) (list mark n : ℕ) (passed : List Cell) (e : Entry T)
      (entries : List (Entry T))
      → Passing s list mark passed (e ∷ entries)
      → Apart n (path_of list (passed ++ cells_of entries))
      → (sys.malloc s.world).0 ≡ some n
      → (nodes : Memory) × (move_to_head sys s (some e.cell.place)
          ≡ ok (
            some (start (tail_of list) (cells_of entries)),
            record s { nodes = nodes; world = (sys.malloc s.world).1 },
          ))
        × IsList nodes list mark
            ((record { place = n; item = e.cell.item } ∷ passed) ++ cells_of entries)
  unfolding move_to_head
  move_to_head-Passing s list mark n passed e entries w apart given =
      let back = cells_of entries in
      let (nodes, run, w', _) = remove-IsList s.nodes list mark e.cell passed back w.nodes in
      let (nodes', pushed, w'') =
        push_head-IsList nodes list mark n e.cell.item (passed ++ back) w' apart w.unlike.0.0 in
      let pushed' : push_head (some n) nodes s.list e.cell.item ≡ ok (list_success, nodes') =
        rw w.at_list pushed in
      (
        nodes',
        rw
            (
              step_next-ok s.nodes list mark e.cell passed back w.nodes,
              step_prev-ok s.nodes list mark e.cell passed back w.nodes,
              run,
              given,
              pushed',
            )
            refl,
        w'',
      )

  -- A client that is ready, whose message is received and whose answer is sent: it moves to the
  -- head of the list, with the time of the answer and the time to wait as its new timeout; the
  -- others stay in their order, and the loop goes on with the one that was behind it. `malloc`
  -- gives a node that the list does not use.
  pub serve_client-moves :
      (ready : ℕ → Bool) (s : Server W B T) (list mark n : ℕ) (passed : List Cell) (e : Entry T)
      (entries : List (Entry T))
      → Passing s list mark passed (e ∷ entries)
      → Apart n (path_of list (passed ++ cells_of entries))
      → ready e.client.sock ≡ true
      → let x = exchange e.client s.buffer s.world in
        x.came ≡ true
        → x.sent ≡ true
        → (sys.malloc x.world).0 ≡ some n
        → (s' : Server W B T) × (serve_client sys ready s (some e.cell.place)
            ≡ ok (some (start (tail_of list) (cells_of entries)), s'))
          × Passing s' list mark (record { place = n; item = e.cell.item } ∷ passed) entries
          × (s'.clients e.cell.item ≡ some (record e.client { timeout = sys.add x.now s.max_wait }))
          × (s'.activity ≡ s.activity - 1)
  unfolding serve_client put_client
  serve_client-moves ready s list mark n passed e entries w apart is_ready came sent given =
      let x = exchange e.client s.buffer s.world in
      let client = record e.client { timeout = sys.add x.now s.max_wait } in
      let s₁ = record s { activity = s.activity - 1 } in
      let clients = put_client s.clients e.cell.item (some client) in
      let s₂ = record s₁ { buffer = x.buffer; clients = clients; world = x.world } in
      let own_block : clients e.cell.item ≡ some client = ground arith in
      let others = Live-put s.clients e.cell.item (some client) entries w.own.0 w.live.1 in
      let w₂ : Passing s₂ list mark passed (record { cell = e.cell; client = client } ∷ entries) =
        record {
          at_list = w.at_list;
          nodes = w.nodes;
          live = (own_block, others);
          own = w.own;
          unlike = w.unlike;
        } in
      let (nodes, moved, w₃) =
        move_to_head-Passing s₂ list mark n passed (record { cell = e.cell; client = client })
          entries w₂ apart given in
      let answered = action-answered s₁ e.cell.item e.client w.live.0 came sent in
      (
        record s₂ { nodes = nodes; world = (sys.malloc x.world).1 },
        rw
            (
              get-ok s.nodes list mark e.cell passed (cells_of entries) w.nodes,
              client_at-ok s.clients e.cell.item w.live.0,
              is_ready,
              answered,
              moved,
            )
            refl,
        record {
          at_list = w.at_list;
          nodes = w₃;
          live = others;
          own = w.own.1;
          unlike = w.unlike.1;
        },
        own_block,
        refl,
      )
