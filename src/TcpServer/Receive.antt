-- ===== src/TcpServer/Receive.antt =====
-- ServerTCP/server_tcp.c: what becomes of a client that `ReceiveAndSend` finds ready.
use chat_project.Prelude.{
  ℕ, zero, suc, ◌-◌, ◌<◌, ◌≡◌, refl, sym, ◌∙◌, arith, Bool, true, false, some, List, [], ◌∷◌, ◌++◌,
  ok, fault, ◌==◌, length, All,
}
use mathlib.Core.List.{append_assoc}
use mathlib.Core.Path.{subst}
use chat_project.DLinkedList.{Ptr, tail_of}
use chat_project.DLinkedList.Path.{Distinct}
use chat_project.DLinkedList.Writes.{get_next-gone}
use chat_project.DLinkedList.Shape.{Cell, start, IsList}
use chat_project.ListItr.{equals, step_next}
use chat_project.ListItr.Gap.{remove-IsList}
use chat_project.ListItr.Walk.{equals-away, get-ok, step_next-ok}
use chat_project.TcpServer.{
  System, ClientData, Server, say_goodbye, action_func_snd_rcv, one_is_null,
}
use chat_project.TcpServer.Turn.{drop_client, serve_client, receive_loop, receive_and_send}
use chat_project.TcpServer.Serving.{
  Entry, cells_of, blocks_of, Live, Unlike, Serves, begin-Serves, end_of-Serves, client_at-ok,
  free_client-ok,
}

abbrev pub Unready : {T : Type 0} → (ℕ → Bool) → List (Entry T) → Type 0
Unready {T} ready = All (λ (e : Entry T). ready e.client.sock ≡ false)

module _ {W B T : Type 0} where
  -- The loop has the nodes `passed` behind it and these clients before it.
  pub record Passing (s : Server W B T) (list mark : ℕ) (passed : List Cell)
      (entries : List (Entry T)) : Type 0 where
    pub at_list : s.list ≡ some list
    pub nodes : IsList s.nodes list mark (passed ++ cells_of entries)
    pub live : Live s.clients entries
    pub own : Distinct (blocks_of entries)
    pub unlike : Unlike mark entries

  pass_one :
      (s : Server W B T) (list mark : ℕ) (passed : List Cell) (e : Entry T)
      (entries : List (Entry T))
      → Passing s list mark passed (e ∷ entries)
      → Passing s list mark (passed ++ (e.cell ∷ [])) entries
  pass_one s list mark passed e entries w = record {
    at_list = w.at_list;
    nodes =
        subst (IsList s.nodes list mark)
          (sym (append_assoc passed (e.cell ∷ []) (cells_of entries))) w.nodes;
    live = w.live.1;
    own = w.own.1;
    unlike = w.unlike.1;
  }

module _ {W B T : Type 0} (sys : System W B T) where
  receive_loop-next :
      (fuel : ℕ) (ready : ℕ → Bool) (s s' : Server W B T) (iter last next : Ptr)
      → equals s.nodes iter last ≡ ok false
      → (s.activity == 0) ≡ false
      → serve_client sys ready s iter ≡ ok (next, s')
      → receive_loop sys (suc fuel) ready s iter last ≡ receive_loop sys fuel ready s' next last
  unfolding receive_loop
  receive_loop-next fuel ready s s' iter last next away busy served = rw (away, busy, served) refl

  receive_loop-fault :
      (fuel : ℕ) (ready : ℕ → Bool) (s : Server W B T) (iter last : Ptr)
      → equals s.nodes iter last ≡ ok false
      → (s.activity == 0) ≡ false
      → serve_client sys ready s iter ≡ fault
      → receive_loop sys (suc fuel) ready s iter last ≡ fault
  unfolding receive_loop
  receive_loop-fault fuel ready s iter last away busy served = rw (away, busy, served) refl

  -- A client that is not ready is passed.
  serve_client-unready :
      (ready : ℕ → Bool) (s : Server W B T) (list mark : ℕ) (passed : List Cell) (e : Entry T)
      (entries : List (Entry T))
      → Passing s list mark passed (e ∷ entries)
      → ready e.client.sock ≡ false
      → serve_client sys ready s (some e.cell.place)
        ≡ ok (some (start (tail_of list) (cells_of entries)), s)
  unfolding serve_client
  serve_client-unready ready s list mark passed e entries w unready =
      rw
        (
          get-ok s.nodes list mark e.cell passed (cells_of entries) w.nodes,
          client_at-ok s.clients e.cell.item w.live.0,
          unready,
          step_next-ok s.nodes list mark e.cell passed (cells_of entries) w.nodes,
        )
        refl

  -- The client is taken off the list, and its node is read once more.
  drop_client-fault :
      (s : Server W B T) (list mark : ℕ) (passed : List Cell) (e : Entry T)
      (entries : List (Entry T))
      → Passing s list mark passed (e ∷ entries)
      → drop_client sys s (some e.cell.place) ≡ fault
  unfolding drop_client step_next
  drop_client-fault s list mark passed e entries w =
      let (nodes, run, _, gone) =
        remove-IsList s.nodes list mark e.cell passed (cells_of entries) w.nodes in
      rw
        (
          run,
          client_at-ok s.clients e.cell.item w.live.0,
          free_client-ok s.clients e.cell.item w.unlike.0.0 w.live.0,
          get_next-gone nodes e.cell.place gone,
        )
        refl

  -- `ActionFuncSndRcv` for a client from which nothing more comes.
  action-hung_up :
      (s : Server W B T) (item : ℕ) (client : ClientData T)
      → s.clients item ≡ some client
      → (sys.recv client.sock s.buffer s.world).0 ≡ false
      → (s' : Server W B T) × (action_func_snd_rcv sys s item ≡ ok (false, s'))
        × (s'.list ≡ s.list)
        × (s'.nodes ≡ s.nodes)
        × (s'.clients ≡ s.clients)
  unfolding action_func_snd_rcv
  action-hung_up s item client h hung_up =
      let (came, buffer, w) = sys.recv client.sock s.buffer s.world in
      (
        record s { buffer = buffer; world = sys.close client.sock (say_goodbye sys item w) },
        rw (client_at-ok s.clients item h, hung_up) refl,
        refl,
        refl,
        refl,
      )

  serve_client-fault :
      (ready : ℕ → Bool) (s : Server W B T) (list mark : ℕ) (passed : List Cell) (e : Entry T)
      (entries : List (Entry T))
      → Passing s list mark passed (e ∷ entries)
      → ready e.client.sock ≡ true
      → (sys.recv e.client.sock s.buffer s.world).0 ≡ false
      → serve_client sys ready s (some e.cell.place) ≡ fault
  unfolding serve_client
  serve_client-fault ready s list mark passed e entries w is_ready hung_up =
      let s₁ = record s { activity = s.activity - 1 } in
      let (s', run, same_list, same_nodes, same_clients) =
        action-hung_up s₁ e.cell.item e.client w.live.0 hung_up in
      let w' : Passing s' list mark passed (e ∷ entries) = record {
        at_list = same_list ∙ w.at_list;
        nodes =
            subst (λ m. IsList m list mark (passed ++ cells_of (e ∷ entries))) (sym same_nodes)
              w.nodes;
        live = subst (λ clients. Live clients (e ∷ entries)) (sym same_clients) w.live;
        own = w.own;
        unlike = w.unlike;
      } in
      rw
        (
          get-ok s.nodes list mark e.cell passed (cells_of entries) w.nodes,
          client_at-ok s.clients e.cell.item w.live.0,
          is_ready,
          run,
        )
        (drop_client-fault s' list mark passed e entries w')

  receive_loop-hung_up :
      (fuel : ℕ) (ready : ℕ → Bool) (s : Server W B T) (list mark : ℕ) (passed : List Cell)
      (front : List (Entry T)) (e : Entry T) (back : List (Entry T))
      → Passing s list mark passed (front ++ (e ∷ back))
      → (s.activity == 0) ≡ false
      → Unready ready front
      → ready e.client.sock ≡ true
      → (sys.recv e.client.sock s.buffer s.world).0 ≡ false
      → length front < fuel
      → receive_loop sys fuel ready s
          (some (start (tail_of list) (cells_of (front ++ (e ∷ back)))))
          (some (tail_of list))
        ≡ fault
  receive_loop-hung_up zero ready s list mark passed front e back w busy unready is_ready hung_up
        h =
      absurd (omega (arith, h))
  receive_loop-hung_up (suc fuel) ready s list mark passed [] e back w busy unready is_ready hung_up
        h =
      receive_loop-fault fuel ready s _ _
        (equals-away s.nodes list mark e.cell passed (cells_of back) w.nodes w.unlike.0.1) busy
        (serve_client-fault ready s list mark passed e back w is_ready hung_up)
  receive_loop-hung_up (suc fuel) ready s list mark passed (d ∷ front) e back w busy
        (quiet, unready) is_ready hung_up h =
      let entries = front ++ (e ∷ back) in
      receive_loop-next fuel ready s s _ _ _
        (equals-away s.nodes list mark d.cell passed (cells_of entries) w.nodes w.unlike.0.1) busy
        (serve_client-unready ready s list mark passed d entries w quiet)
      ∙ receive_loop-hung_up fuel ready s list mark (passed ++ (d.cell ∷ [])) front e back
          (pass_one s list mark passed d entries w) busy unready is_ready hung_up (omega (arith, h))

  -- If `select` finds some descriptor ready, and the first client that is ready has closed the
  -- connection, `ReceiveAndSend` does something undefined: it goes on from the node that it has
  -- freed.
  pub receive_and_send-hung_up :
      (fuel : ℕ) (ready : ℕ → Bool) (s : Server W B T) (list mark : ℕ) (front : List (Entry T))
      (e : Entry T) (back : List (Entry T))
      → Serves s list mark (front ++ (e ∷ back))
      → (s.activity == 0) ≡ false
      → Unready ready front
      → ready e.client.sock ≡ true
      → (sys.recv e.client.sock s.buffer s.world).0 ≡ false
      → length front < fuel
      → receive_and_send sys fuel ready s ≡ fault
  unfolding receive_and_send one_is_null
  receive_and_send-hung_up fuel ready s list mark front e back w busy unready is_ready hung_up h =
      let entries = front ++ (e ∷ back) in
      let looped =
        receive_loop-hung_up fuel ready s list mark [] front e back
          (record {
            at_list = w.at_list;
            nodes = w.nodes;
            live = w.live;
            own = w.own;
            unlike = w.unlike;
          })
          busy unready is_ready hung_up h in
      rw (begin-Serves s list mark entries w, end_of-Serves s list mark entries w, looped) refl
