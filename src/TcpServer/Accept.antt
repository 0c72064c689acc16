-- ===== src/TcpServer/Accept.antt =====
-- ServerTCP/server_tcp.c: how a client gets on the list, and how many get on it.
use chat_project.Prelude.{
  ℕ, ◌<◌, ◌^◌, ◌≡◌, refl, sym, ap, ◌∙◌, arith, true, false, none, some, List, [], ◌∷◌, ◌++◌, ok,
  ◌==◌, ltb, if◌then◌else◌, Bool-cases, inl, inr, length,
}
use mathlib.Core.Path.{subst}
use chat_project.DLinkedList.{Memory, size, push_tail, list_success}
use chat_project.DLinkedList.Path.{Apart, Distinct}
use chat_project.DLinkedList.Shape.{IsList, path_of, ==_swap}
use chat_project.DLinkedList.Push.{push_tail-IsList}
use chat_project.TcpServer.{
  System, ClientData, Clients, Server, clients_limit, put_client, update_time_for_client,
}
use chat_project.TcpServer.Turn.{
  greet_client, create_new_client, accept_client, add_client_to_the_list,
}
use chat_project.TcpServer.Serving.{
  size-Serves, Entry, cells_of, blocks_of, Live, Unlike, Serves, Live-put, client_at-ok,
}

module _ {T : Type 0} where
  cells_of-append :
      (entries : List (Entry T)) (e : Entry T)
      → cells_of (entries ++ (e ∷ [])) ≡ cells_of entries ++ (e.cell ∷ [])
  cells_of-append [] e = refl
  cells_of-append (d ∷ entries) e = ap (λ cells. d.cell ∷ cells) (cells_of-append entries e)

  Live-append :
      (clients : Clients T) (entries : List (Entry T)) (e : Entry T)
      → Live clients entries
      → clients e.cell.item ≡ some e.client
      → Live clients (entries ++ (e ∷ []))
  Live-append clients [] e live h = (h, tt)
  Live-append clients (d ∷ entries) e (k, live) h = (k, Live-append clients entries e live h)

  Unlike-append :
      (mark : ℕ) (entries : List (Entry T)) (e : Entry T)
      → Unlike mark entries
      → (e.cell.item == 0) ≡ false
      → (e.cell.item == mark) ≡ false
      → Unlike mark (entries ++ (e ∷ []))
  Unlike-append mark [] e unlike h k = ((h, k), tt)
  Unlike-append mark (d ∷ entries) e (j, unlike) h k = (j, Unlike-append mark entries e unlike h k)

  Apart-append_one :
      (a : ℕ) (entries : List (Entry T)) (e : Entry T)
      → Apart a (blocks_of entries)
      → (e.cell.item == a) ≡ false
      → Apart a (blocks_of (entries ++ (e ∷ [])))
  Apart-append_one a [] e apart h = (h, tt)
  Apart-append_one a (d ∷ entries) e (k, apart) h = (k, Apart-append_one a entries e apart h)

  own-append :
      (entries : List (Entry T)) (e : Entry T)
      → Distinct (blocks_of entries)
      → Apart e.cell.item (blocks_of entries)
      → Distinct (blocks_of (entries ++ (e ∷ [])))
  own-append [] e own apart = (tt, tt)
  own-append (d ∷ entries) e (k, own) (away, apart) = (
    Apart-append_one d.cell.item entries e k (==_swap d.cell.item e.cell.item away),
    own-append entries e own apart,
  )

module _ {W B T : Type 0} (sys : System W B T) (fuel : ℕ) (old : T) (s : Server W B T)
    (list mark sock a n : ℕ) (entries : List (Entry T)) (w : Serves s list mark entries)
    (enough : length entries < fuel) (few : length entries < 2 ^ 31)
    (accepted : (sys.accept s.world).0 ≡ some sock) where
  number-ok : size fuel s.nodes s.list ≡ ok (length entries)
  number-ok = size-Serves fuel s list mark entries w enough few

  accept_client-full :
      ltb clients_limit (length entries) ≡ true
      → accept_client sys fuel old s
        ≡ ok (none, record s { world = sys.close sock (sys.accept s.world).1 })
  unfolding accept_client
  accept_client-full full = rw (accept_client, accepted, number-ok, full) refl

  accept_client-reached :
      ltb clients_limit (length entries) ≡ false
      → accept_client sys fuel old s
        ≡ ok (
            greet_client sys sock (
              create_new_client sys
                (sys.malloc (sys.fd_set sock (sys.accept s.world).1)).0
                old
                sock
                (record s {
                  max_socket = if ltb s.max_socket sock then sock else s.max_socket;
                  world = (sys.malloc (sys.fd_set sock (sys.accept s.world).1)).1;
                })))
  unfolding accept_client
  accept_client-reached room = rw (accept_client, accepted, number-ok, room) refl

  -- The world in which the new client has been welcomed, and the server then.
  abbrev welcomed : W
  welcomed =
      let w = (sys.malloc (sys.fd_set sock (sys.accept s.world).1)).1 in
      elim sys.welcome [ none ↦ w | some welcome ↦ welcome a w ]

  abbrev accepted_server : Server W B T
  accepted_server = record s {
    clients = put_client s.clients a (some (record { sock = sock; timeout = old }));
    max_socket = if ltb s.max_socket sock then sock else s.max_socket;
    world = welcomed;
  }

  abbrev timed : ClientData T
  timed = record { sock = sock; timeout = sys.add (sys.gettimeofday old welcomed).0 s.max_wait }

  abbrev timed_server : Server W B T
  timed_server = record accepted_server {
    clients = put_client accepted_server.clients a (some timed);
    world = (sys.gettimeofday old welcomed).1;
  }

  -- the server with the new client on its list, whose nodes are then these
  abbrev joined_server : Memory → Server W B T
  joined_server nodes = record timed_server {
    nodes = nodes;
    world = (sys.malloc (sys.gettimeofday old welcomed).1).1;
  }

  -- the server that has turned the connection away
  abbrev closed_server : Server W B T
  closed_server = record s { world = sys.close sock (sys.accept s.world).1 }

  abbrev newcomer : Entry T
  newcomer = record { cell = record { place = n; item = a }; client = timed }

  module _ (room : ltb clients_limit (length entries) ≡ false)
      (block : (sys.malloc (sys.fd_set sock (sys.accept s.world).1)).0 ≡ some a) where
    accept_client-ok : accept_client sys fuel old s ≡ ok (some a, accepted_server)
    unfolding greet_client create_new_client
    accept_client-ok =
        accept_client-reached room
        ∙ ap
            (λ given. ok (
              greet_client sys sock (
                create_new_client sys given old sock (record s {
                  max_socket = if ltb s.max_socket sock then sock else s.max_socket;
                  world = (sys.malloc (sys.fd_set sock (sys.accept s.world).1)).1;
                }))))
            block

    update_time-ok : update_time_for_client sys accepted_server a ≡ ok timed_server
    unfolding update_time_for_client put_client
    update_time-ok =
        let here : accepted_server.clients a ≡ some (record { sock = sock; timeout = old }) =
          ground arith in
        rw (client_at-ok accepted_server.clients a here) refl

    added :
        (sys.malloc (sys.gettimeofday old welcomed).1).0 ≡ some n
        → Apart n (path_of list (cells_of entries))
        → (a == 0) ≡ false
        → (a == mark) ≡ false
        → Apart a (blocks_of entries)
        → (nodes : Memory) × (add_client_to_the_list sys fuel old s
            ≡ ok (true, joined_server nodes))
          × Serves (joined_server nodes) list mark (entries ++ (newcomer ∷ []))
    unfolding add_client_to_the_list put_client
    added node apart_n a≠0 a≠mark apart_a =
        let cells = cells_of entries in
        let (nodes, pushed, w') =
          push_tail-IsList s.nodes list mark n a cells w.nodes apart_n a≠0 in
        let pushed' : push_tail (some n) s.nodes s.list a ≡ ok (list_success, nodes) =
          rw w.at_list pushed in
        let kept = Live-put accepted_server.clients a (some timed) entries apart_a (
          Live-put s.clients a (some (record { sock = sock; timeout = old })) entries apart_a
            w.live) in
        (
          nodes,
          rw (accept_client-ok, update_time-ok, node, pushed') refl,
          record {
            at_list = w.at_list;
            nodes = subst (IsList nodes list mark) (sym (cells_of-append entries newcomer)) w';
            live = Live-append timed_server.clients entries newcomer kept (ground arith);
            own = own-append entries newcomer w.own apart_a;
            unlike = Unlike-append mark entries newcomer w.unlike a≠0 a≠mark;
          },
        )

  -- `AddClientToTheList` where a connection is accepted and `malloc` gives a block and a node that
  -- are in no use, and where the data of the tail sentinel is no client's block, nor that new one:
  -- the new client is put behind the others, with the time then and the time to wait as its
  -- timeout, unless there are more than 1000 of them; then its socket is closed and nothing else
  -- changes. So 1001 clients get on the list. As many steps as there are clients, and one more, are
  -- enough; there are fewer than 2 ^ 31.
  pub add_client_to_the_list-limit :
      (sys.malloc (sys.fd_set sock (sys.accept s.world).1)).0 ≡ some a
      → (sys.malloc (sys.gettimeofday old welcomed).1).0 ≡ some n
      → Apart n (path_of list (cells_of entries))
      → (a == 0) ≡ false
      → (a == mark) ≡ false
      → Apart a (blocks_of entries)
      → (nodes : Memory) × (add_client_to_the_list sys fuel old s
          ≡ ok (
            true,
            if ltb clients_limit (length entries) then closed_server else joined_server nodes,
          ))
        × Serves
            (if ltb clients_limit (length entries) then closed_server else joined_server nodes)
            list
            mark
            (if ltb clients_limit (length entries) then entries else entries ++ (newcomer ∷ []))
  unfolding add_client_to_the_list
  add_client_to_the_list-limit block node apart_n a≠0 a≠mark apart_a =
      elim (Bool-cases (ltb clients_limit (length entries))) [
        | inl full ↦ (
          s.nodes,
          rw (accept_client-full full, full) refl,
          rw full (record {
            at_list = w.at_list;
            nodes = w.nodes;
            live = w.live;
            own = w.own;
            unlike = w.unlike;
          }),
        )
        | inr room ↦
            let (nodes, run, w') = added room block node apart_n a≠0 a≠mark apart_a in
            (nodes, rw room run, rw room w')
      ]
