-- ===== src/TcpServer/Shutdown.antt =====
-- ServerTCP/server_tcp.c: what `CreateServer` makes and what `DestroyServer` takes down.
use chat_project.Prelude.{
  ℕ, ◌<◌, ◌≡◌, refl, ap, ◌∙◌, arith, ◌==◌, Ref, true, false, none, some, List, [], ◌∷◌, ◌++◌, ok,
  Bool-cases, inl, inr, length,
}
use chat_project.DLinkedList.{Memory, create, destroy, tail_of}
use chat_project.DLinkedList.Path.{Distinct}
use chat_project.DLinkedList.Shape.{places}
use chat_project.DLinkedList.Refine.{create-IsList}
use chat_project.DLinkedList.Destroy.{items_of, Released, destroy-Released}
use chat_project.TcpServer.{magic_num, System, Clients, Server, put_client}
use chat_project.TcpServer.Startup.{
  Setup, Params, refused, bind_server, init_master_socket, fill_server, with_socket, with_master,
  create_server, destroy_elements, destroy_server,
}
use chat_project.TcpServer.Serving.{
  BlocksFreed, BlocksFreed-cons, Entry, cells_of, blocks_of, Live, Unlike, Serves, Live-put,
  client_at-ok, free_client-ok,
}

module _ {T : Type 0} where
  items_of-cells_of : (entries : List (Entry T)) → items_of (cells_of entries) ≡ blocks_of entries
  items_of-cells_of [] = refl
  items_of-cells_of (e ∷ entries) = ap (λ items. e.cell.item ∷ items) (items_of-cells_of entries)

module _ {W B T : Type 0} (sys : System W B T) (setup : Setup W B T) where
  -- The world once the sockets of these clients are closed, in their order.
  abbrev pub close_all : List (Entry T) → W → W
  close_all [] w = w
  close_all (e ∷ entries) w = close_all entries (sys.close e.client.sock w)

  destroy_elements-ok :
      (mark : ℕ) (entries : List (Entry T)) (clients : Clients T) (w : W)
      → Live clients entries
      → Distinct (blocks_of entries)
      → Unlike mark entries
      → (clients' : Clients T) × (destroy_elements sys setup (blocks_of entries) clients w
          ≡ ok (clients', close_all entries w))
        × BlocksFreed clients clients' entries
  unfolding destroy_elements
  destroy_elements-ok mark [] clients w live own unlike =
      (clients, refl, record { gone = tt; kept = λ a away. refl })
  destroy_elements-ok mark (e ∷ entries) clients w (h, live) (apart, own) ((real, _), unlike) =
      let a = e.cell.item in
      let (clients', run, freed) =
        destroy_elements-ok mark entries (put_client clients a none) (sys.close e.client.sock w)
          (Live-put clients a none entries apart live) own unlike in
      (
        clients',
        rw (client_at-ok clients a h, free_client-ok clients a real h) run,
        BlocksFreed-cons clients clients' e entries apart freed,
      )

  -- `DestroyServer` of a server with its magic number closes the sockets of all clients, in their
  -- order, and then its own; it gives back their blocks and no other client's, the nodes of the
  -- list and the list and nothing else of that memory, each once, the receive buffer and the server
  -- itself. As many steps as there are clients, and one more, are enough; no client's block is
  -- where the data of the tail sentinel points to.
  pub destroy_server-closes :
      (fuel : ℕ) (s : Server W B T) (list mark : ℕ) (entries : List (Entry T))
      → Serves s list mark entries
      → s.magic_number ≡ magic_num
      → length (cells_of entries) < fuel
      → (nodes : Memory) × (clients : Clients T) × (destroy_server sys setup fuel (Ref.live s)
          ≡ ok (
            Ref.dangling,
            some (record {
              nodes = nodes;
              clients = clients;
              buffer_rcv = Ref.dangling;
              world = sys.close s.master_socket (close_all entries (setup.fd_zero s.world));
            }),
          ))
        × Released s.nodes nodes (places (cells_of entries) ++ (list ∷ tail_of list ∷ []))
        × BlocksFreed s.clients clients entries
  unfolding destroy_server
  destroy_server-closes fuel s list mark entries w magic h =
      let cells = cells_of entries in
      let (nodes, run, released) = destroy-Released fuel s.nodes list mark cells true w.nodes h in
      let run' : destroy fuel s.nodes s.list true ≡ ok (blocks_of entries, nodes, none) =
        rw w.at_list (run ∙ ap (λ items. ok (items, nodes, none)) (items_of-cells_of entries)) in
      let (clients, closed, freed) =
        destroy_elements-ok mark entries s.clients (setup.fd_zero s.world) w.live w.own w.unlike in
      let named : (s.magic_number == magic_num) ≡ true = ground (arith, magic) in
      (nodes, clients, rw (named, run', closed) refl, released, freed)

module _ {W B T : Type 0} (sys : System W B T) (setup : Setup W B T) (p : Params)
    (head_data tail_data sock list b : ℕ) (m : Memory) (clients : Clients T) (w : W) where
  -- The world after the first `malloc`, `socket`, `setsockopt`, `bind` and `listen`.
  abbrev allocated : W
  allocated = (setup.malloc w).1

  abbrev opened : W
  opened = (setup.socket allocated).1

  abbrev reusable : W
  reusable = (setup.setsockopt (some sock) opened).1

  abbrev bound : W
  bound = (setup.bind (some sock) p.server_port reusable).1

  abbrev listening : W
  listening = (setup.listen (some sock) p.back_log bound).1

  init_master_socket-ok :
      (setup.socket allocated).0 ≡ some sock
      → (setup.setsockopt (some sock) opened).0 ≡ true
      → (setup.listen (some sock) p.back_log bound).0 ≡ true
      → init_master_socket sys setup p.server_port p.back_log allocated ≡ (some sock, listening)
  unfolding init_master_socket bind_server
  init_master_socket-ok open_ok reuse_ok listen_ok =
      elim (Bool-cases (setup.bind (some sock) p.server_port reusable).0) [
        | inl e ↦ rw (open_ok, reuse_ok, e, listen_ok) refl
        | inr e ↦ rw (open_ok, reuse_ok, e, listen_ok) refl
      ]

  with_socket-ok :
      (setup.malloc listening).0 ≡ some list
      → (with_socket sys setup p sock head_data tail_data m clients listening).0
        ≡ some (
            fill_server sys setup p sock
              (some list)
              (create (some list) head_data tail_data m).1
              clients
              (setup.malloc listening).1)
  unfolding with_socket create
  with_socket-ok room = rw (with_socket, room) refl

  create_server-reached :
      refused p ≡ false
      → (setup.malloc w).0 ≡ some b
      → create_server sys setup p head_data tail_data m clients w
        ≡ with_master sys setup p head_data tail_data m clients
            (init_master_socket sys setup p.server_port p.back_log allocated)
  unfolding create_server
  create_server-reached allowed block = rw (create_server, allowed, block) refl

  -- With a function of the application, a port from 1024 on, a time to wait and a queue of 128 at
  -- most, if `socket`, `setsockopt`, `listen` and both calls of `malloc` succeed, `CreateServer`
  -- gives a server on that socket, with its magic number, that has no clients; it does so also
  -- where `bind` has failed.
  pub create_server-Serves :
      refused p ≡ false
      → (setup.malloc w).0 ≡ some b
      → (setup.socket allocated).0 ≡ some sock
      → (setup.setsockopt (some sock) opened).0 ≡ true
      → (setup.listen (some sock) p.back_log bound).0 ≡ true
      → (setup.malloc listening).0 ≡ some list
      → (s : Server W B T) × ((create_server sys setup p head_data tail_data m clients w).0
          ≡ some s)
        × Serves s list tail_data []
        × (s.master_socket ≡ sock)
        × (s.max_wait ≡ setup.seconds p.max_wait_time)
        × (s.magic_number ≡ magic_num)
  unfolding fill_server with_master
  create_server-Serves allowed block open_ok reuse_ok listen_ok room =
      let nodes = (create (some list) head_data tail_data m).1 in
      (
        fill_server sys setup p sock (some list) nodes clients (setup.malloc listening).1,
        ap (λ made. made.0) (create_server-reached allowed block)
            ∙ ap (λ made. (with_master sys setup p head_data tail_data m clients made).0)
                (init_master_socket-ok open_ok reuse_ok listen_ok)
            ∙ with_socket-ok room,
        record {
          at_list = refl;
          nodes = create-IsList list head_data tail_data m;
          live = tt;
          own = tt;
          unlike = tt;
        },
        refl,
        refl,
        refl,
      )
