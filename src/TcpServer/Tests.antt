-- ===== src/TcpServer/Tests.antt =====
-- ServerTCP/server_tcp.c with two clients on a small system.
use chat_project.Prelude.{
  ℕ, ◌+◌, ◌-◌, ◌≡◌, refl, arith, true, false, not, none, some, List, [], ◌∷◌, ok, fault, live,
  dangling, ◌==◌, ltb, if◌then◌else◌,
}
use chat_project.DLinkedList.{Memory}
use chat_project.DLinkedList.Shape.{IsList}
use chat_project.DLinkedList.Sequence.{Operation, add_last, AllServed, apply, apply_all}
use chat_project.DLinkedList.Refine.{calls_refine}
use chat_project.DLinkedList.Destroy.{Released}
use chat_project.TcpServer.{
  magic_num, put_client, System, Clients, Server, check_expiry_of_clients, say_goodbye,
}
use chat_project.TcpServer.Idle.{turn-idle}
use chat_project.TcpServer.Turn.{turn, serve_client, receive_and_send, add_client_to_the_list}
use chat_project.TcpServer.Serving.{BlocksFreed, Entry, cells_of, Serves}
use chat_project.TcpServer.Expiry.{check_expiry_of_clients-drops}
use chat_project.TcpServer.Receive.{Passing, receive_and_send-hung_up}
use chat_project.TcpServer.Answered.{serve_client-moves}
use chat_project.TcpServer.Accept.{add_client_to_the_list-limit}
use chat_project.TcpServer.Startup.{Setup, Params, refused, create_server, destroy_server}
use chat_project.TcpServer.Shutdown.{destroy_server-closes, create_server-Serves}

-- The world is a log. Socket 9 has hung up; the clock stands at 100.
abbrev system : System (List ℕ) ℕ ℕ
system = record {
  goodbye = some (λ client w. client ∷ w);
  welcome = some (λ client w. client ∷ w);
  fd_set = λ sock w. w;
  fd_clr = λ sock w. w;
  close = λ sock w. sock ∷ w;
  recv = λ sock buffer w. (not (sock == 9), 42, w);
  app = λ buffer sock w. (buffer + 1, buffer, w);
  send = λ sock message w. (true, w);
  malloc = λ w. (elim w [ [] ↦ some 500 | _ ∷ _ ↦ some 300 ], w);
  accept = λ w. (some 7, w);
  gettimeofday = λ stood w. (100, w);
  unwritten = 0;
  later = λ a b. ltb b a;
  add = λ a b. a + b;
  sub = λ a b. a - b;
  select = λ n limit w. (some 0, λ sock. false, w);
  stopped = λ w. true;
}

abbrev nothing : Memory
nothing a = none

abbrev two : List Operation
two = add_last (some 10) 40 ∷ add_last (some 20) 41 ∷ []

abbrev two_served : AllServed 100 [] two
unfolding apply
two_served = ((refl, (refl, tt)), ((refl, (refl, (refl, tt))), tt))

abbrev memory : Memory
memory = (calls_refine 100 7 8 nothing two two_served).0

abbrev first : Entry ℕ
first = record {
  cell = record { place = 10; item = 40 };
  client = record { sock = 5; timeout = 50 };
}

abbrev second : Entry ℕ
second = record {
  cell = record { place = 20; item = 41 };
  client = record { sock = 9; timeout = 200 };
}

abbrev blocks : Clients ℕ
blocks a = if a == 40 then some first.client else if a == 41 then some second.client else none

abbrev server : (log : List ℕ) → Server (List ℕ) ℕ ℕ
server log = record {
  master_socket = 3;
  list = some 100;
  nodes = memory;
  clients = blocks;
  buffer = 0;
  max_wait = 30;
  activity = 1;
  max_socket = 9;
  magic_number = magic_num;
  world = log;
}

abbrev memory-IsList : IsList memory 100 8 (cells_of (first ∷ second ∷ []))
unfolding apply_all apply
memory-IsList = (calls_refine 100 7 8 nothing two two_served).2

abbrev server-Serves : (log : List ℕ) → Serves (server log) 100 8 (first ∷ second ∷ [])
server-Serves log = record {
  at_list = refl;
  nodes = memory-IsList;
  live = (refl, (refl, tt));
  own = ((refl, tt), (tt, tt));
  unlike = ((refl, refl), ((refl, refl), tt));
}

check_expiry_of_clients-drops_example :
    (s' : Server (List ℕ) ℕ ℕ) × (check_expiry_of_clients system 3 (server []) ≡ ok (true, s'))
    × Serves s' 100 8 (second ∷ [])
    × BlocksFreed blocks s'.clients (first ∷ [])
    × (s'.world ≡ 5 ∷ 40 ∷ [])
unfolding say_goodbye
check_expiry_of_clients-drops_example =
    check_expiry_of_clients-drops system 3 (server []) 100 8 (first ∷ second ∷ [])
      (server-Serves []) (omega arith)

receive_and_send-hung_up_example : receive_and_send system 3 (λ sock. sock == 9) (server []) ≡ fault
receive_and_send-hung_up_example =
    receive_and_send-hung_up system 3 (λ sock. sock == 9) (server []) 100 8 (first ∷ []) second []
      (server-Serves []) refl (refl, tt) refl refl (omega arith)

serve_client-moves_example :
    (s' : Server (List ℕ) ℕ ℕ) × (serve_client system
        (λ sock. sock == 5)
        (server (1 ∷ []))
        (some 10)
      ≡ ok (some 20, s'))
    × Passing s' 100 8 (record { place = 300; item = 40 } ∷ []) (second ∷ [])
    × (s'.clients 40 ≡ some (record { sock = 5; timeout = 130 }))
    × (s'.activity ≡ 0)
serve_client-moves_example =
    let w = server-Serves (1 ∷ []) in
    serve_client-moves system (λ sock. sock == 5) (server (1 ∷ [])) 100 8 300 [] first (second ∷ [])
      (record {
        at_list = refl;
        nodes = memory-IsList;
        live = w.live;
        own = w.own;
        unlike = w.unlike;
      })
      (refl, (refl, (refl, tt))) refl refl refl refl

-- the server with a third client
abbrev joined : Memory → Server (List ℕ) ℕ ℕ
joined nodes = record (server (500 ∷ [])) {
  nodes = nodes;
  clients =
      put_client (put_client blocks 500 (some (record { sock = 7; timeout = 0 }))) 500
        (some (record { sock = 7; timeout = 130 }));
}

add_client_to_the_list-limit_example :
    (nodes : Memory) × (add_client_to_the_list system 3 0 (server []) ≡ ok (true, joined nodes))
    × Serves (joined nodes) 100 8 (
        first
        ∷ second
        ∷ record {
          cell = record { place = 300; item = 500 };
          client = record { sock = 7; timeout = 130 };
        }
        ∷ [])
add_client_to_the_list-limit_example =
    add_client_to_the_list-limit system 3 0 (server []) 100 8 7 500 300 (first ∷ second ∷ [])
      (server-Serves []) (omega arith) (omega arith) refl refl refl
      (refl, (refl, (refl, (refl, tt)))) refl refl (refl, (refl, tt))

-- Everything succeeds but `bind`.
abbrev setup : Setup (List ℕ) ℕ ℕ
setup = record {
  socket = λ w. (some 3, w);
  setsockopt = λ sock w. (true, w);
  bind = λ sock port w. (false, w);
  listen = λ sock back_log w. (true, w);
  close_socket = λ sock w. w;
  malloc = λ w. (some 100, w);
  calloc = λ w. (0, w);
  seconds = λ n. n;
  fd_zero = λ w. w;
}

abbrev params : Params
params = record { back_log = 5; server_port = 4848; max_wait_time = 30; has_do_something = true }

create_server-Serves_example :
    (s : Server (List ℕ) ℕ ℕ) × ((create_server system setup params 7 8 nothing (λ a. none) []).0
      ≡ some s)
    × Serves s 100 8 []
    × (s.master_socket ≡ 3)
    × (s.max_wait ≡ 30)
    × (s.magic_number ≡ magic_num)
unfolding refused
create_server-Serves_example =
    create_server-Serves system setup params 7 8 3 100 100 nothing (λ a. none) [] refl refl refl
      refl refl refl

destroy_server-closes_example :
    (nodes : Memory) × (clients : Clients ℕ) × (destroy_server system setup 3 (live (server []))
      ≡ ok (
        dangling,
        some (record {
          nodes = nodes;
          clients = clients;
          buffer_rcv = dangling;
          world = 3 ∷ 9 ∷ 5 ∷ [];
        }),
      ))
    × Released memory nodes (10 ∷ 20 ∷ 100 ∷ 101 ∷ [])
    × BlocksFreed blocks clients (first ∷ second ∷ [])
destroy_server-closes_example =
    destroy_server-closes system setup 3 (server []) 100 8 (first ∷ second ∷ []) (server-Serves [])
      refl (omega arith)

turn-idle_example :
    (s' : Server (List ℕ) ℕ ℕ) × (turn system 3 0 (server []) ≡ ok s')
    × Serves s' 100 8 (second ∷ [])
    × (s'.world ≡ 5 ∷ 40 ∷ [])
unfolding say_goodbye
turn-idle_example =
    turn-idle system 3 0 (server []) 100 8 (first ∷ second ∷ []) (server-Serves []) (omega arith)
      (omega arith) refl
