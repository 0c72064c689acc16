-- ===== src/ServerMain.antt =====
-- ServerMain/ServerSide.c: the server's process. What is printed is left out; the two functions
-- that only print are part of the interface of TcpServer.antt.
use chat_project.Prelude.{
  ℕ, ◌<◌, ◌≡◌, refl, arith, true, Option, none, some, Run, ok, fault, Ref, null, live, ◌>>=◌, ltb,
}
use chat_project.DLinkedList.{Memory}
use chat_project.DataBase.{DataBase}
use chat_project.DataBase.Lifecycle.{DataBaseMemory, create_main_data_base}
use chat_project.TcpServer.{System, Server, Clients}
use chat_project.TcpServer.Startup.{Remains, Setup, Params, refused, create_server, run_server}

-- The parameters that `RunServerSide` fills in; `m_doSometing` is `GetFromClientAndSendToServer`.
unfoldable server_params : (port : ℕ) → Params
server_params port = record {
  back_log = 11;
  server_port = port;
  max_wait_time = 300;
  has_do_something = true;
}

-- How `RunServerSide` ends: without a data base, without a server, or with a server that was
-- stopped.
data Ending (W B T : Type 0) : Type 0 where
  no_data_base : Ending W B T
  no_server : W → Ending W B T
  stopped : Remains W B T → Ending W B T

module _ {W B T : Type 0} (setup : Setup W B T) where
  -- `RunServer` of what `CreateServer` gave
  run_given :
      (sys : System W B T)
      → (turns fuel : ℕ) → (old : T) → Option (Server W B T) × W
      → Run (Ending W B T)
  run_given sys turns fuel old (none, w) = do
    (_, _) ← run_server sys setup turns fuel old null
    ok (no_server w)
  run_given sys turns fuel old (some s, w) = do
    (_, remains) ← run_server sys setup turns fuel old (live s)
    elim remains [ none ↦ ok (no_server w) | some left ↦ ok (stopped left) ]

  -- `RunServerSide`, where the port is the number that is entered; the context of the server's
  -- functions is the data base
  unfoldable run_server_side :
      (sys : Ref DataBase → System W B T)
      → DataBaseMemory
      → (port : Option ℕ) → (head_data tail_data turns fuel : ℕ) → (old : T) → Memory
      → Clients T
      → W
      → Run (Ending W B T)
  unfolding run_given
  run_server_side sys mem port head_data tail_data turns fuel old m clients w = do
    data_base ← create_main_data_base mem
    elim data_base [
      | Ref.null ↦ ok no_data_base
      | other ↦ elim port [
        | none ↦ fault
        | some p ↦
            run_given (sys other) turns fuel old
              (create_server (sys other) setup (server_params p) head_data tail_data m clients w)
      ]
    ]

-- Of the tests of `CreateServer` only that of the port can fail.
server_params-refused : (port : ℕ) → refused (server_params port) ≡ ltb port 1024
unfolding refused server_params
server_params-refused port = ground arith

-- With a port below 1024, `RunServerSide` makes the data base and no server, and returns at once.
run_server_side-low_port :
    {W B T : Type 0} (setup : Setup W B T) (sys : Ref DataBase → System W B T)
    (mem : DataBaseMemory) (port head_data tail_data turns fuel : ℕ) (old : T) (m : Memory)
    (clients : Clients T) (w : W) (db : DataBase)
    → port < 1024
    → create_main_data_base mem ≡ ok (live db)
    → run_server_side setup sys mem (some port) head_data tail_data turns fuel old m clients w
      ≡ ok (no_server w)
unfolding run_server_side run_given create_server run_server
run_server_side-low_port setup sys mem port head_data tail_data turns fuel old m clients w db low
      made =
    let low_test : ltb port 1024 ≡ true = ground arith in
    rw (made, server_params-refused port, low_test) refl
