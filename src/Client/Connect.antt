-- ===== src/Client/Connect.antt =====
-- Client/Client.c: making a client and giving it back.
use chat_project.Prelude.{
  ℕ, ◌≤◌, ◌≡◌, refl, sym, ap, ◌∙◌, rem, arith, Bool, true, false, Option, none, some, List, Run, ok,
  fault, ◌>>=◌, live, Ref, Bytes,
}
use chat_project.Primes.{check_if_prime}
use chat_project.Primes.Check.{HasNoDivisor, check_if_prime_iff}
use chat_project.Buffer.{CharPtr, hash_function, equality_function}
use chat_project.HashMap
use chat_project.HashMap.{HashMap, Slot, CreateMemory, map_made}
use chat_project.HashMap.View.{IsMap, view}
use chat_project.HashMap.Create.{create-IsMap}
use chat_project.ClientServerComm.{
  Sockets, ClientNet, client_status_connected, Made, init_client_net, init_client_net-made,
  destroy_client_net, connect_new_client,
}
use chat_project.Client.Groups.{Pid, PidMap}

-- `PID_HASH_CAP`
abbrev pid_hash_cap : ℕ
pid_hash_cap = 40

-- `struct Client`
pub record Client : Type 0 where
  pub client_net : ClientNet
  pub server_port : ℕ
  pub pid_hash : PidMap

-- what `Connect_User` comes to: NULL, a client, or the process aborted
pub data Connected : Type 0 where
  null aborted : Connected
  connected : Client → Connected

module _ {W : Type 0} (sockets : Sockets W) where
  with_map : PidMap → ClientNet → (server_port : ℕ) → W → Connected × W
  with_map Ref.null net server_port w = (null, destroy_client_net sockets net w)
  with_map map net server_port w =
      (connected (record { client_net = net; server_port = server_port; pid_hash = map }), w)

  -- `Connect_User` behind `Init_Client_Net`, whose result is not compared with NULL; whether the
  -- server was reached is not asked.
  with_net :
      (fuel : ℕ)
      → CreateMemory
      → (server_ip : Bytes) → (server_port : ℕ) → Made
      → W
      → Run (Connected × W)
  unfolding with_map connect_new_client
  with_net fuel a server_ip server_port Made.null w = fault
  with_net fuel a server_ip server_port Made.aborted w = ok (aborted, w)
  with_net fuel a server_ip server_port (Made.made net) w = do
    map ← HashMap.create fuel a pid_hash_cap (some hash_function) (some equality_function)
    ok (with_map map net server_port (connect_new_client sockets net server_ip server_port w))

  -- `Connect_User`
  unfoldable pub connect_user :
      (fuel : ℕ)
      → (client_ok : Bool) → CreateMemory
      → (server_ip : Bytes) → (server_port : ℕ) → W
      → Run (Connected × W)
  unfolding with_net
  connect_user fuel false a server_ip server_port w = ok (null, w)
  connect_user fuel true a server_ip server_port w =
      let (net, w₁) = init_client_net sockets w in with_net fuel a server_ip server_port net w₁

  -- `Destroy_Client`: the map of the client is not destroyed
  unfoldable destroy_client : Option Client → W → W
  destroy_client none w = w
  destroy_client (some client) w = destroy_client_net sockets client.client_net w

forty_one_passes : check_if_prime 100 41 ≡ ok true
unfolding check_if_prime rem
forty_one_passes = refl

forty_one-HasNoDivisor : HasNoDivisor 41
forty_one-HasNoDivisor =
    let (b, run, accepts) = check_if_prime_iff 100 41 (omega arith) (omega arith) (omega arith) in
    let accepted : ok b ≡ ok true = sym run ∙ forty_one_passes in accepts.0 (cc)

module _ {W : Type 0} (sockets : Sockets W) where
  connect_user-run :
      (fuel sock server_port : ℕ) (server_ip : Bytes) (w : W) (map : HashMap Bytes CharPtr Pid)
      → (sockets.malloc w).0 ≡ true
      → (sockets.socket (sockets.malloc w).1).0 ≡ some sock
      → HashMap.create fuel map_made pid_hash_cap (some hash_function) (some equality_function)
        ≡ ok (live map)
      → connect_user sockets fuel true map_made server_ip server_port w
        ≡ ok (
          connected (record {
            client_net = record { sock = sock; status = client_status_connected };
            server_port = server_port;
            pid_hash = live map;
          }),
          (sockets.connect_to sock server_ip server_port (sockets.socket (sockets.malloc w).1).1).1,
        )
  unfolding connect_user with_net with_map connect_new_client
  connect_user-run fuel sock server_port server_ip w map given socket_given made =
      ap (λ (net : Made × W). with_net sockets fuel map_made server_ip server_port net.0 net.1)
        (init_client_net-made sockets sock w given socket_given)
      ∙ rw made refl

  -- `Connect_User`, with memory and a socket, gives a client on that socket whose map of process
  -- ids is whole and has nothing under any name, whether or not the server was reached.
  pub connect_user-IsMap :
      (fuel sock server_port : ℕ) (server_ip memory : Bytes) (w : W)
      → (sockets.malloc w).0 ≡ true
      → (sockets.socket (sockets.malloc w).1).0 ≡ some sock
      → 41 ≤ fuel
      → (map : HashMap Bytes CharPtr Pid) × (slots : List (Slot CharPtr Pid)) × (connect_user
            sockets fuel true map_made server_ip server_port w
          ≡ ok (
            connected (record {
              client_net = record { sock = sock; status = client_status_connected };
              server_port = server_port;
              pid_hash = live map;
            }),
            (sockets.connect_to sock server_ip server_port
                (sockets.socket (sockets.malloc w).1).1).1,
          ))
        × IsMap memory map slots
        × ((q : CharPtr) → view memory map slots q ≡ none)
  connect_user-IsMap fuel sock server_port server_ip memory w given socket_given enough =
      let (map, slots, made, is_map, nothing, _) =
        create-IsMap memory hash_function equality_function fuel pid_hash_cap 41 (omega arith)
          (omega arith) forty_one-HasNoDivisor (omega arith) enough (omega (arith, enough)) in
      (
        map,
        slots,
        connect_user-run fuel sock server_port server_ip w map given socket_given made,
        is_map,
        nothing,
      )
