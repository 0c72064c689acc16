-- ===== src/ClientServerComm.antt =====
-- ClientServerComm/ClientServerComm.c: the connection of a client. The socket library and `malloc`
-- are an interface over a world of their own; what a call prints is left out.
use chat_project.Prelude.{ℕ, Bool, true, false, Option, none, some, Bytes, ◌≡◌, refl}
use chat_project.Buffer.{receive}

-- `socket`, `connect` (`connect_to`) and `send` may fail; `recv` may fail, or give at most as many
-- bytes as it is asked for. `malloc` may give NULL.
pub record Sockets (W : Type 0) : Type 0 where
  pub malloc : W → Bool × W
  pub socket : W → Option ℕ × W
  pub connect_to : (sock : ℕ) → (server_ip : Bytes) → (server_port : ℕ) → W → Bool × W
  pub send : (sock : ℕ) → Bytes → W → Bool × W
  pub recv : (sock len : ℕ) → W → Option Bytes × W
  pub close : (sock : ℕ) → W → W

-- `enum Client_Status`
pub data Status : Type 0 where
  client_status_connected client_status_disconnected : Status

-- `struct Client_Net`
pub record ClientNet : Type 0 where
  pub sock : ℕ
  pub status : Status

-- NULL, the process aborted, or a connection
pub data Made : Type 0 where
  null aborted : Made
  made : ClientNet → Made

module _ {W : Type 0} (sockets : Sockets W) where
  -- `CreateSocket`, with the rest of `Init_Client_Net`
  from_socket : Option ℕ → W → Made × W
  from_socket none w = (aborted, w)
  from_socket (some s) w = (made (record { sock = s; status = client_status_connected }), w)

  from_block : Bool → W → Made × W
  from_block false w = (null, w)
  from_block true w = let (sock, w₁) = sockets.socket w in from_socket sock w₁

  -- `Init_Client_Net`
  unfoldable pub init_client_net : W → Made × W
  unfolding from_socket from_block
  init_client_net w = let (given, w₁) = sockets.malloc w in from_block given w₁

  -- `Destroy_Client_Net`
  unfoldable pub destroy_client_net : ClientNet → W → W
  destroy_client_net net w = sockets.close net.sock w

  -- `ConnectNewClient`: a failure is only printed
  unfoldable pub connect_new_client : ClientNet → (server_ip : Bytes) → (server_port : ℕ) → W → W
  connect_new_client net server_ip server_port w =
      (sockets.connect_to net.sock server_ip server_port w).1

  -- `Send_To_Server`: whether it returns 0, and not -1
  unfoldable send_to_server : Bytes → ClientNet → W → Bool × W
  send_to_server value net w = sockets.send net.sock value w

  -- `Recive_From_Server`, with the buffer afterwards
  unfoldable recive_from_server : (buffer : Bytes) → (len : ℕ) → ClientNet → W → Bool × Bytes × W
  recive_from_server buffer len net w =
      let (message, w₁) = sockets.recv net.sock len w in
      elim message [ none ↦ (false, buffer, w₁) | some bytes ↦ (true, receive buffer bytes, w₁) ]

module _ {W : Type 0} (sockets : Sockets W) where
  pub init_client_net-made :
      (sock : ℕ) (w : W)
      → (sockets.malloc w).0 ≡ true
      → (sockets.socket (sockets.malloc w).1).0 ≡ some sock
      → init_client_net sockets w ≡ (
        made (record { sock = sock; status = client_status_connected }),
        (sockets.socket (sockets.malloc w).1).1,
      )
  unfolding init_client_net from_block from_socket
  init_client_net-made sock w given socket_given =
      rw (init_client_net, from_block, from_socket, given, socket_given) refl
