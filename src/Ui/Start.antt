-- ===== src/Ui/Start.antt =====
-- UI/UI.c: making the interface and giving it back. Main/ClientMain.c: the client's process.
use chat_project.Prelude.{ℕ, Bool, true, false, Option, none, some, Run, ok, fault, ◌>>=◌, Bytes}
use chat_project.HashMap.{CreateMemory}
use chat_project.ClientServerComm.{Sockets}
use chat_project.Client.Connect.{Client, Connected, connect_user}
use chat_project.Ui.{Calls, fit_word, run_ui}

-- `struct Client_Interface`; the client is NULL where it could not be made
record ClientInterface : Type 0 where
  pub client : Option Client

-- what `CreateCommunication` comes to: NULL, an interface, or the process aborted
data Opened : Type 0 where
  null aborted : Opened
  opened : ClientInterface → Opened

abbrev ip_address_len : ℕ
ip_address_len = 17

module _ {W : Type 0} (sockets : Sockets W) where
  with_client : Connected → Opened
  with_client Connected.null = opened (record { client = none })
  with_client Connected.aborted = aborted
  with_client (Connected.connected client) = opened (record { client = some client })

  -- `CreateCommunication`, which does not ask whether there is a client
  unfoldable create_communication :
      (fuel : ℕ)
      → (ui_ok client_ok : Bool) → CreateMemory
      → (server_port : ℕ) → (server_ip : Bytes) → W
      → Run (Opened × W)
  unfolding with_client
  create_communication fuel false client_ok a server_port server_ip w = ok (null, w)
  create_communication fuel true client_ok a server_port server_ip w = do
    (client, w₁) ← connect_user sockets fuel client_ok a server_ip server_port w
    ok (with_client client, w₁)

  -- `Destroy_UI`: what becomes of the client, which is not given back
  unfoldable destroy_ui : Option ClientInterface → Option Client
  destroy_ui none = none
  destroy_ui (some ui) = ui.client

  module _ (calls : Option Client → Calls W) where
    -- the end of `main`: its result, unless the process is aborted
    run_opened : (fuel : ℕ) → Opened → W → Run (Option ℕ)
    run_opened fuel null w = do _ ← run_ui (calls none) fuel false w; ok (some 0)
    run_opened fuel aborted w = ok none
    run_opened fuel (opened ui) w = do _ ← run_ui (calls ui.client) fuel true w; ok (some 0)

    -- `main` of the client. A port that is not converted is read without having been written.
    unfoldable client_main :
        (fuel : ℕ) → (ui_ok client_ok : Bool) → CreateMemory → W → Run (Option ℕ)
    unfolding run_opened
    client_main fuel ui_ok client_ok a w =
        let (word, w₁) = (calls none).scan_word w in
        let (number, w₂) = (calls none).scan_number w₁ in
        do
          server_ip ← fit_word ip_address_len word
          elim number [
            | none ↦ fault
            | some server_port ↦ do
              (ui, w₃) ← create_communication fuel ui_ok client_ok a server_port server_ip w₂
              run_opened fuel ui w₃
          ]
