-- ===== src/Ui/Library.antt =====
-- The interface of UI/UI.c to Client/Client.c, filled by the model of the latter. The terminal is
-- the sequence of what is typed, and the connection answers every message by itself.
use chat_project.Prelude.{ℕ, Bool, Option, none, some, List, [], ◌∷◌, Run, ok, fault, ◌>>=◌, Bytes}
use chat_project.Protocol.{ByteOrder}
use chat_project.Buffer.{owned}
use chat_project.HashMap.{InsertMemory}
use chat_project.Client.{ClientErr, client_alloc_fail, user_register, user_log_in}
use chat_project.Client.Groups.{PidMap, create_new_group, join_to_group, leave_group_conversation}
use chat_project.Ui.{Calls}

pub data Typed : Type 0 where
  number : ℕ → Typed
  word : Bytes → Typed

pub record Desk : Type 0 where
  pub typed : List Typed
  pub pids : PidMap

-- `scanf( "%d" )` converts nothing at a word, and leaves it there
unfoldable pub next_number : List Typed → Option ℕ × List Typed
next_number [] = (none, [])
next_number (number n ∷ typed) = (some n, typed)
next_number (word s ∷ typed) = (none, word s ∷ typed)

-- `scanf( "%s" )`, given the digits of a number
unfoldable pub next_word : (digits : ℕ → Bytes) → List Typed → Option Bytes × List Typed
next_word digits [] = (none, [])
next_word digits (number n ∷ typed) = (some (digits n), typed)
next_word digits (word s ∷ typed) = (some s, typed)

module _ (order : ByteOrder) (connection : Bytes → Option Bytes) (windows : Bytes → Option (ℕ × ℕ))
    (digits : ℕ → Bytes) (room : ℕ) (block : Option Bytes) (pid_ok : Bool) (a : InsertMemory)
    (memory : Bytes) where
  -- a call of the library about a group, where the name of the user may be NULL
  about_group :
      (null_result : Run ClientErr)
      → (call : Bytes → PidMap → Run (ClientErr × PidMap)) → Option Bytes
      → Desk
      → Run (ClientErr × Desk)
  about_group null_result call none desk = null_result >>= λ err. ok (err, desk)
  about_group null_result call (some user) desk = do
    (err, pids) ← call user desk.pids
    ok (err, record desk { pids = pids })

  -- The functions of the client library, with what they do where the user has no name:
  -- `Create_New_Group` copies the name without a test.
  abbrev pub library : Calls Desk
  unfolding next_number next_word about_group
  library = record {
    scan_number =
        λ desk. let (n, typed) = next_number desk.typed in (n, record desk { typed = typed });
    scan_word =
        λ desk. let (s, typed) = next_word digits desk.typed in (s, record desk { typed = typed });
    malloc = λ size desk. (some room, desk);
    register = λ name psw desk. do
      err ← user_register order (some connection) block name psw
      ok (err, desk);
    log_in = λ name psw desk. do
      err ← user_log_in order (some connection) block name psw
      ok (err, desk);
    create_group = λ user group.
        about_group fault
          (λ u. create_new_group order connection windows block pid_ok a memory u (owned group))
          user;
    join_group = λ user group.
        about_group (ok client_alloc_fail)
          (λ u. join_to_group order connection windows block pid_ok a memory u (owned group)) user;
    leave_group = λ user group.
        about_group (ok client_alloc_fail)
          (λ u.
            leave_group_conversation order connection windows block pid_ok a memory u (owned group))
          user;
  }
