-- ===== src/Ui.antt =====
-- UI/UI.c: the dialogue with the user, up to the calls of the client library. The terminal,
-- `malloc` and that library are an interface over a world of their own; what is printed is left
-- out.
pub mod Names
pub mod Entry
pub mod Menu
pub mod Start
pub mod Library
mod Tests
use chat_project.Prelude.{
  ℕ, zero, suc, ◌+◌, Bool, true, false, not, Option, none, some, Run, ok, fault, out_of_fuel, ◌>>=◌,
  ◌==◌, ltb, ◌&&◌, if◌then◌else◌, Bytes, length,
}
use chat_project.Client.{
  ClientErr, client_success, client_fail, client_alloc_fail, client_packing_fail, client_init_fail,
  client_wrong_psw, client_user_name_not_exist, client_allready_connected,
  client_send_to_server_fail, client_fail_group_create, client_fail_group_leave,
}

-- `MAX_SIZE`, `SIZE_OF_IP_ADDR`, and the two options of the first question
abbrev pub max_size : ℕ
max_size = 16

abbrev size_of_ip_addr : ℕ
size_of_ip_addr = 17

abbrev pub registered_op : ℕ
registered_op = 0

abbrev pub login_op : ℕ
login_op = 1

-- What the dialogue calls. `scan_number` is `scanf( "%d" )`, which may convert nothing;
-- `scan_word` is `scanf( "%s" )`, which may read nothing. `malloc` gives NULL, or a block of at
-- least the size that is asked for, with the size that it has. `log_in` has no result of its
-- type where the code returns -1.
pub record Calls (W : Type 0) : Type 0 where
  pub scan_number : W → Option ℕ × W
  pub scan_word : W → Option Bytes × W
  pub malloc : (size : ℕ) → W → Option ℕ × W
  pub register : (name psw : Option Bytes) → W → Run (ClientErr × W)
  pub log_in : (name psw : Option Bytes) → W → Run (Option ClientErr × W)
  pub create_group : (user : Option Bytes) → (group : Bytes) → W → Run (ClientErr × W)
  pub join_group : (user : Option Bytes) → (group : Bytes) → W → Run (ClientErr × W)
  pub leave_group : (user : Option Bytes) → (group : Bytes) → W → Run (ClientErr × W)

-- `rcv == CLIENT_SUCCESS`
unfoldable pub is_client_success : ClientErr → Bool
is_client_success client_success = true
is_client_success _ = false

-- what `RegisterOption` makes of a result: 1 is true, -1 is false
unfoldable pub register_accepted : ClientErr → Bool
register_accepted client_success = true
register_accepted client_fail = false
register_accepted _ = true

-- the `switch` of `LoginOption`
unfoldable pub login_accepted : Option ClientErr → Bool
login_accepted (some client_success) = true
login_accepted (some client_wrong_psw) = false
login_accepted (some client_user_name_not_exist) = false
login_accepted (some client_allready_connected) = false
login_accepted _ = false

-- a variable after `scanf( "%d" )`
unfoldable pub number_or : (old : ℕ) → Option ℕ → ℕ
number_or old none = old
number_or old (some n) = n

unfoldable pub number_or_old : (old : Option ℕ) → Option ℕ → Option ℕ
number_or_old old none = old
number_or_old old (some n) = some n

-- `scanf( "%s" )` into an array of `room` bytes: the word and its NUL have to fit, and what was not
-- written is not read.
unfoldable pub fit_word : (room : ℕ) → Option Bytes → Run Bytes
fit_word room none = fault
fit_word room (some s) = if ltb (length s) room then ok s else fault

module _ {W : Type 0} (calls : Calls W) where
  -- The loop of `Init_username`, `Init_Psw` and `Init_GroupName`: words are read into the block
  -- until one has at most `limit` characters.
  unfoldable pub read_name : (fuel limit room : ℕ) → W → Run (Bytes × W)
  unfolding fit_word
  read_name zero limit room w = out_of_fuel
  read_name (suc fuel) limit room w =
      let rest = λ (w' : W). read_name fuel limit room w' in
      let (word, w₁) = calls.scan_word w in
      fit_word room word >>= λ s. if ltb limit (length s) then rest w₁ else ok (s, w₁)

  unfoldable pub init_name : (fuel limit : ℕ) → W → Run (Option Bytes × W)
  unfolding read_name
  init_name fuel limit w =
      let (given, w₁) = calls.malloc 1 w in
      elim given [
        | none ↦ ok (none, w₁)
        | some room ↦ do (s, w₂) ← read_name fuel limit room w₁; ok (some s, w₂)
      ]

  -- `Init_username`
  unfoldable pub init_username : (fuel : ℕ) → W → Run (Option Bytes × W)
  unfolding init_name
  init_username fuel w = init_name fuel max_size w

  -- `Init_Psw`
  unfoldable pub init_psw : (fuel : ℕ) → W → Run (Option Bytes × W)
  unfolding init_name
  init_psw fuel w = init_name fuel max_size w

  -- `Init_GroupName`
  unfoldable pub init_group_name : (fuel : ℕ) → W → Run (Option Bytes × W)
  unfolding init_name
  init_group_name fuel w = init_name fuel size_of_ip_addr w

  -- `RegisterOption`
  unfoldable pub register_option : (name psw : Option Bytes) → W → Run (Bool × W)
  register_option name psw w = do
    (err, w₁) ← calls.register name psw w
    ok (register_accepted err, w₁)

  -- `LoginOption`
  unfoldable pub login_option : (name psw : Option Bytes) → W → Run (Bool × W)
  login_option name psw w = do (err, w₁) ← calls.log_in name psw w; ok (login_accepted err, w₁)

  -- `InitGroupCreate`
  unfoldable pub init_group_create : (fuel : ℕ) → (user : Option Bytes) → W → Run (Bool × W)
  unfolding is_client_success
  init_group_create fuel user w = do
    (name, w₁) ← init_group_name fuel w
    elim name [
      | none ↦ ok (false, w₁)
      | some group ↦ do (err, w₂) ← calls.create_group user group w₁; ok (is_client_success err, w₂)
    ]

  -- `InitJoinCreate`
  unfoldable pub init_join_create : (user : Option Bytes) → W → Run (Bool × W)
  unfolding is_client_success fit_word
  init_join_create none w = ok (false, w)
  init_join_create (some user) w =
      let (word, w₁) = calls.scan_word w in
      do
        group ← fit_word (max_size + 1) word
        (err, w₂) ← calls.join_group (some user) group w₁
        ok (is_client_success err, w₂)

  -- `InitExitFromGroup`, which reads the name before it looks at the user
  unfoldable pub init_exit_from_group : (user : Option Bytes) → W → Run (Bool × W)
  unfolding is_client_success fit_word
  init_exit_from_group user w =
      let (word, w₁) = calls.scan_word w in
      do
        group ← fit_word (max_size + 1) word
        elim user [
          | none ↦ ok (false, w₁)
          | some u ↦ do
            (err, w₂) ← calls.leave_group (some u) group w₁
            ok (is_client_success err, w₂)
        ]

  -- The first question of `RunUI`, asked until the answer is an option; a number that is not
  -- converted leaves the answer as it is.
  unfoldable pub first_answer : (fuel answer : ℕ) → W → Run (ℕ × W)
  unfolding number_or
  first_answer zero answer w = out_of_fuel
  first_answer (suc fuel) answer w =
      let rest = λ (a : ℕ) (w' : W). first_answer fuel a w' in
      let (number, w₁) = calls.scan_number w in
      let a = number_or answer number in
      if not (a == registered_op) && not (a == login_op) then rest a w₁ else ok (a, w₁)

  -- Registering, and the question behind it, with the answer and whether the round goes on.
  unfoldable pub register_and_ask :
      (name psw : Option Bytes) → (answer : ℕ) → W → Run (Bool × ℕ × W)
  unfolding number_or
  register_and_ask name psw answer w = do
    (registered, w₁) ← register_option name psw w
    let (number, w₂) = calls.scan_number w₁
    if registered then ok (true, number_or answer number, w₂) else ok (false, answer, w₁)

  -- One round of the outer loop of `RunUI`, up to the menu: the name of the user, where the round
  -- does not end in `continue`.
  unfoldable pub round : (fuel answer : ℕ) → W → Run (Bool × Option Bytes × ℕ × W)
  unfolding register_and_ask
  round fuel answer w = do
    (first, w₁) ← first_answer fuel answer w
    (name, w₂) ← init_username fuel w₁
    (psw, w₃) ← init_psw fuel w₂
    (on, second, w₄) ←
        (if first == registered_op
          then register_and_ask name psw first w₃
          else ok (true, first, w₃))
    (inside, w₅) ← (if on && second == login_op then login_option name psw w₄ else ok (on, w₄))
    ok (inside, name, second, w₅)

  -- the rounds until the menu is reached, which is never left
  unfoldable pub enter : (fuel answer : ℕ) → W → Run (Option Bytes × W)
  enter zero answer w = out_of_fuel
  enter (suc fuel) answer w =
      let again = λ (a : ℕ) (w' : W). enter fuel a w' in
      do (inside, name, a, w₁) ← round fuel answer w; if inside then ok (name, w₁) else again a w₁

  -- the `switch` on the choice
  unfoldable pub choose : (fuel choice : ℕ) → (user : Option Bytes) → W → Run (Bool × W)
  choose fuel choice user w =
      if choice == 1
      then init_group_create fuel user w
      else if choice == 2
      then init_join_create user w
      else if choice == 3
      then init_exit_from_group user w
      else ok (false, w)

  -- The menu. The choice has no value before the first number is converted.
  unfoldable pub menu : (fuel : ℕ) → (choice : Option ℕ) → (user : Option Bytes) → W → Run ℕ
  unfolding number_or_old
  menu zero choice user w = out_of_fuel
  menu (suc fuel) choice user w =
      let rest = λ (c : ℕ) (w' : W). menu fuel (some c) user w' in
      let (number, w₁) = calls.scan_number w in
      elim (number_or_old choice number) [
        | none ↦ fault
        | some c ↦ do (_, w₂) ← choose fuel c user w₁; rest c w₂
      ]

  -- `RunUI`, which is given an interface or NULL
  unfoldable pub run_ui : (fuel : ℕ) → (given : Bool) → W → Run ℕ
  run_ui fuel false w = ok 0
  run_ui fuel true w = do (user, w₁) ← enter fuel 5 w; menu fuel none user w₁
