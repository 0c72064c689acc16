-- ===== src/DataBase/Login.antt =====
-- ServerDB/DataBase.c: what registering and logging in do, for the data base as the server keeps
-- it.
use chat_project.Prelude.{
  ◌<◌, ◌≡◌, refl, ap, ◌∙◌, arith, Bool, true, false, not, Option, none, some, List, [], ◌∷◌, Run,
  ok, live, of_option, rem, ◌>>=◌, >>=-eq-ok, ◌==◌, length, if◌then◌else◌, Bytes, str_equal,
  strcpy-ok, replicate,
}
use chat_project.HashMap
use chat_project.HashMap.{HashMap, DataItem, Slot, item_made, map_made, magic_number}
use chat_project.HashMap.View.{chain_at}
use chat_project.Primes.{find_prime_larger_than, check_if_prime}
use chat_project.Buffer.{
  CharPtr, received, c_string, hash_function, equality_function, user_details, UserDetails,
}
use chat_project.DataBase.{
  DataBase, DbErr, UserValue, StringMap, db_worng_user_name, db_already_connected, db_worng_psw,
  db_connect_succesfully, connect, disconnect, uniqe, already_exist, names_of, with_names,
  is_not_found,
}
use chat_project.DataBase.Users.{
  UserMemory, user_made, rounds, register_value, insert_user_to_list, is_user_name_unique,
  login_user, check_client_status_and_connect,
}
use chat_project.DataBase.Collapse.{
  Collapsed, bucket, find-first, insert-first, stored, stored_slots,
}

-- the code that a login gets for a value and a password
abbrev pub login_code : UserValue → Bytes → DbErr
login_code value password =
    if value.status == connect
    then db_already_connected
    else if not (str_equal password value.psw)
    then db_worng_psw
    else db_connect_succesfully

login_user-code :
    (a : UserMemory) (buffer : Bytes) (db : DataBase) (user : UserDetails) (value : UserValue)
    → login_user a buffer db user value ≡ ok (login_code value (c_string buffer user.password), db)
unfolding login_user insert_user_to_list
login_user-code a buffer db user value = ground arith

login_keeps_found :
    (a : UserMemory) (buffer : Bytes) (db : DataBase) (user : UserDetails) (missing : Bool)
    (p_value : Option UserValue) (e : DbErr) (db' : Option DataBase)
    → if◌then◌else◌ {A = Run (DbErr × Option DataBase)} missing (ok (db_worng_user_name, some db)) (
        of_option p_value >>= λ value.
        login_user a buffer db user value >>= λ r. ok (r.0, some r.1))
      ≡ ok (e, db')
    → db' ≡ some db
login_keeps_found a buffer db user true p_value e db' h = ground arith
login_keeps_found a buffer db user false none e db' h = cc
login_keeps_found a buffer db user false (some value) e db' h =
    ground (arith, login_user-code a buffer db user value)

-- A login changes nothing, whatever it answers: in particular it does not record that the user is
-- connected.
pub login_keeps :
    (a : UserMemory) (buffer : Bytes) (db : Option DataBase) (user : Option UserDetails) (e : DbErr)
    (db' : Option DataBase)
    → check_client_status_and_connect a buffer db user ≡ ok (e, db')
    → db' ≡ db
unfolding check_client_status_and_connect
login_keeps a buffer none user e db' h = ground arith
login_keeps a buffer (some db) none e db' h = ground arith
login_keeps a buffer (some db) (some user) e db' h =
    let (names, _, h₁) = >>=-eq-ok (names_of db) _ h in
    let (r, _, h₂) = >>=-eq-ok (HashMap.find buffer names (some user.user_name)) _ h₁ in
    login_keeps_found a buffer db user (is_not_found r.0) r.1 e db' h₂

-- the empty map of the groups of a new user
abbrev pub no_groups : StringMap CharPtr
no_groups = record {
  m_data = some (replicate 53 none);
  hash_size = 50;
  alloc_size = 53;
  num_of_items = 0;
  magic_num = magic_number;
  hash_func = hash_function;
  keys_equal_func = equality_function;
}

no_groups-made :
    HashMap.create {V = CharPtr} rounds map_made 50 (some hash_function) (some equality_function)
    ≡ ok (live no_groups)
unfolding HashMap.create find_prime_larger_than check_if_prime rem
no_groups-made = refl

module _ (buffer : Bytes) (db : DataBase) (map : StringMap UserValue)
    (slots : List (Slot CharPtr UserValue)) (at : names_of db ≡ ok (live map))
    (w : Collapsed 18 map slots) where
  -- the value of a user who has just registered
  abbrev registered : UserValue
  registered = record {
    status = disconnect;
    psw = c_string buffer (received 1);
    my_groups = live no_groups;
  }

  abbrev pub db_registered : DataBase
  db_registered = with_names db (live (stored 18 buffer map slots w registered))

  pub register-free :
      chain_at slots (bucket 18 buffer map) ≡ []
      → length (c_string buffer (received 1)) < 17
      → is_user_name_unique user_made buffer db user_details ≡ ok (uniqe, db_registered)
  unfolding is_user_name_unique insert_user_to_list register_value
  register-free free fits =
      let (inserted, _, _) = insert-first 18 buffer map slots w registered free in
      let looked = find-first 18 buffer map slots w in
      ground (
        arith,
        at,
        looked,
        free,
        strcpy-ok 17 (c_string buffer (received 1)) fits,
        no_groups-made,
        inserted,
      )

  register-taken :
      (a : UserMemory) (d : DataItem CharPtr UserValue) (chain : List (DataItem CharPtr UserValue))
      → chain_at slots (bucket 18 buffer map) ≡ d ∷ chain
      → is_user_name_unique a buffer db user_details ≡ ok (already_exist, db)
  unfolding is_user_name_unique
  register-taken a d chain taken = rw (at, ◌>>=◌, find-first 18 buffer map slots w, taken)

  login-first :
      (a : UserMemory) (d : DataItem CharPtr UserValue) (chain : List (DataItem CharPtr UserValue))
      → chain_at slots (bucket 18 buffer map) ≡ d ∷ chain
      → check_client_status_and_connect a buffer (some db) (some user_details)
        ≡ ok (login_code d.value (c_string buffer (received 1)), some db)
  unfolding check_client_status_and_connect
  login-first a d chain taken = ground (
    arith,
    at,
    find-first 18 buffer map slots w,
    taken,
    login_user-code a buffer db user_details d.value,
  )

  login-free :
      (a : UserMemory)
      → chain_at slots (bucket 18 buffer map) ≡ []
      → check_client_status_and_connect a buffer (some db) (some user_details)
        ≡ ok (db_worng_user_name, some db)
  unfolding check_client_status_and_connect
  login-free a free = ground (arith, at, find-first 18 buffer map slots w, free)

if_not : {A : Type 0} (b : Bool) (x y : A) → (if not b then x else y) ≡ (if b then y else x)
if_not true x y = refl
if_not false x y = refl

-- In a data base whose users are all stored under the place of the name in the receive buffer, a
-- user who registers under a name whose chain is free, with a password of at most 16 characters and
-- with memory for its entry, is accepted. A later request whose name falls into the same chain, be
-- it the same name or another, then logs in exactly if it gives the password of that user, is told
-- that the password is wrong otherwise, and is refused if it tries to register.
pub register_then_login :
    (buffer later : Bytes) (db : DataBase) (map : StringMap UserValue)
    (slots : List (Slot CharPtr UserValue)) (a : UserMemory)
    → names_of db ≡ ok (live map)
    → Collapsed 18 map slots
    → chain_at slots (bucket 18 buffer map) ≡ []
    → length (c_string buffer (received 1)) < 17
    → bucket 18 later map ≡ bucket 18 buffer map
    → (db' : DataBase) × (is_user_name_unique user_made buffer db user_details ≡ ok (uniqe, db'))
      × (check_client_status_and_connect a later (some db') (some user_details)
          ≡ ok (
            if str_equal (c_string later (received 1)) (c_string buffer (received 1))
                then db_connect_succesfully
                else db_worng_psw,
            some db',
          ))
      × (is_user_name_unique a later db' user_details ≡ ok (already_exist, db'))
unfolding names_of
register_then_login buffer later db map slots a at w free fits same =
    let value = registered buffer db map slots at w in
    let (_, w', chain) = insert-first 18 buffer map slots w value free in
    let db' = db_registered buffer db map slots at w in
    let map' = stored 18 buffer map slots w value in
    let slots' = stored_slots 18 buffer map slots w value in
    let item : DataItem CharPtr UserValue = record { key = received 18; value = value } in
    let there : chain_at slots' (bucket 18 later map') ≡ item ∷ [] = rw same chain in
    (
      db',
      register-free buffer db map slots at w free fits,
      login-first later db' map' slots' refl w' a item [] there
          ∙ ap (λ e. ok (e, some db'))
              (if_not (str_equal (c_string later (received 1)) (c_string buffer (received 1))) _ _),
      register-taken later db' map' slots' refl w' a item [] there,
    )
