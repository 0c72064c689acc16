-- ===== src/DataBase/Keyed.antt =====
-- ServerDB/DataBase.c: what each request leaves of the way the users are stored.
use chat_project.Prelude.{
  ℕ, ◌≡◌, ◌≢◌, sym, ap, ◌∙◌, arith, Bool, true, false, not, Option, none, some, List, [], Run, ok,
  Ref, null, live, of_option, ◌>>=◌, >>=-eq-ok, if◌then◌else◌, Bool-cases, inl, inr, Bytes, strcpy,
}
use mathlib.Core.Path.{subst}
use chat_project.HashMap
use chat_project.HashMap.{Slot, DataItem}
use chat_project.IpPool
use chat_project.Buffer.{
  CharPtr, received, c_string, hash_function, equality_function, user_details, group_details,
}
use chat_project.DataBase.{
  DataBase, DbErr, UserValue, GroupValue, StringMap, db_group_name_not_exist, db_insert_fail,
  db_group_successfully_insert, db_group_name_already_exist, db_group_join_successfully, names_of,
  groups_of, with_groups, with_names, is_not_found, is_success, max_length, disconnect, uniqe,
  already_exist, user_groups_capacity,
}
use chat_project.DataBase.Users.{
  UserMemory, rounds, register_value, insert_user_to_list, is_user_name_unique,
}
use chat_project.DataBase.Stored.{insert-Collapsed}
use chat_project.DataBase.Groups.{
  GroupMemory, max_ip_addr, update_group_details_for_user, insert_group,
  check_group_name_and_insert, try_to_join_to_group,
}
use chat_project.DataBase.Collapse.{Collapsed}
use chat_project.DataBase.Leave.{find-next}

-- Every user is stored under the place of the name in a request to register.
pub record Keyed (db : DataBase) : Type 0 where
  pub map : StringMap UserValue
  pub slots : List (Slot CharPtr UserValue)
  pub at : names_of db ≡ ok (live map)
  pub collapsed : Collapsed 18 map slots

-- A data base with the same users.
pub Keyed-same : (db db' : DataBase) → names_of db' ≡ names_of db → Keyed db → Keyed db'
Keyed-same db db' same w = record {
  map = w.map;
  slots = w.slots;
  at = same ∙ w.at;
  collapsed = w.collapsed;
}

-- The value of a new user is stored, or not, under the name of the request.
register_value-Keyed :
    (a : UserMemory) (buffer : Bytes) (db : DataBase) (psw : Bytes)
    (my_groups : Ref (StringMap CharPtr)) {e : DbErr} {db' : DataBase}
    → Keyed db
    → register_value a buffer db user_details psw my_groups ≡ ok (e, db')
    → Keyed db'
unfolding register_value names_of
register_value-Keyed a buffer db psw null w run =
    let same : db ≡ _ = ground (arith, run) in subst Keyed same w
register_value-Keyed a buffer db psw groups w run =
    let (names, at, h₁) = >>=-eq-ok (names_of db) _ run in
    let (inserted, stored_as, h₂) =
      >>=-eq-ok (HashMap.insert a.item buffer names (some (received 18)) _) _ h₁ in
    let known : names ≡ live w.map = ground (arith, sym at ∙ w.at) in
    let value : UserValue = record { status = disconnect; psw = psw; my_groups = groups } in
    let run_live =
      subst (λ n. HashMap.insert a.item buffer n (some (received 18)) value ≡ ok inserted) known
        stored_as in
    let (map, slots, after, collapsed) =
      insert-Collapsed 18 buffer w.map w.slots w.collapsed a.item value run_live in
    let same : with_names db inserted.1 ≡ _ = ground (arith, h₂) in
    subst Keyed same (record { map = map; slots = slots; at = ap ok after; collapsed = collapsed })

insert_user-Keyed :
    (a : UserMemory) (buffer : Bytes) (db : DataBase) {e : DbErr} {db' : DataBase}
    → Keyed db
    → insert_user_to_list a buffer db user_details disconnect ≡ ok (e, db')
    → Keyed db'
unfolding insert_user_to_list
insert_user-Keyed a buffer db w run = elim (Bool-cases a.value_ok) [
  | inr unmade ↦
      let h = rw unmade at run in let same : db ≡ _ = ground (arith, h) in subst Keyed same w
  | inl value ↦
      let h = rw value at run in
      let (psw, _, h₁) = >>=-eq-ok (strcpy max_length (c_string buffer (received 1))) _ h in
      let (my_groups, _, h₂) =
        >>=-eq-ok
          (HashMap.create rounds a.groups user_groups_capacity (some hash_function)
            (some equality_function))
          _ h₁ in
      register_value-Keyed a buffer db psw my_groups w h₂
]

-- whether the name is free, and what becomes of the request then
registers_found-Keyed :
    (a : UserMemory) (buffer : Bytes) (db : DataBase) (free : Bool) {res : ℕ} {db' : DataBase}
    → Keyed db
    → if◌then◌else◌ {A = Run (ℕ × DataBase)} free
        (insert_user_to_list a buffer db user_details disconnect >>= λ r. ok (uniqe, r.1))
        (ok (already_exist, db))
      ≡ ok (res, db')
    → Keyed db'
registers_found-Keyed a buffer db false w run =
    let same : db ≡ _ = ground (arith, run) in subst Keyed same w
registers_found-Keyed a buffer db true w run =
    let (r, inserted, h) =
      >>=-eq-ok (insert_user_to_list a buffer db user_details disconnect) _ run in
    let same : r.1 ≡ _ = ground (arith, h) in
    subst Keyed same (insert_user-Keyed a buffer db w inserted)

pub registers-Keyed :
    (a : UserMemory) (buffer : Bytes) (db : DataBase) {res : ℕ} {db' : DataBase}
    → Keyed db
    → is_user_name_unique a buffer db user_details ≡ ok (res, db')
    → Keyed db'
unfolding is_user_name_unique
registers-Keyed a buffer db w run =
    let (names, _, h₁) = >>=-eq-ok (names_of db) _ run in
    let (r, _, h₂) = >>=-eq-ok (HashMap.find buffer names (some (received 18))) _ h₁ in
    registers_found-Keyed a buffer db (is_not_found r.0) w h₂

-- The users are where they were.
names_of-with_groups :
    (db : DataBase) (groups : Ref (StringMap GroupValue))
    → names_of (with_groups db groups) ≡ names_of db
unfolding names_of with_groups
names_of-with_groups db groups = ground arith

names_of-with_pool :
    (db : DataBase) (groups : Ref (StringMap GroupValue)) (pool : Ref IpPool.IpPool)
    → names_of (record (with_groups db groups) { add_ip_pool = pool }) ≡ names_of db
unfolding names_of with_groups
names_of-with_pool db groups pool = ground arith

-- The user in a request about a group is not found.
update_group_details-Keyed :
    (a : GroupMemory) (buffer : Bytes) (db : DataBase) (group : CharPtr)
    → Keyed db
    → c_string buffer (received 19) ≢ []
    → update_group_details_for_user a buffer db (received 19) group ≡ ok db
unfolding update_group_details_for_user
update_group_details-Keyed a buffer db group w named =
    rw (w.at, ◌>>=◌, find-next 18 buffer w.map w.slots w.collapsed named)

-- the end of `Check_Group_Name_And_Insert`: the group is stored, and looked up for the user
insert_end-Keyed :
    (a : GroupMemory) (buffer ip : Bytes) (db : DataBase) (stored_group : Bool) {e : DbErr}
    {ip' : Bytes} {db' : DataBase}
    → Keyed db
    → c_string buffer (received 19) ≢ []
    → if◌then◌else◌ {A = Run (DbErr × Bytes × DataBase)}
        (not stored_group)
        (ok (db_insert_fail, ip, db))
        (update_group_details_for_user a buffer db (received 19) (received 1) >>= λ db''.
          ok (db_group_successfully_insert, ip, db''))
      ≡ ok (e, ip', db')
    → Keyed db'
insert_end-Keyed a buffer ip db false w named h =
    let same : db ≡ _ = ground (arith, h) in subst Keyed same w
insert_end-Keyed a buffer ip db true w named h =
    let known = update_group_details-Keyed a buffer db (received 1) w named in
    let same : db ≡ _ = ground (arith, known, h) in subst Keyed same w

insert_group-Keyed :
    (a : GroupMemory) (buffer name ip : Bytes) (db : DataBase) {e : DbErr} {ip' : Bytes}
    {db' : DataBase}
    → Keyed db
    → c_string buffer (received 19) ≢ []
    → insert_group a buffer db group_details name ip ≡ ok (e, ip', db')
    → Keyed db'
unfolding insert_group
insert_group-Keyed a buffer name ip db w named h =
    let (drawn, _, h₁) = >>=-eq-ok (IpPool.get_ip_address db.add_ip_pool max_ip_addr ip) _ h in
    let (address, _, h₂) = >>=-eq-ok (strcpy max_length drawn.1) _ h₁ in
    let (groups, _, h₃) = >>=-eq-ok (groups_of db) _ h₂ in
    let (made, _, h₄) =
      >>=-eq-ok (HashMap.insert a.item buffer groups (some (received 1)) _) _ h₃ in
    let db₁ = record (with_groups db made.1) { add_ip_pool = drawn.2 } in
    insert_end-Keyed a buffer drawn.1 db₁ (is_success made.0)
      (Keyed-same db db₁ (names_of-with_pool db made.1 drawn.2) w) named h₄

-- whether a group of that name is there, and what becomes of the request then
creates_found-Keyed :
    (a : GroupMemory) (buffer name ip : Bytes) (db : DataBase) (missing : Bool) {e : DbErr}
    {ip' : Bytes} {db' : DataBase}
    → Keyed db
    → c_string buffer (received 19) ≢ []
    → if◌then◌else◌ {A = Run (DbErr × Bytes × Option DataBase)}
        (not missing)
        (ok (db_group_name_already_exist, ip, some db))
        (insert_group a buffer db group_details name ip >>= λ r. ok (r.0, r.1, some r.2))
      ≡ ok (e, ip', some db')
    → Keyed db'
creates_found-Keyed a buffer name ip db false w named h =
    let same : db ≡ _ = ground (arith, h) in subst Keyed same w
creates_found-Keyed a buffer name ip db true w named h =
    let (r, run, h₁) = >>=-eq-ok (insert_group a buffer db group_details name ip) _ h in
    let same : r.2 ≡ _ = ground (arith, h₁) in
    subst Keyed same (insert_group-Keyed a buffer name ip db w named run)

pub creates-Keyed :
    (a : GroupMemory) (buffer ip : Bytes) (db : DataBase) {e : DbErr} {ip' : Bytes} {db' : DataBase}
    → Keyed db
    → c_string buffer (received 19) ≢ []
    → check_group_name_and_insert a buffer (some group_details) (some db) ip ≡ ok (e, ip', some db')
    → Keyed db'
unfolding check_group_name_and_insert update_group_details_for_user
creates-Keyed a buffer ip db w named h = elim (Bool-cases a.value_ok) [
  | inl made ↦
      let h₁ = rw (check_group_name_and_insert, made) at h in
      let (name, _, h₂) = >>=-eq-ok (strcpy max_length (c_string buffer (received 1))) _ h₁ in
      let (groups, _, h₃) = >>=-eq-ok (groups_of db) _ h₂ in
      let (found, _, h₄) = >>=-eq-ok (HashMap.find buffer groups (some (received 1))) _ h₃ in
      creates_found-Keyed a buffer name ip db (is_not_found found.0) w named h₄
  | inr none_made ↦ let same : db ≡ _ = ground (arith, none_made, h) in subst Keyed same w
]

-- a group that is found, and what becomes of the request to join it; no user is touched
joins_found-names :
    (db : DataBase) (ip ip_join : Bytes) (missing success : Bool) (p_value : Option GroupValue)
    (same_name : GroupValue → Bool) (updated : GroupValue → Ref (StringMap GroupValue)) {e : DbErr}
    {ip' ip_join' : Bytes} {db' : DataBase}
    → if◌then◌else◌ {A = Run (DbErr × Bytes × Bytes × Option DataBase)} missing
        (ok (db_group_name_not_exist, ip, ip_join, some db))
        (if◌then◌else◌ {A = Run (DbErr × Bytes × Bytes × Option DataBase)}
          (not success)
          (ok (db_group_successfully_insert, ip, ip_join, some db))
          (of_option p_value >>= λ value.
            if◌then◌else◌ {A = Run (DbErr × Bytes × Bytes × Option DataBase)}
              (not (same_name value))
              (ok (db_group_successfully_insert, ip, ip_join, some db))
              (strcpy max_ip_addr value.ip_add_group >>= λ a.
                strcpy max_ip_addr value.ip_add_group >>= λ b.
                ok (db_group_join_successfully, a, b, some (with_groups db (updated value))))))
      ≡ ok (e, ip', ip_join', some db')
    → names_of db' ≡ names_of db
joins_found-names db ip ip_join true success p_value same_name updated h =
    let same : db ≡ _ = ground (arith, h) in ap names_of (sym same)
joins_found-names db ip ip_join false false p_value same_name updated h =
    let same : db ≡ _ = ground (arith, h) in ap names_of (sym same)
joins_found-names db ip ip_join false true none same_name updated h = cc
joins_found-names db ip ip_join false true (some value) same_name updated h =
    elim (Bool-cases (same_name value)) [
      | inl e ↦
          let h₁ = rw e at h in
          let (a, _, h₂) = >>=-eq-ok (strcpy max_ip_addr value.ip_add_group) _ h₁ in
          let (b, _, h₃) = >>=-eq-ok (strcpy max_ip_addr value.ip_add_group) _ h₂ in
          let same : with_groups db (updated value) ≡ _ = ground (arith, h₃) in
          ap names_of (sym same) ∙ names_of-with_groups db (updated value)
      | inr e ↦ let same : db ≡ _ = ground (arith, e, h) in ap names_of (sym same)
    ]

pub joins-names :
    (buffer ip ip_join : Bytes) (db : DataBase) {e : DbErr} {ip' ip_join' : Bytes} {db' : DataBase}
    → try_to_join_to_group buffer (some group_details) (some db) ip ip_join
      ≡ ok (e, ip', ip_join', some db')
    → names_of db' ≡ names_of db
unfolding try_to_join_to_group
joins-names buffer ip ip_join db h =
    let (groups, _, h₁) = >>=-eq-ok (groups_of db) _ h in
    let (found, _, h₂) = >>=-eq-ok (HashMap.find buffer groups (some (received 1))) _ h₁ in
    joins_found-names db ip ip_join (is_not_found found.0) (is_success found.0) found.1 _ _ h₂
