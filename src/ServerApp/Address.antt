-- ===== src/ServerApp/Address.antt =====
-- ServerApp/ServerApp.c: the address of the group in the answer that the server sends.
use chat_project.Prelude.{
  ℕ, zero, suc, ◌+◌, ◌≤◌, ◌<◌, ◌≡◌, refl, ap, ◌∙◌, arith, true, Option, some, [], ◌∷◌, ◌++◌, ok,
  >>=-eq-ok, load, store, Bytes, length, strcpy-ok, drop, length-append, length-drop, until_nul,
  until_nul-append,
}
use mathlib.Core.List.{append_assoc}
use chat_project.Protocol.{
  ProtocolType, ByteOrder, Answers, answer_code, type_code, type_of, create_group_conversation_ans,
  join_conversation_ans, group_successfully_insert, group_successfully_join, read_word,
  group_answer, unpack,
}
use chat_project.Protocol.RoundTrip.{answer_offset, unpack-pack}
use chat_project.Buffer.{received, c_string, group_details}
use chat_project.DataBase.{
  DataBase, DbErr, db_group_successfully_insert, db_group_join_successfully,
}
use chat_project.DataBase.Groups.{check_group_name_and_insert, try_to_join_to_group}
use chat_project.ServerApp.{
  RequestMemory, write_word, write_ip, group_reply, write_reply, group_answer_of,
  ans_for_group_requests, pack_answer, dispatch, get_from_client_and_send_to_server,
}
use chat_project.ServerApp.Answer.{write_word-reads, type_of-type_code}

-- A write behind a string and its NUL leaves the string alone.
write_word-keeps :
    (order : ByteOrder) (n c : ℕ) (s rest ys : Bytes)
    → length s < n
    → write_word order n c (s ++ (0 ∷ rest)) ≡ ok ys
    → (rest' : Bytes) × (ys ≡ s ++ (0 ∷ rest'))
unfolding write_word
write_word-keeps order zero c s rest ys h e = absurd (omega (arith, h))
write_word-keeps order (suc n) c [] rest ys h e =
    let (zs, writes, returns) = >>=-eq-ok (write_word order n c rest) (λ zs. ok (0 ∷ zs)) e in
    (zs, cc)
write_word-keeps order (suc n) c (x ∷ s) rest ys h e =
    let (zs, writes, returns) =
      >>=-eq-ok (write_word order n c (s ++ (0 ∷ rest))) (λ zs. ok (x ∷ zs)) e in
    let (rest', same) = write_word-keeps order n c s rest zs (omega (arith, h)) writes in
    let shifted : x ∷ zs ≡ x ∷ (s ++ (0 ∷ rest')) = ap (λ p. x ∷ p) same in (rest', cc)

string_first :
    (s rest' rest ys : Bytes) → ys ≡ s ++ (0 ∷ rest') → until_nul s ≡ s → until_nul (ys ++ rest) ≡ s
string_first s rest' rest ys e whole =
    ap (λ p. until_nul (p ++ rest)) e
    ∙ ap until_nul (append_assoc s (0 ∷ rest') rest)
    ∙ until_nul-append s (rest' ++ rest) whole

-- The answer is sent as `sent`; a client of the same byte order reads in it its type, the number
-- `c` and the address.
abbrev pub Carries : ByteOrder → ProtocolType → (c : ℕ) → (ip : Bytes) → Bytes → Type 0
Carries order type c ip sent =
    (v : Bytes) × (unpack order sent ≡ ok (some type, v))
    × (read_word order group_answer v ≡ ok c)
    × ((rest : Bytes) → c_string (v ++ rest) (received 1) ≡ ip)

group_answer_of-Carries :
    (order : ByteOrder) (block : Bytes) (type : ProtocolType) (err : DbErr)
    (created joined left ip : Bytes) (db : Option DataBase) (reply : Answers)
    → 24 ≤ length block
    → answer_offset type ≡ some group_answer
    → length ip < 17
    → until_nul ip ≡ ip
    → group_reply err created joined left ≡ some (some ip, reply)
    → (answer sent : Bytes) × (group_answer_of order block type err created joined left db
        ≡ ok (some answer, db))
      × (pack_answer order (some answer) db ≡ ok (some sent, db))
      × Carries order type (answer_code reply) ip sent
unfolding group_answer_of store write_reply write_word write_ip pack_answer load read_word c_string
group_answer_of-Carries order [] type err created joined left ip db reply h e fits whole r =
    absurd (omega (arith, h))
group_answer_of-Carries order (x ∷ xs) type err created joined left ip db reply h e fits whole r =
    let zs = ip ++ (0 ∷ drop (length ip + 1) xs) in
    let size : 23 ≤ length zs =
      rw (length-append ip (0 ∷ drop (length ip + 1) xs))
        (omega (arith, length-drop (length ip + 1) xs, h, fits)) in
    let (ys, writes, reads, same) =
      write_word-reads order 19 (answer_code reply) zs (omega (arith, size)) in
    let (rest', kept) =
      write_word-keeps order 19 (answer_code reply) ip _ ys (omega (arith, fits)) writes in
    let wide : 23 ≤ length ys = rw same size in
    let at : group_answer ≡ 20 = refl in
    let (sent, packs, unpacks) =
      unpack-pack order type (type_code type) ys e (omega (arith, wide)) in
    (
      type_code type ∷ ys,
      sent,
      rw (r, strcpy-ok 17 ip fits, writes) refl,
      ground (arith, type_of-type_code type, packs),
      (type_code type ∷ ys, unpacks, reads, λ rest. string_first ip rest' rest ys kept whole),
    )

-- A request to create a group that the data base takes, and one to join a group that it has.
module _ (order : ByteOrder) (a : RequestMemory) (rest : Bytes) (db db' : Option DataBase)
    (ip : Bytes) (given : a.answer_ok ≡ true) (size : 24 ≤ length a.block) (fits : length ip < 17)
    (whole : until_nul ip ≡ ip) where
  pub create_answered-ip :
      check_group_name_and_insert a.group (7 ∷ rest) (some group_details) db []
        ≡ ok (db_group_successfully_insert, ip, db')
      → (sent : Bytes) × (get_from_client_and_send_to_server order a (7 ∷ rest) db
          ≡ ok (some sent, db'))
        × Carries order create_group_conversation_ans
            (answer_code group_successfully_insert)
            ip
            sent
  unfolding get_from_client_and_send_to_server unpack load type_of dispatch ans_for_group_requests
      group_reply
  create_answered-ip answers =
      let (answer, sent, writes, packs, carries) =
        group_answer_of-Carries order a.block create_group_conversation_ans
          db_group_successfully_insert ip [] [] ip db' group_successfully_insert size refl fits
          whole refl in
      (sent, rw (given, answers, writes) packs, carries)

  pub join_answered-ip :
      (created : Bytes)
      → try_to_join_to_group (9 ∷ rest) (some group_details) db [] []
        ≡ ok (db_group_join_successfully, created, ip, db')
      → (sent : Bytes) × (get_from_client_and_send_to_server order a (9 ∷ rest) db
          ≡ ok (some sent, db'))
        × Carries order join_conversation_ans (answer_code group_successfully_join) ip sent
  unfolding get_from_client_and_send_to_server unpack load type_of dispatch ans_for_group_requests
      group_reply
  join_answered-ip created answers =
      let (answer, sent, writes, packs, carries) =
        group_answer_of-Carries order a.block join_conversation_ans db_group_join_successfully [] ip
          [] ip db' group_successfully_join size refl fits whole refl in
      (sent, rw (given, answers, writes) packs, carries)
