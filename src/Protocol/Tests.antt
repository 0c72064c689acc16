-- ===== src/Protocol/Tests.antt =====
-- The messages at concrete inputs.
use chat_project.Prelude.{◌*◌, ◌^◌, ◌≡◌, refl, arith, some, [], ◌∷◌, ◌++◌, ok, Bytes, replicate}
use chat_project.Protocol.{
  little_endian, login_ans, leave_conversation_ans, group_name_not_exist, group_answer, pack,
  unpack, read_word, type_code, answer_code,
}
use chat_project.Protocol.RoundTrip.{unpack-pack, unpack-leave_ans}

abbrev zeros : Bytes
zeros = replicate 19 0

unpack-pack_example :
    (v : Bytes) × (pack little_endian login_ans (3 ∷ 0 ∷ 0 ∷ 0 ∷ 4 ∷ 0 ∷ 0 ∷ 0 ∷ []) ≡ ok v)
    × (unpack little_endian v ≡ ok (some login_ans, 3 ∷ 0 ∷ 0 ∷ 0 ∷ 4 ∷ 0 ∷ 0 ∷ 0 ∷ []))
unfolding type_code
unpack-pack_example =
    unpack-pack little_endian login_ans 3 (0 ∷ 0 ∷ 0 ∷ 4 ∷ 0 ∷ 0 ∷ 0 ∷ []) refl (omega arith)

unpack-leave_ans_example :
    (v : Bytes) × (pack little_endian leave_conversation_ans (13 ∷ zeros ++ (8 ∷ 0 ∷ 0 ∷ 0 ∷ []))
      ≡ ok (13 ∷ zeros ++ (8 ∷ 0 ∷ 0 ∷ 0 ∷ [])))
    × (unpack little_endian (13 ∷ zeros ++ (8 ∷ 0 ∷ 0 ∷ 0 ∷ []))
        ≡ ok (some leave_conversation_ans, v))
    × (read_word little_endian group_answer v ≡ ok (8 * 2 ^ 24))
unfolding answer_code
unpack-leave_ans_example = unpack-leave_ans group_name_not_exist zeros [] refl
