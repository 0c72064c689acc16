-- ===== src/Buffer.antt =====
-- ServerTCP/server_tcp.c, `m_buffer_rcv`: the one buffer that every request is received into, and
-- ServerDB/DataBase.c: pointers to strings, many of which point into that buffer, and the
-- callbacks that read the keys of the data base through them.
pub mod Keys
use chat_project.Prelude.{
  ℕ, zero, suc, ◌+◌, ◌-◌, ◌%◌, ◌^◌, ◌<◌, ◌≡◌, refl, arith, Bool, true, false, List, [], ◌∷◌, ◌++◌,
  drop, length, Bytes, until_nul, str_equal, ltb, if◌then◌else◌,
}

-- A `char*`: into the receive buffer, or to a string of its own that nobody changes.
pub data CharPtr : Type 0 where
  received : (offset : ℕ) → CharPtr
  owned : Bytes → CharPtr

-- the string that a pointer leads to; the end of the buffer ends a string too
unfoldable pub c_string : Bytes → CharPtr → Bytes
unfolding until_nul
c_string buffer (received offset) = until_nul (drop offset buffer)
c_string buffer (owned s) = s

-- What `recv` leaves in the buffer: the message, and behind it what was there before.
unfoldable pub receive : Bytes → Bytes → Bytes
receive buffer message = message ++ drop (length message) buffer

-- Pointers to the structs of a message that stands at the start of the buffer.
pub record UserDetails : Type 0 where
  pub password : CharPtr
  pub user_name : CharPtr

pub record GroupDetails : Type 0 where
  pub group_name : CharPtr
  pub user_name : CharPtr

abbrev pub user_details : UserDetails
user_details = record { password = received 1; user_name = received 18 }

abbrev pub group_details : GroupDetails
group_details = record { group_name = received 1; user_name = received 19 }

-- a `char` of a byte as a `size_t`: it is signed
unfoldable pub sign_extend : ℕ → ℕ
sign_extend b = if ltb b 128 then b else b + 2 ^ 64 - 256

-- the sum of the characters, an `int` that is converted to a `size_t`
sum_chars : ℕ → Bytes → ℕ
sum_chars sum [] = sum
sum_chars sum (b ∷ s) = sum_chars ((sum + sign_extend b) % 2 ^ 64) s

-- `HashFunctionUsers` and `HashFunctionGroups`
unfoldable pub hash_function : Bytes → CharPtr → ℕ
unfolding sum_chars sign_extend
hash_function buffer key = sum_chars 0 (c_string buffer key)

-- `EqualityFunctionForUsers` and `EqualityFunctionForGroups`
unfoldable pub equality_function : Bytes → CharPtr → CharPtr → ℕ
equality_function buffer first second =
    if str_equal (c_string buffer first) (c_string buffer second) then 1 else 0
