-- ===== src/ServerApp/Unserved.antt =====
-- ServerApp/ServerApp.c: what the server does with a message that is none of the five requests.
use chat_project.Prelude.{
  ℕ, ◌≡◌, refl, arith, Bool, true, false, Option, none, some, ◌∷◌, fault, Bytes, inl, inr,
}
use chat_project.Protocol.{
  ProtocolType, ByteOrder, register_req, login_req, create_group_conversation_req,
  join_conversation_req, leave_conversation_req, type_of,
}
use chat_project.Protocol.Returns.{unpack-returns}
use chat_project.DataBase.{DataBase}
use chat_project.ServerApp.{
  RequestMemory, dispatch, pack_answer, get_from_client_and_send_to_server,
}

-- whether the server has a case for a type
abbrev pub is_served : Option ProtocolType → Bool
is_served (some register_req) = true
is_served (some login_req) = true
is_served (some create_group_conversation_req) = true
is_served (some join_conversation_req) = true
is_served (some leave_conversation_req) = true
is_served _ = false

dispatch-unserved :
    (order : ByteOrder) (a : RequestMemory) (buffer : Bytes) (db : Option DataBase)
    (type : Option ProtocolType)
    → is_served type ≡ false
    → dispatch order a buffer db type ≡ fault
unfolding dispatch pack_answer
dispatch-unserved order a buffer db none h = refl
dispatch-unserved order a buffer db (some register_req) h = ground arith
dispatch-unserved order a buffer db (some login_req) h = ground arith
dispatch-unserved order a buffer db (some create_group_conversation_req) h = ground arith
dispatch-unserved order a buffer db (some join_conversation_req) h = ground arith
dispatch-unserved order a buffer db (some leave_conversation_req) h = ground arith
dispatch-unserved order a buffer db (some _) h = refl

-- Every message whose first byte is not the type of one of the five requests ends in something
-- undefined: the server reads through a NULL pointer, if it has not gone beyond the end of the
-- message before.
pub unserved_faults :
    (order : ByteOrder) (a : RequestMemory) (t : ℕ) (rest : Bytes) (db : Option DataBase)
    → is_served (type_of t) ≡ false
    → get_from_client_and_send_to_server order a (t ∷ rest) db ≡ fault
unfolding get_from_client_and_send_to_server
unserved_faults order a t rest db h = elim (unpack-returns order t rest) [
  | inl e ↦ rw e refl
  | inr (ys, e) ↦ rw e (dispatch-unserved order a ys db (type_of t) h)
]
