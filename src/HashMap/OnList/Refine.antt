-- ===== src/HashMap/OnList/Refine.antt =====
-- GenericHash/GenericHash.c: a call at a slot of the table does, on the linked list in memory, what
-- it does on the chain that the other files take a slot to be.
use chat_project.Prelude.{ℕ, ◌≡◌, refl, ok}
use chat_project.DLinkedList.{Ptr}
use chat_project.HashMap.{Slot}
use chat_project.HashMap.OnList.{Heap}
use chat_project.HashMap.OnList.Slot.{
  Call, look, put, take_out, Fits, Short, memory_call, chain_call,
}
use chat_project.HashMap.OnList.Foot.{Foot, Step, stay, At, At-IsSlot}
use chat_project.HashMap.OnList.Steps.{find_slot-find_in, remove_slot-remove_from}
use chat_project.HashMap.OnList.Inserts.{insert_slot-insert_to}

module _ {K V : Type 0} (equal : K → K → ℕ) (fuel : ℕ) where
  -- One call: it returns, with the answer of the chain, and in a memory for the chain, without
  -- touching what other chains use.
  abbrev pub Agrees : Call K V → Ptr → Heap K V → Slot K V → Foot → Type 0
  Agrees call list h slot f =
      (list' : Ptr) × (h' : Heap K V) × (f' : Foot) × (memory_call equal fuel call list h
        ≡ ok ((chain_call equal call slot).0, list', h'))
      × At h' list' (chain_call equal call slot).1 f'
      × Step h h' f f'

  pub call-Agrees :
      (call : Call K V) (list : Ptr) (h : Heap K V) (slot : Slot K V) (f : Foot)
      → At h list slot f
      → Fits call list h
      → Short fuel slot
      → Agrees call list h slot f
  unfolding memory_call chain_call
  call-Agrees (look key) list h slot f w fits short =
      let found =
        find_slot-find_in fuel (λ k. equal k key) h list slot (At-IsSlot h list slot f w) short in
      (list, h, f, rw found refl, w, stay h f)
  call-Agrees (put given key value) list h slot f w (fresh_list, fresh) short =
      let (list', h', f', run, w', step, _) =
        insert_slot-insert_to fuel (λ k. equal k key) h given list slot key value f w short
          fresh_list fresh in
      (list', h', f', rw run refl, w', step)
  call-Agrees (take_out key) list h slot f w fits short =
      let (h', f', run, w', step) =
        remove_slot-remove_from fuel (λ k. equal k key) h list slot f w short in
      (list, h', f', rw run refl, w', step)
