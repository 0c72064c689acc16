-- ===== src/HashMap/Destroy.antt =====
-- GenericHash/GenericHash.c, `HashMap_Destroy`. `List_PopHead` returns 0, `LIST_SUCCESS`, when it
-- has taken an item, and the inner loop goes on as long as the result is not 0. Each round of that
-- loop takes fuel. `kd` and `vd` say whether the two destroyers are given.
use chat_project.Prelude.{
  ℕ, zero, suc, ◌≡◌, refl, arith, Bool, ◌||◌, none, some, List, [], ◌∷◌, ◌++◌, Run, ok, fault,
  out_of_fuel, Ref, null, dangling, live, ◌>>=◌, length, All, Bool-cases, inl, inr, >>=-eq-ok,
  if◌then◌else◌,
}
use chat_project.HashMap.{HashMap, DataItem, Slot, magic_number, valid_data}

module _ {K V : Type 0} (kd vd : Bool) where
  -- the two destroyers, each if it is given, and `free( foundData )`: the items handed to a
  -- destroyer, and what is left of the pointer
  dispose : Ref (DataItem K V) → Run (List (DataItem K V) × Ref (DataItem K V))
  dispose null = if kd || vd then fault else ok ([], null)
  dispose dangling = fault
  dispose (live d) = ok (if kd || vd then d ∷ [] else [], dangling)

  -- the inner loop on one list: the items handed to a destroyer, and `foundData` after it
  drain :
      (fuel : ℕ)
      → Ref (DataItem K V)
      → List (DataItem K V)
      → Run (List (DataItem K V) × Ref (DataItem K V))
  drain zero found chain = out_of_fuel
  drain (suc fuel) found (d ∷ chain) = ok ([], live d)
  drain (suc fuel) found [] = elim (dispose found) [
    | fault ↦ fault
    | out_of_fuel ↦ out_of_fuel
    | ok (gone, found') ↦ drain fuel found' [] >>= λ r. ok (gone ++ r.0, r.1)
  ]

  -- the loop over the table
  destroy_slots : (fuel n : ℕ) → Ref (DataItem K V) → List (Slot K V) → Run (List (DataItem K V))
  destroy_slots fuel zero found slots = ok []
  destroy_slots fuel (suc n) found [] = fault
  destroy_slots fuel (suc n) found (none ∷ slots) = destroy_slots fuel n found slots
  destroy_slots fuel (suc n) found (some chain ∷ slots) = do
    (gone, found') ← drain fuel found chain
    rest ← destroy_slots fuel n found' slots
    ok (gone ++ rest)

  -- `HashMap_Destroy`: the items handed to a destroyer, and the caller's pointer
  unfoldable pub destroy :
      {M : Type 0}
      → (fuel : ℕ) → Ref (HashMap M K V)
      → Run (List (DataItem K V) × Ref (HashMap M K V))
  unfolding destroy_slots drain dispose
  destroy fuel null = ok ([], null)
  destroy fuel dangling = fault
  destroy fuel (live map) = elim (valid_data map) [
    | none ↦ ok ([], live map)
    | some slots ↦ destroy_slots fuel map.alloc_size null slots >>= λ gone. ok (gone, null)
  ]

  valid_data-some :
      {M : Type 0} (map : HashMap M K V) (slots : List (Slot K V))
      → map.m_data ≡ some slots
      → map.magic_num ≡ magic_number
      → valid_data map ≡ some slots
  unfolding valid_data
  valid_data-some map slots at magic = ground (arith, at, magic)

  -- No pointer of the table is that of a list without items.
  abbrev pub IsFilled : Slot K V → Type 0
  IsFilled none = Unit
  IsFilled (some []) = ⊥
  IsFilled (some (d ∷ chain)) = Unit

  drain-nil :
      (fuel : ℕ) (found : Ref (DataItem K V)) {r : List (DataItem K V) × Ref (DataItem K V)}
      → ¬ (drain fuel found [] ≡ ok r)
  unfolding drain dispose
  drain-nil zero found h = cc
  drain-nil (suc fuel) null h = elim (Bool-cases (kd || vd)) [
    | inl some_given ↦ ground (arith, some_given)
    | inr none_given ↦
        let h' = rw (none_given, drain) at h in
        let (r, again, _) = >>=-eq-ok (drain fuel null []) (λ r. ok ([] ++ r.0, r.1)) h' in
        drain-nil fuel null again
  ]
  drain-nil (suc fuel) dangling h = cc
  drain-nil (suc fuel) (live d) h =
      let (r, again, _) =
        >>=-eq-ok (drain fuel dangling []) (λ r. ok ((if kd || vd then d ∷ [] else []) ++ r.0, r.1))
          h in
      drain-nil fuel dangling again

  destroy_slots-ok :
      (fuel : ℕ) (found : Ref (DataItem K V)) (slots : List (Slot K V))
      → All IsFilled slots
      → destroy_slots (suc fuel) (length slots) found slots ≡ ok []
  unfolding destroy_slots drain
  destroy_slots-ok fuel found [] h = refl
  destroy_slots-ok fuel found (none ∷ slots) h = destroy_slots-ok fuel found slots h.1
  destroy_slots-ok fuel found (some [] ∷ slots) h = absurd h.0
  destroy_slots-ok fuel found (some (d ∷ chain) ∷ slots) h =
      rw (destroy_slots-ok fuel (live d) slots h.1)

  destroy_slots-IsFilled :
      (fuel : ℕ) (found : Ref (DataItem K V)) (slots : List (Slot K V)) {r : List (DataItem K V)}
      → destroy_slots fuel (length slots) found slots ≡ ok r
      → All IsFilled slots
  unfolding destroy_slots
  destroy_slots-IsFilled fuel found [] h = tt
  destroy_slots-IsFilled fuel found (none ∷ slots) h =
      (tt, destroy_slots-IsFilled fuel found slots h)
  destroy_slots-IsFilled fuel found (some [] ∷ slots) h =
      let (r, drained, _) =
        >>=-eq-ok (drain fuel found [])
          (λ r. destroy_slots fuel (length slots) r.1 slots >>= λ rest. ok (r.0 ++ rest)) h in
      absurd (drain-nil fuel found drained)
  destroy_slots-IsFilled fuel found (some (d ∷ chain) ∷ slots) h =
      let (r, drained, more) =
        >>=-eq-ok (drain fuel found (d ∷ chain))
          (λ r. destroy_slots fuel (length slots) r.1 slots >>= λ rest. ok (r.0 ++ rest)) h in
      let (rest, done, _) =
        >>=-eq-ok (destroy_slots fuel (length slots) r.1 slots) (λ rest. ok (r.0 ++ rest)) more in
      (tt, destroy_slots-IsFilled fuel r.1 slots done)

  module _ {M : Type 0} (fuel : ℕ) (map : HashMap M K V) (slots : List (Slot K V))
      (at : map.m_data ≡ some slots) (magic : map.magic_num ≡ magic_number)
      (width : length slots ≡ map.alloc_size) where
    -- `HashMap_Destroy` of a table in which no list is empty sets the pointer to NULL; although the
    -- table may hold items, none is handed to a destroyer.
    pub destroy-filled : All IsFilled slots → destroy (suc fuel) (live map) ≡ ok ([], null)
    unfolding destroy
    destroy-filled filled =
        let valid = valid_data-some map slots at magic in
        rw (valid, destroy, ← width, destroy_slots-ok fuel null slots filled)

    -- `HashMap_Destroy` of a table with an empty list never returns, whatever the fuel.
    pub destroy-unfilled :
        (r : List (DataItem K V) × Ref (HashMap M K V))
        → ¬ All IsFilled slots
        → ¬ (destroy fuel (live map) ≡ ok r)
    unfolding destroy
    destroy-unfilled r unfilled h =
        let valid = valid_data-some map slots at magic in
        let h' = rw (valid, destroy, ← width) at h in
        let (gone, done, _) =
          >>=-eq-ok (destroy_slots fuel (length slots) null slots) (λ gone. ok (gone, null)) h' in
        unfilled (destroy_slots-IsFilled fuel null slots done)
