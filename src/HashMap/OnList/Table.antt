-- ===== src/HashMap/OnList/Table.antt =====
-- GenericHash/GenericHash.c: a call at one slot of a table in memory leaves the other slots as they
-- are.
use chat_project.Prelude.{
  ℕ, zero, suc, ◌≡◌, refl, ap, ◌∙◌, arith, Option, some, List, [], ◌∷◌, All, get_elem?, set,
}
use mathlib.Core.Path.{subst}
use chat_project.DLinkedList.{Ptr}
use chat_project.HashMap.{Slot}
use chat_project.HashMap.OnList.{Heap}
use chat_project.HashMap.OnList.Foot.{Foot, Step, At}
use chat_project.HashMap.OnList.Rows.{
  Disjoint, Disjoint-swap, Row, pointers, slots_of, InMemory, still-Disjoint, At-kept,
}

module _ {K V : Type 0} where
  pub pointers-set :
      (rows : List (Row K V)) (i : ℕ) (r : Row K V)
      → pointers (set rows i r) ≡ set (pointers rows) i r.pointer
  pointers-set [] i r = refl
  pointers-set (s ∷ rows) zero r = refl
  pointers-set (s ∷ rows) (suc i) r = ap (λ p. s.pointer ∷ p) (pointers-set rows i r)

  pub slots_of-set :
      (rows : List (Row K V)) (i : ℕ) (r : Row K V)
      → slots_of (set rows i r) ≡ set (slots_of rows) i r.slot
  slots_of-set [] i r = refl
  slots_of-set (s ∷ rows) zero r = refl
  slots_of-set (s ∷ rows) (suc i) r = ap (λ p. s.slot ∷ p) (slots_of-set rows i r)

  row_at :
      (rows : List (Row K V)) (i : ℕ) (slot : Slot K V)
      → get_elem? (slots_of rows) i ≡ some slot
      → (r : Row K V) × (get_elem? rows i ≡ some r)
        × (r.slot ≡ slot)
        × (get_elem? (pointers rows) i ≡ some r.pointer)
  row_at [] i slot e = ground (arith, e)
  row_at (r ∷ rows) zero slot e = (r, refl, ground (arith, e), refl)
  row_at (r ∷ rows) (suc i) slot e = row_at rows i slot e

  pub row-At :
      (h : Heap K V) (rows : List (Row K V)) (i : ℕ) (r : Row K V)
      → get_elem? rows i ≡ some r
      → InMemory h rows
      → At h r.pointer r.slot r.foot
  row-At h [] i r e w = ground (arith, e)
  row-At h (s ∷ rows) zero r e (at, _, _) =
      let same : s ≡ r = ground (arith, e) in
      subst (λ (t : Row K V). At h t.pointer t.slot t.foot) same at
  row-At h (s ∷ rows) (suc i) r e (_, _, w) = row-At h rows i r e w

  some_inj_row : (s r : Row K V) → ◌≡◌ {A = Option (Row K V)} (some s) (some r) → s ≡ r
  some_inj_row s r e = cc

  All-get :
      (P : Row K V → Type 0) (rows : List (Row K V)) (i : ℕ) (r : Row K V)
      → get_elem? rows i ≡ some r
      → All P rows
      → P r
  All-get P [] i r e w = ground (arith, e)
  All-get P (s ∷ rows) zero r e (p, _) = let same : s ≡ r = ground (arith, e) in subst P same p
  All-get P (s ∷ rows) (suc i) r e (_, w) = All-get P rows i r e w

  All-set :
      (P : Row K V → Type 0) (rows : List (Row K V)) (i : ℕ) (r : Row K V)
      → P r
      → All P rows
      → All P (set rows i r)
  All-set P [] i r p w = tt
  All-set P (s ∷ rows) zero r p (_, w) = (p, w)
  All-set P (s ∷ rows) (suc i) r p (q, w) = (q, All-set P rows i r p w)

  module _ (h h' : Heap K V) (f f' : Foot) (step : Step h h' f f') where
    -- Slots that are all apart from the one of the call.
    others-Disjoint :
        (rows : List (Row K V))
        → InMemory h rows
        → All (λ (s : Row K V). Disjoint f s.foot) rows
        → All (λ (s : Row K V). Disjoint f' s.foot) rows
    others-Disjoint [] w d = tt
    others-Disjoint (s ∷ rows) (at, _, w) (apart, d) =
        (still-Disjoint h h' f f' step s.pointer s.slot s.foot at apart, others-Disjoint rows w d)

    others-InMemory :
        (rows : List (Row K V))
        → InMemory h rows
        → All (λ (s : Row K V). Disjoint f s.foot) rows
        → InMemory h' rows
    others-InMemory [] w d = tt
    others-InMemory (s ∷ rows) (at, between, w) (apart, d) =
        (At-kept h h' f f' step s.pointer s.slot s.foot at apart, between, others-InMemory rows w d)

    -- The table with the slot of the call as the call leaves it.
    pub set-InMemory :
        (rows : List (Row K V)) (i : ℕ) (r : Row K V) (pointer' : Ptr) (slot' : Slot K V)
        → get_elem? rows i ≡ some r
        → r.foot ≡ f
        → InMemory h rows
        → At h' pointer' slot' f'
        → InMemory h' (set rows i (record { pointer = pointer'; slot = slot'; foot = f' }))
    set-InMemory [] i r pointer' slot' e same w at' = tt
    set-InMemory (s ∷ rows) zero r pointer' slot' e same (_, between, w) at' =
        let foot : s.foot ≡ f = ap (λ (t : Row K V). t.foot) (some_inj_row s r e) ∙ same in
        let between' = subst (λ g. All (λ (t : Row K V). Disjoint g t.foot) rows) foot between in
        (at', others-Disjoint rows w between', others-InMemory rows w between')
    set-InMemory (s ∷ rows) (suc i) r pointer' slot' e same (at, between, w) at' =
        let apart = All-get (λ (t : Row K V). Disjoint s.foot t.foot) rows i r e between in
        let apart' = subst (λ g. Disjoint g s.foot) same (Disjoint-swap s.foot r.foot apart) in
        let new : Row K V = record { pointer = pointer'; slot = slot'; foot = f' } in
        (
          At-kept h h' f f' step s.pointer s.slot s.foot at apart',
          All-set (λ (t : Row K V). Disjoint s.foot t.foot) rows i new
              (Disjoint-swap f' s.foot
                (still-Disjoint h h' f f' step s.pointer s.slot s.foot at apart'))
              between,
          set-InMemory rows i r pointer' slot' e same w at',
        )
