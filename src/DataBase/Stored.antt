-- ===== src/DataBase/Stored.antt =====
-- ServerDB/DataBase.c: an insertion keeps the way the keys are stored, whichever `malloc` fails in
-- it, and so does registering a user.
use chat_project.Prelude.{
  ℕ, zero, suc, ◌+◌, ◌%◌, ◌^◌, ◌<◌, ◌≡◌, refl, arith, none, some, List, [], ◌∷◌, ok, Ref, live,
  ◌==◌, store, store-ok, length, get_or, set, length-set, if◌then◌else◌, Bool-cases, Option-cases,
  inl, inr, Bytes, All,
}
use chat_project.HashMap
use chat_project.HashMap.{
  DataItem, Slot, MapResult, map_success, map_allocation_error, map_key_duplicate_error,
  InsertMemory,
}
use chat_project.HashMap.View.{chain_at, items}
use chat_project.Buffer.{CharPtr, received}
use chat_project.DataBase.{StringMap}
use chat_project.DataBase.Collapse.{Collapsed, bucket, valid, index, loaded, here-lt, search_chain}

module _ {V : Type 0} where
  chain_at-put :
      (slots : List (Slot CharPtr V)) (i j : ℕ) (slot : Slot CharPtr V)
      → i < length slots
      → chain_at (set slots i slot) j ≡ (if i == j then items slot else chain_at slots j)
  chain_at-put [] i j slot h = elim h [ ]
  chain_at-put (s ∷ slots) zero zero slot h = refl
  chain_at-put (s ∷ slots) zero (suc j) slot h = ground arith
  chain_at-put (s ∷ slots) (suc i) zero slot h = ground arith
  chain_at-put (s ∷ slots) (suc i) (suc j) slot h = ground (arith, chain_at-put slots i j slot)

module _ {V : Type 0} (offset : ℕ) (buffer : Bytes) (map : StringMap V)
    (slots : List (Slot CharPtr V)) (w : Collapsed offset map slots) where
  -- The map with another slot at the place of this request.
  abbrev changed : ℕ → Slot CharPtr V → StringMap V
  changed n slot = record map {
    m_data = some (set slots (bucket offset buffer map) slot);
    num_of_items = n;
  }

  changed-Collapsed :
      (n : ℕ) (slot : Slot CharPtr V)
      → All (λ d. d.key ≡ received offset) (items slot)
      → Collapsed offset (changed n slot) (set slots (bucket offset buffer map) slot)
  changed-Collapsed n slot keyed =
      let b = bucket offset buffer map in
      record {
        at = refl;
        magic = w.magic;
        width = rw length-set w.width;
        pos = w.pos;
        hash = w.hash;
        equal = w.equal;
        keyed = λ i.
            rw (chain_at-put slots b i slot (here-lt offset buffer map slots w))
              (elim (Bool-cases (b == i)) [
                | inl home ↦ rw home keyed
                | inr away ↦ rw away (w.keyed i)
              ]);
      }

  -- What an insertion comes to: the map is as it was, or has another slot.
  Outcome : InsertMemory → V → Type 0
  Outcome a v =
      (r : MapResult) × (map' : StringMap V) × (slots' : List (Slot CharPtr V)) × (HashMap.insert a
          buffer (live map) (some (received offset)) v
        ≡ ok (r, live map'))
      × Collapsed offset map' slots'

  put :
      (slot : Slot CharPtr V)
      → store slots (bucket offset buffer map) slot ≡ ok (set slots (bucket offset buffer map) slot)
  put slot = store-ok slots (bucket offset buffer map) slot (here-lt offset buffer map slots w)

  another_slot :
      (a : InsertMemory) (v : V) (r : MapResult) (n : ℕ) (slot : Slot CharPtr V)
      → All (λ d. d.key ≡ received offset) (items slot)
      → HashMap.insert a buffer (live map) (some (received offset)) v
        ≡ ok (r, live (changed n slot))
      → Outcome a v
  unfolding Outcome
  another_slot a v r n slot keyed run = (
    r,
    changed n slot,
    set slots (bucket offset buffer map) slot,
    run,
    changed-Collapsed n slot keyed,
  )

  abbrev only : V → Slot CharPtr V
  only v = some (record { key = received offset; value = v } ∷ [])

  -- an insertion where the chain is not made yet
  insert-unmade :
      (a : InsertMemory) (v : V) → get_or slots (bucket offset buffer map) none ≡ none → Outcome a v
  unfolding HashMap.insert
  insert-unmade a v e =
      let same = map.num_of_items in
      let more = (map.num_of_items + 1) % 2 ^ 64 in
      let has = valid offset buffer map slots w in
      let here = index offset buffer map slots w in
      let there = loaded offset buffer map slots w in
      elim (Bool-cases a.list_ok) [
        | inl list ↦ elim (Bool-cases a.item_ok) [
          | inl item ↦ elim (Bool-cases a.node_ok) [
            | inl node ↦
                another_slot a v map_success more (only v) (refl, tt)
                  (ground (arith, has, here, there, e, list, item, node, put (only v)))
            | inr node ↦
                another_slot a v map_allocation_error same (some []) tt
                  (ground (arith, has, here, there, e, list, item, node, put (some [])))
          ]
          | inr item ↦
              another_slot a v map_allocation_error same (some []) tt
                (ground (arith, has, here, there, e, list, item, put (some [])))
        ]
        | inr list ↦ elim (Bool-cases a.item_ok) [
          | inl item ↦
              another_slot a v map_success more none tt
                (ground (arith, has, here, there, e, list, item, put none))
          | inr item ↦
              another_slot a v map_allocation_error same none tt
                (ground (arith, has, here, there, e, list, item, put none))
        ]
      ]

  -- an insertion into a chain
  insert-made :
      (a : InsertMemory) (v : V) (chain : List (DataItem CharPtr V))
      → get_or slots (bucket offset buffer map) none ≡ some chain
      → Outcome a v
  unfolding HashMap.insert Outcome
  insert-made a v (d ∷ chain) e =
      let has = valid offset buffer map slots w in
      let here = index offset buffer map slots w in
      let there = loaded offset buffer map slots w in
      let found = search_chain offset buffer map slots w (d ∷ chain) e in
      (map_key_duplicate_error, map, slots, ground (arith, has, here, there, e, found), w)
  insert-made a v [] e =
      let same = map.num_of_items in
      let more = (map.num_of_items + 1) % 2 ^ 64 in
      let has = valid offset buffer map slots w in
      let here = index offset buffer map slots w in
      let there = loaded offset buffer map slots w in
      let found = search_chain offset buffer map slots w [] e in
      elim (Bool-cases a.item_ok) [
        | inl item ↦ elim (Bool-cases a.node_ok) [
          | inl node ↦
              another_slot a v map_success more (only v) (refl, tt)
                (ground (arith, has, here, there, e, found, item, node, put (only v)))
          | inr node ↦
              another_slot a v map_allocation_error same (some []) tt
                (ground (arith, has, here, there, e, found, item, node, put (some [])))
        ]
        | inr item ↦
            another_slot a v map_allocation_error same (some []) tt
              (ground (arith, has, here, there, e, found, item, put (some [])))
      ]

  -- Whichever `malloc` fails, the keys are still all the same.
  pub insert-Collapsed :
      (a : InsertMemory) (v : V) {r : MapResult} {after : Ref (StringMap V)}
      → HashMap.insert a buffer (live map) (some (received offset)) v ≡ ok (r, after)
      → (map' : StringMap V) × (slots' : List (Slot CharPtr V)) × (after ≡ live map')
        × Collapsed offset map' slots'
  unfolding Outcome
  insert-Collapsed a v {r} {after} run =
      let outcome : Outcome a v =
        elim (Option-cases (get_or slots (bucket offset buffer map) none)) [
          | inl e ↦ insert-unmade a v e
          | inr (chain, e) ↦ insert-made a v chain e
        ] in
      let (_, map', slots', same, w') = outcome in
      let reached : after ≡ live map' = ground (arith, run, same) in (map', slots', reached, w')
