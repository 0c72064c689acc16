-- ===== src/DataBase/Collapse.antt =====
-- ServerDB/DataBase.c as the server calls it. Every key that it stores is the same pointer, to the
-- place of the name in the receive buffer, so that all keys of a map read as the name of the
-- request that is being served: a chain has the key exactly if it has an item at all.
use chat_project.Prelude.{
  ℕ, ◌+◌, ◌%◌, ◌^◌, ◌<◌, ◌≡◌, refl, ◌∙◌, arith, Option, none, some, List, [], ◌∷◌, ok, live, load,
  store-ok, load-ok, rem-ok, ◌==◌, length, get_or, set, length-set, Bool-cases, Option-cases, inl,
  inr, Bytes, All,
}
use chat_project.HashMap
use chat_project.HashMap.{
  HashMap, DataItem, Slot, MapResult, map_success, map_key_duplicate_error, magic_number, item_made,
  find_item, valid_data, index_of,
}
use chat_project.HashMap.View.{chain_at, chain_at-set, get_elem?-chain_at}
use chat_project.HashMap.Methods.{answer}
use chat_project.Buffer.{CharPtr, received, hash_function, equality_function}
use chat_project.Buffer.Keys.{equality_function_of_eq}
use chat_project.DataBase.{StringMap}

module _ {V : Type 0} (offset : ℕ) where
  -- Every key of the map is the pointer to this place of the receive buffer.
  pub record Collapsed (map : StringMap V) (slots : List (Slot CharPtr V)) : Type 0 where
    pub at : map.m_data ≡ some slots
    pub magic : map.magic_num ≡ magic_number
    pub width : length slots ≡ map.alloc_size
    pub pos : 0 < map.alloc_size
    pub hash : map.hash_func ≡ hash_function
    pub equal : map.keys_equal_func ≡ equality_function
    pub keyed : (i : ℕ) → All (λ d. d.key ≡ received offset) (chain_at slots i)

  -- where a request whose name stands at `offset` looks
  abbrev pub bucket : Bytes → StringMap V → ℕ
  bucket buffer map = hash_function buffer (received offset) % map.alloc_size

  abbrev pub first : List (DataItem CharPtr V) → Option (DataItem CharPtr V)
  first [] = none
  first (d ∷ chain) = some d

  abbrev pub first_value : List (DataItem CharPtr V) → Option V
  first_value [] = none
  first_value (d ∷ chain) = some d.value

  find_item-keyed :
      (same : CharPtr → ℕ) (chain : List (DataItem CharPtr V))
      → same (received offset) ≡ 1
      → All (λ d. d.key ≡ received offset) chain
      → find_item same chain ≡ first chain
  unfolding find_item
  find_item-keyed same [] h k = refl
  find_item-keyed same (d ∷ chain) h k = rw (k.0, h)

  module _ (buffer : Bytes) (map : StringMap V) (slots : List (Slot CharPtr V))
      (w : Collapsed map slots) where
    pub valid : valid_data map ≡ some slots
    unfolding valid_data
    valid = ground (arith, w.at, w.magic)

    pub here-lt : bucket buffer map < length slots
    here-lt = rw w.width (let p = w.pos in omega arith)

    pub index : index_of buffer map (received offset) ≡ ok (bucket buffer map)
    unfolding index_of
    index = rw w.hash (rem-ok (hash_function buffer (received offset)) map.alloc_size w.pos)

    pub loaded : load slots (bucket buffer map) ≡ ok (get_or slots (bucket buffer map) none)
    loaded =
        load-ok slots (bucket buffer map) (get_elem?-chain_at slots (bucket buffer map) here-lt)

    same-one : map.keys_equal_func buffer (received offset) (received offset) ≡ 1
    same-one = rw w.equal (equality_function_of_eq buffer (received offset) (received offset) refl)

    pub search_chain :
        (chain : List (DataItem CharPtr V))
        → get_or slots (bucket buffer map) none ≡ some chain
        → find_item (λ k. map.keys_equal_func buffer k (received offset)) chain ≡ first chain
    search_chain chain e =
        find_item-keyed (λ k. map.keys_equal_func buffer k (received offset)) chain same-one
          (let k = w.keyed (bucket buffer map) in rw e at k)

    -- A search gives the first item of the chain, whatever name it was stored for.
    pub find-first :
        HashMap.find buffer (live map) (some (received offset))
        ≡ ok (answer (first_value (chain_at slots (bucket buffer map))))
    unfolding HashMap.find
    find-first = elim (Option-cases (get_or slots (bucket buffer map) none)) [
      | inl e ↦ ground (arith, valid, index, loaded, e)
      | inr ([], e) ↦ ground (arith, valid, index, loaded, e, search_chain [] e)
      | inr (d ∷ chain, e) ↦ ground (arith, valid, index, loaded, e, search_chain (d ∷ chain) e)
    ]

    -- the map with one item in the chain of this request
    abbrev pub stored : V → StringMap V
    stored v = record map {
      m_data =
          some (
            set slots (bucket buffer map)
              (some (record { key = received offset; value = v } ∷ [])));
      num_of_items = (map.num_of_items + 1) % 2 ^ 64;
    }

    abbrev pub stored_slots : V → List (Slot CharPtr V)
    stored_slots v =
        set slots (bucket buffer map) (some (record { key = received offset; value = v } ∷ []))

    -- An insertion into an empty chain stores the item there, and the keys are still all the same.
    pub insert-first :
        (v : V)
        → chain_at slots (bucket buffer map) ≡ []
        → (HashMap.insert item_made buffer (live map) (some (received offset)) v
            ≡ ok (map_success, live (stored v)))
          × Collapsed (stored v) (stored_slots v)
          × (chain_at (stored_slots v) (bucket buffer map)
              ≡ record { key = received offset; value = v } ∷ [])
    unfolding HashMap.insert
    insert-first v h =
        let one : List (DataItem CharPtr V) = record { key = received offset; value = v } ∷ [] in
        let put = store-ok slots (bucket buffer map) (some one) here-lt in
        (
          elim (Option-cases (get_or slots (bucket buffer map) none)) [
            | inl e ↦ ground (arith, valid, index, loaded, e, put)
            | inr (c, e) ↦
                let empty : c ≡ [] = ground (arith, h, e) in
                ground (arith, valid, index, loaded, e, search_chain c e, empty, put)
          ],
          record {
            at = refl;
            magic = w.magic;
            width = rw length-set w.width;
            pos = w.pos;
            hash = w.hash;
            equal = w.equal;
            keyed = λ i.
                rw (chain_at-set slots (bucket buffer map) i one here-lt)
                  (elim (Bool-cases (bucket buffer map == i)) [
                    | inl home ↦ rw home (refl, tt)
                    | inr away ↦ rw away (w.keyed i)
                  ]);
          },
          chain_at-set slots (bucket buffer map) (bucket buffer map) one here-lt ∙ ground arith,
        )
