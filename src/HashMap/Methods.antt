-- ===== src/HashMap/Methods.antt =====
-- GenericHash/GenericHash.c: `HashMap_Find` and `HashMap_Insert` of a map whose
-- keys keep what they point to, as operations on a function from keys to values.
use chat_project.Prelude.{
  ◌+◌, ◌%◌, ◌^◌, ◌≡◌, refl, ◌∙◌, arith, Option, none, some, List, [], ◌∷◌, ok, live, store-ok, ◌==◌,
  get_or, set, if◌then◌else◌, Bool-cases, Option-cases, inl, inr,
}
use chat_project.HashMap.{
  HashMap, DataItem, Slot, MapResult, map_success, map_key_duplicate_error, map_key_not_found_error,
  item_made, find_item, insert, insert_table, push_item, find, find_table, size,
}
use chat_project.HashMap.Chain.{count, value_of, find_item-none, find_item-some, count_congr}
use chat_project.HashMap.View

-- What `HashMap_Find` answers for a value, or for none.
abbrev pub answer : {V : Type 0} → Option V → MapResult × Option V
answer none = (map_key_not_found_error, none)
answer (some v) = (map_success, some v)

module _ {M K V : Type 0} (mem : M) where
  -- A run of `HashMap_Insert` or `HashMap_Remove` that made `map'` out of `map`: it is a map again
  -- and has `v` under the keys equal to `k`.
  pub record Writes (map : HashMap M K V) (slots : List (Slot K V)) (k : K) (v : Option V)
      (map' : HashMap M K V) : Type 0 where
    pub slots' : List (Slot K V)
    pub is_map : View.IsMap mem map' slots'
    pub hash : map'.hash_func ≡ map.hash_func
    pub equal : map'.keys_equal_func ≡ map.keys_equal_func
    pub reads :
        (q : K)
        → View.view mem map' slots' q
          ≡ (if map.keys_equal_func mem k q == 1 then v else View.view mem map slots q)

  module _ (map : HashMap M K V) (slots : List (Slot K V)) (w : View.IsMap mem map slots)
      (keys : View.KeyFuncs map.hash_func map.keys_equal_func mem) (k : K) where
    abbrev pub here : List (DataItem K V)
    here = View.chain_at slots (View.home mem map k)

    -- `HashMap_Find` returns what the map has under the key, and the error for a missing key
    -- exactly if it has nothing.
    pub find-view : find mem (live map) (some k) ≡ ok (answer (View.view mem map slots k))
    unfolding find find_table value_of
    find-view =
        let valid = View.valid mem map slots w keys k in
        let index = View.index_of-ok mem map slots w keys k in
        let loaded = View.load-home mem map slots w keys k in
        elim (Option-cases (get_or slots (View.home mem map k) none)) [
          | inl e ↦ rw (find, valid, index, loaded, e)
          | inr (chain, e) ↦ elim (Option-cases (find_item (View.matches mem map k) chain)) [
            | inl missing ↦
                let (v, c) = find_item-none (View.matches mem map k) chain missing in
                ground (arith, valid, index, loaded, e, missing, v)
            | inr (d, found) ↦
                let (v, same, size) = find_item-some (View.matches mem map k) chain d found in
                ground (arith, valid, index, loaded, e, found, v)
          ]
        ]

    matches_congr :
        (q : K)
        → map.keys_equal_func mem k q ≡ 1
        → (j : K) → (View.matches mem map q j == 1) ≡ (View.matches mem map k j == 1)
    matches_congr q e j =
        ground (arith, keys.equal_trans j k q, keys.equal_trans j q k, keys.equal_symm k q)

    pub equal_congr :
        (q : K)
        → map.keys_equal_func mem k q ≡ 1
        → (chain : List (DataItem K V))
        → (count (View.matches mem map q) chain ≡ count (View.matches mem map k) chain)
          × (value_of (View.matches mem map q) chain ≡ value_of (View.matches mem map k) chain)
    equal_congr q e chain =
        count_congr (View.matches mem map q) (View.matches mem map k) chain (matches_congr q e)

    pushed : V → HashMap M K V
    pushed v =
        View.with_chain mem map slots k (record { key = k; value = v } ∷ here)
          ((map.num_of_items + 1) % 2 ^ 64)

    pushed-Writes :
        (v : V) → count (View.matches mem map k) here ≡ 0 → Writes map slots k (some v) (pushed v)
    unfolding pushed count value_of
    pushed-Writes v absent =
        let chain = record { key = k; value = v } ∷ here in
        let (is_map, reads) =
          View.with_chain-IsMap mem map slots w keys k chain ((map.num_of_items + 1) % 2 ^ 64)
            (let c = w.counted in omega arith)
            (λ q. elim (Bool-cases (map.keys_equal_func mem k q == 1)) [
              | inl e ↦ let (c, _) = equal_congr q (ground arith) here in rw e (omega arith)
              | inr e ↦ rw e (omega (arith, w.once q (View.home mem map k)))
            ])
            (λ q apart. ground arith) in
        record {
          slots' = set slots (View.home mem map k) (some chain);
          is_map = is_map;
          hash = refl;
          equal = refl;
          reads = λ q. reads q ∙ ground arith;
        }

    -- A search that finds nothing, by what stands at the home of the key.
    pub data Missing : Type 0 where
      no_chain : get_or slots (View.home mem map k) none ≡ none → Missing
      in_chain :
          (chain : List (DataItem K V))
          → get_or slots (View.home mem map k) none ≡ some chain
          → find_item (View.matches mem map k) chain ≡ none
          → Missing

    pub missing_of_view :
        View.view mem map slots k ≡ none → Missing × (count (View.matches mem map k) here ≡ 0)
    unfolding value_of count
    missing_of_view absent = elim (Option-cases (get_or slots (View.home mem map k) none)) [
      | inl e ↦ (no_chain e, rw e)
      | inr (chain, e) ↦ elim (Option-cases (find_item (View.matches mem map k) chain)) [
        | inl missing ↦ (
          in_chain chain e missing,
          rw e (find_item-none (View.matches mem map k) chain missing).1,
        )
        | inr (d, found) ↦
            let (v, same, size) = find_item-some (View.matches mem map k) chain d found in
            ground (arith, e, absent, v)
      ]
    ]

    insert-pushed :
        (v : V)
        → Missing
        → insert item_made mem (live map) (some k) v ≡ ok (map_success, live (pushed v))
    unfolding insert insert_table push_item pushed
    insert-pushed v (no_chain e) =
        let stored =
          store-ok slots (View.home mem map k) (some (record { key = k; value = v } ∷ []))
            (View.home-lt mem map slots w keys k) in
        ground (
          arith,
          View.valid mem map slots w keys k,
          View.index_of-ok mem map slots w keys k,
          View.load-home mem map slots w keys k,
          e,
          stored,
        )
    insert-pushed v (in_chain chain e missing) =
        let stored =
          store-ok slots (View.home mem map k) (some (record { key = k; value = v } ∷ chain))
            (View.home-lt mem map slots w keys k) in
        ground (
          arith,
          View.valid mem map slots w keys k,
          View.index_of-ok mem map slots w keys k,
          View.load-home mem map slots w keys k,
          e,
          missing,
          stored,
        )

    -- `HashMap_Insert`, with memory, stores a value under a key that is absent, leaves every other
    -- key alone and counts one item more.
    pub insert-absent :
        (v : V)
        → View.view mem map slots k ≡ none
        → (map' : HashMap M K V) × (insert item_made mem (live map) (some k) v
            ≡ ok (map_success, live map'))
          × Writes map slots k (some v) map'
          × (map'.num_of_items ≡ (map.num_of_items + 1) % 2 ^ 64)
    unfolding pushed
    insert-absent v absent =
        let (missing, none_here) = missing_of_view absent in
        (pushed v, insert-pushed v missing, pushed-Writes v none_here, refl)

    -- `HashMap_Insert` under a key that is there reports it and changes nothing.
    pub insert-present :
        (v old : V)
        → View.view mem map slots k ≡ some old
        → insert item_made mem (live map) (some k) v ≡ ok (map_key_duplicate_error, live map)
    unfolding insert insert_table value_of
    insert-present v old present =
        let valid = View.valid mem map slots w keys k in
        let index = View.index_of-ok mem map slots w keys k in
        let loaded = View.load-home mem map slots w keys k in
        elim (Option-cases (get_or slots (View.home mem map k) none)) [
          | inl e ↦ ground (arith, e, present)
          | inr (chain, e) ↦ elim (Option-cases (find_item (View.matches mem map k) chain)) [
            | inl missing ↦
                let (gone, c) = find_item-none (View.matches mem map k) chain missing in
                ground (arith, e, present, gone)
            | inr (d, found) ↦ ground (arith, valid, index, loaded, e, found)
          ]
        ]
