-- ===== src/HashMap/Remove.antt =====
-- GenericHash/GenericHash.c: `HashMap_Remove` of a map whose keys keep what they point to.
use chat_project.Prelude.{
  ◌+◌, ◌-◌, ◌%◌, ◌^◌, ◌≤◌, ◌≡◌, refl, ◌∙◌, arith, false, none, some, List, [], ok, live, store-ok,
  ◌==◌, get_or, set, Bool-cases, Option-cases, inl, inr,
}
use chat_project.HashMap.{
  HashMap, DataItem, Slot, map_success, map_key_not_found_error, find_item, remove_item, remove,
  remove_table,
}
use chat_project.HashMap.Chain.{
  count, value_of, find_item-none, find_item-some, value_of-none, remove_item-apart,
  remove_item-count,
}
use chat_project.HashMap.View
use chat_project.HashMap.Methods
use chat_project.HashMap.Methods.{Missing, no_chain, in_chain, missing_of_view}

module _ {M K V : Type 0} (mem : M) where
  module _ (map : HashMap M K V) (slots : List (Slot K V)) (w : View.IsMap mem map slots)
      (keys : View.KeyFuncs map.hash_func map.keys_equal_func mem) (k : K) where
    pulled : List (DataItem K V) → HashMap M K V
    pulled chain =
        View.with_chain mem map slots k (remove_item (View.matches mem map k) chain)
          ((map.num_of_items + 2 ^ 64 - 1) % 2 ^ 64)

    not_both :
        (q : K)
        → (map.keys_equal_func mem k q == 1) ≡ false
        → (j : K) → View.matches mem map k j ≡ 1
        → (View.matches mem map q j == 1) ≡ false
    not_both q apart j hit = ground (arith, keys.equal_trans k j q, keys.equal_symm j k)

    pulled-Writes :
        (chain : List (DataItem K V)) (d : DataItem K V)
        → get_or slots (View.home mem map k) none ≡ some chain
        → find_item (View.matches mem map k) chain ≡ some d
        → Methods.Writes mem map slots k none (pulled chain)
    unfolding pulled
    pulled-Writes chain d e found =
        let i = View.home mem map k in
        let same = View.matches mem map k in
        let left = remove_item same chain in
        let (v, hit, size) = find_item-some same chain d found in
        let at_home : View.chain_at slots i ≡ chain = rw e in
        let gone = remove_item-count same chain (rw at_home at (w.once k i)) in
        let away : (q : K)
            → (map.keys_equal_func mem k q == 1) ≡ false
            → (count (View.matches mem map q) left ≡ count (View.matches mem map q) chain)
              × (value_of (View.matches mem map q) left ≡ value_of (View.matches mem map q) chain) =
          (λ q apart. remove_item-apart same (View.matches mem map q) chain (not_both q apart)) in
        let filled = View.total-set slots i [] (View.home-lt mem map slots w keys k) in
        let (is_map, reads) =
          View.with_chain-IsMap mem map slots w keys k left
            ((map.num_of_items + 2 ^ 64 - 1) % 2 ^ 64)
            (let c = w.counted in let f = rw at_home at filled in rw at_home (omega arith))
            (λ q. elim (Bool-cases (map.keys_equal_func mem k q == 1)) [
              | inl same_key ↦
                  let (c, _) = Methods.equal_congr mem map slots w keys k q (ground arith) left in
                  omega (arith, gone)
              | inr apart ↦
                  let (c, _) = away q apart in
                  let o : count (View.matches mem map q) chain ≤ 1 = rw at_home at (w.once q i) in
                  omega arith
            ])
            (λ q apart. rw at_home (away q apart)) in
        record {
          slots' = set slots i (some left);
          is_map = is_map;
          hash = refl;
          equal = refl;
          reads = λ q. reads q ∙ (elim (Bool-cases (map.keys_equal_func mem k q == 1)) [
            | inl same_key ↦
                let (_, r) = Methods.equal_congr mem map slots w keys k q (ground arith) left in
                let none_left = value_of-none same left gone in rw same_key (r ∙ none_left)
            | inr apart ↦ rw apart refl
          ]);
        }

    remove-missing :
        Missing mem map slots w keys k
        → remove mem (live map) (some k) ≡ ok (map_key_not_found_error, none, live map)
    unfolding remove remove_table
    remove-missing (no_chain e) = ground (
      arith,
      View.valid mem map slots w keys k,
      View.index_of-ok mem map slots w keys k,
      View.load-home mem map slots w keys k,
      e,
    )
    remove-missing (in_chain chain e missing) = ground (
      arith,
      View.valid mem map slots w keys k,
      View.index_of-ok mem map slots w keys k,
      View.load-home mem map slots w keys k,
      e,
      missing,
    )

    -- The item that is removed, by what stands at the home of its key.
    data Present (v : V) : Type 0 where
      present :
          (chain : List (DataItem K V)) (d : DataItem K V)
          → get_or slots (View.home mem map k) none ≡ some chain
          → find_item (View.matches mem map k) chain ≡ some d
          → d.value ≡ v
          → View.matches mem map k d.key ≡ 1
          → Present v

    Present-of_view : (v : V) → View.view mem map slots k ≡ some v → Present v
    unfolding value_of
    Present-of_view v e = elim (Option-cases (get_or slots (View.home mem map k) none)) [
      | inl nothing ↦ ground (arith, e, nothing)
      | inr (chain, at) ↦ elim (Option-cases (find_item (View.matches mem map k) chain)) [
        | inl missing ↦
            let (gone, c) = find_item-none (View.matches mem map k) chain missing in
            ground (arith, e, at, gone)
        | inr (d, found) ↦
            let (val, hit, size) = find_item-some (View.matches mem map k) chain d found in
            present chain d at found (ground (arith, e, at, val)) hit
      ]
    ]

    abbrev pub Removed : V → Type 0
    Removed v =
        (d : DataItem K V) × (map' : HashMap M K V) × (remove mem (live map) (some k)
          ≡ ok (map_success, some d, live map'))
        × (d.value ≡ v)
        × (map.keys_equal_func mem d.key k ≡ 1)
        × Methods.Writes mem map slots k none map'
        × (map'.num_of_items ≡ (map.num_of_items + 2 ^ 64 - 1) % 2 ^ 64)

    remove-Present : (v : V) → Present v → Removed v
    unfolding remove remove_table pulled
    remove-Present v (present chain d at found val hit) =
        let left = remove_item (View.matches mem map k) chain in
        let stored =
          store-ok slots (View.home mem map k) (some left) (View.home-lt mem map slots w keys k) in
        (
          d,
          pulled chain,
          ground (
            arith,
            View.valid mem map slots w keys k,
            View.index_of-ok mem map slots w keys k,
            View.load-home mem map slots w keys k,
            at,
            found,
            stored,
          ),
          val,
          hit,
          pulled-Writes chain d at found,
          refl,
        )

    -- `HashMap_Remove` of a key that is there gives the item with its value, leaves every other key
    -- alone and counts one item less.
    pub remove-present : (v : V) → View.view mem map slots k ≡ some v → Removed v
    remove-present v e = remove-Present v (Present-of_view v e)

    -- `HashMap_Remove` of a missing key says so and changes nothing.
    pub remove-absent :
        View.view mem map slots k ≡ none
        → remove mem (live map) (some k) ≡ ok (map_key_not_found_error, none, live map)
    remove-absent e = remove-missing (missing_of_view mem map slots w keys k e).0
