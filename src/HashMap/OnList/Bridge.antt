-- ===== src/HashMap/OnList/Bridge.antt =====
-- GenericHash/GenericHash.c: a call of the map whose slots are sequences is the call at one chain.
use chat_project.Prelude.{
  ℕ, zero, suc, ◌+◌, ◌-◌, ◌%◌, ◌^◌, ◌≡◌, refl, sym, ap, ◌∙◌, Bool, none, some, List, [], ◌∷◌, ok,
  live, rem, load-ok, store-ok, get_elem?, set, get_elem?-lt, Option-cases, inl, inr, if◌then◌else◌,
  load,
}
use mathlib.Core.Path.{subst}
use chat_project.DLinkedList.{Ptr}
use chat_project.HashMap.{
  HashMap, Slot, magic_number, valid_data, index_of, find, find_table, insert, insert_table,
  push_item, remove, remove_table, find_item, remove_item,
}
use chat_project.HashMap.OnList.{Given}
use chat_project.HashMap.OnList.Slot.{
  Call, look, put, take_out, CallResult, done, taken, find_in, remove_from, pushed_to, made_by,
  insert_to, chain_call,
}
use chat_project.HashMap.OnList.Whole.{memory_of, is_there, key_of, counted, map_call}

set_same : {A : Type 0} (xs : List A) (i : ℕ) (a : A) → get_elem? xs i ≡ some a → set xs i a ≡ xs
set_same [] i a e = refl
set_same (x ∷ xs) zero a e = let same : a ≡ x = cc in ap (λ y. y ∷ xs) same
set_same (x ∷ xs) (suc i) a e = ap (λ ys. x ∷ ys) (set_same xs i a e)

module _ {M K V : Type 0} where
  -- The map behind a call at its slot `i`.
  pub record After (map map' : HashMap M K V) (slots : List (Slot K V)) (i : ℕ) (slot' : Slot K V)
      (result : CallResult K V) : Type 0 where
    pub at : map'.m_data ≡ some (set slots i slot')
    pub count : map'.num_of_items ≡ counted result map.num_of_items
    pub alloc : map'.alloc_size ≡ map.alloc_size
    pub magic : map'.magic_num ≡ map.magic_num
    pub hash : map'.hash_func ≡ map.hash_func
    pub equal : map'.keys_equal_func ≡ map.keys_equal_func

  valid_data-ok :
      (map : HashMap M K V) (slots : List (Slot K V))
      → map.m_data ≡ some slots
      → map.magic_num ≡ magic_number
      → valid_data map ≡ some slots
  unfolding valid_data
  valid_data-ok map slots e m = rw (valid_data, e, m) refl

module _ {M K V : Type 0} (mem : M) (map : HashMap M K V) (slots : List (Slot K V)) (i : ℕ)
    (slot : Slot K V) (data_at : map.m_data ≡ some slots) (magic : map.magic_num ≡ magic_number)
    (there : get_elem? slots i ≡ some slot) where
  unchanged :
      (result : CallResult K V)
      → ((n : ℕ) → counted result n ≡ n)
      → After map map slots i slot result
  unchanged result same = record {
    at = data_at ∙ ap some (sym (set_same slots i slot there));
    count = sym (same map.num_of_items);
    alloc = refl;
    magic = refl;
    hash = refl;
    equal = refl;
  }

  push_item-pushed_to :
      (list_ok : Bool) (item new : Ptr) (slot₀ : Slot K V) (key : K) (value : V)
      → push_item
          (record { list_ok = list_ok; item_ok = is_there item; node_ok = is_there new })
          map
          slots
          i
          slot₀
          key
          value
        ≡ ok (
          (pushed_to item new slot₀ key value).0,
          live (record map {
            m_data = some (set slots i (pushed_to item new slot₀ key value).1);
            num_of_items =
                counted {K = K} {V = V}
                  (done (pushed_to item new slot₀ key value).0)
                  map.num_of_items;
          }),
        )
  unfolding push_item is_there counted
  push_item-pushed_to list_ok none new slot₀ key value =
      rw (store-ok slots i slot₀ (get_elem?-lt slots i there)) refl
  push_item-pushed_to list_ok (some item) new none key value =
      rw (store-ok slots i none (get_elem?-lt slots i there)) refl
  push_item-pushed_to list_ok (some item) none (some chain) key value =
      rw (store-ok slots i (some chain) (get_elem?-lt slots i there)) refl
  push_item-pushed_to list_ok (some item) (some n) (some chain) key value =
      rw
        (store-ok slots i (some (record { value = value; key = key } ∷ chain))
          (get_elem?-lt slots i there))
        refl

  module _ (key : K) (index : rem (map.hash_func mem key) map.alloc_size ≡ ok i) where
    abbrev same : K → ℕ
    same k = map.keys_equal_func mem k key

    valid : valid_data map ≡ some slots
    valid = valid_data-ok map slots data_at magic

    index_at : index_of mem map key ≡ ok i
    unfolding index_of
    index_at = index

    loaded : load slots i ≡ ok slot
    loaded = load-ok slots i there

    find-find_in : find mem (live map) (some key) ≡ ok (find_in same slot)
    unfolding find find_table
    find-find_in = elim (Option-cases slot) [
      | inl e ↦ rw (find, valid, index_at, loaded, e) refl
      | inr (chain, e) ↦ elim (Option-cases (find_item same chain)) [
        | inl missing ↦ rw (find, valid, index_at, loaded, e, missing) refl
        | inr (d, found) ↦ rw (find, valid, index_at, loaded, e, found) refl
      ]
    ]

    kept :
        (slot₀ : Slot K V) (result : CallResult K V)
        → slot ≡ slot₀
        → ((n : ℕ) → counted result n ≡ n)
        → After map map slots i slot₀ result
    kept slot₀ result e same_count =
        subst (λ s. After map map slots i s result) e (unchanged result same_count)

    -- What is removed, and the map without it.
    remove-remove_from :
        (slot₀ : Slot K V)
        → slot ≡ slot₀
        → (map' : HashMap M K V) × (remove mem (live map) (some key)
            ≡ ok ((remove_from same slot₀).0, (remove_from same slot₀).1, live map'))
          × After map map' slots i
              (remove_from same slot₀).2
              (taken (remove_from same slot₀).0 (remove_from same slot₀).1)
    unfolding remove remove_table counted
    remove-remove_from none e =
        (map, rw (remove, valid, index_at, loaded, e) refl, kept none _ e (λ n. refl))
    remove-remove_from (some chain) e = elim (Option-cases (find_item same chain)) [
      | inl missing ↦ rw missing (
        map,
        rw (remove, valid, index_at, loaded, e, missing) refl,
        kept (some chain) _ e (λ n. refl),
      )
      | inr (d, found) ↦
          let slots' = set slots i (some (remove_item same chain)) in
          let stored =
            store-ok slots i (some (remove_item same chain)) (get_elem?-lt slots i there) in
          rw found (
            record map {
              m_data = some slots';
              num_of_items = (map.num_of_items + 2 ^ 64 - 1) % 2 ^ 64;
            },
            rw (remove, valid, index_at, loaded, e, found, stored) refl,
            record {
              at = refl;
              count = refl;
              alloc = refl;
              magic = refl;
              hash = refl;
              equal = refl;
            },
          )
    ]

    pushed-After :
        (item new : Ptr) (slot₀ : Slot K V) (value : V)
        → After map
            (record map {
              m_data = some (set slots i (pushed_to item new slot₀ key value).1);
              num_of_items =
                  counted {K = K} {V = V}
                    (done (pushed_to item new slot₀ key value).0)
                    map.num_of_items;
            })
            slots
            i
            (pushed_to item new slot₀ key value).1
            (done (pushed_to item new slot₀ key value).0)
    pushed-After item new slot₀ value = record {
      at = refl;
      count = refl;
      alloc = refl;
      magic = refl;
      hash = refl;
      equal = refl;
    }

    made-slot :
        (list : Ptr) → (if is_there list then some [] else none) ≡ made_by {K = K} {V = V} list
    unfolding is_there
    made-slot none = refl
    made-slot (some list) = refl

    insert-insert_to :
        (given : Given) (value : V) (slot₀ : Slot K V)
        → slot ≡ slot₀
        → (map' : HashMap M K V) × (insert (memory_of given) mem (live map) (some key) value
            ≡ ok ((insert_to same given slot₀ key value).0, live map'))
          × After map map' slots i
              (insert_to same given slot₀ key value).1
              (done (insert_to same given slot₀ key value).0)
    unfolding insert insert_table memory_of counted
    insert-insert_to given value none e =
        let pushed =
          push_item-pushed_to (is_there given.list) given.item given.node (made_by given.list) key
            value in
        (
          _,
          rw (insert, valid, index_at, loaded, e, made-slot given.list) pushed,
          pushed-After given.item given.node (made_by given.list) value,
        )
    insert-insert_to given value (some chain) e = elim (Option-cases (find_item same chain)) [
      | inl missing ↦
          let pushed =
            push_item-pushed_to (is_there given.list) given.item given.node (some chain) key
              value in
          rw missing (
            _,
            rw (insert, valid, index_at, loaded, e, missing) pushed,
            pushed-After given.item given.node (some chain) value,
          )
      | inr (d, found) ↦ rw found (
        map,
        rw (insert, valid, index_at, loaded, e, found) refl,
        kept (some chain) _ e (λ n. refl),
      )
    ]

  -- The call at the slot of its key, and the map behind it.
  pub map_call-chain_call :
      (call : Call K V)
      → rem (map.hash_func mem (key_of call)) map.alloc_size ≡ ok i
      → (map' : HashMap M K V) × (map_call mem call map
          ≡ ok ((chain_call (map.keys_equal_func mem) call slot).0, live map'))
        × After map map' slots i
            (chain_call (map.keys_equal_func mem) call slot).1
            (chain_call (map.keys_equal_func mem) call slot).0
  unfolding map_call chain_call key_of counted
  map_call-chain_call (look key) index =
      let found = find-find_in key index in
      (map, rw found refl, kept key index slot _ refl (λ n. refl))
  map_call-chain_call (put given key value) index =
      let (map', run, after) = insert-insert_to key index given value slot refl in
      (map', rw run refl, after)
  map_call-chain_call (take_out key) index =
      let (map', run, after) = remove-remove_from key index slot refl in (map', rw run refl, after)
