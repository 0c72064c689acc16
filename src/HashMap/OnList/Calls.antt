-- ===== src/HashMap/OnList/Calls.antt =====
-- GenericHash/GenericHash.c: any run of calls of a map over linked lists in memory is that run of
-- the map whose slots are sequences.
use chat_project.Prelude.{
  ℕ, zero, suc, ◌%◌, ◌<◌, ◌≡◌, refl, sym, ap, ◌∙◌, arith, Option, none, some, List, [], ◌∷◌, Run,
  ok, fault, ◌>>=◌, Ref, null, dangling, live, rem, rem-ok, load-ok, store-ok, get_elem?, set,
  length, get_elem?-lt, get_elem?-of_lt, length-set,
}
use mathlib.Core.Path.{subst}
use chat_project.DLinkedList.{Ptr}
use chat_project.HashMap.{HashMap, Slot, magic_number}
use chat_project.HashMap.OnList.{Heap}
use chat_project.HashMap.OnList.Slot.{Call, CallResult, Fits, Short, memory_call, chain_call}
use chat_project.HashMap.OnList.Refine.{call-Agrees}
use chat_project.HashMap.OnList.Rows.{Row, pointers, slots_of, InMemory}
use chat_project.HashMap.OnList.Table.{pointers-set, slots_of-set, row-At, set-InMemory}
use chat_project.HashMap.OnList.Whole.{ListMap, key_of, counted, table_call, map_call}
use chat_project.HashMap.OnList.Bridge.{map_call-chain_call}

module _ {K V : Type 0} where
  row-get :
      (rows : List (Row K V)) (i : ℕ) (r : Row K V)
      → get_elem? rows i ≡ some r
      → (get_elem? (pointers rows) i ≡ some r.pointer) × (get_elem? (slots_of rows) i ≡ some r.slot)
  row-get [] i r e = ground (arith, e)
  row-get (s ∷ rows) zero r e = (cc, cc)
  row-get (s ∷ rows) (suc i) r e = row-get rows i r e

  length-pointers : (rows : List (Row K V)) → length (pointers rows) ≡ length rows
  length-pointers [] = refl
  length-pointers (r ∷ rows) = ap suc (length-pointers rows)

-- The table in memory has the chains of the map, each at addresses of its own, and the rest of the
-- two is the same.
pub record Represents {M K V : Type 0} (t : ListMap M K V) (map : HashMap M K V)
    (rows : List (Row K V)) : Type 0 where
  pub lists : t.slots ≡ pointers rows
  pub chains : map.m_data ≡ some (slots_of rows)
  pub magic : map.magic_num ≡ magic_number
  pub alloc : map.alloc_size ≡ t.alloc_size
  pub pos : 0 < t.alloc_size
  pub width : length rows ≡ t.alloc_size
  pub count : map.num_of_items ≡ t.num_of_items
  pub hash : map.hash_func ≡ t.hash_func
  pub equal : map.keys_equal_func ≡ t.keys_equal_func
  pub stored : InMemory t.heap rows

module _ {M K V : Type 0} (mem : M) (fuel : ℕ) where
  abbrev pub home : Call K V → ListMap M K V → ℕ
  unfolding key_of
  home call t = t.hash_func mem (key_of call) % t.alloc_size

  abbrev slot_in : Option (List (Slot K V)) → ℕ → Option (Slot K V)
  slot_in none i = none
  slot_in (some slots) i = get_elem? slots i

  -- What `malloc` gives is not in use, and the fuel is more than the chain is long.
  abbrev ReadyAt : Call K V → Heap K V → Option Ptr → Option (Slot K V) → Type 0
  ReadyAt call h (some list) (some slot) = Fits call list h × Short fuel slot
  ReadyAt call h none slot = Unit
  ReadyAt call h (some list) none = Unit

  abbrev Ready : Call K V → ListMap M K V → HashMap M K V → Type 0
  Ready call t map =
      ReadyAt call t.heap (get_elem? t.slots (home call t)) (slot_in map.m_data (home call t))

  table_call-run :
      (call : Call K V) (t : ListMap M K V) (list list' : Ptr) (h' : Heap K V)
      (result : CallResult K V)
      → rem (t.hash_func mem (key_of call)) t.alloc_size ≡ ok (home call t)
      → get_elem? t.slots (home call t) ≡ some list
      → memory_call (t.keys_equal_func mem) fuel call list t.heap ≡ ok (result, list', h')
      → table_call mem fuel call t
        ≡ ok (
          result,
          record t {
            slots = set t.slots (home call t) list';
            heap = h';
            num_of_items = counted result t.num_of_items;
          },
        )
  unfolding table_call
  table_call-run call t list list' h' result index there run =
      let loaded = load-ok t.slots (home call t) there in
      let stored =
        store-ok t.slots (home call t) list' (get_elem?-lt t.slots (home call t) there) in
      rw (index, loaded, run, stored) refl

  -- One call, by both.
  call_refines :
      (call : Call K V) (t : ListMap M K V) (map : HashMap M K V) (rows : List (Row K V))
      → Represents t map rows
      → Ready call t map
      → (result : CallResult K V) × (t' : ListMap M K V) × (map' : HashMap M K V) × (rows' : List
          (Row K V))
        × (table_call mem fuel call t ≡ ok (result, t'))
        × (map_call mem call map ≡ ok (result, live map'))
        × Represents t' map' rows'
  unfolding key_of
  call_refines call t map rows w ready =
      let i = home call t in
      let index = rem-ok (t.hash_func mem (key_of call)) t.alloc_size w.pos in
      let pos = w.pos in
      let within : i < length rows = rw w.width (omega (arith, pos)) in
      let (r, row) = get_elem?-of_lt rows i within in
      let (pointer_at, slot_at) = row-get rows i r row in
      let at = row-At t.heap rows i r row w.stored in
      let there : get_elem? t.slots i ≡ some r.pointer = rw w.lists pointer_at in
      let slot_there : slot_in map.m_data i ≡ some r.slot =
        ap (λ d. slot_in d i) w.chains ∙ slot_at in
      let ready₁ = subst (λ p. ReadyAt call t.heap p (slot_in map.m_data i)) there ready in
      let (fits, short) = subst (λ s. ReadyAt call t.heap (some r.pointer) s) slot_there ready₁ in
      let (list', h', f', run, at', step) =
        call-Agrees (t.keys_equal_func mem) fuel call r.pointer t.heap r.slot r.foot at fits
          short in
      let (map', map_run, after) =
        map_call-chain_call mem map (slots_of rows) i r.slot w.chains w.magic slot_at call
          ((λ j. rem (w.hash j mem (key_of call)) (w.alloc j)) ∙ index) in
      let outcome = chain_call (t.keys_equal_func mem) call r.slot in
      let new : Row K V = record { pointer = list'; slot = outcome.1; foot = f' } in
      (
        outcome.0,
        record t {
          slots = set t.slots i list';
          heap = h';
          num_of_items = counted outcome.0 t.num_of_items;
        },
        map',
        set rows i new,
        table_call-run call t r.pointer list' h' outcome.0 index there run,
        map_run ∙ (λ j. ok ((chain_call (w.equal j mem) call r.slot).0, live map')),
        record {
          lists = ap (λ p. set p i list') w.lists ∙ sym (pointers-set rows i new);
          chains =
              after.at
              ∙ (λ j. some (set (slots_of rows) i (chain_call (w.equal j mem) call r.slot).1))
              ∙ ap some (sym (slots_of-set rows i new));
          magic = after.magic ∙ w.magic;
          alloc = after.alloc ∙ w.alloc;
          pos = w.pos;
          width = length-set rows i new ∙ w.width;
          count =
              after.count ∙ (λ j. counted (chain_call (w.equal j mem) call r.slot).0 (w.count j));
          hash = after.hash ∙ w.hash;
          equal = after.equal ∙ w.equal;
          stored =
              set-InMemory t.heap h' r.foot f' step rows i r list' outcome.1 row refl w.stored at';
        },
      )

  -- Any number of calls, by each.
  unfoldable pub table_calls :
      List (Call K V) → ListMap M K V → Run (List (CallResult K V) × ListMap M K V)
  unfolding table_call
  table_calls [] t = ok ([], t)
  table_calls (call ∷ calls) t = do
    (result, t') ← table_call mem fuel call t
    (results, t'') ← table_calls calls t'
    ok (result ∷ results, t'')

  -- what is made of the pointer to the map, which is live behind each of the calls
  unfoldable pub map_calls :
      List (Call K V) → Ref (HashMap M K V) → Run (List (CallResult K V) × Ref (HashMap M K V))
  unfolding map_call
  map_calls [] map = ok ([], map)
  map_calls (call ∷ calls) null = fault
  map_calls (call ∷ calls) dangling = fault
  map_calls (call ∷ calls) (live map) = do
    (result, map') ← map_call mem call map
    (results, map'') ← map_calls calls map'
    ok (result ∷ results, map'')

  -- where a call leads by each
  abbrev Next :
      Run (CallResult K V × ListMap M K V)
      → Run (CallResult K V × Ref (HashMap M K V))
      → (ListMap M K V → HashMap M K V → Type 0)
      → Type 0
  Next (ok (_, t)) (ok (_, live map)) P = P t map
  Next (ok (_, t)) _ P = Unit
  Next _ _ P = Unit

  abbrev pub AllReady : List (Call K V) → ListMap M K V → HashMap M K V → Type 0
  AllReady [] t map = Unit
  AllReady (call ∷ calls) t map =
      Ready call t map
      × Next (table_call mem fuel call t) (map_call mem call map)
          (λ t' map'. AllReady calls t' map')

  calls-next :
      (call : Call K V) (calls : List (Call K V)) (t t' t'' : ListMap M K V)
      (map map' map'' : HashMap M K V) (result : CallResult K V) (results : List (CallResult K V))
      → table_call mem fuel call t ≡ ok (result, t')
      → map_call mem call map ≡ ok (result, live map')
      → table_calls calls t' ≡ ok (results, t'')
      → map_calls calls (live map') ≡ ok (results, live map'')
      → (table_calls (call ∷ calls) t ≡ ok (result ∷ results, t''))
        × (map_calls (call ∷ calls) (live map) ≡ ok (result ∷ results, live map''))
  unfolding table_calls map_calls
  calls-next call calls t t' t'' map map' map'' result results a b c d =
      (rw (a, c) refl, rw (b, d) refl)

  -- Any run of `HashMap_Find`, `HashMap_Insert` and `HashMap_Remove` of a valid map, whichever
  -- `malloc` fails, returns on the linked lists in memory, and gives the results of the map
  -- whose slots are sequences; that map is behind the run again what the table in memory stands
  -- for, every chain at addresses of its own. `malloc` gives addresses that are not in use then,
  -- and for an item none that the data of the tail sentinel happens to be; the fuel is more than
  -- the chains are long.
  pub table_calls_refine :
      (calls : List (Call K V)) (t : ListMap M K V) (map : HashMap M K V) (rows : List (Row K V))
      → Represents t map rows
      → AllReady calls t map
      → (results : List (CallResult K V)) × (t' : ListMap M K V) × (map' : HashMap M K V)
        × (rows' : List (Row K V)) × (table_calls calls t ≡ ok (results, t'))
        × (map_calls calls (live map) ≡ ok (results, live map'))
        × Represents t' map' rows'
  unfolding table_calls map_calls
  table_calls_refine [] t map rows w ready = ([], t, map, rows, refl, refl, w)
  table_calls_refine (call ∷ calls) t map rows w (ready, later) =
      let (result, t₁, map₁, rows₁, run, map_run, w₁) = call_refines call t map rows w ready in
      let later₁ =
        subst (λ r. Next r (map_call mem call map) (λ t' map'. AllReady calls t' map')) run later in
      let later₂ =
        subst (λ r. Next (ok (result, t₁)) r (λ t' map'. AllReady calls t' map')) map_run later₁ in
      let (results, t₂, map₂, rows₂, runs, map_runs, w₂) =
        table_calls_refine calls t₁ map₁ rows₁ w₁ later₂ in
      let (all, map_all) =
        calls-next call calls t t₁ t₂ map map₁ map₂ result results run map_run runs map_runs in
      (result ∷ results, t₂, map₂, rows₂, all, map_all, w₂)
