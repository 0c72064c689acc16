-- ===== src/HashMap/OnList/Inserts.antt =====
-- GenericHash/GenericHash.c: `HashMap_Insert` at a slot in memory does what it does on the chain.
use chat_project.Prelude.{
  ℕ, ◌≡◌, refl, sym, ◌∙◌, arith, false, none, some, List, [], ◌∷◌, Run, ok, ◌==◌, inl, inr,
}
use chat_project.DLinkedList.{
  Ptr, Memory, ListResult, list_success, list_allocation_error, list_uninitialized_error, create,
  push_head,
}
use chat_project.DLinkedList.Shape.{Cell, IsList}
use chat_project.DLinkedList.Push.{push_head-IsList}
use chat_project.DLinkedList.Refine.{create-IsList}
use chat_project.HashMap.{MapResult, map_allocation_error, DataItem, Slot}
use chat_project.HashMap.OnList.{Heap, Given, put_block, insert_slot, push_slot, pushed}
use chat_project.HashMap.OnList.Search.{IsChain, search_list-Stops}
use chat_project.HashMap.OnList.Slot.{
  pushed_to, insert_to, made_by, FreshItem, FreshNode, FreshList, FreshFor, with_list, Short,
}
use mathlib.Core.Path.{subst}
use chat_project.HashMap.OnList.Foot.{
  Foot, no_foot, foot_of, Step, stay, put_put-Step, lost-Step, push-Step, create-Step, Within,
  Within-same, Within-push, Step-then, At,
}
use chat_project.HashMap.OnList.Kept.{fresh-list, unlike-tail, Stored-Apart, Stored-kept}
use chat_project.HashMap.OnList.Steps.{insert_slot-missing, insert_slot-there}

-- what an empty slot uses behind `List_Create`
made_foot : (list : Ptr) → Foot
made_foot none = no_foot
made_foot (some list) = foot_of list []

module _ {K V : Type 0} where
  -- A run that ends with this result, in a memory for this slot, without touching the others.
  abbrev Ends : Heap K V → Foot → Run (MapResult × Ptr × Heap K V) → MapResult × Slot K V → Type 0
  Ends h f run (result, slot) =
      (list' : Ptr) × (h' : Heap K V) × (f' : Foot) × (run ≡ ok (result, list', h'))
      × At h' list' slot f'
      × Step h h' f f'
      × Within f f'

  module _ (h : Heap K V) (key : K) (value : V) where
    push_slot-run :
        (given : Given) (list : Ptr) (item : ℕ) (err : ListResult) (nodes : Memory)
        → given.item ≡ some item
        → push_head given.node h.nodes list item ≡ ok (err, nodes)
        → push_slot given h list key value
          ≡ ok (
              pushed err list item
                (record (put_block h item (some (record { value = value; key = key }))) {
                  nodes = nodes;
                }))
    unfolding push_slot put_block
    push_slot-run given list item err nodes e run = rw (e, run) refl

    push_slot-none :
        (given : Given) (list : Ptr)
        → given.item ≡ none
        → push_slot given h list key value ≡ ok (map_allocation_error, list, h)
    unfolding push_slot
    push_slot-none given list e = rw e refl

    push-none :
        (item : ℕ) (new : Ptr)
        → push_head new h.nodes none item ≡ ok (list_uninitialized_error, h.nodes)
    unfolding push_head
    push-none item new = refl

    push-failed :
        (item list : ℕ)
        → (item == 0) ≡ false
        → push_head none h.nodes (some list) item ≡ ok (list_allocation_error, h.nodes)
    unfolding push_head
    push-failed item list e = rw e refl

    -- An item that is stored, and freed again.
    put_put :
        (item list mark : ℕ) (cells : List Cell) (chain : List (DataItem K V)) (d : DataItem K V)
        → h.blocks item ≡ none
        → IsChain h list mark cells chain
        → IsChain (put_block (put_block h item (some d)) item none) list mark cells chain
    unfolding put_block
    put_put item list mark cells chain d free w =
        let apart = Stored-Apart h.blocks item cells chain free w.stored in
        record {
          linked = w.linked;
          unmarked = w.unmarked;
          distinct = w.distinct;
          stored =
              Stored-kept (put_block h item (some d)) item none cells chain apart
                (Stored-kept h item (some d) cells chain apart w.stored);
        }

    stored_first :
        (nodes : Memory) (item n list mark : ℕ) (cells : List Cell) (chain : List (DataItem K V))
        (d : DataItem K V)
        → h.blocks item ≡ none
        → (item == 0) ≡ false
        → (item == mark) ≡ false
        → IsChain h list mark cells chain
        → IsList nodes list mark (record { place = n; item = item } ∷ cells)
        → IsChain
            (record (put_block h item (some d)) { nodes = nodes })
            list
            mark
            (record { place = n; item = item } ∷ cells)
            (d ∷ chain)
    unfolding put_block
    stored_first nodes item n list mark cells chain d free given away w linked =
        let apart = Stored-Apart h.blocks item cells chain free w.stored in
        record {
          linked = linked;
          unmarked = (away, w.unmarked);
          distinct = (apart, w.distinct);
          stored = (given, ground arith, Stored-kept h item (some d) cells chain apart w.stored);
        }

    push_slot-pushed_to :
        (given : Given) (list : Ptr) (slot : Slot K V) (item new : Ptr) (f : Foot)
        → given.item ≡ item
        → given.node ≡ new
        → At h list slot f
        → FreshItem h.nodes h.blocks list item
        → FreshNode h.nodes new
        → Ends h f (push_slot given h list key value) (pushed_to item new slot key value)
    unfolding pushed put_block
    push_slot-pushed_to given list slot none new f e₁ e₂ w fresh free =
        (list, h, f, push_slot-none given list e₁, w, stay h f, Within-same f)
    push_slot-pushed_to given none none (some item) new f e₁ e₂ w fresh free = (
      none,
      _,
      f,
      push_slot-run given none item _ h.nodes e₁ (push-none item given.node),
      w,
      lost-Step h item (record { value = value; key = key }) f fresh.1,
      Within-same f,
    )
    push_slot-pushed_to given none (some chain) (some item) new f e₁ e₂ w fresh free = absurd w
    push_slot-pushed_to given (some list) none (some item) new f e₁ e₂ w fresh free = absurd w
    push_slot-pushed_to given (some list) (some chain) (some item) none f e₁ e₂ (mark, cells, w, e)
          (nonnull, unused, unlike) free =
        let d : DataItem K V = record { value = value; key = key } in
        (
          some list,
          put_block (put_block h item (some d)) item none,
          f,
          push_slot-run given (some list) item list_allocation_error h.nodes e₁
              (rw e₂ (push-failed item list nonnull)),
          (mark, cells, put_put item list mark cells chain d unused w, e),
          put_put-Step h item d f unused,
          Within-same f,
        )
    push_slot-pushed_to given (some list) (some chain) (some item) (some n) f e₁ e₂
          (mark, cells, w, e) (nonnull, unused, unlike) free =
        let d : DataItem K V = record { value = value; key = key } in
        let apart = fresh-list h.nodes n list mark cells free w.linked in
        let (nodes, run, linked) =
          push_head-IsList h.nodes list mark n item cells w.linked apart nonnull in
        let h' : Heap K V = record (put_block h item (some d)) { nodes = nodes } in
        let f' = foot_of list (record { place = n; item = item } ∷ cells) in
        let step =
          push-Step h nodes list mark n item cells d w.linked apart nonnull free unused run in
        (
          some list,
          h',
          f',
          push_slot-run given (some list) item list_success nodes e₁ (rw e₂ run),
          (
            mark,
            record { place = n; item = item } ∷ cells,
            stored_first nodes item n list mark cells chain d unused nonnull
                (unlike-tail h.nodes list mark item cells w.linked unlike) w linked,
            refl,
          ),
          subst (λ g. Step h h' g f') (sym e) step,
          subst (λ g. Within g f') (sym e) (Within-push list n item cells),
        )

  -- `List_Create` in an empty slot.
  made-At :
      (h : Heap K V) (list : Ptr) (head_data tail_data : ℕ)
      → FreshList h none list
      → (let h' : Heap K V = record h { nodes = (create list head_data tail_data h.nodes).1 } in
          At h' (create list head_data tail_data h.nodes).0 (made_by list) (made_foot list)
          × Step h h' no_foot (made_foot list)
          × Within no_foot (made_foot list))
  unfolding create made_foot
  made-At h none head_data tail_data fresh = (refl, stay h no_foot, Within-same no_foot)
  made-At h (some list) head_data tail_data fresh = (
    (
      tail_data,
      [],
      record {
        linked = create-IsList list head_data tail_data h.nodes;
        unmarked = tt;
        distinct = tt;
        stored = tt;
      },
      refl,
    ),
    create-Step h list head_data tail_data fresh.0 fresh.1,
    record { nodes = λ q _. tt; items = λ a _. tt },
  )

  pub insert_slot-insert_to :
      (fuel : ℕ) (same : K → ℕ) (h : Heap K V) (given : Given) (list : Ptr) (slot : Slot K V)
      (key : K) (value : V) (f : Foot)
      → At h list slot f
      → Short fuel slot
      → FreshList h list given.list
      → FreshFor (with_list given list h).1 (with_list given list h).0 given
      → Ends h f
          (insert_slot fuel given same h list key value)
          (insert_to same given slot key value)
  unfolding insert_slot
  insert_slot-insert_to fuel same h given none none key value f w short fresh_list fresh =
      let (made, made_step, made_within) =
        made-At h given.list given.head_data given.tail_data fresh_list in
      let h₁ = (with_list given none h).1 in
      let (list', h', f', run, at, step, within) =
        push_slot-pushed_to h₁ key value given (with_list given none h).0 (made_by given.list)
          given.item given.node (made_foot given.list) refl refl made fresh.0 fresh.1 in
      let whole = Step-then h h₁ h' no_foot (made_foot given.list) f' made_step step within in
      (
        list',
        h',
        f',
        run,
        at,
        subst (λ g. Step h h' g f') (sym w) whole,
        subst (λ g. Within g f') (sym w) (record { nodes = λ q _. tt; items = λ a _. tt }),
      )
  insert_slot-insert_to fuel same h given none (some chain) key value f w short fl fresh = absurd w
  insert_slot-insert_to fuel same h given (some list) none key value f w short fl fresh = absurd w
  insert_slot-insert_to fuel same h given (some list) (some chain) key value f (mark, cells, w, e)
        short fresh_list fresh =
      elim (search_list-Stops fuel h list mark same cells chain w short) [
        | inl (missing, (found, run)) ↦
            let (list', h', f', pushes, at, step, within) =
              push_slot-pushed_to h key value given (some list) (some chain) given.item given.node f
                refl refl (mark, cells, w, e) fresh.0 fresh.1 in
            rw missing (
              list',
              h',
              f',
              insert_slot-missing fuel same h given list found _ key value run ∙ pushes,
              at,
              step,
              within,
            )
        | inr (c, d, hit, run) ↦ rw hit.first (
          some list,
          h,
          f,
          insert_slot-there fuel same h given list c.item _ key value run,
          (mark, cells, w, e),
          stay h f,
          Within-same f,
        )
      ]
