-- ===== src/HashMap/OnList/Search.antt =====
-- GenericHash/GenericHash.c: the loop over a chain in memory stops where the loop over the sequence
-- of its items does.
use chat_project.Prelude.{
  ℕ, zero, suc, ◌<◌, ◌≡◌, refl, sym, ap, ◌∙◌, arith, Bool, true, false, Option, none, some, List,
  [], ◌∷◌, ◌++◌, Run, ok, ◌==◌, Bool-cases, ◌⊎◌, inl, inr, length,
}
use mathlib.Core.List.{append_assoc}
use mathlib.Core.Path.{subst}
use chat_project.DLinkedList.{Ptr, tail_of}
use chat_project.DLinkedList.Path.{Distinct}
use chat_project.DLinkedList.Shape.{Cell, start, IsList}
use chat_project.ListItr.{equals, step_next, get, begin, end_of}
use chat_project.ListItr.Walk.{begin-ok, end_of-ok, equals-end, equals-away, get-ok, step_next-ok}
use chat_project.ListFunctions.Find.{Unmarked}
use chat_project.HashMap.{DataItem, find_item, remove_item}
use chat_project.HashMap.OnList.{Heap, block_at, search, search_list}

-- the data of the elements: the addresses of the items
abbrev pub addresses : List Cell → List ℕ
addresses [] = []
addresses (c ∷ cells) = c.item ∷ addresses cells

module _ {K V : Type 0} where
  -- The items that the elements point to are those of the chain, in its order.
  abbrev pub Stored : (ℕ → Option (DataItem K V)) → List Cell → List (DataItem K V) → Type 0
  Stored blocks [] [] = Unit
  Stored blocks [] (d ∷ chain) = ⊥
  Stored blocks (c ∷ cells) [] = ⊥
  Stored blocks (c ∷ cells) (d ∷ chain) =
      ((c.item == 0) ≡ false) × (blocks c.item ≡ some d) × Stored blocks cells chain

  -- The memory has at `list` the list of the items of the chain.
  pub record IsChain (h : Heap K V) (list mark : ℕ) (cells : List Cell)
      (chain : List (DataItem K V)) : Type 0 where
    pub linked : IsList h.nodes list mark cells
    pub unmarked : Unmarked mark cells
    pub distinct : Distinct (addresses cells)
    pub stored : Stored h.blocks cells chain

  -- The element where the loop stops, and what is left of the chain without it.
  pub record Hit (h : Heap K V) (mark : ℕ) (same : K → ℕ) (cells : List Cell)
      (chain : List (DataItem K V)) (c : Cell) (d : DataItem K V) : Type 0 where
    pub front : List Cell
    pub back : List Cell
    pub split : cells ≡ front ++ (c ∷ back)
    pub away : (c.item == mark) ≡ false
    pub reads : block_at h c.item ≡ ok d
    pub first : find_item same chain ≡ some d
    pub left : Stored h.blocks (front ++ back) (remove_item same chain)

  search-end :
      (fuel : ℕ) (same : K → ℕ) (h : Heap K V) (at last : Ptr) (found : ℕ)
      → equals h.nodes at last ≡ ok true
      → search (suc fuel) same h at last found ≡ ok (at, found)
  unfolding search
  search-end fuel same h at last found e = rw e refl

  module _ (fuel : ℕ) (same : K → ℕ) (h : Heap K V) (at last : Ptr) (found item : ℕ)
      (d : DataItem K V) (away : equals h.nodes at last ≡ ok false)
      (holds : get h.nodes at ≡ ok item) (reads : block_at h item ≡ ok d) where
    search-hit : (same d.key == 1) ≡ true → search (suc fuel) same h at last found ≡ ok (at, item)
    unfolding search
    search-hit hit = rw (away, holds, reads, hit) refl

    search-miss :
        (next : Ptr)
        → (same d.key == 1) ≡ false
        → step_next h.nodes at ≡ ok next
        → search (suc fuel) same h at last found ≡ search fuel same h next last item
    unfolding search
    search-miss next miss stepped = rw (away, holds, reads, miss, stepped) refl

  block_at-ok :
      (h : Heap K V) (a : ℕ) (d : DataItem K V)
      → (a == 0) ≡ false
      → h.blocks a ≡ some d
      → block_at h a ≡ ok d
  unfolding block_at
  block_at-ok h a d given e = rw (given, e) refl

  find_item-hit :
      (same : K → ℕ) (d : DataItem K V) (chain : List (DataItem K V))
      → (same d.key == 1) ≡ true
      → (find_item same (d ∷ chain) ≡ some d) × (remove_item same (d ∷ chain) ≡ chain)
  unfolding find_item remove_item
  find_item-hit same d chain e = (rw e refl, rw e refl)

  find_item-miss :
      (same : K → ℕ) (d : DataItem K V) (chain : List (DataItem K V))
      → (same d.key == 1) ≡ false
      → (find_item same (d ∷ chain) ≡ find_item same chain)
        × (remove_item same (d ∷ chain) ≡ d ∷ remove_item same chain)
  unfolding find_item remove_item
  find_item-miss same d chain e = (rw e refl, rw e refl)

  -- Where the search of these elements ends.
  abbrev Stops :
      Heap K V
      → (mark : ℕ) → (K → ℕ)
      → List Cell
      → List (DataItem K V)
      → (t : ℕ) → Run (Ptr × ℕ)
      → Type 0
  Stops h mark same cells chain t run =
      ((find_item same chain ≡ none) × ((found : ℕ) × (run ≡ ok (some t, found))))
      ⊎ ((c : Cell) × (d : DataItem K V) × Hit h mark same cells chain c d
          × (run ≡ ok (some c.place, c.item)))

  Stops-miss :
      (h : Heap K V) (mark : ℕ) (same : K → ℕ) (c : Cell) (cells : List Cell) (d : DataItem K V)
      (chain : List (DataItem K V)) (t : ℕ) (run later : Run (Ptr × ℕ))
      → (same d.key == 1) ≡ false
      → (c.item == 0) ≡ false
      → h.blocks c.item ≡ some d
      → run ≡ later
      → Stops h mark same cells chain t later
      → Stops h mark same (c ∷ cells) (d ∷ chain) t run
  Stops-miss h mark same c cells d chain t run later miss given block e stops =
      let (finds, removes) = find_item-miss same d chain miss in
      elim stops [
        | inl (none_there, (found, ended)) ↦ inl (finds ∙ none_there, (found, e ∙ ended))
        | inr (c', d', hit, ended) ↦ inr (
          c',
          d',
          record {
            front = c ∷ hit.front;
            back = hit.back;
            split = ap (λ p. c ∷ p) hit.split;
            away = hit.away;
            reads = hit.reads;
            first = finds ∙ hit.first;
            left = rw removes (given, block, hit.left);
          },
          e ∙ ended,
        )
      ]

  search-Stops :
      (fuel : ℕ) (h : Heap K V) (list mark : ℕ) (same : K → ℕ) (passed cells : List Cell)
      (chain : List (DataItem K V)) (found : ℕ)
      → IsList h.nodes list mark (passed ++ cells)
      → Unmarked mark cells
      → Stored h.blocks cells chain
      → length chain < fuel
      → Stops h mark same cells chain
          (tail_of list)
          (search fuel same h (some (start (tail_of list) cells)) (some (tail_of list)) found)
  unfolding find_item
  search-Stops zero h list mark same passed cells chain found w unmarked stored enough =
      absurd (omega (arith, enough))
  search-Stops (suc fuel) h list mark same passed [] [] found w unmarked stored enough = inl (
    refl,
    (found, search-end fuel same h _ _ found (equals-end h.nodes list mark (passed ++ []) w)),
  )
  search-Stops (suc fuel) h list mark same passed [] (d ∷ chain) found w unmarked stored enough =
      absurd stored
  search-Stops (suc fuel) h list mark same passed (c ∷ cells) [] found w unmarked stored enough =
      absurd stored
  search-Stops (suc fuel) h list mark same passed (c ∷ cells) (d ∷ chain) found w (away, unmarked)
        (given, block, stored) enough =
      let differs = equals-away h.nodes list mark c passed cells w away in
      let holds = get-ok h.nodes list mark c passed cells w in
      let reads = block_at-ok h c.item d given block in
      elim (Bool-cases (same d.key == 1)) [
        | inl hit ↦
            let (finds, removes) = find_item-hit same d chain hit in
            inr (
              c,
              d,
              record {
                front = [];
                back = cells;
                split = refl;
                away = away;
                reads = reads;
                first = finds;
                left = rw removes stored;
              },
              search-hit fuel same h _ _ found c.item d differs holds reads hit,
            )
        | inr miss ↦
            let w' =
              subst (IsList h.nodes list mark) (sym (append_assoc passed (c ∷ []) cells)) w in
            Stops-miss h mark same c cells d chain (tail_of list) _ _ miss given block
              (search-miss fuel same h _ _ found c.item d differs holds reads _ miss
                (step_next-ok h.nodes list mark c passed cells w))
              (search-Stops fuel h list mark same (passed ++ (c ∷ [])) cells chain c.item w'
                unmarked stored (omega (arith, enough)))
      ]

  search_list-run :
      (fuel : ℕ) (same : K → ℕ) (h : Heap K V) (list first last at : Ptr) (found : ℕ) (over : Bool)
      → end_of h.nodes list ≡ ok last
      → begin h.nodes list ≡ ok first
      → search fuel same h first last 0 ≡ ok (at, found)
      → equals h.nodes at last ≡ ok over
      → search_list fuel same h list ≡ ok (over, at, found)
  unfolding search_list
  search_list-run fuel same h list first last at found over e₁ e₂ e₃ e₄ = rw (e₁, e₂, e₃, e₄) refl

  -- The search over a chain returns; it has come to the end if the chain has no such item, and else
  -- it stands at the first one.
  pub search_list-Stops :
      (fuel : ℕ) (h : Heap K V) (list mark : ℕ) (same : K → ℕ) (cells : List Cell)
      (chain : List (DataItem K V))
      → IsChain h list mark cells chain
      → length chain < fuel
      → ((find_item same chain ≡ none)
          × ((found : ℕ) × (search_list fuel same h (some list)
                ≡ ok (true, some (tail_of list), found))))
        ⊎ ((c : Cell) × (d : DataItem K V) × Hit h mark same cells chain c d
            × (search_list fuel same h (some list) ≡ ok (false, some c.place, c.item)))
  search_list-Stops fuel h list mark same cells chain w enough =
      let last = end_of-ok h.nodes list mark cells w.linked in
      let first = begin-ok h.nodes list mark cells w.linked in
      elim (search-Stops fuel h list mark same [] cells chain 0 w.linked w.unmarked w.stored
        enough) [
          | inl (none_there, (found, run)) ↦ inl (
            none_there,
            (
              found,
              search_list-run fuel same h _ _ _ _ found true last first run
                  (equals-end h.nodes list mark cells w.linked),
            ),
          )
          | inr (c, d, hit, run) ↦
              let there = subst (IsList h.nodes list mark) hit.split w.linked in
              inr (
                c,
                d,
                hit,
                search_list-run fuel same h _ _ _ _ c.item false last first run
                    (equals-away h.nodes list mark c hit.front hit.back there hit.away),
              )
        ]
