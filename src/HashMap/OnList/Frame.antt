-- ===== src/HashMap/OnList/Frame.antt =====
-- GenericDLinkedList/LinkedListGeneric.c and its iterators: a push at the head and a removal leave
-- the nodes alone that are not on the path of the list.
use chat_project.Prelude.{
  ℕ, ◌≡◌, sym, ap, ◌∙◌, arith, false, some, List, [], ◌∷◌, ◌++◌, ok, ◌==◌, All,
}
use mathlib.Core.List.{append_assoc}
use mathlib.Core.Path.{subst}
use chat_project.DLinkedList.{Memory, list_success, push_head, tail_of, create, update}
use chat_project.DLinkedList.Path.{
  next_at, prev_at, item_at, Apart, Inserted, Removed, Linked-frame,
}
use chat_project.DLinkedList.Splice.{push_head-Inserted}
use chat_project.DLinkedList.Shape.{
  Cell, places, start, path_of, IsList, Holds, Holds-split, ==_swap, gap-Apart,
}
use chat_project.ListItr.{remove}
use chat_project.ListItr.Splice.{remove-Removed}
use chat_project.ListItr.Gap.{gap_at, neighbours}

-- The two memories have the same at an address.
abbrev pub Same : Memory → Memory → ℕ → Type 0
Same m m' q =
    (next_at m' q ≡ next_at m q) × (prev_at m' q ≡ prev_at m q) × (item_at m' q ≡ item_at m q)

Inserted-Same :
    (m m' : Memory) (x n y item q : ℕ)
    → Inserted m m' x n y item
    → (x == q) ≡ false
    → (n == q) ≡ false
    → (y == q) ≡ false
    → Same m m' q
Inserted-Same m m' x n y item q i x≠q n≠q y≠q =
    let a = ==_swap x q x≠q in
    let b = ==_swap n q n≠q in
    let c = ==_swap y q y≠q in
    (
      i.nexts q ∙ ground (arith, a, b),
      i.prevs q ∙ ground (arith, b, c),
      i.items q ∙ ground (arith, b),
    )

Removed-Same :
    (m m' : Memory) (x n y q : ℕ)
    → Removed m m' x n y
    → (x == q) ≡ false
    → (n == q) ≡ false
    → (y == q) ≡ false
    → Same m m' q
Removed-Same m m' x n y q r x≠q n≠q y≠q =
    let a = ==_swap x q x≠q in
    let b = ==_swap n q n≠q in
    let c = ==_swap y q y≠q in
    (
      r.nexts q ∙ ground (arith, a, b),
      r.prevs q ∙ ground (arith, b, c),
      r.items q ∙ ground (arith, b),
    )

pub push_head-Same :
    (m m' : Memory) (list mark n item q : ℕ) (cells : List Cell)
    → IsList m list mark cells
    → Apart n (path_of list cells)
    → (item == 0) ≡ false
    → push_head (some n) m (some list) item ≡ ok (list_success, m')
    → Apart q (path_of list cells)
    → (n == q) ≡ false
    → Same m m' q
push_head-Same m m' list mark n item q [] w (x≠n, (y≠n, _)) given run (x≠q, (y≠q, _)) n≠q =
    let (m'', run'', i) =
      push_head-Inserted m list n (tail_of list) item w.links.0 w.links.1 x≠n y≠n w.distinct.0.0
        given in
    let same : m'' ≡ m' = cc in
    subst (λ p. Same m p q) same (Inserted-Same m m'' list n (tail_of list) item q i x≠q n≠q y≠q)
push_head-Same m m' list mark n item q (c ∷ cells) w (x≠n, (y≠n, _)) given run (x≠q, (y≠q, _)) n≠q =
    let (m'', run'', i) =
      push_head-Inserted m list n c.place item w.links.0 w.links.1 x≠n y≠n w.distinct.0.0 given in
    let same : m'' ≡ m' = cc in
    subst (λ p. Same m p q) same (Inserted-Same m m'' list n c.place item q i x≠q n≠q y≠q)

pub remove-Same :
    (m m' : Memory) (list mark q : ℕ) (c : Cell) (front back : List Cell)
    → IsList m list mark (front ++ (c ∷ back))
    → remove m (some c.place) ≡ ok (c.item, m')
    → Apart q (path_of list (front ++ (c ∷ back)))
    → Same m m' q
remove-Same m m' list mark q c front back w run apart =
    let n = c.place in
    let y = start (tail_of list) back in
    let near = neighbours m list mark c front back w in
    let g = gap_at m list front back in
    let path = g.split (c ∷ back) ∙ ap (λ p. g.before ++ (g.x ∷ n ∷ p)) g.ahead in
    let apart' = subst (Apart q) path apart in
    let (x≠q, n≠q) = gap-Apart q g.x n g.before (y ∷ g.rest) apart' in
    let assoc = append_assoc g.before (g.x ∷ []) (n ∷ y ∷ g.rest) in
    let (_, y≠q) =
      gap-Apart q n y (g.before ++ (g.x ∷ [])) g.rest (subst (Apart q) (sym assoc) apart') in
    let (_, (holds, _)) = Holds-split m front (c ∷ back) w.holds in
    let (m'', run'', r) =
      remove-Removed m g.x n y c.item near.after_x near.after_n near.before_n near.before_y holds
        (==_swap n g.x near.n≠x) near.y≠n in
    let same : m'' ≡ m' = cc in
    subst (λ p. Same m p q) same (Removed-Same m m'' g.x n y q r x≠q n≠q y≠q)

pub create-Same :
    (m : Memory) (list head_data tail_data q : ℕ)
    → (list == q) ≡ false
    → (tail_of list == q) ≡ false
    → Same m (create (some list) head_data tail_data m).1 q
unfolding create update
create-Same m list head_data tail_data q a b =
    let a' = ==_swap list q a in
    let b' = ==_swap (tail_of list) q b in
    (ground (arith, a', b'), ground (arith, a', b'), ground (arith, a', b'))

Holds-same :
    (m m' : Memory) (cells : List Cell)
    → All (Same m m') (places cells)
    → Holds m cells
    → Holds m' cells
Holds-same m m' [] same w = tt
Holds-same m m' (c ∷ cells) ((_, _, e), same) (h, w) = (e ∙ h, Holds-same m m' cells same w)

nexts_of :
    (m m' : Memory) (qs : List ℕ) → All (Same m m') qs → All (λ q. next_at m' q ≡ next_at m q) qs
nexts_of m m' [] same = tt
nexts_of m m' (q ∷ qs) ((e, _, _), same) = (e, nexts_of m m' qs same)

prevs_of :
    (m m' : Memory) (qs : List ℕ) → All (Same m m') qs → All (λ q. prev_at m' q ≡ prev_at m q) qs
prevs_of m m' [] same = tt
prevs_of m m' (q ∷ qs) ((_, e, _), same) = (e, prevs_of m m' qs same)

All-append-left : (P : ℕ → Type 0) (xs ys : List ℕ) → All P (xs ++ ys) → All P xs × All P ys
All-append-left P [] ys h = (tt, h)
All-append-left P (x ∷ xs) ys (e, h) = let (a, b) = All-append-left P xs ys h in ((e, a), b)

-- A list whose nodes are as they were is the same list.
pub IsList-same :
    (m m' : Memory) (list mark : ℕ) (cells : List Cell)
    → All (Same m m') (path_of list cells)
    → IsList m list mark cells
    → IsList m' list mark cells
IsList-same m m' list mark cells (first, rest) w =
    let (middle, (last, _)) = All-append-left (Same m m') (places cells) (tail_of list ∷ []) rest in
    record {
      ended = record { loops = last.0 ∙ w.ended.loops; marked = last.2 ∙ w.ended.marked };
      links =
          Linked-frame m m' list (places cells ++ (tail_of list ∷ []))
            (first.0, nexts_of m m' _ rest) (prevs_of m m' _ rest) w.links;
      distinct = w.distinct;
      holds = Holds-same m m' cells middle w.holds;
    }
