-- ===== src/DLinkedList/Pop.antt =====
-- GenericDLinkedList/LinkedListGeneric.c: each of the pops, on a list in memory, does to the
-- sequence of its elements what it does to a sequence.
use chat_project.Prelude.{ℕ, ◌≡◌, refl, sym, true, false, none, some, List, [], ◌∷◌, ◌++◌, ok, ◌==◌}
use mathlib.Core.List.{append_assoc}
use mathlib.Core.Path.{subst}
use chat_project.DLinkedList.{Memory, list_success, pop_head, pop_tail, tail_of}
use chat_project.DLinkedList.Path.{
  Apart-append, next_at, Linked, Apart, Distinct, Removed, Linked-remove,
}
use chat_project.DLinkedList.Unsplice.{pop_head-Removed, pop_tail-Removed}
use chat_project.DLinkedList.Shape.{
  Cell, places, path_of, IsList, Ended-remove, places-append, last_gap, ==_swap, Distinct-remove,
  gap_links, gap-Distinct, Holds-kept, Holds-split,
}

-- A node taken from between `x` and `y`.
pub remove-path :
    (m m' : Memory) (x n y : ℕ) (front back : List ℕ)
    → Removed m m' x n y
    → Distinct (front ++ (x ∷ n ∷ y ∷ back))
    → Linked m (front ++ (x ∷ n ∷ y ∷ back))
    → Linked m' (front ++ (x ∷ y ∷ back))
      × (Distinct (front ++ (x ∷ y ∷ back)) × Apart n (front ++ (x ∷ y ∷ back)))
remove-path m m' x n y front back w distinct links =
    let assoc = append_assoc front (x ∷ []) (y ∷ back) in
    let (apart, d) =
      Distinct-remove n (front ++ (x ∷ [])) (y ∷ back)
        (rw (append_assoc front (x ∷ []) (n ∷ y ∷ back)) distinct) in
    (Linked-remove m m' x n y front back w distinct links, (rw (← assoc) d, rw (← assoc) apart))

-- `List_PopHead`, of a list that is not empty
pub pop_head-IsList :
    (m : Memory) (list mark : ℕ) (c : Cell) (cells : List Cell)
    → IsList m list mark (c ∷ cells)
    → (m' : Memory) × (pop_head m (some list) true ≡ ok (list_success, some c.item, m'))
      × IsList m' list mark cells
pop_head-IsList m list mark c [] w =
    let t = tail_of list in
    let n = c.place in
    let (after_x, before_n, (after_n, before_t, _)) = w.links in
    let ((n≠x, (t≠x, _)), ((t≠n, _), _)) = w.distinct in
    let (m', run, r) =
      pop_head-Removed m list n t c.item after_x after_n before_n before_t w.holds.0
        (==_swap n list n≠x) t≠n (==_swap t n t≠n) in
    let (links, (distinct, _)) = remove-path m m' list n t [] [] r w.distinct w.links in
    (
      m',
      run,
      record {
        ended = Ended-remove m m' list mark list n t r after_x n≠x after_n t≠n w.ended;
        links = links;
        distinct = distinct;
        holds = tt;
      },
    )
pop_head-IsList m list mark c (d ∷ cells) w =
    let n = c.place in
    let y = d.place in
    let back = places cells ++ (tail_of list ∷ []) in
    let (after_x, before_n, (after_n, before_y, _)) = w.links in
    let ((n≠x, _), ((y≠n, apart_n), _)) = w.distinct in
    let (apart, (t≠n, _)) = Apart-append n (places cells) (tail_of list ∷ []) apart_n in
    let (m', run, r) =
      pop_head-Removed m list n y c.item after_x after_n before_n before_y w.holds.0
        (==_swap n list n≠x) y≠n (==_swap (tail_of list) n t≠n) in
    let (links, (distinct, _)) = remove-path m m' list n y [] back r w.distinct w.links in
    (
      m',
      run,
      record {
        ended = Ended-remove m m' list mark list n y r after_x n≠x after_n y≠n w.ended;
        links = links;
        distinct = distinct;
        holds = Holds-kept none m m' n (d ∷ cells) r.items (y≠n, apart) w.holds.1;
      },
    )

-- What is behind the head sentinel of a list that is not empty.
pub first_link :
    (m : Memory) (list mark : ℕ) (c : Cell) (cells : List Cell)
    → IsList m list mark (c ∷ cells)
    → (next_at m list ≡ some (some c.place)) × ((c.place == tail_of list) ≡ false)
first_link m list mark c cells w =
    let (_, (t≠n, _)) = Apart-append c.place (places cells) (tail_of list ∷ []) w.distinct.1.0 in
    (w.links.0, ==_swap (tail_of list) c.place t≠n)

first_link_snoc :
    (m : Memory) (list mark : ℕ) (c : Cell) (cells : List Cell)
    → IsList m list mark (cells ++ (c ∷ []))
    → (first : ℕ) × (next_at m list ≡ some (some first)) × ((first == tail_of list) ≡ false)
first_link_snoc m list mark c [] w = let (e, f) = first_link m list mark c [] w in (c.place, e, f)
first_link_snoc m list mark c (d ∷ cells) w =
    let (e, f) = first_link m list mark d (cells ++ (c ∷ [])) w in (d.place, e, f)

-- `List_PopTail`, the same
pub pop_tail-IsList :
    (m : Memory) (list mark : ℕ) (c : Cell) (cells : List Cell)
    → IsList m list mark (cells ++ (c ∷ []))
    → (m' : Memory) × (pop_tail m (some list) true ≡ ok (list_success, some c.item, m'))
      × IsList m' list mark cells
pop_tail-IsList m list mark c cells w =
    let t = tail_of list in
    let n = c.place in
    let (front, x, gap) = last_gap list (places cells) in
    let path : path_of list (cells ++ (c ∷ [])) ≡ front ++ (x ∷ n ∷ t ∷ []) =
      rw (places-append cells (c ∷ []), append_assoc (places cells) (n ∷ []) (t ∷ []))
        (gap (n ∷ t ∷ [])) in
    let links = subst (Linked m) path w.links in
    let distinct = subst Distinct path w.distinct in
    let (after_x, before_n) = gap_links m x n front (t ∷ []) links in
    let assoc = append_assoc front (x ∷ []) (n ∷ t ∷ []) in
    let (after_n, before_t) =
      gap_links m n t (front ++ (x ∷ [])) [] (subst (Linked m) (sym assoc) links) in
    let t≠n = gap-Distinct n t (front ++ (x ∷ [])) [] (subst Distinct (sym assoc) distinct) in
    let n≠x = gap-Distinct x n front (t ∷ []) distinct in
    let (first, head, some_left) = first_link_snoc m list mark c cells w in
    let (kept, (data_c, _)) = Holds-split m cells (c ∷ []) w.holds in
    let (m', run, r) =
      pop_tail-Removed m x n t c.item after_x after_n before_n before_t data_c (==_swap n x n≠x) t≠n
        list first refl some_left head in
    let (links', (distinct', apart)) = remove-path m m' x n t front [] r distinct links in
    let short = gap (t ∷ []) in
    (
      m',
      run,
      record {
        ended = Ended-remove m m' list mark x n t r after_x n≠x after_n t≠n w.ended;
        links = subst (Linked m') (sym short) links';
        distinct = subst Distinct (sym short) distinct';
        holds =
            Holds-kept none m m' n cells r.items
              (Apart-append n (places cells) (t ∷ []) (subst (Apart n) (sym short) apart).1).0 kept;
      },
    )
