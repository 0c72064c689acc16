-- ===== src/DLinkedList/Push.antt =====
-- GenericDLinkedList/LinkedListGeneric.c: each of the pushes, on a list in memory, does to the
-- sequence of its elements what it does to a sequence.
use chat_project.Prelude.{ℕ, ◌≡◌, refl, sym, ◌∙◌, arith, false, some, List, [], ◌∷◌, ◌++◌, ok, ◌==◌}
use mathlib.Core.List.{append_assoc}
use mathlib.Core.Path.{subst}
use chat_project.DLinkedList.{Memory, list_success, push_head, push_tail, tail_of}
use chat_project.DLinkedList.Path.{Apart-append, Linked, Apart, Distinct, Inserted, Linked-insert}
use chat_project.DLinkedList.Splice.{push_head-Inserted, push_tail-Inserted}
use chat_project.DLinkedList.Shape.{
  Cell, places, path_of, IsList, Ended-insert, places-append, last_gap, Distinct-insert, gap_links,
  gap-Apart, gap-Distinct, Holds-kept, Holds-append,
}

-- A node put into the gap between `x` and `y`.
pub insert-path :
    (m m' : Memory) (x n y item : ℕ) (front back : List ℕ)
    → Inserted m m' x n y item
    → Apart n (front ++ (x ∷ y ∷ back))
    → Distinct (front ++ (x ∷ y ∷ back))
    → Linked m (front ++ (x ∷ y ∷ back))
    → Linked m' (front ++ (x ∷ n ∷ y ∷ back)) × Distinct (front ++ (x ∷ n ∷ y ∷ back))
insert-path m m' x n y item front back w apart distinct links =
    let assoc = append_assoc front (x ∷ []) (y ∷ back) in
    (
      Linked-insert m m' x n y item front back w apart distinct links,
      rw (← append_assoc front (x ∷ []) (n ∷ y ∷ back))
          (Distinct-insert n (front ++ (x ∷ [])) (y ∷ back) (rw assoc apart) (rw assoc distinct)),
    )

-- `List_PushHead`, given an address that no node of the list has
pub push_head-IsList :
    (m : Memory) (list mark n item : ℕ) (cells : List Cell)
    → IsList m list mark cells
    → Apart n (path_of list cells)
    → (item == 0) ≡ false
    → (m' : Memory) × (push_head (some n) m (some list) item ≡ ok (list_success, m'))
      × IsList m' list mark (record { place = n; item = item } ∷ cells)
push_head-IsList m list mark n item [] w (x≠n, (y≠n, _)) given =
    let (m', run, i) =
      push_head-Inserted m list n (tail_of list) item w.links.0 w.links.1 x≠n y≠n w.distinct.0.0
        given in
    let (links, distinct) =
      insert-path m m' list n (tail_of list) item [] [] i (x≠n, (y≠n, tt)) w.distinct w.links in
    (
      m',
      run,
      record {
        ended =
            Ended-insert m m' list mark list n (tail_of list) item i w.links.0 w.distinct.0.0 y≠n
              w.ended;
        links = links;
        distinct = distinct;
        holds = (i.items n ∙ ground arith, tt);
      },
    )
push_head-IsList m list mark n item (c ∷ cells) w apart given =
    let (x≠n, (y≠n, apart_back)) = apart in
    let (m', run, i) =
      push_head-Inserted m list n c.place item w.links.0 w.links.1 x≠n y≠n w.distinct.0.0 given in
    let back = places cells ++ (tail_of list ∷ []) in
    let (links, distinct) =
      insert-path m m' list n c.place item [] back i apart w.distinct w.links in
    let (_, (t≠n, _)) = Apart-append n (places cells) (tail_of list ∷ []) apart_back in
    (
      m',
      run,
      record {
        ended =
            Ended-insert m m' list mark list n c.place item i w.links.0 w.distinct.0.0 t≠n w.ended;
        links = links;
        distinct = distinct;
        holds = (
          i.items n ∙ ground arith,
          Holds-kept (some item) m m' n (c ∷ cells) i.items
              (y≠n, (Apart-append n (places cells) (tail_of list ∷ []) apart_back).0) w.holds,
        );
      },
    )

-- `List_PushTail`, the same
pub push_tail-IsList :
    (m : Memory) (list mark n item : ℕ) (cells : List Cell)
    → IsList m list mark cells
    → Apart n (path_of list cells)
    → (item == 0) ≡ false
    → (m' : Memory) × (push_tail (some n) m (some list) item ≡ ok (list_success, m'))
      × IsList m' list mark (cells ++ (record { place = n; item = item } ∷ []))
push_tail-IsList m list mark n item cells w apart given =
    let t = tail_of list in
    let (front, x, gap) = last_gap list (places cells) in
    let links : Linked m (front ++ (x ∷ t ∷ [])) = rw (← gap (t ∷ [])) w.links in
    let distinct : Distinct (front ++ (x ∷ t ∷ [])) = rw (← gap (t ∷ [])) w.distinct in
    let apart' : Apart n (front ++ (x ∷ t ∷ [])) = rw (← gap (t ∷ [])) apart in
    let (after_x, before_t) = gap_links m x t front [] links in
    let (x≠n, t≠n) = gap-Apart n x t front [] apart' in
    let (m', run, i) =
      push_tail-Inserted m x n t item after_x before_t x≠n t≠n (gap-Distinct x t front [] distinct)
        given list refl in
    let (links', distinct') = insert-path m m' x n t item front [] i apart' distinct links in
    let path : path_of list (cells ++ (record { place = n; item = item } ∷ []))
        ≡ front ++ (x ∷ n ∷ t ∷ []) =
      rw
        (
          places-append cells (record { place = n; item = item } ∷ []),
          append_assoc (places cells) (n ∷ []) (t ∷ []),
        )
        (gap (n ∷ t ∷ [])) in
    (
      m',
      run,
      record {
        ended =
            Ended-insert m m' list mark x n t item i after_x (gap-Distinct x t front [] distinct)
              t≠n w.ended;
        links = subst (Linked m') (sym path) links';
        distinct = subst Distinct (sym path) distinct';
        holds =
            Holds-append m' cells (record { place = n; item = item } ∷ [])
              (Holds-kept (some item) m m' n cells i.items
                (Apart-append n (places cells) (t ∷ []) apart.1).0 w.holds)
              (i.items n ∙ ground arith, tt);
      },
    )
