-- ===== src/ListItr/Gap.antt =====
-- GeneticListIter/LinkedListGenericIter.c: insertion and removal at any place of a list, as what
-- they do to the sequence of its elements.
use chat_project.Prelude.{
  ℕ, ◌≡◌, refl, sym, ap, ◌∙◌, arith, false, none, some, List, [], ◌∷◌, ◌++◌, ok, fault, ◌==◌, ltb,
  if◌then◌else◌, Bool-cases, inl, inr,
}
use mathlib.Core.List.{append_assoc}
use mathlib.Core.Path.{subst}
use chat_project.DLinkedList.{Memory, tail_of}
use chat_project.DLinkedList.Path.{
  next_at, prev_at, Linked, Apart, Distinct, Inserted, Removed, Apart-append,
}
use chat_project.DLinkedList.Shape.{
  Cell, places, start, path_of, IsList, places-append, last_gap, ==_swap, gap_links, gap-Apart,
  gap-Distinct, Holds-kept, Holds-append, Holds-split, Ended-insert, Ended-remove,
}
use chat_project.DLinkedList.Push.{insert-path}
use chat_project.DLinkedList.Pop.{remove-path}
use chat_project.ListItr.{insert_before, remove}
use chat_project.ListItr.Splice.{remove-Removed, insert_before-Inserted, insert_before-small}

start_path :
    (t : ℕ) (back : List Cell) → (rest : List ℕ) × (places back ++ (t ∷ []) ≡ start t back ∷ rest)
start_path t [] = ([], refl)
start_path t (c ∷ back) = (places back ++ (t ∷ []), refl)

-- The path of a list, around the gap behind the first elements.
path_at_gap :
    (list : ℕ) (front : List Cell)
    → (before : List ℕ) × (x : ℕ) × ((back : List Cell)
        → path_of list (front ++ back) ≡ before ++ (x ∷ (places back ++ (tail_of list ∷ []))))
path_at_gap list front =
    let (before, x, gap) = last_gap list (places front) in
    (
      before,
      x,
      λ back.
          ap (λ p. list ∷ (p ++ (tail_of list ∷ []))) (places-append front back)
          ∙ ap (λ p. list ∷ p) (append_assoc (places front) (places back) (tail_of list ∷ []))
          ∙ gap (places back ++ (tail_of list ∷ [])),
    )

-- What is known at the gap: the two nodes there are linked, and different.
pub record Gap (m : Memory) (list : ℕ) (front back : List Cell) : Type 0 where
  pub before : List ℕ
  pub x : ℕ
  pub rest : List ℕ
  pub whole : path_of list (front ++ back) ≡ before ++ (x ∷ start (tail_of list) back ∷ rest)
  pub split :
      (cells : List Cell)
      → path_of list (front ++ cells) ≡ before ++ (x ∷ (places cells ++ (tail_of list ∷ [])))
  pub ahead : places back ++ (tail_of list ∷ []) ≡ start (tail_of list) back ∷ rest

pub gap_at : (m : Memory) (list : ℕ) (front back : List Cell) → Gap m list front back
gap_at m list front back =
    let (before, x, split) = path_at_gap list front in
    let (rest, ahead) = start_path (tail_of list) back in
    record {
      before = before;
      x = x;
      rest = rest;
      whole = split back ∙ ap (λ p. before ++ (x ∷ p)) ahead;
      split = split;
      ahead = ahead;
    }

-- An address that is on the path no more, or not yet, is none of the elements'.
Apart-split :
    (list n : ℕ) (front back : List Cell)
    → Apart n (path_of list (front ++ back))
    → Apart n (places front) × Apart n (places back)
Apart-split list n front back (_, apart) =
    let (h, _) = Apart-append n (places (front ++ back)) (tail_of list ∷ []) apart in
    Apart-append n (places front) (places back) (subst (Apart n) (places-append front back) h)

-- A node in a gap, and the nodes before it and behind it.
pub record Neighbours (m : Memory) (n : ℕ) (front back : List Cell) (list : ℕ) : Type 0 where
  pub after_x : next_at m (gap_at m list front back).x ≡ some (some n)
  pub before_n : prev_at m n ≡ some (some (gap_at m list front back).x)
  pub after_n : next_at m n ≡ some (some (start (tail_of list) back))
  pub before_y : prev_at m (start (tail_of list) back) ≡ some (some n)
  pub n≠x : (n == (gap_at m list front back).x) ≡ false
  pub y≠n : (start (tail_of list) back == n) ≡ false

pub neighbours :
    (m : Memory) (list mark : ℕ) (c : Cell) (front back : List Cell)
    → IsList m list mark (front ++ (c ∷ back))
    → Neighbours m c.place front back list
neighbours m list mark c front back w =
    let n = c.place in
    let y = start (tail_of list) back in
    let g = gap_at m list front back in
    let path = g.split (c ∷ back) ∙ ap (λ p. g.before ++ (g.x ∷ n ∷ p)) g.ahead in
    let links = subst (Linked m) path w.links in
    let distinct = subst Distinct path w.distinct in
    let (after_x, before_n) = gap_links m g.x n g.before (y ∷ g.rest) links in
    let assoc = append_assoc g.before (g.x ∷ []) (n ∷ y ∷ g.rest) in
    let (after_n, before_y) =
      gap_links m n y (g.before ++ (g.x ∷ [])) g.rest (subst (Linked m) (sym assoc) links) in
    record {
      after_x = after_x;
      before_n = before_n;
      after_n = after_n;
      before_y = before_y;
      n≠x = gap-Distinct g.x n g.before (y ∷ g.rest) distinct;
      y≠n = gap-Distinct n y (g.before ++ (g.x ∷ [])) g.rest (subst Distinct (sym assoc) distinct);
    }

module _ (m m' : Memory) (list mark n item : ℕ) (front back : List Cell) where
  -- A node put into a gap of a list makes it the list with one element more.
  grow :
      (let g = gap_at m list front back in Inserted m m' g.x n (start (tail_of list) back) item)
      → IsList m list mark (front ++ back)
      → Apart n (path_of list (front ++ back))
      → IsList m' list mark (front ++ (record { place = n; item = item } ∷ back))
  grow i w apart =
      let y = start (tail_of list) back in
      let g = gap_at m list front back in
      let (links, distinct) =
        insert-path m m' g.x n y item g.before g.rest i (subst (Apart n) g.whole apart)
          (subst Distinct g.whole w.distinct) (subst (Linked m) g.whole w.links) in
      let path =
        g.split (record { place = n; item = item } ∷ back)
        ∙ ap (λ p. g.before ++ (g.x ∷ n ∷ p)) g.ahead in
      let (kept_front, kept_back) = Holds-split m front back w.holds in
      let (apart_front, apart_back) = Apart-split list n front back apart in
      let (after_x, _) = gap_links m g.x y g.before g.rest (subst (Linked m) g.whole w.links) in
      let y≠x = gap-Distinct g.x y g.before g.rest (subst Distinct g.whole w.distinct) in
      let (_, (t≠n, _)) = Apart-append n (places (front ++ back)) (tail_of list ∷ []) apart.1 in
      record {
        ended = Ended-insert m m' list mark g.x n y item i after_x y≠x t≠n w.ended;
        links = subst (Linked m') (sym path) links;
        distinct = subst Distinct (sym path) distinct;
        holds =
            Holds-append m' front (record { place = n; item = item } ∷ back)
              (Holds-kept (some item) m m' n front i.items apart_front kept_front)
              (
                i.items n ∙ ground arith,
                Holds-kept (some item) m m' n back i.items apart_back kept_back,
              );
      }

  -- A node taken out makes it the list with one element less.
  shrink :
      Neighbours m n front back list
      → (let g = gap_at m list front back in Removed m m' g.x n (start (tail_of list) back))
      → IsList m list mark (front ++ (record { place = n; item = item } ∷ back))
      → IsList m' list mark (front ++ back)
  shrink near r w =
      let y = start (tail_of list) back in
      let g = gap_at m list front back in
      let path =
        g.split (record { place = n; item = item } ∷ back)
        ∙ ap (λ p. g.before ++ (g.x ∷ n ∷ p)) g.ahead in
      let (links, (distinct, apart)) =
        remove-path m m' g.x n y g.before g.rest r (subst Distinct path w.distinct)
          (subst (Linked m) path w.links) in
      let (apart_front, apart_back) =
        Apart-split list n front back (subst (Apart n) (sym g.whole) apart) in
      let (kept_front, (_, kept_back)) =
        Holds-split m front (record { place = n; item = item } ∷ back) w.holds in
      record {
        ended =
            Ended-remove m m' list mark g.x n y r near.after_x near.n≠x near.after_n near.y≠n
              w.ended;
        links = subst (Linked m') (sym g.whole) links;
        distinct = subst Distinct (sym g.whole) distinct;
        holds =
            Holds-append m' front back (Holds-kept none m m' n front r.items apart_front kept_front)
              (Holds-kept none m m' n back r.items apart_back kept_back);
      }

-- `ListItr_InsertBefore` of data that is not NULL, at any place of a list and at its end, at an
-- address that the list does not use: with 24 bytes at that address, the element stands before the
-- iterator in the list and the rest is as before; with fewer, and it asks `malloc` for 8 only, it
-- writes behind the block.
pub insert_before-IsList :
    (m : Memory) (size list mark n item : ℕ) (front back : List Cell)
    → IsList m list mark (front ++ back)
    → Apart n (path_of list (front ++ back))
    → (item == 0) ≡ false
    → (m' : Memory) × (insert_before (some n) size m (some (start (tail_of list) back)) item
        ≡ (if ltb size 24 then fault else ok (some n, m')))
      × IsList m' list mark (front ++ (record { place = n; item = item } ∷ back))
insert_before-IsList m size list mark n item front back w apart given =
    let y = start (tail_of list) back in
    let g = gap_at m list front back in
    let (after_x, before_y) =
      gap_links m g.x y g.before g.rest (subst (Linked m) g.whole w.links) in
    let (x≠n, y≠n) = gap-Apart n g.x y g.before g.rest (subst (Apart n) g.whole apart) in
    elim (Bool-cases (ltb size 24)) [
      | inl e ↦
          let (m', _, i) =
            insert_before-Inserted 24 m g.x n y item after_x before_y x≠n y≠n given (omega arith) in
          (
            m',
            rw e (
                insert_before-small size m g.x n y item after_x before_y x≠n y≠n given
                  (ground (arith, e))),
            grow m m' list mark n item front back i w apart,
          )
      | inr e ↦
          let (m', run, i) =
            insert_before-Inserted size m g.x n y item after_x before_y x≠n y≠n given
              (ground (arith, e)) in
          (m', rw e run, grow m m' list mark n item front back i w apart)
    ]

-- `ListItr_Remove` at any element of a list returns its data, leaves the list without it and gives
-- its node back.
pub remove-IsList :
    (m : Memory) (list mark : ℕ) (c : Cell) (front back : List Cell)
    → IsList m list mark (front ++ (c ∷ back))
    → (m' : Memory) × (remove m (some c.place) ≡ ok (c.item, m'))
      × IsList m' list mark (front ++ back)
      × (next_at m' c.place ≡ none)
remove-IsList m list mark c front back w =
    let near = neighbours m list mark c front back w in
    let g = gap_at m list front back in
    let (_, (holds, _)) = Holds-split m front (c ∷ back) w.holds in
    let (m', run, r) =
      remove-Removed m g.x c.place (start (tail_of list) back) c.item near.after_x near.after_n
        near.before_n near.before_y holds (==_swap c.place g.x near.n≠x) near.y≠n in
    (
      m',
      run,
      shrink m m' list mark c.place c.item front back near r w,
      r.nexts c.place ∙ ground arith,
    )
