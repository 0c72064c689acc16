-- ===== src/ListItr/Walk.antt =====
-- GeneticListIter/LinkedListGenericIter.c: the iterators at the elements of a list and at its end.
use chat_project.Prelude.{
  ℕ, ◌≡◌, refl, arith, true, false, some, List, [], ◌∷◌, ◌++◌, ok, ◌==◌, Bool-cases, inl, inr,
}
use chat_project.DLinkedList.{Memory, same_ptr, tail_of}
use chat_project.DLinkedList.Path.{item_at}
use chat_project.DLinkedList.Writes.{get_next-ok, get_prev-ok, get_item-ok}
use chat_project.DLinkedList.Shape.{
  Cell, places, last_gap, start, IsList, ==_swap, Holds-split, gap_links,
}
use chat_project.ListItr.{begin, end_of, equals, step_next, step_prev, get}
use chat_project.ListItr.Gap.{neighbours, gap_at}
use chat_project.DLinkedList.Path.{Linked}
use mathlib.Core.Path.{subst}

pub begin-ok :
    (m : Memory) (list mark : ℕ) (cells : List Cell)
    → IsList m list mark cells
    → begin m (some list) ≡ ok (some (start (tail_of list) cells))
unfolding begin
begin-ok m list mark [] w = get_next-ok m list w.links.0
begin-ok m list mark (c ∷ cells) w = get_next-ok m list w.links.0

pub end_of-ok :
    (m : Memory) (list mark : ℕ) (cells : List Cell)
    → IsList m list mark cells
    → end_of m (some list) ≡ ok (some (tail_of list))
unfolding end_of
end_of-ok m list mark cells w =
    let t = tail_of list in
    let (front, x, gap) = last_gap list (places cells) in
    let (_, before_t) = gap_links m x t front [] (subst (Linked m) (gap (t ∷ [])) w.links) in
    let loops = get_next-ok m t w.ended.loops in
    elim (Bool-cases (same_ptr (some x) (some list))) [
      | inl e ↦ rw (get_prev-ok m t before_t, e) loops
      | inr e ↦ rw (get_prev-ok m t before_t, e) loops
    ]

pub equals-end :
    (m : Memory) (list mark : ℕ) (cells : List Cell)
    → IsList m list mark cells
    → equals m (some (tail_of list)) (some (tail_of list)) ≡ ok true
unfolding equals
equals-end m list mark cells w = rw (get_item-ok m (tail_of list) w.ended.marked) (ground arith)

module _ (m : Memory) (list mark : ℕ) (c : Cell) (front back : List Cell)
    (w : IsList m list mark (front ++ (c ∷ back))) where
  holds_here : item_at m c.place ≡ some c.item
  holds_here = (Holds-split m front (c ∷ back) w.holds).1.0

  -- An element whose data is not that of the tail sentinel.
  pub equals-away :
      (c.item == mark) ≡ false → equals m (some c.place) (some (tail_of list)) ≡ ok false
  unfolding equals
  equals-away away =
      rw (get_item-ok m c.place holds_here, get_item-ok m (tail_of list) w.ended.marked, away) refl

  pub get-ok : get m (some c.place) ≡ ok c.item
  unfolding get same_ptr
  get-ok =
      let near = neighbours m list mark c front back w in
      rw (get_next-ok m c.place near.after_n, near.y≠n, get_item-ok m c.place holds_here) refl

  pub step_next-ok : step_next m (some c.place) ≡ ok (some (start (tail_of list) back))
  unfolding step_next
  step_next-ok = get_next-ok m c.place (neighbours m list mark c front back w).after_n

  pub step_prev-ok : step_prev m (some (start (tail_of list) back)) ≡ ok (some c.place)
  unfolding step_prev same_ptr
  step_prev-ok =
      let near = neighbours m list mark c front back w in
      let x≠n = ==_swap c.place (gap_at m list front back).x near.n≠x in
      rw
        (
          get_prev-ok m (start (tail_of list) back) near.before_y,
          get_prev-ok m c.place near.before_n,
          x≠n,
        )
        refl
