-- ===== src/DLinkedList/Walk.antt =====
-- GenericDLinkedList/LinkedListGeneric.c: the loop of `List_Size`.
use chat_project.Prelude.{
  ℕ, zero, suc, ◌+◌, ◌%◌, ◌^◌, ◌<◌, ◌≡◌, refl, ap, ◌∙◌, arith, false, some, List, [], ◌∷◌, ◌++◌, ok,
  ◌==◌, length,
}
use chat_project.DLinkedList.{Memory, tail_of, same_ptr, count_from, size}
use chat_project.DLinkedList.Path.{next_at, prev_at, Linked, Apart, Distinct, Apart-append}
use chat_project.DLinkedList.Writes.{get_next-ok}
use chat_project.DLinkedList.Shape.{Cell, places, start, IsList, Distinct-remove}

-- The last node of a path is none of the others.
pub end-Apart : (t : ℕ) (xs : List ℕ) → Distinct (xs ++ (t ∷ [])) → Apart t xs
end-Apart t xs d = (Apart-append t xs [] (Distinct-remove t xs [] d).0).0

pub Linked-start :
    (m : Memory) (list t : ℕ) (cells : List Cell)
    → Linked m (list ∷ (places cells ++ (t ∷ [])))
    → (next_at m list ≡ some (some (start t cells)))
      × (prev_at m (start t cells) ≡ some (some list))
      × Linked m (places cells ++ (t ∷ []))
Linked-start m list t [] (e, f, w) = (e, f, w)
Linked-start m list t (c ∷ cells) (e, f, w) = (e, f, w)

count_from-end :
    (fuel : ℕ) (m : Memory) (list counter : ℕ)
    → count_from (suc fuel) m list (some (tail_of list)) counter ≡ ok counter
unfolding count_from same_ptr
count_from-end fuel m list counter = ground arith

count_from-next :
    (fuel : ℕ) (m : Memory) (list p q counter : ℕ)
    → (p == tail_of list) ≡ false
    → next_at m p ≡ some (some q)
    → counter + 1 < 2 ^ 32
    → count_from (suc fuel) m list (some p) counter ≡ count_from fuel m list (some q) (counter + 1)
unfolding count_from same_ptr
count_from-next fuel m list p q counter away e h =
    let small : (counter + 1) % 2 ^ 32 ≡ counter + 1 = omega (arith, h) in
    rw (away, get_next-ok m p e, small) refl

count_from-length :
    (fuel : ℕ) (m : Memory) (list counter : ℕ) (cells : List Cell)
    → Linked m (places cells ++ (tail_of list ∷ []))
    → Apart (tail_of list) (places cells)
    → length cells < fuel
    → counter + length cells < 2 ^ 31
    → count_from fuel m list (some (start (tail_of list) cells)) counter
      ≡ ok (counter + length cells)
count_from-length zero m list counter cells links apart h small = absurd (omega (arith, h))
count_from-length (suc fuel) m list counter [] links apart h small =
    count_from-end fuel m list counter ∙ ap ok (omega arith)
count_from-length (suc fuel) m list counter (c ∷ cells) links (away, apart) h small =
    let (e, _, links') = Linked-start m c.place (tail_of list) cells links in
    count_from-next fuel m list c.place (start (tail_of list) cells) counter away e
      (omega (arith, small))
    ∙ count_from-length fuel m list (counter + 1) cells links' apart (omega (arith, h))
        (omega (arith, small))
    ∙ ap ok (omega arith)

-- `List_Size` returns, and returns the number of the elements, if that is below 2 ^ 31; as many
-- steps as there are elements, and one more, are enough.
pub size-length :
    (fuel : ℕ) (m : Memory) (list mark : ℕ) (cells : List Cell)
    → IsList m list mark cells
    → length cells < fuel
    → length cells < 2 ^ 31
    → size fuel m (some list) ≡ ok (length cells)
unfolding size
size-length fuel m list mark cells w h small =
    let (e, _, links) = Linked-start m list (tail_of list) cells w.links in
    let apart = end-Apart (tail_of list) (places cells) w.distinct.1 in
    let counted = count_from-length fuel m list 0 cells links apart h (omega (arith, small)) in
    rw (get_next-ok m list e, counted) (ground (arith, small))
