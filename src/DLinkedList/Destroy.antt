-- ===== src/DLinkedList/Destroy.antt =====
-- GenericDLinkedList/LinkedListGeneric.c: the loop of `List_Destroy`, and what is left of the
-- memory.
use chat_project.Prelude.{
  ℕ, zero, suc, ◌<◌, ◌≡◌, refl, ◌∙◌, arith, Bool, false, none, some, List, [], ◌∷◌, ◌++◌, ok, ◌==◌,
  if◌then◌else◌, Bool-cases, inl, inr, length, All,
}
use mathlib.Core.List.{append_assoc}
use mathlib.Core.Path.{subst}
use chat_project.DLinkedList.{Node, Memory, update, free, tail_of, same_ptr, destroy_from, destroy}
use chat_project.DLinkedList.Path.{next_at, prev_at, item_at, Linked, Apart, Distinct, Apart-append}
use chat_project.DLinkedList.Writes.{
  get_next-ok, get_prev-ok, get_item-ok, next_at-some, prev_at-some,
}
use chat_project.DLinkedList.Shape.{Cell, places, start, Holds, IsList, ==_swap}
use chat_project.DLinkedList.Walk.{end-Apart, Linked-start}

abbrev pub items_of : List Cell → List ℕ
items_of [] = []
items_of (c ∷ cells) = c.item ∷ items_of cells

-- `m'` is `m` with the nodes at these addresses given back, and no other.
pub record Released (m m' : Memory) (addresses : List ℕ) : Type 0 where
  pub gone : All (λ p. m' p ≡ none) addresses
  pub kept : (q : ℕ) → Apart q addresses → m' q ≡ m q

-- One node given back: `m'` is the memory without it.
free_kept : (m : Memory) (p q : ℕ) → (p == q) ≡ false → update m p none q ≡ m q
unfolding update
free_kept m p q h = rw (==_swap p q h) refl

free_gone : (m : Memory) (p : ℕ) → update m p none p ≡ none
unfolding update
free_gone m p = ground arith

free_at :
    (m : Memory) (p : ℕ) {node : Node} → m p ≡ some node → free m (some p) ≡ ok (update m p none)
unfolding free
free_at m p e = ground (arith, e)

Holds-without :
    (m : Memory) (p : ℕ) (cells : List Cell)
    → Apart p (places cells)
    → Holds m cells
    → Holds (update m p none) cells
unfolding update
Holds-without m p [] apart h = tt
Holds-without m p (c ∷ cells) (e, apart) (h, hs) = (rw e h, Holds-without m p cells apart hs)

Linked-without :
    (m : Memory) (p : ℕ) (path : List ℕ)
    → Apart p path
    → Linked m path
    → Linked (update m p none) path
unfolding update
Linked-without m p [] apart h = tt
Linked-without m p (x ∷ []) apart h = tt
Linked-without m p (x ∷ y ∷ path) (e, (f, apart)) (n, b, h) =
    (rw e n, rw f b, Linked-without m p (y ∷ path) (f, apart) h)

-- All of a path of different addresses, given back one after the other.
Released-cons :
    (m m' : Memory) (p : ℕ) (addresses : List ℕ)
    → Apart p addresses
    → Released (update m p none) m' addresses
    → Released m m' (p ∷ addresses)
Released-cons m m' p addresses apart w = record {
  gone = (w.kept p apart ∙ free_gone m p, w.gone);
  kept = λ q (e, away). w.kept q away ∙ free_kept m p q e;
}

destroy_from-end :
    (fuel : ℕ) (m : Memory) (list : ℕ) (given : Bool)
    → destroy_from (suc fuel) m list (some (tail_of list)) given ≡ ok ([], m)
unfolding destroy_from same_ptr
destroy_from-end fuel m list given = ground arith

destroy_from-next :
    (fuel : ℕ) (m m' : Memory) (list p q item : ℕ) (gone : List ℕ) (given : Bool)
    → (p == tail_of list) ≡ false
    → item_at m p ≡ some item
    → next_at m p ≡ some (some q)
    → prev_at m q ≡ some (some p)
    → destroy_from fuel (update m p none) list (some q) given ≡ ok (gone, m')
    → destroy_from (suc fuel) m list (some p) given ≡ ok (if given then item ∷ gone else gone, m')
unfolding destroy_from same_ptr
destroy_from-next fuel m m' list p q item gone given away i n b rest =
    let (node, e, _) = next_at-some m p n in
    rw (away, get_item-ok m p i, get_next-ok m p n, get_prev-ok m q b, free_at m p e, rest) refl

destroy_from-Released :
    (fuel : ℕ) (m : Memory) (list : ℕ) (cells : List Cell) (given : Bool)
    → Linked m (places cells ++ (tail_of list ∷ []))
    → Distinct (places cells ++ (tail_of list ∷ []))
    → Holds m cells
    → length cells < fuel
    → (m' : Memory) × (destroy_from fuel m list (some (start (tail_of list) cells)) given
        ≡ ok (if given then items_of cells else [], m'))
      × Released m m' (places cells)
destroy_from-Released zero m list cells given links distinct holds h = absurd (omega (arith, h))
destroy_from-Released (suc fuel) m list [] given links distinct holds h = (
  m,
  destroy_from-end fuel m list given
      ∙ elim (Bool-cases given) [ inl e ↦ rw e refl | inr e ↦ rw e refl ],
  record { gone = tt; kept = λ q away. refl },
)
destroy_from-Released (suc fuel) m list (c ∷ cells) given links (apart, distinct) (i, holds) h =
    let p = c.place in
    let t = tail_of list in
    let (n, b, links') = Linked-start m p t cells links in
    let (apart_cells, (t≠p, _)) = Apart-append p (places cells) (t ∷ []) apart in
    let (m', rest, w) =
      destroy_from-Released fuel (update m p none) list cells given
        (Linked-without m p (places cells ++ (t ∷ [])) apart links') distinct
        (Holds-without m p cells apart_cells holds) (omega (arith, h)) in
    (
      m',
      destroy_from-next fuel m m' list p (start t cells) c.item
            (if given then items_of cells else []) given (==_swap t p t≠p) i n b rest
          ∙ elim (Bool-cases given) [ inl e ↦ rw e refl | inr e ↦ rw e refl ],
      Released-cons m m' p (places cells) apart_cells w,
    )

end_node :
    (m : Memory) (x t : ℕ) (cells : List Cell)
    → Linked m (x ∷ (places cells ++ (t ∷ [])))
    → (node : Node) × (m t ≡ some node)
end_node m x t [] (e, f, w) = let (node, h, _) = prev_at-some m t f in (node, h)
end_node m x t (c ∷ cells) (e, f, w) = end_node m c.place t cells w

gone-snoc :
    (m : Memory) (t : ℕ) (xs : List ℕ)
    → All (λ p. m p ≡ none) xs
    → All (λ p. update m t none p ≡ none) (xs ++ (t ∷ []))
unfolding update
gone-snoc m t [] h = (ground arith, tt)
gone-snoc m t (x ∷ xs) (e, h) = (ground (arith, e), gone-snoc m t xs h)

Released-snoc :
    (m m' : Memory) (t : ℕ) (xs : List ℕ)
    → Released m m' xs
    → Released m (update m' t none) (xs ++ (t ∷ []))
Released-snoc m m' t xs w = record {
  gone = gone-snoc m' t xs w.gone;
  kept = λ q away.
      let (apart, (t≠q, _)) = Apart-append q xs (t ∷ []) away in
      free_kept m' t q t≠q ∙ w.kept q apart;
}

-- `List_Destroy` of a list returns, hands its data to the destroyer in order, if there is one,
-- leaves NULL in the pointer, and gives every node and both sentinels back and nothing else; as
-- many steps as there are elements, and one more, are enough.
pub destroy-Released :
    (fuel : ℕ) (m : Memory) (list mark : ℕ) (cells : List Cell) (given : Bool)
    → IsList m list mark cells
    → length cells < fuel
    → (m' : Memory) × (destroy fuel m (some list) given
        ≡ ok (if given then items_of cells else [], m', none))
      × Released m m' (places cells ++ (list ∷ tail_of list ∷ []))
unfolding destroy
destroy-Released fuel m list mark cells given w h =
    let t = tail_of list in
    let (n, _, links) = Linked-start m list t cells w.links in
    let (m₁, run, r) = destroy_from-Released fuel m list cells given links w.distinct.1 w.holds h in
    let (apart, (t≠list, _)) = Apart-append list (places cells) (t ∷ []) w.distinct.0 in
    let (_, e, _) = next_at-some m list n in
    let (_, f) = end_node m list t cells w.links in
    let m₂ = update m₁ list none in
    let f₂ =
      free_kept m₁ list t (==_swap t list t≠list)
      ∙ r.kept t (end-Apart t (places cells) w.distinct.1)
      ∙ f in
    (
      update m₂ t none,
      rw (get_next-ok m list n, run, free_at m₁ list (r.kept list apart ∙ e), free_at m₂ t f₂) refl,
      subst (Released m (update m₂ t none)) (append_assoc (places cells) (list ∷ []) (t ∷ [])) (
          Released-snoc m m₂ t (places cells ++ (list ∷ []))
            (Released-snoc m m₁ list (places cells) r)),
    )
