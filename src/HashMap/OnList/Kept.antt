-- ===== src/HashMap/OnList/Kept.antt =====
-- GenericHash/GenericHash.c: what a chain in memory keeps when an item or a node comes or goes.
use chat_project.Prelude.{
  ℕ, ◌≡◌, ◌≢◌, refl, sym, ap, ◌∙◌, arith, false, Option, none, some, List, [], ◌∷◌, ◌++◌, ◌==◌,
  Bool-cases, inl, inr, ==_iff,
}
use mathlib.Core.Path.{subst}
use chat_project.DLinkedList.{Memory, tail_of}
use chat_project.DLinkedList.Path.{
  next_of, prev_of, next_at, prev_at, item_at, Linked, Apart, Distinct,
}
use chat_project.DLinkedList.Shape.{Cell, places, path_of, IsList, Distinct-remove}
use chat_project.ListFunctions.Find.{Unmarked}
use chat_project.HashMap.{DataItem}
use chat_project.HashMap.OnList.{Heap, put_block}
use chat_project.HashMap.OnList.Search.{addresses, Stored}

addresses-append : (xs ys : List Cell) → addresses (xs ++ ys) ≡ addresses xs ++ addresses ys
addresses-append [] ys = refl
addresses-append (c ∷ xs) ys = ap (λ p. c.item ∷ p) (addresses-append xs ys)

-- An address with no node is on no path.
path-Apart :
    (m : Memory) (n x : ℕ) (path : List ℕ) → m n ≡ none → Linked m (x ∷ path) → Apart n path
path-Apart m n x [] free w = tt
path-Apart m n x (y ∷ path) free (_, before_y, w) = elim (Bool-cases (y == n)) [
  | inl e ↦
      let y≡n : y ≡ n = (==_iff y n).0 e in
      let before_n : prev_at m n ≡ some (some x) =
        subst (λ q. prev_at m q ≡ some (some x)) y≡n before_y in
      let nothing : prev_at m n ≡ none = ap prev_of free in ground (arith, before_n, nothing)
  | inr e ↦ (e, path-Apart m n y path free w)
]

fresh-Apart :
    (m : Memory) (n x y : ℕ) (path : List ℕ)
    → m n ≡ none
    → Linked m (x ∷ y ∷ path)
    → Apart n (x ∷ y ∷ path)
fresh-Apart m n x y path free w = elim (Bool-cases (x == n)) [
  | inl e ↦
      let x≡n : x ≡ n = (==_iff x n).0 e in
      let after_n : next_at m n ≡ some (some y) =
        subst (λ q. next_at m q ≡ some (some y)) x≡n w.0 in
      let nothing : next_at m n ≡ none = ap next_of free in ground (arith, after_n, nothing)
  | inr e ↦ (e, path-Apart m n x (y ∷ path) free w)
]

pub fresh-list :
    (m : Memory) (n list mark : ℕ) (cells : List Cell)
    → m n ≡ none
    → IsList m list mark cells
    → Apart n (path_of list cells)
fresh-list m n list mark [] free w = fresh-Apart m n list (tail_of list) [] free w.links
fresh-list m n list mark (c ∷ cells) free w =
    fresh-Apart m n list c.place (places cells ++ (tail_of list ∷ [])) free w.links

pub unlike-tail :
    (m : Memory) (list mark item : ℕ) (cells : List Cell)
    → IsList m list mark cells
    → item_at m (tail_of list) ≢ some item
    → (item == mark) ≡ false
unlike-tail m list mark item cells w h = elim (Bool-cases (item == mark)) [
  | inl e ↦
      let same : mark ≡ item = sym ((==_iff item mark).0 e) in
      absurd (h (w.ended.marked ∙ ap some same))
  | inr e ↦ e
]

pub Unmarked-split :
    (mark : ℕ) (c : Cell) (front back : List Cell)
    → Unmarked mark (front ++ (c ∷ back))
    → Unmarked mark (front ++ back)
Unmarked-split mark c [] back (_, u) = u
Unmarked-split mark c (d ∷ front) back (e, u) = (e, Unmarked-split mark c front back u)

-- The addresses without that of one element, which is none of the others.
pub addresses-Distinct :
    (c : Cell) (front back : List Cell)
    → Distinct (addresses (front ++ (c ∷ back)))
    → Apart c.item (addresses (front ++ back)) × Distinct (addresses (front ++ back))
addresses-Distinct c front back d =
    let split : Distinct (addresses front ++ (c.item ∷ addresses back)) =
      subst Distinct (addresses-append front (c ∷ back)) d in
    rw (addresses-append front back)
      (Distinct-remove c.item (addresses front) (addresses back) split)

module _ {K V : Type 0} where
  pub Stored-Apart :
      (blocks : ℕ → Option (DataItem K V)) (a : ℕ) (cells : List Cell) (chain : List (DataItem K V))
      → blocks a ≡ none
      → Stored blocks cells chain
      → Apart a (addresses cells)
  Stored-Apart blocks a [] chain free w = tt
  Stored-Apart blocks a (c ∷ cells) [] free w = absurd w
  Stored-Apart blocks a (c ∷ cells) (d ∷ chain) free (_, block, w) =
      elim (Bool-cases (c.item == a)) [
        | inl e ↦
            let there : blocks a ≡ some d =
              subst (λ q. blocks q ≡ some d) ((==_iff c.item a).0 e) block in
            ground (arith, there, free)
        | inr e ↦ (e, Stored-Apart blocks a cells chain free w)
      ]

  -- An item that comes or goes at another address.
  pub Stored-kept :
      (h : Heap K V) (a : ℕ) (block : Option (DataItem K V)) (cells : List Cell)
      (chain : List (DataItem K V))
      → Apart a (addresses cells)
      → Stored h.blocks cells chain
      → Stored (put_block h a block).blocks cells chain
  unfolding put_block
  Stored-kept h a block [] [] apart w = tt
  Stored-kept h a block [] (d ∷ chain) apart w = absurd w
  Stored-kept h a block (c ∷ cells) [] apart w = absurd w
  Stored-kept h a block (c ∷ cells) (d ∷ chain) (away, apart) (given, there, w) =
      (given, rw away there, Stored-kept h a block cells chain apart w)
