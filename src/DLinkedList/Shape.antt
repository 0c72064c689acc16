-- ===== src/DLinkedList/Shape.antt =====
-- GenericDLinkedList/LinkedListGeneric.c: which sequence of nodes and data a list in memory holds,
-- and how a path of nodes grows and shrinks by one.
use chat_project.Prelude.{
  ℕ, ◌≡◌, refl, ap, ◌∙◌, arith, false, Option, some, List, [], ◌∷◌, ◌++◌, ◌==◌, ==_iff,
  if◌then◌else◌, All, Bool-cases, inl, inr,
}
use mathlib.Core.List.{append_assoc}
use mathlib.Core.Path.{subst}
use chat_project.DLinkedList.{Memory, tail_of}
use chat_project.DLinkedList.Path.{
  next_at, prev_at, item_at, Linked, Apart, Distinct, Inserted, Removed, Apart-append,
}

-- One element: the address of its node, and its data.
pub record Cell : Type 0 where
  pub place : ℕ
  pub item : ℕ

abbrev pub places : List Cell → List ℕ
places [] = []
places (c ∷ cells) = c.place ∷ places cells

-- the first of these nodes, or the node `t` behind them
abbrev pub start : ℕ → List Cell → ℕ
start t [] = t
start t (c ∷ cells) = c.place

abbrev pub Holds : Memory → List Cell → Type 0
Holds m = All (λ (c : Cell). item_at m c.place ≡ some c.item)

-- the addresses from the head sentinel to the tail sentinel
abbrev pub path_of : ℕ → List Cell → List ℕ
path_of list cells = list ∷ (places cells ++ (tail_of list ∷ []))

-- The tail sentinel points to itself, and `mark` is what its data is.
pub record Ended (m : Memory) (list mark : ℕ) : Type 0 where
  pub loops : next_at m (tail_of list) ≡ some (some (tail_of list))
  pub marked : item_at m (tail_of list) ≡ some mark

-- The memory has the list at `list` with these elements, in this order.
pub record IsList (m : Memory) (list mark : ℕ) (cells : List Cell) : Type 0 where
  pub ended : Ended m list mark
  pub links : Linked m (path_of list cells)
  pub distinct : Distinct (path_of list cells)
  pub holds : Holds m cells

pub places-append : (xs ys : List Cell) → places (xs ++ ys) ≡ places xs ++ places ys
places-append [] ys = refl
places-append (c ∷ xs) ys = ap (λ p. c.place ∷ p) (places-append xs ys)

-- The last of some addresses.
pub last_split :
    (x : ℕ) (xs : List ℕ) → (front : List ℕ) × (last : ℕ) × (x ∷ xs ≡ front ++ (last ∷ []))
last_split x [] = ([], x, refl)
last_split x (y ∷ xs) =
    let (front, last, e) = last_split y xs in (x ∷ front, last, ap (λ p. x ∷ p) e)

-- With an address behind it, the last is next to that.
pub last_gap :
    (x : ℕ) (xs : List ℕ)
    → (front : List ℕ) × (last : ℕ) × ((ys : List ℕ) → (x ∷ xs) ++ ys ≡ front ++ (last ∷ ys))
last_gap x xs =
    let (front, last, e) = last_split x xs in
    (front, last, λ ys. ap (λ p. p ++ ys) e ∙ append_assoc front (last ∷ []) ys)

pub ==_swap : (a b : ℕ) → (a == b) ≡ false → (b == a) ≡ false
==_swap a b h = ground (arith, h)

Apart-insert :
    (a n : ℕ) (xs ys : List ℕ) → (n == a) ≡ false → Apart a (xs ++ ys) → Apart a (xs ++ (n ∷ ys))
Apart-insert a n [] ys e h = (e, h)
Apart-insert a n (x ∷ xs) ys e (f, h) = (f, Apart-insert a n xs ys e h)

pub Distinct-insert :
    (n : ℕ) (xs ys : List ℕ) → Apart n (xs ++ ys) → Distinct (xs ++ ys) → Distinct (xs ++ (n ∷ ys))
Distinct-insert n [] ys h d = (h, d)
Distinct-insert n (x ∷ xs) ys (e, h) (apart, d) =
    (Apart-insert x n xs ys (==_swap x n e) apart, Distinct-insert n xs ys h d)

Apart-remove : (a n : ℕ) (xs ys : List ℕ) → Apart a (xs ++ (n ∷ ys)) → Apart a (xs ++ ys)
Apart-remove a n [] ys (e, h) = h
Apart-remove a n (x ∷ xs) ys (f, h) = (f, Apart-remove a n xs ys h)

-- An address taken out of a path of different ones is on the path no more.
pub Distinct-remove :
    (n : ℕ) (xs ys : List ℕ) → Distinct (xs ++ (n ∷ ys)) → Apart n (xs ++ ys) × Distinct (xs ++ ys)
Distinct-remove n [] ys d = d
Distinct-remove n (x ∷ xs) ys (apart, d) =
    let (h, rest) = Distinct-remove n xs ys d in
    let (_, (e, _)) = Apart-append x xs (n ∷ ys) apart in
    ((==_swap n x e, h), (Apart-remove x n xs ys apart, rest))

-- Two neighbours on a path, and an address that is not on it.
pub gap_links :
    (m : Memory) (x y : ℕ) (front back : List ℕ)
    → Linked m (front ++ (x ∷ y ∷ back))
    → (next_at m x ≡ some (some y)) × (prev_at m y ≡ some (some x))
gap_links m x y [] back (e, f, w) = (e, f)
gap_links m x y (a ∷ []) back (e, f, w) = gap_links m x y [] back w
gap_links m x y (a ∷ b ∷ front) back (e, f, w) = gap_links m x y (b ∷ front) back w

pub gap-Apart :
    (n x y : ℕ) (front back : List ℕ)
    → Apart n (front ++ (x ∷ y ∷ back))
    → ((x == n) ≡ false) × ((y == n) ≡ false)
gap-Apart n x y front back h =
    let (_, (e, (f, _))) = Apart-append n front (x ∷ y ∷ back) h in (e, f)

pub gap-Distinct :
    (x y : ℕ) (front back : List ℕ) → Distinct (front ++ (x ∷ y ∷ back)) → (y == x) ≡ false
gap-Distinct x y [] back ((e, _), _) = e
gap-Distinct x y (a ∷ front) back (_, d) = gap-Distinct x y front back d

-- The data of the other nodes is as it was.
pub Holds-kept :
    (place : Option ℕ) (m m' : Memory) (n : ℕ) (cells : List Cell)
    → ((q : ℕ) → item_at m' q ≡ (if q == n then place else item_at m q))
    → Apart n (places cells)
    → Holds m cells
    → Holds m' cells
Holds-kept place m m' n [] items apart w = tt
Holds-kept place m m' n (c ∷ cells) items (e, apart) (h, w) =
    (items c.place ∙ ground (arith, e, h), Holds-kept place m m' n cells items apart w)

pub Holds-append : (m : Memory) (xs ys : List Cell) → Holds m xs → Holds m ys → Holds m (xs ++ ys)
Holds-append m [] ys hx hy = hy
Holds-append m (c ∷ xs) ys (h, hx) hy = (h, Holds-append m xs ys hx hy)

pub Holds-split : (m : Memory) (xs ys : List Cell) → Holds m (xs ++ ys) → Holds m xs × Holds m ys
Holds-split m [] ys h = (tt, h)
Holds-split m (c ∷ xs) ys (e, h) = let (hx, hy) = Holds-split m xs ys h in ((e, hx), hy)

-- A node that points on to another one is not the tail sentinel.
not_end :
    (m : Memory) (list mark x y : ℕ)
    → Ended m list mark
    → next_at m x ≡ some (some y)
    → (y == x) ≡ false
    → (tail_of list == x) ≡ false
not_end m list mark x y w after_x y≠x = elim (Bool-cases (tail_of list == x)) [
  | inl e ↦
      let t≡x : tail_of list ≡ x = (==_iff (tail_of list) x).0 e in
      let loop : next_at m x ≡ some (some x) =
        subst (λ q. next_at m q ≡ some (some q)) t≡x w.loops in
      ground (arith, loop, after_x, y≠x)
  | inr e ↦ e
]

pub Ended-insert :
    (m m' : Memory) (list mark x n y item : ℕ)
    → Inserted m m' x n y item
    → next_at m x ≡ some (some y)
    → (y == x) ≡ false
    → (tail_of list == n) ≡ false
    → Ended m list mark
    → Ended m' list mark
Ended-insert m m' list mark x n y item i after_x y≠x t≠n w =
    let t≠x = not_end m list mark x y w after_x y≠x in
    record {
      loops = i.nexts (tail_of list) ∙ rw (t≠n, t≠x) w.loops;
      marked = i.items (tail_of list) ∙ rw t≠n w.marked;
    }

pub Ended-remove :
    (m m' : Memory) (list mark x n y : ℕ)
    → Removed m m' x n y
    → next_at m x ≡ some (some n)
    → (n == x) ≡ false
    → next_at m n ≡ some (some y)
    → (y == n) ≡ false
    → Ended m list mark
    → Ended m' list mark
Ended-remove m m' list mark x n y r after_x n≠x after_n y≠n w =
    let t≠x = not_end m list mark x n w after_x n≠x in
    let t≠n = not_end m list mark n y w after_n y≠n in
    record {
      loops = r.nexts (tail_of list) ∙ rw (t≠n, t≠x) w.loops;
      marked = r.items (tail_of list) ∙ rw t≠n w.marked;
    }
