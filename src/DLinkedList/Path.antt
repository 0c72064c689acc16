-- ===== src/DLinkedList/Path.antt =====
-- GenericDLinkedList/LinkedListGeneric.c: nodes linked in both directions, and what the writes of
-- an insertion and of a removal do to them.
use chat_project.Prelude.{
  ℕ, ◌≡◌, refl, ◌∙◌, arith, false, Option, none, some, List, [], ◌∷◌, ◌++◌, ◌==◌, if◌then◌else◌,
  All,
}
use chat_project.DLinkedList.{Ptr, Node, Memory}

-- the fields of what stands at an address
abbrev pub next_of : Option Node → Option Ptr
next_of none = none
next_of (some at) = some at.next

abbrev pub prev_of : Option Node → Option Ptr
prev_of none = none
prev_of (some at) = some at.prev

abbrev pub item_of : Option Node → Option ℕ
item_of none = none
item_of (some at) = some at.item

abbrev pub next_at : Memory → ℕ → Option Ptr
next_at m a = next_of (m a)

abbrev pub prev_at : Memory → ℕ → Option Ptr
prev_at m a = prev_of (m a)

abbrev pub item_at : Memory → ℕ → Option ℕ
item_at m a = item_of (m a)

-- each of the nodes points to the one behind it, and that one back to it
abbrev pub Linked : Memory → List ℕ → Type 0
Linked m [] = Unit
Linked m (x ∷ []) = Unit
Linked m (x ∷ y ∷ path) =
    (next_at m x ≡ some (some y)) × (prev_at m y ≡ some (some x)) × Linked m (y ∷ path)

-- not one of the addresses
abbrev pub Apart : ℕ → List ℕ → Type 0
Apart a = All (λ b. (b == a) ≡ false)

abbrev pub Distinct : List ℕ → Type 0
Distinct [] = Unit
Distinct (x ∷ path) = Apart x path × Distinct path

-- `m'` is `m` with a node `n` between `x` and `y`.
pub record Inserted (m m' : Memory) (x n y item : ℕ) : Type 0 where
  pub nexts :
      (q : ℕ)
      → next_at m' q
        ≡ (if q == n then some (some y) else if q == x then some (some n) else next_at m q)
  pub prevs :
      (q : ℕ)
      → prev_at m' q
        ≡ (if q == n then some (some x) else if q == y then some (some n) else prev_at m q)
  pub items : (q : ℕ) → item_at m' q ≡ (if q == n then some item else item_at m q)

-- `m'` is `m` without the node `n` between `x` and `y`.
pub record Removed (m m' : Memory) (x n y : ℕ) : Type 0 where
  pub nexts :
      (q : ℕ)
      → next_at m' q ≡ (if q == n then none else if q == x then some (some y) else next_at m q)
  pub prevs :
      (q : ℕ)
      → prev_at m' q ≡ (if q == n then none else if q == y then some (some x) else prev_at m q)
  pub items : (q : ℕ) → item_at m' q ≡ (if q == n then none else item_at m q)

-- A change that touches no link within the path.
pub Linked-frame :
    (m m' : Memory) (x : ℕ) (path : List ℕ)
    → All (λ q. next_at m' q ≡ next_at m q) (x ∷ path)
    → All (λ q. prev_at m' q ≡ prev_at m q) path
    → Linked m (x ∷ path)
    → Linked m' (x ∷ path)
Linked-frame m m' x [] nexts prevs w = tt
Linked-frame m m' x (y ∷ path) (e, nexts) (f, prevs) (n, p, w) =
    (rw e n, rw f p, Linked-frame m m' y path nexts prevs w)

pub Apart-append : (a : ℕ) (xs ys : List ℕ) → Apart a (xs ++ ys) → Apart a xs × Apart a ys
Apart-append a [] ys h = (tt, h)
Apart-append a (x ∷ xs) ys (e, h) = let (hx, hy) = Apart-append a xs ys h in ((e, hx), hy)

-- A field that a write leaves alone apart from two addresses is as before along a path without
-- them.
All-kept :
    {A : Type 0} (new old : ℕ → A) (n x : ℕ) (a b : A) (path : List ℕ)
    → ((q : ℕ) → new q ≡ (if q == n then a else if q == x then b else old q))
    → Apart n path
    → Apart x path
    → All (λ q. new q ≡ old q) path
All-kept new old n x a b [] h apart_n apart_x = tt
All-kept new old n x a b (q ∷ path) h (e, apart_n) (f, apart_x) =
    (h q ∙ rw (e, f) refl, All-kept new old n x a b path h apart_n apart_x)

pub Linked-insert :
    (m m' : Memory) (x n y item : ℕ) (front back : List ℕ)
    → Inserted m m' x n y item
    → Apart n (front ++ (x ∷ y ∷ back))
    → Distinct (front ++ (x ∷ y ∷ back))
    → Linked m (front ++ (x ∷ y ∷ back))
    → Linked m' (front ++ (x ∷ n ∷ y ∷ back))
Linked-insert m m' x n y item [] back w (x≠n, (y≠n, apart)) ((y≠x, apart_x), (apart_y, distinct))
      (e, f, linked) =
    (
      w.nexts x ∙ ground arith,
      w.prevs n ∙ ground arith,
      (
        w.nexts n ∙ ground arith,
        w.prevs y ∙ ground arith,
        Linked-frame m m' y back
            (All-kept (next_at m') (next_at m) n x (some (some y)) (some (some n)) (y ∷ back)
              w.nexts (y≠n, apart) (y≠x, apart_x))
            (All-kept (prev_at m') (prev_at m) n y (some (some x)) (some (some n)) back w.prevs
              apart apart_y)
            linked,
      ),
    )
Linked-insert m m' x n y item (f ∷ []) back w (f≠n, apart) ((x≠f, apart_f), distinct)
      (e, e', linked) =
    (
      w.nexts f ∙ ground (arith, e),
      w.prevs x ∙ ground (arith, e', apart, distinct),
      Linked-insert m m' x n y item [] back w apart distinct linked,
    )
Linked-insert m m' x n y item (f ∷ g ∷ front) back w (f≠n, apart) (apart_f, distinct)
      (e, e', linked) =
    let (_, (x≠f, _)) = Apart-append f (g ∷ front) (x ∷ y ∷ back) apart_f in
    let (_, rest) = Apart-append g front (x ∷ y ∷ back) distinct.0 in
    (
      w.nexts f ∙ ground (arith, e),
      w.prevs g ∙ ground (arith, e', apart, rest),
      Linked-insert m m' x n y item (g ∷ front) back w apart distinct linked,
    )

pub Linked-remove :
    (m m' : Memory) (x n y : ℕ) (front back : List ℕ)
    → Removed m m' x n y
    → Distinct (front ++ (x ∷ n ∷ y ∷ back))
    → Linked m (front ++ (x ∷ n ∷ y ∷ back))
    → Linked m' (front ++ (x ∷ y ∷ back))
Linked-remove m m' x n y [] back w ((n≠x, (y≠x, apart_x)), ((y≠n, apart_n), (apart_y, distinct)))
      (e, f, (g, h, linked)) =
    (
      w.nexts x ∙ ground arith,
      w.prevs y ∙ ground arith,
      Linked-frame m m' y back
          (All-kept (next_at m') (next_at m) n x none (some (some y)) (y ∷ back) w.nexts
            (y≠n, apart_n) (y≠x, apart_x))
          (All-kept (prev_at m') (prev_at m) n y none (some (some x)) back w.prevs apart_n apart_y)
          linked,
    )
Linked-remove m m' x n y (f ∷ []) back w ((x≠f, (n≠f, apart_f)), distinct) (e, e', linked) = (
  w.nexts f ∙ ground (arith, e),
  w.prevs x ∙ ground (arith, e', distinct),
  Linked-remove m m' x n y [] back w distinct linked,
)
Linked-remove m m' x n y (f ∷ g ∷ front) back w (apart_f, distinct) (e, e', linked) =
    let (_, (x≠f, (n≠f, _))) = Apart-append f (g ∷ front) (x ∷ n ∷ y ∷ back) apart_f in
    let (_, rest) = Apart-append g front (x ∷ n ∷ y ∷ back) distinct.0 in
    (
      w.nexts f ∙ ground (arith, e),
      w.prevs g ∙ ground (arith, e', rest),
      Linked-remove m m' x n y (g ∷ front) back w distinct linked,
    )
