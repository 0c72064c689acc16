-- ===== src/DLinkedList/Writes.antt =====
-- GenericDLinkedList/LinkedListGeneric.c: one access to a field of a node, and what it leaves as it
-- is.
use chat_project.Prelude.{
  ℕ, ◌≡◌, refl, arith, Bool, true, false, Option, none, some, ok, fault, ◌==◌, if◌then◌else◌,
  Bool-cases, ==_iff, Option-cases, inl, inr,
}
use chat_project.DLinkedList.{
  Ptr, Node, Memory, update, node_at, get_next, get_prev, get_item, set_next, set_prev, set_item,
  free,
}
use chat_project.DLinkedList.Path.{next_of, prev_of, item_of, next_at, prev_at, item_at}

-- `m'` is `m` with another value in one field of the node at `a`.
pub record NextSet (m m' : Memory) (a : ℕ) (v : Ptr) : Type 0 where
  pub nexts : (q : ℕ) → next_at m' q ≡ (if q == a then some v else next_at m q)
  pub prevs : (q : ℕ) → prev_at m' q ≡ prev_at m q
  pub items : (q : ℕ) → item_at m' q ≡ item_at m q

pub record PrevSet (m m' : Memory) (a : ℕ) (v : Ptr) : Type 0 where
  pub nexts : (q : ℕ) → next_at m' q ≡ next_at m q
  pub prevs : (q : ℕ) → prev_at m' q ≡ (if q == a then some v else prev_at m q)
  pub items : (q : ℕ) → item_at m' q ≡ item_at m q

pub record ItemSet (m m' : Memory) (a v : ℕ) : Type 0 where
  pub nexts : (q : ℕ) → next_at m' q ≡ next_at m q
  pub prevs : (q : ℕ) → prev_at m' q ≡ prev_at m q
  pub items : (q : ℕ) → item_at m' q ≡ (if q == a then some v else item_at m q)

-- `m'` is `m` with `place` at `a`.
pub record PlaceSet (m m' : Memory) (a : ℕ) (place : Option Node) : Type 0 where
  pub nexts : (q : ℕ) → next_at m' q ≡ (if q == a then next_of place else next_at m q)
  pub prevs : (q : ℕ) → prev_at m' q ≡ (if q == a then prev_of place else prev_at m q)
  pub items : (q : ℕ) → item_at m' q ≡ (if q == a then item_of place else item_at m q)

if_map :
    {A B : Type 0} (f : A → B) (b : Bool) (x y : A)
    → f (if b then x else y) ≡ (if b then f x else f y)
if_map f true x y = refl
if_map f false x y = refl

pub update-PlaceSet :
    (m : Memory) (a : ℕ) (place : Option Node) → PlaceSet m (update m a place) a place
unfolding update
update-PlaceSet m a place = record {
  nexts = λ q. if_map next_of (q == a) place (m q);
  prevs = λ q. if_map prev_of (q == a) place (m q);
  items = λ q. if_map item_of (q == a) place (m q);
}

-- A field that a write puts back as it was.
same_field :
    {A : Type 0} (f : Option Node → A) (m : Memory) (a : ℕ) (at place : Node)
    → m a ≡ some at
    → f (some place) ≡ f (some at)
    → (q : ℕ) → f (update m a (some place) q) ≡ f (m q)
unfolding update
same_field f m a at place e h q = elim (Bool-cases (q == a)) [
  | inl here ↦ let q≡a : q ≡ a = (==_iff q a).0 here in rw (here) (rw (q≡a, e) h)
  | inr away ↦ rw away refl
]

pub next_at-some :
    (m : Memory) (a : ℕ) {v : Ptr}
    → next_at m a ≡ some v
    → (at : Node) × (m a ≡ some at) × (at.next ≡ v)
next_at-some m a h = elim (Option-cases (m a)) [
  | inl e ↦ ground (arith, e, h)
  | inr (at, e) ↦ (at, e, ground (arith, e, h))
]

pub prev_at-some :
    (m : Memory) (a : ℕ) {v : Ptr}
    → prev_at m a ≡ some v
    → (at : Node) × (m a ≡ some at) × (at.prev ≡ v)
prev_at-some m a h = elim (Option-cases (m a)) [
  | inl e ↦ ground (arith, e, h)
  | inr (at, e) ↦ (at, e, ground (arith, e, h))
]

pub item_at-some :
    (m : Memory) (a : ℕ) {v : ℕ}
    → item_at m a ≡ some v
    → (at : Node) × (m a ≡ some at) × (at.item ≡ v)
item_at-some m a h = elim (Option-cases (m a)) [
  | inl e ↦ ground (arith, e, h)
  | inr (at, e) ↦ (at, e, ground (arith, e, h))
]

pub get_next-ok : (m : Memory) (a : ℕ) {v : Ptr} → next_at m a ≡ some v → get_next m (some a) ≡ ok v
unfolding get_next node_at
get_next-ok m a h = let (at, e, f) = next_at-some m a h in ground (arith, e, f)

-- A read at an address that no node stands at.
pub get_next-gone : (m : Memory) (a : ℕ) → next_at m a ≡ none → get_next m (some a) ≡ fault
unfolding get_next node_at
get_next-gone m a h = elim (Option-cases (m a)) [
  | inl e ↦ ground (arith, e)
  | inr (at, e) ↦ ground (arith, e, h)
]

pub get_prev-ok : (m : Memory) (a : ℕ) {v : Ptr} → prev_at m a ≡ some v → get_prev m (some a) ≡ ok v
unfolding get_prev node_at
get_prev-ok m a h = let (at, e, f) = prev_at-some m a h in ground (arith, e, f)

pub get_item-ok : (m : Memory) (a : ℕ) {v : ℕ} → item_at m a ≡ some v → get_item m (some a) ≡ ok v
unfolding get_item node_at
get_item-ok m a h = let (at, e, f) = item_at-some m a h in ground (arith, e, f)

pub set_next-ok :
    (m : Memory) (a : ℕ) (v : Ptr) {old : Ptr}
    → next_at m a ≡ some old
    → (m' : Memory) × (set_next m (some a) v ≡ ok m') × NextSet m m' a v
unfolding set_next
set_next-ok m a v h =
    let (at, e, _) = next_at-some m a h in
    let place = record at { next = v } in
    let w = update-PlaceSet m a (some place) in
    (
      update m a (some place),
      ground (arith, e),
      record {
        nexts = w.nexts;
        prevs = same_field prev_of m a at place e refl;
        items = same_field item_of m a at place e refl;
      },
    )

pub set_prev-ok :
    (m : Memory) (a : ℕ) (v : Ptr) {old : Ptr}
    → prev_at m a ≡ some old
    → (m' : Memory) × (set_prev m (some a) v ≡ ok m') × PrevSet m m' a v
unfolding set_prev
set_prev-ok m a v h =
    let (at, e, _) = prev_at-some m a h in
    let place = record at { prev = v } in
    let w = update-PlaceSet m a (some place) in
    (
      update m a (some place),
      ground (arith, e),
      record {
        nexts = same_field next_of m a at place e refl;
        prevs = w.prevs;
        items = same_field item_of m a at place e refl;
      },
    )

pub set_item-ok :
    (m : Memory) (a : ℕ) (v : ℕ) {old : ℕ}
    → item_at m a ≡ some old
    → (m' : Memory) × (set_item m (some a) v ≡ ok m') × ItemSet m m' a v
unfolding set_item
set_item-ok m a v h =
    let (at, e, _) = item_at-some m a h in
    let place = record at { item = v } in
    let w = update-PlaceSet m a (some place) in
    (
      update m a (some place),
      ground (arith, e),
      record {
        nexts = same_field next_of m a at place e refl;
        prevs = same_field prev_of m a at place e refl;
        items = w.items;
      },
    )

pub free-ok :
    (m : Memory) (a : ℕ) {old : Ptr}
    → next_at m a ≡ some old
    → (m' : Memory) × (free m (some a) ≡ ok m') × PlaceSet m m' a none
unfolding free
free-ok m a h =
    let (at, e, _) = next_at-some m a h in
    (update m a none, ground (arith, e), update-PlaceSet m a none)
