-- ===== src/HashMap/OnList/Rows.antt =====
-- GenericHash/GenericHash.c: the slots of a table in memory, whose chains have no address in
-- common, and a call at one of them.
use chat_project.Prelude.{
  ℕ, ◌≡◌, refl, sym, ◌∙◌, arith, Option, some, none, List, [], ◌∷◌, ◌++◌, All, ◌⊎◌, inl, inr,
}
use mathlib.Core.List.{append_assoc}
use mathlib.Core.Path.{subst}
use chat_project.DLinkedList.{Ptr, Node}
use chat_project.DLinkedList.Path.{next_of, next_at, Apart, Apart-append}
use chat_project.DLinkedList.Shape.{Cell}
use chat_project.HashMap.{DataItem, Slot}
use chat_project.HashMap.OnList.{Heap}
use chat_project.HashMap.OnList.Search.{addresses, Stored}
use chat_project.HashMap.OnList.Kept.{fresh-list, Stored-Apart}
use chat_project.HashMap.OnList.Frame.{Same, IsList-same}
use chat_project.HashMap.OnList.Foot.{Foot, Step, At}

-- No address is in both.
pub record Disjoint (f g : Foot) : Type 0 where
  pub nodes : (q : ℕ) → Apart q f.nodes ⊎ Apart q g.nodes
  pub items : (a : ℕ) → Apart a f.items ⊎ Apart a g.items

swap {ℓ κ} : {A : Type ℓ} {B : Type κ} → A ⊎ B → B ⊎ A
swap (inl a) = inr a
swap (inr b) = inl b

pub Disjoint-swap : (f g : Foot) → Disjoint f g → Disjoint g f
Disjoint-swap f g d = record { nodes = λ q. swap (d.nodes q); items = λ a. swap (d.items a) }

-- A slot of the table: its pointer, its chain, and the addresses that it uses.
pub record Row (K V : Type 0) : Type 0 where
  pub pointer : Ptr
  pub slot : Slot K V
  pub foot : Foot

module _ {K V : Type 0} where
  abbrev pub pointers : List (Row K V) → List Ptr
  pointers [] = []
  pointers (r ∷ rows) = r.pointer ∷ pointers rows

  abbrev pub slots_of : List (Row K V) → List (Slot K V)
  slots_of [] = []
  slots_of (r ∷ rows) = r.slot ∷ slots_of rows

  -- Every slot stands in memory, and no two have an address in common.
  abbrev pub InMemory : Heap K V → List (Row K V) → Type 0
  InMemory h [] = Unit
  InMemory h (r ∷ rows) =
      At h r.pointer r.slot r.foot
      × All (λ (other : Row K V). Disjoint r.foot other.foot) rows
      × InMemory h rows

no_node : (n : Option Node) → next_of n ≡ none → n ≡ none
no_node none e = refl
no_node (some n) e = ground (arith, e)

-- A property of every address that is not apart from all of them.
All-members :
    (P : ℕ → Type 0) (front xs : List ℕ) → ((q : ℕ) → (Apart q (front ++ xs) → ⊥) → P q) → All P xs
All-members P front [] h = tt
All-members P front (x ∷ xs) h = (
  h x (λ apart. let (_, (e, _)) = Apart-append x front (x ∷ xs) apart in ground (arith, e)),
  All-members P (front ++ (x ∷ [])) xs (λ q there.
      h q (λ apart. there (subst (Apart q) (sym (append_assoc front (x ∷ []) xs)) apart))),
)

module _ {K V : Type 0} where
  unused_node :
      (h : Heap K V) (list : Ptr) (slot : Slot K V) (g : Foot) (q : ℕ)
      → At h list slot g
      → next_at h.nodes q ≡ none
      → Apart q g.nodes
  unused_node h none none g q w free = rw w tt
  unused_node h none (some chain) g q w free = absurd w
  unused_node h (some list) none g q w free = absurd w
  unused_node h (some list) (some chain) g q (mark, cells, w, e) free =
      rw e (fresh-list h.nodes q list mark cells (no_node (h.nodes q) free) w.linked)

  unused_item :
      (h : Heap K V) (list : Ptr) (slot : Slot K V) (g : Foot) (a : ℕ)
      → At h list slot g
      → h.blocks a ≡ none
      → Apart a g.items
  unused_item h none none g a w free = rw w tt
  unused_item h none (some chain) g a w free = absurd w
  unused_item h (some list) none g a w free = absurd w
  unused_item h (some list) (some chain) g a (mark, cells, w, e) free =
      rw e (Stored-Apart h.blocks a cells chain free w.stored)

  Stored-same :
      (h h' : Heap K V) (cells : List Cell) (chain : List (DataItem K V))
      → All (λ a. h'.blocks a ≡ h.blocks a) (addresses cells)
      → Stored h.blocks cells chain
      → Stored h'.blocks cells chain
  Stored-same h h' [] [] same w = tt
  Stored-same h h' [] (d ∷ chain) same w = absurd w
  Stored-same h h' (c ∷ cells) [] same w = absurd w
  Stored-same h h' (c ∷ cells) (d ∷ chain) (e, same) (given, there, w) =
      (given, e ∙ there, Stored-same h h' cells chain same w)

  module _ (h h' : Heap K V) (f f' : Foot) (step : Step h h' f f') (list : Ptr) (slot : Slot K V)
      (g : Foot) (w : At h list slot g) (d : Disjoint f g) where
    -- What uses other addresses is still apart from what the call uses now,
    pub still-Disjoint : Disjoint f' g
    still-Disjoint = record {
      nodes = λ q. elim (d.nodes q) [
        | inr apart ↦ inr apart
        | inl apart ↦ elim (step.nodes_new q apart) [
          | inl apart' ↦ inl apart'
          | inr free ↦ inr (unused_node h list slot g q w free)
        ]
      ];
      items = λ a. elim (d.items a) [
        | inr apart ↦ inr apart
        | inl apart ↦ elim (step.items_new a apart) [
          | inl apart' ↦ inl apart'
          | inr free ↦ inr (unused_item h list slot g a w free)
        ]
      ];
    }

    node-Same : (q : ℕ) → (Apart q g.nodes → ⊥) → Same h.nodes h'.nodes q
    node-Same q there = elim (d.nodes q) [
      | inr apart ↦ absurd (there apart)
      | inl apart ↦ elim (step.nodes_new q apart) [
        | inl apart' ↦ step.nodes_kept q apart apart'
        | inr free ↦ absurd (there (unused_node h list slot g q w free))
      ]
    ]

    item_same : (a : ℕ) → (Apart a g.items → ⊥) → h'.blocks a ≡ h.blocks a
    item_same a there = elim (d.items a) [
      | inr apart ↦ absurd (there apart)
      | inl apart ↦ elim (step.items_new a apart) [
        | inl apart' ↦ elim (step.items_kept a apart apart') [
          | inl same ↦ same
          | inr free ↦ absurd (there (unused_item h list slot g a w free))
        ]
        | inr free ↦ absurd (there (unused_item h list slot g a w free))
      ]
    ]

  -- and stands in memory as before.
  pub At-kept :
      (h h' : Heap K V) (f f' : Foot) (step : Step h h' f f') (list : Ptr) (slot : Slot K V)
      (g : Foot)
      → At h list slot g
      → Disjoint f g
      → At h' list slot g
  At-kept h h' f f' step none none g w d = w
  At-kept h h' f f' step none (some chain) g w d = w
  At-kept h h' f f' step (some list) none g w d = w
  At-kept h h' f f' step (some list) (some chain) g (mark, cells, w, e) d =
      let nodes =
        All-members (Same h.nodes h'.nodes) [] g.nodes
          (node-Same h h' f f' step (some list) (some chain) g (mark, cells, w, e) d) in
      let items =
        All-members (λ a. h'.blocks a ≡ h.blocks a) [] g.items
          (item_same h h' f f' step (some list) (some chain) g (mark, cells, w, e) d) in
      let nodes' = subst (λ (k : Foot). All (Same h.nodes h'.nodes) k.nodes) e nodes in
      let items' = subst (λ (k : Foot). All (λ a. h'.blocks a ≡ h.blocks a) k.items) e items in
      (
        mark,
        cells,
        record {
          linked = IsList-same h.nodes h'.nodes list mark cells nodes' w.linked;
          unmarked = w.unmarked;
          distinct = w.distinct;
          stored = Stored-same h h' cells chain items' w.stored;
        },
        e,
      )
