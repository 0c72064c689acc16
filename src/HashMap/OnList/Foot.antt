-- ===== src/HashMap/OnList/Foot.antt =====
-- GenericHash/GenericHash.c: the addresses that a chain in memory uses, and what a call at one slot
-- does to the others: nothing.
use chat_project.Prelude.{
  ℕ, ◌≡◌, refl, sym, ap, ◌∙◌, false, some, none, List, [], ◌∷◌, ◌++◌, ok, ◌==◌, ◌⊎◌, inl, inr,
  Bool-cases, ==_iff,
}
use mathlib.Core.Path.{subst}
use chat_project.DLinkedList.{Ptr, Memory, list_success, push_head, tail_of, create}
use chat_project.DLinkedList.Path.{next_of, next_at, Apart}
use chat_project.DLinkedList.Shape.{Cell, places, path_of, IsList, ==_swap}
use chat_project.ListItr.{remove}
use chat_project.HashMap.{DataItem, Slot}
use chat_project.HashMap.OnList.{Heap, put_block}
use chat_project.HashMap.OnList.Search.{addresses, IsChain}
use chat_project.HashMap.OnList.Slot.{IsSlot}
use chat_project.HashMap.OnList.Frame.{Same, push_head-Same, remove-Same, create-Same}

-- The nodes of a list with its sentinels, and the items.
pub record Foot : Type 0 where
  pub nodes : List ℕ
  pub items : List ℕ

abbrev pub no_foot : Foot
no_foot = record { nodes = []; items = [] }

abbrev pub foot_of : ℕ → List Cell → Foot
foot_of list cells = record { nodes = path_of list cells; items = addresses cells }

-- Outside the two sets of addresses nothing changes, but for items where nothing was, and the
-- second has only such addresses more than the first as were not in use.
pub record Step {K V : Type 0} (h h' : Heap K V) (f f' : Foot) : Type 0 where
  pub nodes_kept : (q : ℕ) → Apart q f.nodes → Apart q f'.nodes → Same h.nodes h'.nodes q
  pub items_kept :
      (a : ℕ)
      → Apart a f.items
      → Apart a f'.items
      → (h'.blocks a ≡ h.blocks a) ⊎ (h.blocks a ≡ none)
  pub nodes_new : (q : ℕ) → Apart q f.nodes → Apart q f'.nodes ⊎ (next_at h.nodes q ≡ none)
  pub items_new : (a : ℕ) → Apart a f.items → Apart a f'.items ⊎ (h.blocks a ≡ none)

Apart-less :
    (q t : ℕ) (c : Cell) (front back : List Cell)
    → Apart q (places (front ++ (c ∷ back)) ++ (t ∷ []))
    → Apart q (places (front ++ back) ++ (t ∷ []))
Apart-less q t c [] back (_, h) = h
Apart-less q t c (d ∷ front) back (e, h) = (e, Apart-less q t c front back h)

addresses-less :
    (a : ℕ) (c : Cell) (front back : List Cell)
    → Apart a (addresses (front ++ (c ∷ back)))
    → ((c.item == a) ≡ false) × Apart a (addresses (front ++ back))
addresses-less a c [] back h = h
addresses-less a c (d ∷ front) back (e, h) =
    let (away, rest) = addresses-less a c front back h in (away, (e, rest))

module _ {K V : Type 0} (h : Heap K V) where
  pub stay : (f : Foot) → Step h h f f
  stay f = record {
    nodes_kept = λ q _ _. (refl, refl, refl);
    items_kept = λ a _ _. inl refl;
    nodes_new = λ q apart. inl apart;
    items_new = λ a apart. inl apart;
  }

  pub remove-Step :
      (nodes : Memory) (list mark : ℕ) (c : Cell) (front back : List Cell)
      → IsList h.nodes list mark (front ++ (c ∷ back))
      → remove h.nodes (some c.place) ≡ ok (c.item, nodes)
      → Step h
          (put_block (record h { nodes = nodes }) c.item none)
          (foot_of list (front ++ (c ∷ back)))
          (foot_of list (front ++ back))
  unfolding put_block
  remove-Step nodes list mark c front back w run = record {
    nodes_kept = λ q apart _. remove-Same h.nodes nodes list mark q c front back w run apart;
    items_kept = λ a apart _.
        let away = ==_swap c.item a (addresses-less a c front back apart).0 in inl (rw away refl);
    nodes_new = λ q apart. inl (apart.0, Apart-less q (tail_of list) c front back apart.1);
    items_new = λ a apart. inl (addresses-less a c front back apart).1;
  }

  -- An item that is stored and freed again.
  pub put_put-Step :
      (item : ℕ) (d : DataItem K V) (f : Foot)
      → h.blocks item ≡ none
      → Step h (put_block (put_block h item (some d)) item none) f f
  unfolding put_block
  put_put-Step item d f unused = record {
    nodes_kept = λ q _ _. (refl, refl, refl);
    items_kept = λ a _ _. elim (Bool-cases (a == item)) [
      | inl e ↦ inr (rw ((==_iff a item).0 e) unused)
      | inr e ↦ inl (rw e refl)
    ];
    nodes_new = λ q apart. inl apart;
    items_new = λ a apart. inl apart;
  }

  -- An item that is stored, and then in no list.
  pub lost-Step :
      (item : ℕ) (d : DataItem K V) (f : Foot)
      → h.blocks item ≡ none
      → Step h (put_block h item (some d)) f f
  unfolding put_block
  lost-Step item d f unused = record {
    nodes_kept = λ q _ _. (refl, refl, refl);
    items_kept = λ a _ _. elim (Bool-cases (a == item)) [
      | inl e ↦ inr (rw ((==_iff a item).0 e) unused)
      | inr e ↦ inl (rw e refl)
    ];
    nodes_new = λ q apart. inl apart;
    items_new = λ a apart. inl apart;
  }

  pub push-Step :
      (nodes : Memory) (list mark n item : ℕ) (cells : List Cell) (d : DataItem K V)
      → IsList h.nodes list mark cells
      → Apart n (path_of list cells)
      → (item == 0) ≡ false
      → h.nodes n ≡ none
      → h.blocks item ≡ none
      → push_head (some n) h.nodes (some list) item ≡ ok (list_success, nodes)
      → Step h
          (record (put_block h item (some d)) { nodes = nodes })
          (foot_of list cells)
          (foot_of list (record { place = n; item = item } ∷ cells))
  unfolding put_block
  push-Step nodes list mark n item cells d w apart_n nonnull free unused run = record {
    nodes_kept = λ q apart apart'.
        push_head-Same h.nodes nodes list mark n item q cells w apart_n nonnull run apart
          apart'.1.0;
    items_kept = λ a apart apart'. let away = ==_swap item a apart'.0 in inl (rw away refl);
    nodes_new = λ q apart. elim (Bool-cases (n == q)) [
      | inl e ↦ inr (subst (λ p. next_at h.nodes p ≡ none) ((==_iff n q).0 e) (ap next_of free))
      | inr e ↦ inl (apart.0, (e, apart.1))
    ];
    items_new = λ a apart. elim (Bool-cases (item == a)) [
      | inl e ↦ inr (subst (λ p. h.blocks p ≡ none) ((==_iff item a).0 e) unused)
      | inr e ↦ inl (e, apart)
    ];
  }

  pub create-Step :
      (list head_data tail_data : ℕ)
      → h.nodes list ≡ none
      → h.nodes (tail_of list) ≡ none
      → Step h
          (record h { nodes = (create (some list) head_data tail_data h.nodes).1 })
          no_foot
          (foot_of list [])
  create-Step list head_data tail_data free_head free_tail = record {
    nodes_kept = λ q _ apart. create-Same h.nodes list head_data tail_data q apart.0 apart.1.0;
    items_kept = λ a _ _. inl refl;
    nodes_new = λ q _. elim (Bool-cases (list == q)) [
      | inl e ↦
          inr (subst (λ p. next_at h.nodes p ≡ none) ((==_iff list q).0 e) (ap next_of free_head))
      | inr e ↦ elim (Bool-cases (tail_of list == q)) [
        | inl e' ↦ inr (
            subst (λ p. next_at h.nodes p ≡ none) ((==_iff (tail_of list) q).0 e')
              (ap next_of free_tail))
        | inr e' ↦ inl (e, (e', tt))
      ]
    ];
    items_new = λ a _. inl tt;
  }

-- The second set of addresses has those of the first.
pub record Within (f f' : Foot) : Type 0 where
  pub nodes : (q : ℕ) → Apart q f'.nodes → Apart q f.nodes
  pub items : (a : ℕ) → Apart a f'.items → Apart a f.items

pub Within-same : (f : Foot) → Within f f
Within-same f = record { nodes = λ q h. h; items = λ a h. h }

pub Within-push :
    (list n item : ℕ) (cells : List Cell)
    → Within (foot_of list cells) (foot_of list (record { place = n; item = item } ∷ cells))
Within-push list n item cells = record { nodes = λ q h. (h.0, h.1.1); items = λ a h. h.1 }

-- One change behind another, where the addresses only become more.
module _ {K V : Type 0} (h₀ h₁ h₂ : Heap K V) (f₀ f₁ f₂ : Foot) (s : Step h₀ h₁ f₀ f₁)
    (t : Step h₁ h₂ f₁ f₂) (within : Within f₁ f₂) where
  Same-trans :
      (q : ℕ) → Same h₀.nodes h₁.nodes q → Same h₁.nodes h₂.nodes q → Same h₀.nodes h₂.nodes q
  Same-trans q (a, b, c) (a', b', c') = (a' ∙ a, b' ∙ b, c' ∙ c)

  new_nodes : (q : ℕ) → Apart q f₀.nodes → Apart q f₂.nodes ⊎ (next_at h₀.nodes q ≡ none)
  new_nodes q apart₀ = elim (s.nodes_new q apart₀) [
    | inl apart₁ ↦ elim (t.nodes_new q apart₁) [
      | inl apart₂ ↦ inl apart₂
      | inr free ↦ inr (sym (s.nodes_kept q apart₀ apart₁).0 ∙ free)
    ]
    | inr free ↦ inr free
  ]

  new_items : (a : ℕ) → Apart a f₀.items → Apart a f₂.items ⊎ (h₀.blocks a ≡ none)
  new_items a apart₀ = elim (s.items_new a apart₀) [
    | inl apart₁ ↦ elim (t.items_new a apart₁) [
      | inl apart₂ ↦ inl apart₂
      | inr free ↦ elim (s.items_kept a apart₀ apart₁) [
        | inl kept ↦ inr (sym kept ∙ free)
        | inr unused ↦ inr unused
      ]
    ]
    | inr free ↦ inr free
  ]

  through_items :
      (a : ℕ)
      → Apart a f₀.items
      → Apart a f₂.items
      → (h₂.blocks a ≡ h₀.blocks a) ⊎ (h₀.blocks a ≡ none)
  through_items a apart₀ apart₂ =
      let apart₁ = within.items a apart₂ in
      elim (s.items_kept a apart₀ apart₁) [
        | inl kept ↦ elim (t.items_kept a apart₁ apart₂) [
          | inl same ↦ inl (same ∙ kept)
          | inr unused ↦ inr (sym kept ∙ unused)
        ]
        | inr unused ↦ inr unused
      ]

  pub Step-then : Step h₀ h₂ f₀ f₂
  Step-then = record {
    nodes_kept =
        λ q a c. let b = within.nodes q c in Same-trans q (s.nodes_kept q a b) (t.nodes_kept q b c);
    items_kept = through_items;
    nodes_new = new_nodes;
    items_new = new_items;
  }

module _ {K V : Type 0} where
  -- The pointer in the slot, what it stands for, and the addresses that this uses.
  abbrev pub At : Heap K V → Ptr → Slot K V → Foot → Type 0
  At h none none f = f ≡ no_foot
  At h none (some chain) f = ⊥
  At h (some list) none f = ⊥
  At h (some list) (some chain) f =
      (mark : ℕ) × (cells : List Cell) × IsChain h list mark cells chain × (f ≡ foot_of list cells)

  pub At-IsSlot :
      (h : Heap K V) (list : Ptr) (slot : Slot K V) (f : Foot)
      → At h list slot f
      → IsSlot h list slot
  At-IsSlot h none none f w = tt
  At-IsSlot h none (some chain) f w = w
  At-IsSlot h (some list) none f w = w
  At-IsSlot h (some list) (some chain) f (mark, cells, w, e) = (mark, cells, w)
