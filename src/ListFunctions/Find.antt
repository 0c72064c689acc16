-- ===== src/ListFunctions/Find.antt =====
-- ListFunction/ListFunctionGen.c: which element `ListItr_FindFirst` finds.
use chat_project.Prelude.{
  ℕ, zero, suc, ◌<◌, ◌≡◌, refl, sym, ◌∙◌, arith, Bool, true, false, some, List, [], ◌∷◌, ◌++◌, ok,
  ◌==◌, if◌then◌else◌, Bool-cases, inl, inr, length, All,
}
use mathlib.Core.List.{append_assoc}
use mathlib.Core.Path.{subst}
use chat_project.DLinkedList.{Ptr, Memory, tail_of}
use chat_project.DLinkedList.Shape.{Cell, start, IsList}
use chat_project.ListItr.{equals, step_next, get}
use chat_project.ListItr.Walk.{equals-end, equals-away, get-ok, step_next-ok}
use chat_project.ListFunctions.{find_loop, find_first}

-- The node of the first element for which the predicate is false, or the end.
abbrev pub first_failing : (ℕ → Bool) → ℕ → List Cell → ℕ
first_failing predicate t [] = t
first_failing predicate t (c ∷ cells) =
    if predicate c.item then first_failing predicate t cells else c.place

-- No element has the data that the tail sentinel happens to have.
abbrev pub Unmarked : ℕ → List Cell → Type 0
Unmarked mark = All (λ (c : Cell). (c.item == mark) ≡ false)

find_loop-end :
    (fuel : ℕ) (m : Memory) (predicate : ℕ → Bool) (iter last : Ptr)
    → equals m iter last ≡ ok true
    → find_loop (suc fuel) m predicate iter last ≡ ok last
unfolding find_loop
find_loop-end fuel m predicate iter last e = rw e refl

find_loop-failing :
    (fuel : ℕ) (m : Memory) (predicate : ℕ → Bool) (iter last : Ptr) (item : ℕ)
    → equals m iter last ≡ ok false
    → get m iter ≡ ok item
    → predicate item ≡ false
    → find_loop (suc fuel) m predicate iter last ≡ ok iter
unfolding find_loop
find_loop-failing fuel m predicate iter last item away holds fails = rw (away, holds, fails) refl

find_loop-holding :
    (fuel : ℕ) (m : Memory) (predicate : ℕ → Bool) (iter last next : Ptr) (item : ℕ)
    → equals m iter last ≡ ok false
    → get m iter ≡ ok item
    → predicate item ≡ true
    → step_next m iter ≡ ok next
    → find_loop (suc fuel) m predicate iter last ≡ find_loop fuel m predicate next last
unfolding find_loop
find_loop-holding fuel m predicate iter last next item away holds true_here stepped =
    rw (away, holds, true_here, stepped) refl

find_loop-first :
    (fuel : ℕ) (m : Memory) (list mark : ℕ) (predicate : ℕ → Bool) (passed cells : List Cell)
    → IsList m list mark (passed ++ cells)
    → Unmarked mark cells
    → length cells < fuel
    → find_loop fuel m predicate (some (start (tail_of list) cells)) (some (tail_of list))
      ≡ ok (some (first_failing predicate (tail_of list) cells))
find_loop-first zero m list mark predicate passed cells w unmarked h = absurd (omega (arith, h))
find_loop-first (suc fuel) m list mark predicate passed [] w unmarked h =
    find_loop-end fuel m predicate _ _ (equals-end m list mark (passed ++ []) w)
find_loop-first (suc fuel) m list mark predicate passed (c ∷ cells) w (away, unmarked) h =
    let differs = equals-away m list mark c passed cells w away in
    let holds = get-ok m list mark c passed cells w in
    elim (Bool-cases (predicate c.item)) [
      | inl e ↦
          find_loop-holding fuel m predicate _ _ _ c.item differs holds e
            (step_next-ok m list mark c passed cells w)
          ∙ find_loop-first fuel m list mark predicate (passed ++ (c ∷ [])) cells
              (subst (IsList m list mark) (sym (append_assoc passed (c ∷ []) cells)) w) unmarked
              (omega (arith, h))
          ∙ rw e refl
      | inr e ↦ find_loop-failing fuel m predicate _ _ c.item differs holds e ∙ rw e refl
    ]

-- `ListItr_FindFirst`, over a whole list, returns, and returns the first element for which the
-- predicate gives zero, or the end if there is none. As many steps as there are elements, and one
-- more, are enough; no element has the data that the tail sentinel happens to have.
pub find_first-failing :
    (fuel : ℕ) (m : Memory) (list mark : ℕ) (predicate : ℕ → Bool) (cells : List Cell)
    → IsList m list mark cells
    → Unmarked mark cells
    → length cells < fuel
    → find_first fuel m (some (start (tail_of list) cells)) (some (tail_of list)) (some predicate)
      ≡ ok (some (first_failing predicate (tail_of list) cells))
unfolding find_first
find_first-failing fuel m list mark predicate cells w unmarked h =
    find_loop-first fuel m list mark predicate [] cells w unmarked h
