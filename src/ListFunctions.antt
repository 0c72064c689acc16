-- ===== src/ListFunctions.antt =====
-- ListFunction/ListFunctionGen.c: searching, counting, visiting and sorting between two iterators.
-- A predicate or an action returns a Boolean, which says whether its `int` is not zero; the context
-- is part of the function.
pub mod Find
mod Tests
use chat_project.Prelude.{
  ℕ, zero, suc, Bool, true, false, Option, none, some, List, [], ◌∷◌, Run, ok, out_of_fuel, ◌>>=◌,
  if◌then◌else◌,
}
use chat_project.DLinkedList.{Ptr, Memory, same_ptr, create, push_head}
use chat_project.ListItr.{equals, step_next, step_prev, get, set, remove, insert_before}

-- the loop of `ListItr_FindFirst`
unfoldable pub find_loop : (fuel : ℕ) → Memory → (ℕ → Bool) → (iter last : Ptr) → Run Ptr
find_loop zero m predicate iter last = out_of_fuel
find_loop (suc fuel) m predicate iter last =
    let rest = λ (next : Ptr). find_loop fuel m predicate next last in
    equals m iter last >>= λ at_end.
    if at_end
    then ok last
    else (do item ← get m iter; if predicate item then (step_next m iter >>= rest) else ok iter)

-- `ListItr_FindFirst`
unfoldable pub find_first : (fuel : ℕ) → Memory → (first last : Ptr) → Option (ℕ → Bool) → Run Ptr
find_first fuel m none last predicate = ok none
find_first fuel m (some a) none predicate = ok none
find_first fuel m (some a) (some b) none = ok (some b)
find_first fuel m (some a) (some b) (some predicate) = find_loop fuel m predicate (some a) (some b)

-- `ListItr_CountIf`; it returns within the first round of its loop
unfoldable pub count_if : Memory → (first last : Ptr) → Option (ℕ → Bool) → Run ℕ
count_if m first last none = ok 0
count_if m first last (some predicate) = do
  at_end ← equals m first last
  if at_end then ok 0 else (do item ← get m first; ok (if predicate item then 1 else 0))

module _ {S : Type 0} where
  -- the loop of `ListItr_ForEach`, with what the action works on
  unfoldable pub for_each_loop :
      (fuel : ℕ) → Memory → (ℕ → S → Bool × S) → S → (iter last : Ptr) → Run (Ptr × S)
  for_each_loop zero m action s iter last = out_of_fuel
  for_each_loop (suc fuel) m action s iter last =
      let rest = λ (s' : S) (next : Ptr). for_each_loop fuel m action s' next last in
      equals m iter last >>= λ at_end. if at_end then ok (last, s) else (do
        item ← get m iter
        let (stop, s') = action item s
        if stop then ok (iter, s') else (step_next m iter >>= rest s'))

  -- `ListItr_ForEach`
  unfoldable pub for_each :
      (fuel : ℕ) → Memory → (first last : Ptr) → Option (ℕ → S → Bool × S) → S → Run (Ptr × S)
  for_each fuel m none last action s = ok (none, s)
  for_each fuel m (some a) none action s = ok (none, s)
  for_each fuel m (some a) (some b) none s = ok (some b, s)
  for_each fuel m (some a) (some b) (some action) s =
      for_each_loop fuel m action s (some a) (some b)

-- the loop of `ListItr_Sort`
unfoldable pub sort_loop : (fuel : ℕ) → Memory → (ℕ → ℕ → Bool) → (iter last : Ptr) → Run Memory
sort_loop zero m less iter last = out_of_fuel
sort_loop (suc fuel) m less iter last =
    let rest = λ (m' : Memory) (next : Ptr). sort_loop fuel m' less next last in
    equals m iter last >>= λ at_end. if at_end then ok m else (do
      prev_value ← get m iter
      next ← step_next m iter
      curr_value ← get m next
      m' ←
          (if less prev_value curr_value
            then (do
              (_, m₁) ← set m iter curr_value
              next₁ ← step_next m₁ iter
              (_, m₂) ← set m₁ next₁ prev_value
              ok m₂)
            else ok m)
      after ← step_next m' iter
      rest m' after)

-- `ListItr_Sort`
unfoldable pub sort : (fuel : ℕ) → Memory → (first last : Ptr) → (ℕ → ℕ → Bool) → Run Memory
sort fuel m none last less = ok m
sort fuel m (some a) none less = ok m
sort fuel m (some a) (some b) less = sort_loop fuel m less (some a) (some b)

-- What `malloc` gives to the next call, and to those after it; NULL once the list is at its end.
abbrev pub next_given : List Ptr → Ptr × List Ptr
next_given [] = (none, [])
next_given (p ∷ given) = (p, given)

-- the loop of `ListItr_Splice`; `size` is how many bytes each block really has
unfoldable pub splice_loop :
    (fuel : ℕ) → (size : ℕ) → List Ptr → Memory → (dest iter last : Ptr) → Run Memory
splice_loop zero size given m dest iter last = out_of_fuel
splice_loop (suc fuel) size given m dest iter last =
    let rest = λ (given' : List Ptr) (m' : Memory) (next : Ptr).
      splice_loop fuel size given' m' dest next last in
    equals m iter last >>= λ at_end. if at_end then ok m else (do
      next ← step_next m iter
      before ← step_prev m next
      (item, m₁) ← remove m before
      let (block, given') = next_given given
      (new, m₂) ← insert_before block size m₁ dest item
      _ ← step_next m₂ new
      rest given' m₂ next)

-- `ListItr_Splice`
unfoldable pub splice :
    (fuel : ℕ) → (size : ℕ) → List Ptr → Memory → (dest first last : Ptr) → Run (Ptr × Memory)
splice fuel size given m none first last = ok (last, m)
splice fuel size given m (some d) none last = ok (last, m)
splice fuel size given m (some d) (some a) none = ok (none, m)
splice fuel size given m (some d) (some a) (some b) = do
  m' ← splice_loop fuel size given m (some d) (some a) (some b)
  ok (some d, m')

-- the loop of `ListItr_Cut`; the iterator that is moved on is the one whose node is freed
unfoldable pub cut_loop : (fuel : ℕ) → List Ptr → Memory → (new_list iter last : Ptr) → Run Memory
cut_loop zero given m new_list iter last = out_of_fuel
cut_loop (suc fuel) given m new_list iter last =
    let rest = λ (given' : List Ptr) (m' : Memory) (next : Ptr).
      cut_loop fuel given' m' new_list next last in
    if same_ptr iter last then ok m else (do
      (item, m₁) ← remove m iter
      let (block, given') = next_given given
      (_, m₂) ← push_head block m₁ new_list item
      next ← step_next m₂ iter
      rest given' m₂ next)

-- `ListItr_Cut`
unfoldable pub cut :
    (fuel : ℕ)
    → (list : Ptr) → (head_data tail_data : ℕ) → List Ptr
    → Memory
    → (first last : Ptr) → Run (Ptr × Memory)
cut fuel list head_data tail_data given m first last = do
  let (new_list, m₁) = create list head_data tail_data m
  m₂ ← cut_loop fuel given m₁ new_list first last
  ok (new_list, m₂)

-- the inner loop of `ListItr_Unique`, which starts again at the beginning
unfoldable pub unique_inner :
    (fuel : ℕ)
    → List Ptr
    → Memory
    → (ℕ → ℕ → Bool)
    → (value : ℕ) → (new_list iter last : Ptr) → Run (List Ptr × Memory)
unique_inner zero given m equal value new_list iter last = out_of_fuel
unique_inner (suc fuel) given m equal value new_list iter last =
    let rest = λ (given' : List Ptr) (m' : Memory) (next : Ptr).
      unique_inner fuel given' m' equal value new_list next last in
    if same_ptr iter last then ok (given, m) else (do
      other ← get m iter
      if equal value other
          then (do
            (item, m₁) ← remove m iter
            let (block, given') = next_given given
            (_, m₂) ← push_head block m₁ new_list item
            next ← step_next m₂ iter
            rest given' m₂ next)
          else (do next ← step_next m iter; rest given m next))

-- the outer loop; the inner one leaves the iterator at the end
unfoldable pub unique_outer :
    (fuel : ℕ) → List Ptr → Memory → (ℕ → ℕ → Bool) → (new_list first iter last : Ptr) → Run Memory
unique_outer zero given m equal new_list first iter last = out_of_fuel
unique_outer (suc fuel) given m equal new_list first iter last =
    let rest = λ (given' : List Ptr) (m' : Memory) (next : Ptr).
      unique_outer fuel given' m' equal new_list first next last in
    if same_ptr iter last then ok m else (do
      value ← get m iter
      _ ← step_next m iter
      (given', m') ← unique_inner fuel given m equal value new_list first last
      next ← step_next m' last
      rest given' m' next)

-- `ListItr_Unique`
unfoldable pub unique :
    (fuel : ℕ)
    → (list : Ptr) → (head_data tail_data : ℕ) → List Ptr
    → Memory
    → (ℕ → ℕ → Bool)
    → (first last : Ptr) → Run (Ptr × Memory)
unique fuel list head_data tail_data given m equal first last = do
  let (new_list, m₁) = create list head_data tail_data m
  m₂ ← unique_outer fuel given m₁ equal new_list first first last
  ok (new_list, m₂)
