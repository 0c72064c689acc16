-- ===== src/Queue/Tests.antt =====
-- The queue at concrete inputs.
use chat_project.Prelude.{
  get_elem?, ℕ, ◌-◌, ◌^◌, ◌≡◌, refl, arith, false, Option, none, some, List, [], ◌∷◌, ok, live,
}
use chat_project.Queue.{Queue, qerr_ok, megic_num, is_empty, remove}
use chat_project.Queue.Window.{Holds}
use chat_project.Queue.Refine.{Call, put, get, ask}
use chat_project.Queue.Stale.{remove-drained}

-- two cells, the head at the second, one item
abbrev wrapped : Queue ℕ
wrapped = record {
  queue_array = some (none ∷ some 7 ∷ []);
  size = 2;
  head = 1;
  tail = 0;
  n_items = 1;
  magic_number = megic_num;
}

abbrev wrapped-Holds : Holds wrapped (7 ∷ [])
wrapped-Holds = record {
  cells = none ∷ some 7 ∷ [];
  array = refl;
  width = refl;
  magic = refl;
  big = omega arith;
  small = omega arith;
  head_in = omega arith;
  count = refl;
  room = omega arith;
  tail_at = refl;
  window = (refl, tt);
}

-- a queue that had the item 7 in its first cell and gave it away
abbrev drained : Queue ℕ
drained = record {
  queue_array = some (some 7 ∷ none ∷ []);
  size = 2;
  head = 0;
  tail = 0;
  n_items = 0;
  magic_number = megic_num;
}

abbrev drained-Holds : Holds drained []
drained-Holds = record {
  cells = some 7 ∷ none ∷ [];
  array = refl;
  width = refl;
  magic = refl;
  big = omega arith;
  small = omega arith;
  head_in = omega arith;
  count = refl;
  room = omega arith;
  tail_at = refl;
  window = tt;
}

abbrev calls : List (Call ℕ)
calls = put 8 ∷ put 9 ∷ get ∷ get ∷ ask ∷ []

remove-drained_example :
    (cells : List (Option ℕ)) × (item : Option ℕ) × (q' : Queue ℕ) × (drained.queue_array
      ≡ some cells)
    × (get_elem? cells drained.head ≡ some item)
    × (remove (live drained) none ≡ ok (qerr_ok, item, live q'))
    × (q'.n_items ≡ 2 ^ 64 - 1)
    × (is_empty (live q') ≡ ok (some false))
remove-drained_example = remove-drained drained none drained-Holds
