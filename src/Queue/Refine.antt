-- ===== src/Queue/Refine.antt =====
-- GenericQueue/GenericQueue.c: sequences of calls against a bounded first-in first-out queue.
use chat_project.Prelude.{
  ℕ, Bool, Option, none, some, List, [], ◌∷◌, ◌++◌, Run, ok, Ref, ◌>>=◌, ◌==◌, length,
  if◌then◌else◌,
}
use chat_project.Queue.{Queue, QueueErr, qerr_ok, qerr_overflow, insert, remove, is_empty}

-- A client's call, and what it sees of it.
pub data Call {ℓ} (A : Type ℓ) : Type ℓ where
  put : A → Call A
  get : Call A
  ask : Call A

pub data Reply {ℓ} (A : Type ℓ) : Type ℓ where
  put_reply : QueueErr → Reply A
  get_reply : QueueErr → Option A → Reply A
  ask_reply : Option Bool → Reply A

module _ {ℓ} {A : Type ℓ} where
  unfoldable pub run : Ref (Queue A) → List (Call A) → Run (List (Reply A))
  run q [] = ok []
  run q (put x ∷ calls) = insert q (some x) >>= λ r. run r.1 calls >>= λ rs. ok (put_reply r.0 ∷ rs)
  run q (get ∷ calls) = remove q none >>= λ r. run r.2 calls >>= λ rs. ok (get_reply r.0 r.1 ∷ rs)
  run q (ask ∷ calls) = is_empty q >>= λ b. run q calls >>= λ rs. ok (ask_reply b ∷ rs)

  abbrev reply_first : Reply A → Option (List (Reply A)) → Option (List (Reply A))
  reply_first r none = none
  reply_first r (some rs) = some (r ∷ rs)

  -- Putting an item into a bounded queue of the items `xs`.
  abbrev offer : ℕ → List A → A → QueueErr × List A
  offer cap xs x = if length xs == cap then (qerr_overflow, xs) else (qerr_ok, xs ++ x ∷ [])

  -- The same calls on a bounded queue of the items `xs`; `none` where it is asked to give an item
  -- that it does not have.
  unfoldable pub model : ℕ → List A → List (Call A) → Option (List (Reply A))
  model cap xs [] = some []
  model cap xs (put x ∷ calls) =
      let (e, xs') = offer cap xs x in reply_first (put_reply e) (model cap xs' calls)
  model cap [] (get ∷ calls) = none
  model cap (x ∷ xs) (get ∷ calls) = reply_first (get_reply qerr_ok (some x)) (model cap xs calls)
  model cap xs (ask ∷ calls) = reply_first (ask_reply (some (length xs == 0))) (model cap xs calls)
