-- ===== src/Prelude/Outcome.antt =====
-- What a piece of C does: it returns, does something undefined (a read or write outside an
-- object, through NULL or through a freed pointer, a division by zero), or uses up its fuel.
use mathlib.Core.Path.{◌≡◌, refl}
use mathlib.Core.Option.{Option, none, some}
use mathlib.Core.List.{List}
use Prim.Native.Nat.{ℕ, ◌%◌, ◌<◌}
use native.Mathlib.Omega.{arith}
use chat_project.Prelude.Tests.{◌==◌, if◌then◌else◌}
use chat_project.Prelude.Lists.{length, get_elem?, set, get_elem?-of_lt}

pub data Run {ℓ} (A : Type ℓ) : Type ℓ where
  ok : A → Run A
  fault : Run A
  out_of_fuel : Run A

infixl 5 ◌>>=◌
abbrev pub ◌>>=◌ {ℓ κ} : {A : Type ℓ} {B : Type κ} → Run A → (A → Run B) → Run B
ok a >>= f = f a
fault >>= f = fault
out_of_fuel >>= f = out_of_fuel

-- A pointer to an object of the heap that has one owner.
pub data Ref {ℓ} (A : Type ℓ) : Type ℓ where
  null : Ref A
  dangling : Ref A
  live : A → Ref A

-- `*p`
abbrev pub deref {ℓ} : {A : Type ℓ} → Ref A → Run A
deref null = fault
deref dangling = fault
deref (live a) = ok a

-- `a[i]` and `a[i] = v`
abbrev pub of_option {ℓ} : {A : Type ℓ} → Option A → Run A
of_option none = fault
of_option (some a) = ok a

unfoldable pub load {ℓ} : {A : Type ℓ} → List A → ℕ → Run A
load xs i = of_option (get_elem? xs i)

unfoldable pub store {ℓ} : {A : Type ℓ} → List A → ℕ → A → Run (List A)
store xs i v = of_option (get_elem? xs i) >>= (λ _. ok (set xs i v))

-- `a % b`
unfoldable pub rem : ℕ → ℕ → Run ℕ
rem a b = if b == 0 then fault else ok (a % b)

module _ {ℓ} {A : Type ℓ} where
  pub load-ok : (xs : List A) (i : ℕ) {a : A} → get_elem? xs i ≡ some a → load xs i ≡ ok a
  unfolding load
  load-ok xs i e = rw e

  pub store-ok : (xs : List A) (i : ℕ) (v : A) → i < length xs → store xs i v ≡ ok (set xs i v)
  unfolding store
  store-ok xs i v h = let (a, e) = get_elem?-of_lt xs i h in rw e

pub rem-ok : (a b : ℕ) → 0 < b → rem a b ≡ ok (a % b)
unfolding rem
rem-ok a b h = ground arith

module _ {ℓ κ} {A : Type ℓ} {B : Type κ} where
  -- A run of two steps that returns, taken apart.
  pub >>=-eq-ok :
      (first : Run A) (next : A → Run B) {result : B}
      → (first >>= next) ≡ ok result
      → (between : A) × (first ≡ ok between) × (next between ≡ ok result)
  >>=-eq-ok out_of_fuel next e = cc
  >>=-eq-ok fault next e = cc
  >>=-eq-ok (ok between) next e = (between, refl, e)
