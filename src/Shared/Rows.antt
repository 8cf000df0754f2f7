-- ===== src/Shared/Rows.antt =====
-- A database table as its rows by primary key. A row that another row names by a foreign key
-- exists, so an update of a row that is not there is left without effect.
use Prim.Native.Nat.{ℕ}
use mathlib.Core.Path.{◌≡◌, refl}
use mathlib.Core.Logic.{◌≢◌}
use mathlib.Core.Bool.{Bool}
use mathlib.Core.Option
use mathlib.Core.Option.{Option, none, some}
use mathlib.Core.List.{List, [], ◌∷◌}
use native.Mathlib.Omega.{arith}
use pay.Shared.Tests.{◌==◌, if◌then◌else◌}

abbrev pub Table {ℓ} : Type ℓ → Type ℓ
Table V = List (ℕ × V)

module _ {ℓ} {V : Type ℓ} where
  -- `findUnique({ where: { id } })`
  unfoldable pub find : ℕ → Table V → Option V
  find k [] = none
  find k ((j, v) ∷ t) = if k == j then some v else find k t

  -- `update({ where: { id }, data })`
  unfoldable pub modify : ℕ → (V → V) → Table V → Table V
  modify k f [] = []
  modify k f ((j, v) ∷ t) = if k == j then (j, f v) ∷ t else (j, v) ∷ modify k f t

  -- `create({ data })`
  unfoldable pub create : ℕ → V → Table V → Table V
  create k v t = (k, v) ∷ t

  -- `updateMany({ where, data })`
  unfoldable pub modify_many : (V → Bool) → (V → V) → Table V → Table V
  modify_many p f [] = []
  modify_many p f ((j, v) ∷ t) = (j, if p v then f v else v) ∷ modify_many p f t

  pub find-modify_self :
      (k : ℕ) (f : V → V) (t : Table V) → find k (modify k f t) ≡ Option.map f (find k t)
  unfolding find modify
  find-modify_self k f [] = refl
  find-modify_self k f ((j, w) ∷ t) = ground (arith, find-modify_self k f t)

  pub find-modify-some :
      (k : ℕ) (f : V → V) (t : Table V) {v : V}
      → find k t ≡ some v
      → find k (modify k f t) ≡ some (f v)
  find-modify-some k f t h = rw (find-modify_self, h)

  pub find-modify_ne :
      (j k : ℕ) (f : V → V) (t : Table V) → j ≢ k → find j (modify k f t) ≡ find j t
  unfolding find modify
  find-modify_ne j k f [] h = refl
  find-modify_ne j k f ((i, w) ∷ t) h = ground (arith, find-modify_ne j k f t h)

  pub find-create_self : (k : ℕ) (v : V) (t : Table V) → find k (create k v t) ≡ some v
  unfolding find create
  find-create_self k v t = ground arith

  pub find-create_ne : (j k : ℕ) (v : V) (t : Table V) → j ≢ k → find j (create k v t) ≡ find j t
  unfolding find create
  find-create_ne j k v t h = ground arith
