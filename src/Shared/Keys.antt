-- ===== src/Shared/Keys.antt =====
-- Tables whose rows have different ids, and what an update leaves of the rows.
use Prim.Native.Nat.{ℕ}
use mathlib.Core.Path.{◌≡◌, refl, sym, subst}
use mathlib.Core.Logic.{inl, inr}
use mathlib.Core.Bool.{false}
use mathlib.Core.Option.{some}
use mathlib.Core.List.{List, [], ◌∷◌}
use pay.Shared.Tests.{◌==◌, All, Bool-cases, some_injective, ==_refl}
use pay.Shared.Rows.{Table, find, modify}

module _ {ℓ} {A : Type ℓ} where
  -- what follows from two facts of each item
  pub All-imp {κ ι μ} :
      {P : A → Type κ} {Q : A → Type ι} {R : A → Type μ} (xs : List A)
      → ((x : A) → P x → Q x → R x)
      → All P xs
      → All Q xs
      → All R xs
  All-imp [] step ps qs = tt
  All-imp (x ∷ xs) step (p, ps) (q, qs) = (step x p q, All-imp xs step ps qs)

module _ {ℓ} {V : Type ℓ} where
  -- the primary key: no two rows have one id
  abbrev pub HasDistinctIds : Table V → Type 0
  HasDistinctIds [] = Unit
  HasDistinctIds ((j, v) ∷ t) = All (λ x. (x.0 == j) ≡ false) t × HasDistinctIds t

  pub find-HasDistinctIds : (t : Table V) → HasDistinctIds t → All (λ x. find x.0 t ≡ some x.1) t
  unfolding find
  find-HasDistinctIds [] d = tt
  find-HasDistinctIds ((j, v) ∷ t) (apart, d) = (
    rw (==_refl j) refl,
    All-imp t (λ x other found. rw other found) apart (find-HasDistinctIds t d),
  )

  module _ (k : ℕ) (f : V → V) where
    modify-IsApart :
        (j : ℕ) (t : Table V)
        → All (λ x. (x.0 == j) ≡ false) t
        → All (λ x. (x.0 == j) ≡ false) (modify k f t)
    unfolding modify
    modify-IsApart j [] a = tt
    modify-IsApart j ((i, v) ∷ t) (a, rest) = elim (Bool-cases (k == i)) [
      | inl e ↦ rw e (a, rest)
      | inr e ↦ rw e (a, modify-IsApart j t rest)
    ]

    pub modify-HasDistinctIds : (t : Table V) → HasDistinctIds t → HasDistinctIds (modify k f t)
    unfolding modify
    modify-HasDistinctIds [] d = tt
    modify-HasDistinctIds ((i, v) ∷ t) (apart, d) = elim (Bool-cases (k == i)) [
      | inl e ↦ rw e (apart, d)
      | inr e ↦ rw e (modify-IsApart i t apart, modify-HasDistinctIds t d)
    ]

    -- what an update keeps of a row it keeps of the rows, and of the one with a given id
    module _ {κ} (P : V → Type κ) (keeps : (v : V) → P v → P (f v)) where
      pub modify-keeps : (t : Table V) → All (λ x. P x.1) t → All (λ x. P x.1) (modify k f t)
      unfolding modify
      modify-keeps [] ps = tt
      modify-keeps ((i, v) ∷ t) (p, ps) = elim (Bool-cases (k == i)) [
        | inl e ↦ rw e (keeps v p, ps)
        | inr e ↦ rw e (p, modify-keeps t ps)
      ]

      pub find-modify-keeps :
          (j : ℕ) (t : Table V) (v : V)
          → find j t ≡ some v
          → P v
          → (w : V) × (find j (modify k f t) ≡ some w) × P w
      unfolding find modify
      find-modify-keeps j [] v row p = cc
      find-modify-keeps j ((i, u) ∷ t) v row p = elim (Bool-cases (k == i)) [
        | inl e ↦ elim (Bool-cases (j == i)) [
          | inl here ↦
              rw (e, here) (f u, refl, keeps u (subst P (sym (some_injective (rw here at row))) p))
          | inr there ↦ rw (e, there) (v, rw there at row, p)
        ]
        | inr e ↦ elim (Bool-cases (j == i)) [
          | inl here ↦ rw (e, here) (v, rw here at row, p)
          | inr there ↦ rw (e, there) (find-modify-keeps j t v (rw there at row) p)
        ]
      ]
