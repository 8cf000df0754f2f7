-- ===== src/Shared/Sorting.antt =====
-- `filter`, `slice` and the stable `sort` of a list.
use Prim.Native.Nat.{ℕ, ◌-◌}
use mathlib.Core.Path.{◌≡◌}
use mathlib.Core.Logic.{inl, inr}
use mathlib.Core.Bool.{Bool, true, false}
use mathlib.Core.List.{List, [], ◌∷◌}
use pay.Shared.Tests.{◌==◌, All, if◌then◌else◌, Bool-cases}

module _ {ℓ} {A : Type ℓ} where
  unfoldable pub filter : (A → Bool) → List A → List A
  filter p [] = []
  filter p (x ∷ xs) = if p x then x ∷ filter p xs else filter p xs

  unfoldable pub take : ℕ → List A → List A
  take n [] = []
  take n (x ∷ xs) = if n == 0 then [] else x ∷ take (n - 1) xs

  -- `before y x`: y comes first, strictly
  unfoldable pub insert : (A → A → Bool) → A → List A → List A
  insert before x [] = x ∷ []
  insert before x (y ∷ ys) = if before y x then y ∷ insert before x ys else x ∷ y ∷ ys

  unfoldable pub sort : (A → A → Bool) → List A → List A
  sort before [] = []
  sort before (x ∷ xs) = insert before x (sort before xs)

  pub All-filter : (p : A → Bool) (xs : List A) → All (λ x. p x ≡ true) (filter p xs)
  unfolding filter
  All-filter p [] = tt
  All-filter p (x ∷ xs) = elim (Bool-cases (p x)) [
    | inl e ↦ rw e (e, All-filter p xs)
    | inr e ↦ rw e (All-filter p xs)
  ]

  module _ {κ} (Q : A → Type κ) where
    -- what holds of all holds of those that a filter or a prefix keeps
    pub filter-keeps : (p : A → Bool) (xs : List A) → All Q xs → All Q (filter p xs)
    unfolding filter
    filter-keeps p [] qs = tt
    filter-keeps p (x ∷ xs) (q, qs) = elim (Bool-cases (p x)) [
      | inl e ↦ rw e (q, filter-keeps p xs qs)
      | inr e ↦ rw e (filter-keeps p xs qs)
    ]

    pub take-keeps : (n : ℕ) (xs : List A) → All Q xs → All Q (take n xs)
    unfolding take
    take-keeps n [] qs = tt
    take-keeps n (x ∷ xs) (q, qs) = elim (Bool-cases (n == 0)) [
      | inl e ↦ rw e tt
      | inr e ↦ rw e (q, take-keeps (n - 1) xs qs)
    ]

  module _ {κ} (Q : A → Type κ) (before : A → A → Bool) where
    All-insert : (x : A) (ys : List A) → Q x → All Q ys → All Q (insert before x ys)
    unfolding insert
    All-insert x [] q qs = (q, tt)
    All-insert x (y ∷ ys) q (r, qs) = elim (Bool-cases (before y x)) [
      | inl e ↦ rw e (r, All-insert x ys q qs)
      | inr e ↦ rw e (q, (r, qs))
    ]

    pub All-sort : (xs : List A) → All Q xs → All Q (sort before xs)
    unfolding sort
    All-sort [] qs = tt
    All-sort (x ∷ xs) (q, qs) = All-insert x (sort before xs) q (All-sort xs qs)

    insert-All : (x : A) (ys : List A) → All Q (insert before x ys) → Q x × All Q ys
    unfolding insert
    insert-All x [] (q, qs) = (q, qs)
    insert-All x (y ∷ ys) qs = elim (Bool-cases (before y x)) [
      | inl e ↦ let (q, rest) = rw e at qs in let (r, rs) = insert-All x ys rest in (r, (q, rs))
      | inr e ↦ rw e at qs
    ]

    pub sort-All : (xs : List A) → All Q (sort before xs) → All Q xs
    unfolding sort
    sort-All [] qs = tt
    sort-All (x ∷ xs) qs = let (q, rest) = insert-All x (sort before xs) qs in (q, sort-All xs rest)

  All-map {κ} : {P Q : A → Type κ} (f : (a : A) → P a → Q a) (xs : List A) → All P xs → All Q xs
  All-map f [] ps = tt
  All-map f (x ∷ xs) (p, ps) = (f x p, All-map f xs ps)

  -- An order that the comparison decides, up to ties.
  module _ {κ} (before : A → A → Bool) (AtMost : A → A → Type κ)
      (trans : (a b c : A) → AtMost a b → AtMost b c → AtMost a c)
      (ahead : (y x : A) → before y x ≡ true → AtMost x y)
      (behind : (y x : A) → before y x ≡ false → AtMost y x) where
    unfoldable pub LeadsRest : List A → Type κ
    LeadsRest [] = Unit
    LeadsRest (c ∷ rest) = All (λ y. AtMost y c) rest

    LeadsRest-insert : (x : A) (ys : List A) → LeadsRest ys → LeadsRest (insert before x ys)
    unfolding insert LeadsRest
    LeadsRest-insert x [] l = tt
    LeadsRest-insert x (y ∷ ys) l = elim (Bool-cases (before y x)) [
      | inl e ↦ rw e (All-insert (λ z. AtMost z y) before x ys (ahead y x e) l)
      | inr e ↦ rw e (behind y x e, All-map (λ z below. trans z y x below (behind y x e)) ys l)
    ]

    pub LeadsRest-sort : (xs : List A) → LeadsRest (sort before xs)
    unfolding sort LeadsRest
    LeadsRest-sort [] = tt
    LeadsRest-sort (x ∷ xs) = LeadsRest-insert x (sort before xs) (LeadsRest-sort xs)
