-- ===== src/Contracts/Printing.antt =====
-- packages/contracts/src/money.ts: the text of an amount.
use pay.Shared.{
  ℕ, ◌+◌, ◌-◌, ◌/◌, ◌%◌, ◌≤◌, ◌<◌, ◌≡◌, refl, ap, inl, inr, Bool-cases, List, [], ◌∷◌, ◌++◌, ltb,
  arith, ltb→lt,
}
use mathlib.Core.List.{append_assoc}
use pay.Shared.Int.{pos}
use pay.Contracts.Money.{digits, length, zeros, pad_start, but_last_two, last_two, minor_to_amount}
use pay.Contracts.Digits.{digits-small, digits-step, digits-IsPositive, IsPositive}

-- a text that ends in two given digits
abbrev ending : List ℕ → (a b : ℕ) → List ℕ
ending s a b = s ++ (a ∷ b ∷ [])

but_last_two-ending : (s : List ℕ) (a b : ℕ) → but_last_two (ending s a b) ≡ s
unfolding but_last_two
but_last_two-ending [] a b = refl
but_last_two-ending (c ∷ []) a b = refl
but_last_two-ending (c ∷ d ∷ []) a b = refl
but_last_two-ending (c ∷ d ∷ e ∷ rest) a b =
    ap (λ x. c ∷ x) (but_last_two-ending (d ∷ e ∷ rest) a b)

last_two-ending : (s : List ℕ) (a b : ℕ) → last_two (ending s a b) ≡ a ∷ b ∷ []
unfolding last_two
last_two-ending [] a b = refl
last_two-ending (c ∷ []) a b = refl
last_two-ending (c ∷ d ∷ []) a b = refl
last_two-ending (c ∷ d ∷ e ∷ rest) a b = last_two-ending (d ∷ e ∷ rest) a b

length-ending : (s : List ℕ) (a b : ℕ) → 2 ≤ length (ending s a b)
unfolding length
length-ending [] a b = omega arith
length-ending (c ∷ cs) a b = omega (arith, length-ending cs a b)

-- a text of three characters or more is not padded
pad-long : (s : List ℕ) → 3 ≤ length s → pad_start 3 s ≡ s
unfolding pad_start zeros
pad-long s h = let none_left : 3 - length s ≡ 0 = omega (arith, h) in rw none_left refl

pad-positive : (s : List ℕ) (a b : ℕ) → IsPositive s → pad_start 3 (ending s a b) ≡ ending s a b
unfolding length
pad-positive s a b (c, cs, same, _, _) =
    rw same (pad-long (ending (c ∷ cs) a b) (omega (arith, length-ending cs a b)))

tenth-tenth : (n : ℕ) → n / 10 / 10 ≡ n / 100
tenth-tenth n = omega arith

tiny :
    (n : ℕ)
    → n < 10
    → pad_start 3 (digits n n)
      ≡ ending (digits (n / 100) (n / 100)) (b'0' + n / 10 % 10) (b'0' + n % 10)
unfolding pad_start length zeros
tiny n h =
    let hundreds : n / 100 ≡ 0 = omega (arith, h) in
    let tens : n / 10 % 10 ≡ 0 = omega (arith, h) in
    let units : n % 10 ≡ n = omega (arith, h) in
    rw (digits-small n h, hundreds, tens, units, digits-small 0 (omega arith)) refl

middling :
    (n : ℕ)
    → 10 ≤ n
    → n < 100
    → pad_start 3 (digits n n)
      ≡ ending (digits (n / 100) (n / 100)) (b'0' + n / 10 % 10) (b'0' + n % 10)
unfolding pad_start length zeros
middling n h k =
    let hundreds : n / 100 ≡ 0 = omega (arith, k) in
    let tens : n / 10 % 10 ≡ n / 10 = omega (arith, k) in
    rw
      (
        digits-step n h,
        digits-small (n / 10) (omega (arith, k)),
        hundreds,
        tens,
        digits-small 0 (omega arith),
      )
      refl

long :
    (n : ℕ)
    → 100 ≤ n
    → pad_start 3 (digits n n)
      ≡ ending (digits (n / 100) (n / 100)) (b'0' + n / 10 % 10) (b'0' + n % 10)
long n h =
    let whole : digits n n
        ≡ ending (digits (n / 100) (n / 100)) (b'0' + n / 10 % 10) (b'0' + n % 10) =
      rw (digits-step n (omega (arith, h)), digits-step (n / 10) (omega (arith, h)), tenth-tenth n)
        (append_assoc (digits (n / 100) (n / 100)) ((b'0' + n / 10 % 10) ∷ [])
          ((b'0' + n % 10) ∷ [])) in
    rw whole (
      pad-positive (digits (n / 100) (n / 100)) (b'0' + n / 10 % 10) (b'0' + n % 10)
        (digits-IsPositive (n / 100) (n / 100) (omega (arith, h)) (omega arith)))

-- the padded digits of a number are those of its hundreds, and two more
pad-digits :
    (n : ℕ)
    → pad_start 3 (digits n n)
      ≡ ending (digits (n / 100) (n / 100)) (b'0' + n / 10 % 10) (b'0' + n % 10)
pad-digits n = elim (Bool-cases (ltb n 10)) [
  | inl small ↦ tiny n (ltb→lt n 10 small)
  | inr more ↦ elim (Bool-cases (ltb n 100)) [
    | inl small ↦ middling n (ground arith) (ltb→lt n 100 small)
    | inr large ↦ long n (ground arith)
  ]
]

-- the text of an amount: its hundreds, a point, and two digits
pub minor_to_amount-parts :
    (n : ℕ)
    → minor_to_amount (pos n)
      ≡ digits (n / 100) (n / 100) ++ (b'.' ∷ (b'0' + n / 10 % 10) ∷ (b'0' + n % 10) ∷ [])
unfolding minor_to_amount
minor_to_amount-parts n =
    let s = digits (n / 100) (n / 100) in
    rw
      (
        pad-digits n,
        but_last_two-ending s (b'0' + n / 10 % 10) (b'0' + n % 10),
        last_two-ending s (b'0' + n / 10 % 10) (b'0' + n % 10),
      )
      refl
