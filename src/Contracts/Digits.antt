-- ===== src/Contracts/Digits.antt =====
-- packages/contracts/src/money.ts: the digits of a number.
use pay.Shared.{
  ℕ, zero, suc, ◌+◌, ◌-◌, ◌*◌, ◌/◌, ◌%◌, ◌≤◌, ◌<◌, ◌≡◌, refl, ap, true, false, ◌&&◌, inl, inr,
  Bool-cases, List, [], ◌∷◌, ◌++◌, ltb, leb, if◌then◌else◌, arith, All, lt→ltb,
}
use pay.Parsers.Phone.{is_digit}
use pay.Contracts.Money.{digits, value}

-- any fuel that is at least the number prints the same
digits-fuel : (f g n : ℕ) → n ≤ f → n ≤ g → digits f n ≡ digits g n
unfolding digits
digits-fuel zero zero n hf hg = refl
digits-fuel zero (suc g) n hf hg = rw (lt→ltb n 10 (omega (arith, hf))) refl
digits-fuel (suc f) zero n hf hg = rw (lt→ltb n 10 (omega (arith, hg))) refl
digits-fuel (suc f) (suc g) n hf hg =
    ap (λ (x : List ℕ). if ltb n 10 then (b'0' + n) ∷ [] else x ++ ((b'0' + n % 10) ∷ []))
      (digits-fuel f g (n / 10) (omega (arith, hf)) (omega (arith, hg)))

pub digits-small : (n : ℕ) → n < 10 → digits n n ≡ (b'0' + n) ∷ []
unfolding digits
digits-small zero h = refl
digits-small (suc n) h = rw (lt→ltb (suc n) 10 h) refl

large-ltb : (n : ℕ) → 10 ≤ n → ltb n 10 ≡ false
large-ltb n h = ground arith

pub digits-step : (n : ℕ) → 10 ≤ n → digits n n ≡ digits (n / 10) (n / 10) ++ ((b'0' + n % 10) ∷ [])
unfolding digits
digits-step zero h = let never : ⊥ = omega (arith, h) in elim never [ ]
digits-step (suc n) h = rw (large-ltb (suc n) h) (
    ap (λ (x : List ℕ). x ++ ((b'0' + suc n % 10) ∷ []))
      (digits-fuel n (suc n / 10) (suc n / 10) (omega (arith, h)) (omega arith)))

-- the value of a text that goes on
pub value-++ : (x : ℕ) (s t : List ℕ) → value x (s ++ t) ≡ value (value x s) t
unfolding value
value-++ x [] t = refl
value-++ x (c ∷ cs) t = value-++ (x * 10 + (c - b'0')) cs t

pub value-digits : (f n : ℕ) → n ≤ f → value 0 (digits f n) ≡ n
unfolding digits value
value-digits zero n h = omega (arith, h)
value-digits (suc f) n h = elim (Bool-cases (ltb n 10)) [
  | inl small ↦ rw small (omega arith)
  | inr large ↦
      rw
        (
          large,
          value-++ 0 (digits f (n / 10)) ((b'0' + n % 10) ∷ []),
          value-digits f (n / 10) (omega (arith, h)),
        )
        (omega arith)
]

abbrev pub AllDigits : List ℕ → Type 0
AllDigits s = All (λ c. is_digit c ≡ true) s

-- a numeral without leading zeros
abbrev pub IsPositive : List ℕ → Type 0
IsPositive s =
    (c : ℕ) × (cs : List ℕ) × (s ≡ c ∷ cs) × ((leb b'1' c && leb c b'9') ≡ true) × AllDigits cs

AllDigits-++ : (s : List ℕ) (d : ℕ) → AllDigits s → is_digit d ≡ true → AllDigits (s ++ (d ∷ []))
AllDigits-++ [] d hs hd = (hd, tt)
AllDigits-++ (c ∷ cs) d (h, hs) hd = (h, AllDigits-++ cs d hs hd)

pub is_digit-last : (n : ℕ) → is_digit (b'0' + n % 10) ≡ true
is_digit-last n = ground arith

pub digits-IsPositive : (f n : ℕ) → 1 ≤ n → n ≤ f → IsPositive (digits f n)
unfolding digits
digits-IsPositive zero n some_n h = let never : ⊥ = omega (arith, some_n, h) in elim never [ ]
digits-IsPositive (suc f) n some_n h = elim (Bool-cases (ltb n 10)) [
  | inl small ↦ rw small (b'0' + n, [], refl, ground arith, tt)
  | inr large ↦
      let (c, cs, same, lead, rest) =
        digits-IsPositive f (n / 10) (ground arith) (omega (arith, h)) in
      rw (large, same)
        (
          c,
          cs ++ ((b'0' + n % 10) ∷ []),
          refl,
          lead,
          AllDigits-++ cs (b'0' + n % 10) rest (is_digit-last n),
        )
]
