-- ===== src/Contracts/RoundTrip.antt =====
-- packages/contracts/src/money.ts: an amount that is printed and read again.
use pay.Shared.{
  ℕ, zero, suc, ◌+◌, ◌/◌, ◌%◌, ◌≤◌, ◌≡◌, refl, ap, Bool, true, false, ◌&&◌, ◌||◌, ◌⊎◌, inl, inr,
  List, [], ◌∷◌, ◌++◌, ◌==◌, ok, arith, lt→ltb,
}
use pay.Shared.Int.{pos}
use pay.Parsers.Phone.{is_digit}
use pay.Contracts.Money.{
  digits, minor_to_amount, is_fraction, is_tail, is_amount_text, without_point, value,
  amount_to_minor,
}
use pay.Contracts.Digits.{
  digits-small, value-++, value-digits, digits-IsPositive, is_digit-last, AllDigits, IsPositive,
}
use pay.Contracts.Printing.{minor_to_amount-parts}

||-true : (b : Bool) → (b || true) ≡ true
||-true true = refl
||-true false = refl

digit-not-point : (c : ℕ) → is_digit c ≡ true → (c == b'.') ≡ false
digit-not-point c h = ground arith

without_point-++ : (s t : List ℕ) → AllDigits s → without_point (s ++ (b'.' ∷ t)) ≡ s ++ t
unfolding without_point
without_point-++ [] t hs = refl
without_point-++ (c ∷ cs) t (h, hs) =
    rw (digit-not-point c h) (ap (λ x. c ∷ x) (without_point-++ cs t hs))

module _ (a b : ℕ) (first : is_digit a ≡ true) (second : is_digit b ≡ true) where
  is_tail-++ : (s : List ℕ) → AllDigits s → is_tail (s ++ (b'.' ∷ a ∷ b ∷ [])) ≡ true
  unfolding is_tail is_fraction
  is_tail-++ [] hs = rw (first, second) refl
  is_tail-++ (c ∷ cs) (h, hs) = rw (h, is_tail-++ cs hs) refl

  -- the two shapes of an amount: nothing before the point, or a number without leading zeros
  is_amount_text-++ :
      (s : List ℕ)
      → (s ≡ b'0' ∷ []) ⊎ IsPositive s
      → is_amount_text (s ++ (b'.' ∷ a ∷ b ∷ [])) ≡ true
  unfolding is_amount_text is_fraction
  is_amount_text-++ s (inl none_before) = rw (none_before, first, second) refl
  is_amount_text-++ s (inr (c, cs, same, lead, rest)) =
      rw (same, lead, is_tail-++ cs rest)
        (||-true ((c == b'0') && is_fraction (cs ++ (b'.' ∷ a ∷ b ∷ []))))

all-digits : (s : List ℕ) → (s ≡ b'0' ∷ []) ⊎ IsPositive s → AllDigits s
all-digits s (inl same) = rw same (refl, tt)
all-digits s (inr (c, cs, same, lead, rest)) = rw same (ground arith, rest)

hundreds : (n : ℕ) → let s = digits n n in (s ≡ b'0' ∷ []) ⊎ IsPositive s
hundreds zero = inl (digits-small 0 (omega arith))
hundreds (suc n) = inr (digits-IsPositive (suc n) (suc n) (omega arith) (omega arith))

read-value :
    (n : ℕ)
    → value 0 (digits (n / 100) (n / 100) ++ ((b'0' + n / 10 % 10) ∷ (b'0' + n % 10) ∷ [])) ≡ n
unfolding value
read-value n =
    rw
      (
        value-++ 0 (digits (n / 100) (n / 100)) ((b'0' + n / 10 % 10) ∷ (b'0' + n % 10) ∷ []),
        value-digits (n / 100) (n / 100) (omega arith),
      )
      (omega arith)

-- Every amount of one minor unit or more that is printed for a public answer is read back as the
-- same amount: its text passes the schema of amounts, and `amountToMinor` returns its minor units.
pub amount_to_minor-minor_to_amount :
    (n : ℕ) → 1 ≤ n → amount_to_minor (minor_to_amount (pos n)) ≡ ok (pos n)
unfolding amount_to_minor
amount_to_minor-minor_to_amount n more =
    let s = digits (n / 100) (n / 100) in
    let a = b'0' + n / 10 % 10 in
    let b = b'0' + n % 10 in
    let whole = hundreds (n / 100) in
    rw
      (
        minor_to_amount-parts n,
        is_amount_text-++ a b (is_digit-last (n / 10)) (is_digit-last n) s whole,
        without_point-++ s (a ∷ b ∷ []) (all-digits s whole),
        read-value n,
        lt→ltb 0 n more,
      )
      refl
