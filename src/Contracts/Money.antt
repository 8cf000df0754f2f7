-- ===== src/Contracts/Money.antt =====
-- packages/contracts/src/money.ts: amounts in minor units and as decimal texts. A text is its code
-- points.
use pay.Shared.{
  ℕ, zero, suc, ◌+◌, ◌-◌, ◌*◌, ◌/◌, ◌%◌, Bool, false, ◌&&◌, ◌||◌, List, [], ◌∷◌, ◌++◌, ◌==◌, ltb,
  leb, if◌then◌else◌, Result, ok, ◌>>◌, require, validation_error,
}
use pay.Shared.Int.{ℤ, pos, negsuc}
use pay.Parsers.Phone.{is_digit}

-- `toString` of a number, on fuel; a number is its own fuel
unfoldable pub digits : (fuel n : ℕ) → List ℕ
digits zero n = (b'0' + n) ∷ []
digits (suc fuel) n =
    let rest = digits fuel (n / 10) in
    if ltb n 10 then (b'0' + n) ∷ [] else rest ++ ((b'0' + n % 10) ∷ [])

unfoldable pub length : List ℕ → ℕ
length [] = 0
length (c ∷ cs) = 1 + length cs

-- `padStart(size, '0')`
unfoldable pub zeros : ℕ → List ℕ
zeros zero = []
zeros (suc n) = b'0' ∷ zeros n

unfoldable pub pad_start : (size : ℕ) → List ℕ → List ℕ
unfolding zeros length
pad_start size text = zeros (size - length text) ++ text

-- `slice(0, -2)` and `slice(-2)`
unfoldable pub but_last_two : List ℕ → List ℕ
but_last_two [] = []
but_last_two (a ∷ []) = []
but_last_two (a ∷ b ∷ []) = []
but_last_two (a ∷ b ∷ c ∷ rest) = a ∷ but_last_two (b ∷ c ∷ rest)

unfoldable pub last_two : List ℕ → List ℕ
last_two [] = []
last_two (a ∷ []) = a ∷ []
last_two (a ∷ b ∷ []) = a ∷ b ∷ []
last_two (a ∷ b ∷ c ∷ rest) = last_two (b ∷ c ∷ rest)

abbrev amount_text : List ℕ → List ℕ
amount_text raw = but_last_two raw ++ (b'.' ∷ last_two raw)

-- `minorToAmount`
unfoldable pub minor_to_amount : ℤ → List ℕ
unfolding but_last_two last_two pad_start digits
minor_to_amount (pos n) = amount_text (pad_start 3 (digits n n))
minor_to_amount (negsuc n) = b'-' ∷ amount_text (pad_start 3 (digits (suc n) (suc n)))

-- `\.\d{2}$`
unfoldable pub is_fraction : List ℕ → Bool
is_fraction (point ∷ a ∷ b ∷ []) = (point == b'.') && (is_digit a && is_digit b)
is_fraction _ = false

-- `\d*\.\d{2}$`
unfoldable pub is_tail : List ℕ → Bool
unfolding is_fraction
is_tail [] = false
is_tail (c ∷ cs) = (is_digit c && is_tail cs) || is_fraction (c ∷ cs)

-- `/^(0|[1-9]\d*)\.\d{2}$/`
unfoldable pub is_amount_text : List ℕ → Bool
unfolding is_tail is_fraction
is_amount_text [] = false
is_amount_text (c ∷ cs) =
    ((c == b'0') && is_fraction cs) || ((leb b'1' c && leb c b'9') && is_tail cs)

-- `value.replace('.', '')`
unfoldable pub without_point : List ℕ → List ℕ
without_point [] = []
without_point (c ∷ cs) = if c == b'.' then cs else c ∷ without_point cs

-- `BigInt` of digits
unfoldable pub value : (so_far : ℕ) → List ℕ → ℕ
value so_far [] = so_far
value so_far (c ∷ cs) = value (so_far * 10 + (c - b'0')) cs

-- `amountToMinor`, with the schema's two tests
unfoldable pub amount_to_minor : List ℕ → Result ℤ
unfolding is_amount_text value without_point
amount_to_minor text = do
  require (is_amount_text text) validation_error
  require (ltb 0 (value 0 (without_point text))) validation_error
  ok (pos (value 0 (without_point text)))
