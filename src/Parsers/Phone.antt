-- ===== src/Parsers/Phone.antt =====
-- apps/api/src/parsers/sms-parser.ts: whether a masked number of a provider SMS can be a given
-- Ethiopian phone. A text is its code points.
use Prim.Native.Char.{code}
use Prim.Native.String.{String}
use pay.Shared.{ℕ, Bool, true, false, ◌&&◌, ◌||◌, List, [], ◌∷◌, ◌==◌, leb, if◌then◌else◌, any}

abbrev pub codes : String → List ℕ
codes String.[] = []
codes (String.◌∷◌ c s) = code c ∷ codes s

abbrev pub is_digit : ℕ → Bool
is_digit c = leb b'0' c && leb c b'9'

abbrev pub is_empty : List ℕ → Bool
is_empty [] = true
is_empty (c ∷ cs) = false

-- `replace(/\D/g, '')`
unfoldable pub digits_only : List ℕ → List ℕ
digits_only [] = []
digits_only (c ∷ cs) = if is_digit c then c ∷ digits_only cs else digits_only cs

-- `startsWith`
unfoldable pub starts_with : List ℕ → List ℕ → Bool
starts_with [] text = true
starts_with (p ∷ ps) [] = false
starts_with (p ∷ ps) (c ∷ cs) = (p == c) && starts_with ps cs

unfoldable pub same_text : List ℕ → List ℕ → Bool
same_text [] [] = true
same_text [] (c ∷ cs) = false
same_text (p ∷ ps) [] = false
same_text (p ∷ ps) (c ∷ cs) = (p == c) && same_text ps cs

-- `endsWith`: some tail of the text is the suffix
unfoldable pub ends_with : List ℕ → List ℕ → Bool
unfolding same_text
ends_with suffix [] = same_text suffix []
ends_with suffix (c ∷ cs) = same_text suffix (c ∷ cs) || ends_with suffix cs

-- `digits.startsWith('251') ? digits.slice(3) : digits.replace(/^0/, '')`
unfoldable pub without_country : List ℕ → List ℕ
without_country (a ∷ b ∷ c ∷ rest) =
    if (a == b'2') && ((b == b'5') && (c == b'1'))
    then rest
    else if a == b'0'
    then b ∷ c ∷ rest
    else a ∷ b ∷ c ∷ rest
without_country (a ∷ rest) = if a == b'0' then rest else a ∷ rest
without_country [] = []

unfoldable pub matches_masked_ethiopian_phone : (phone prefix suffix : List ℕ) → Bool
unfolding digits_only starts_with ends_with without_country any
matches_masked_ethiopian_phone phone prefix suffix =
    if is_empty suffix
    then false
    else (let digits = digits_only phone in
        let bare = without_country digits in
        any (λ variant. ends_with suffix variant && (is_empty prefix || starts_with prefix variant))
          (digits ∷ bare ∷ (b'0' ∷ bare) ∷ []))
