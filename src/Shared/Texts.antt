-- ===== src/Shared/Texts.antt =====
-- Texts: what the services do with strings besides comparing them.
use Prim.Native.String.{String}
use pay.Shared.{ℕ, ◌+◌, leb, if◌then◌else◌}

-- `${a}${b}`
unfoldable pub append : String → String → String
append String.[] text = text
append (String.◌∷◌ c s) text = String.◌∷◌ c (append s text)

unfoldable pub text_length : String → ℕ
text_length String.[] = 0
text_length (String.◌∷◌ c s) = text_length s + 1

-- `slice(-4)`
unfoldable pub slice_last_four : String → String
unfolding text_length
slice_last_four String.[] = String.[]
slice_last_four (String.◌∷◌ c s) =
    let rest = slice_last_four s in if leb 4 (text_length s) then rest else String.◌∷◌ c s
