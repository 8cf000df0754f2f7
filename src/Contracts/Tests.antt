-- ===== src/Contracts/Tests.antt =====
-- Amounts at concrete values.
use pay.Shared.{◌≡◌, refl, ok, err, validation_error, arith}
use pay.Shared.Int.{pos, negsuc}
use pay.Parsers.Phone.{codes}
use pay.Contracts.Money.{
  digits, length, zeros, pad_start, but_last_two, last_two, minor_to_amount, is_fraction, is_tail,
  is_amount_text, without_point, value, amount_to_minor,
}
use pay.Contracts.RoundTrip.{amount_to_minor-minor_to_amount}

amounts : Unit {0}
unfolding digits length zeros pad_start but_last_two last_two minor_to_amount is_fraction is_tail
    is_amount_text without_point value amount_to_minor
amounts = tt

-- five minor units, and a debt
prints :
    (minor_to_amount (pos 5) ≡ codes "0.05") × (minor_to_amount (negsuc 123456) ≡ codes "-1234.57")
unfolding amounts
prints = (refl, refl)

-- a leading zero, three decimals, nothing at all and zero are refused
refuses :
    (amount_to_minor (codes "01.00") ≡ err validation_error)
    × (amount_to_minor (codes "1.000") ≡ err validation_error)
    × (amount_to_minor (codes "") ≡ err validation_error)
    × (amount_to_minor (codes "0.00") ≡ err validation_error)
unfolding amounts
refuses = (refl, refl, refl, refl)

amount_to_minor-minor_to_amount_example :
    amount_to_minor (minor_to_amount (pos 123450)) ≡ ok (pos 123450)
amount_to_minor-minor_to_amount_example = amount_to_minor-minor_to_amount 123450 (omega arith)
