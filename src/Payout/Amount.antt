-- ===== src/Payout/Amount.antt =====
-- `decimalToBaseUnits`, `digitsOnly` and `stripHexPrefix` of payout_executor.go. A `big.Int` is a
-- natural number: the text that reaches `SetString` holds digits only.
pub mod Digits
pub mod Value
use backend_go.Prelude.{
  ℕ, ◌+◌, ◌-◌, ◌*◌, Bool, true, false, not, ◌&&◌, ◌||◌, Option, none, some, List, [], ◌∷◌, ◌++◌,
  Text, codes, split, trim_space, trim_right, drop_while, has_prefix, drop, text_eq, length,
  replicate, any, all, leb, ltb, ◌==◌, if◌then◌else◌,
}

pub data AmountError : Type 0 where
  amount_required amount_invalid too_many_decimals not_positive : AmountError

pub data Parsed : Type 0 where
  ok : ℕ → Parsed
  err : AmountError → Parsed

abbrev pub is_digit : ℕ → Bool
is_digit c = leb b'0' c && leb c b'9'

abbrev pub digits_only : Text → Bool
digits_only = all is_digit

-- the value of a text of digits, read after `n`
abbrev pub value_from : ℕ → Text → ℕ
value_from n [] = n
value_from n (c ∷ s) = value_from (n * 10 + (c - 48)) s

-- new(big.Int).SetString(s, 10), for a text without a sign
unfoldable pub set_string : Text → Option ℕ
set_string [] = none
set_string (c ∷ s) = if digits_only (c ∷ s) then some (value_from 0 (c ∷ s)) else none

abbrev pub or_zero : Text → Text
or_zero [] = b'0' ∷ []
or_zero (c ∷ s) = c ∷ s

abbrev pub is_zero : ℕ → Bool
is_zero c = c == b'0'

-- the digits of the number, once the text is cut at the point
unfoldable pub combine : Text → Text → ℕ → Parsed
unfolding trim_right set_string
combine whole frac decimals =
    let frac' = trim_right is_zero frac in
    if not (digits_only whole) || not (digits_only frac)
    then err amount_invalid
    else if ltb decimals (length frac')
    then err too_many_decimals
    else let combined =
        drop_while is_zero (whole ++ (frac' ++ replicate (decimals - length frac') b'0')) in
      elim combined [
        | [] ↦ err not_positive
        | c ∷ s ↦ elim (set_string (c ∷ s)) [ none ↦ err amount_invalid | some n ↦ ok n ]
      ]

abbrev pub of_parts : List Text → ℕ → Parsed
of_parts [] decimals = err amount_invalid
of_parts (whole ∷ []) decimals = combine (or_zero whole) [] decimals
of_parts (whole ∷ (frac ∷ [])) decimals = combine (or_zero whole) frac decimals
of_parts (whole ∷ (frac ∷ (third ∷ rest))) decimals = err amount_invalid

abbrev pub is_exponent : ℕ → Bool
is_exponent c = c == b'e' || c == b'E'

-- `decimals` is not negative in any call, so the first check of the source never fails.
unfoldable pub decimal_to_base_units : Text → ℕ → Parsed
unfolding trim_space combine
decimal_to_base_units raw decimals =
    let value = trim_space raw in
    if text_eq value []
    then err amount_required
    else if has_prefix (codes "-") value || any is_exponent value
    then err amount_invalid
    else of_parts (split b'.' value) decimals

unfoldable pub strip_hex_prefix : Text → Text
unfolding trim_space
strip_hex_prefix v =
    let s = trim_space v in
    if has_prefix (codes "0x") s || has_prefix (codes "0X") s then drop 2 s else s
