-- ===== src/Payout/Amount/Value.antt =====
-- The value that `decimalToBaseUnits` computes.
use mathlib.Core.List.{append_assoc}
use native.Mathlib.Nat.{one-le-pow}
use backend_go.Prelude.{
  ℕ, ◌+◌, ◌-◌, ◌*◌, ◌^◌, ◌≤◌, ◌<◌, true, false, not, none, some, [], ◌∷◌, ◌++◌, Text, trim_right,
  trim_space-none, split, drop_while, length, length-append, length-replicate, replicate, all,
  all-append, all-replicate, any, ◌≡◌, refl, ap, sym, ◌∙◌, arith, Bool-cases, inl, inr,
  if◌then◌else◌, ◌==◌, ltb, ltb→lt, ==_iff, le→ltb_false, ltb_false→le, codes, has_prefix, is_space,
  text_eq,
}
use backend_go.Payout.Amount.{
  Parsed, ok, err, not_positive, too_many_decimals, amount_invalid, amount_required, is_digit,
  digits_only, value_from, is_zero, set_string, combine, or_zero, decimal_to_base_units,
  is_exponent,
}
use backend_go.Payout.Amount.Digits.{
  pow-add, value_from-append, value_from-replicate, le-value_from, zeros_trimmed, all-trim_right,
}

abbrev pub value : Text → ℕ
value = value_from 0

-- what `combine` does with the digits once they are padded
abbrev positive : ℕ → Parsed
positive n = if n == 0 then err not_positive else ok n

abbrev read_digits : Text → Parsed
read_digits [] = err not_positive
read_digits (c ∷ s) = elim (set_string (c ∷ s)) [ none ↦ err amount_invalid | some n ↦ ok n ]

read_digits_lem :
    (s : Text) → digits_only s ≡ true → read_digits (drop_while is_zero s) ≡ positive (value s)
unfolding set_string
read_digits_lem [] h = refl
read_digits_lem (c ∷ s) h = elim (Bool-cases (is_zero c)) [
  | inl e ↦ ground (arith, read_digits_lem s)
  | inr e ↦ ground (arith, le-value_from (0 + (c - 48)) s)
]

abbrev padded : Text → Text → ℕ → Text
padded whole frac decimals = whole ++ (frac ++ replicate (decimals - length frac) b'0')

value-zeros :
    (whole frac : Text) (k : ℕ)
    → value (whole ++ (frac ++ replicate k b'0')) ≡ value (whole ++ frac) * 10 ^ k
value-zeros whole frac k =
    rw (← append_assoc, value_from-append 0 (whole ++ frac), value_from-replicate)

-- the padded digits are the exact value, scaled
padded-value :
    (whole frac : Text) (k decimals : ℕ)
    → length frac ≤ decimals
    → value (padded whole frac decimals) * 10 ^ (length frac + k)
      ≡ value (whole ++ (frac ++ replicate k b'0')) * 10 ^ decimals
padded-value whole frac k decimals h =
    let e : decimals ≡ (decimals - length frac) + length frac = omega arith in
    rw (value-zeros whole frac (decimals - length frac), value-zeros whole frac k)
      (omega (
        arith,
        pow-add 10 (length frac) k,
        ap (λ (t : ℕ). value (whole ++ frac) * 10 ^ k * 10 ^ t) e,
        pow-add 10 (decimals - length frac) (length frac),
        ap (λ (t : ℕ). value (whole ++ frac) * 10 ^ k * t)
            (pow-add 10 (decimals - length frac) (length frac)),
        ap (λ (t : ℕ). value (whole ++ frac) * 10 ^ (decimals - length frac) * t)
            (pow-add 10 (length frac) k),
      ))

-- What a result says of the decimal with these digits before and after the point.
abbrev pub Exact : Text → Text → ℕ → Parsed → Type 0
Exact whole frac decimals (ok n) =
    (0 < n) × (n * 10 ^ length frac ≡ value (whole ++ frac) * 10 ^ decimals)
Exact whole frac decimals (err not_positive) = value (whole ++ frac) ≡ 0
Exact whole frac decimals (err too_many_decimals) = decimals < length (trim_right is_zero frac)
Exact whole frac decimals (err _) = ⊥

padded-digits :
    (whole frac : Text) (decimals : ℕ)
    → digits_only whole ≡ true
    → digits_only frac ≡ true
    → digits_only (padded whole frac decimals) ≡ true
padded-digits whole frac decimals w f =
    rw (all-append, all-append)
      (ground (arith, all-replicate is_digit (decimals - length frac) b'0' refl))

combine-padded :
    (whole frac : Text) (decimals : ℕ)
    → digits_only whole ≡ true
    → digits_only frac ≡ true
    → length (trim_right is_zero frac) ≤ decimals
    → combine whole frac decimals
      ≡ positive (value (padded whole (trim_right is_zero frac) decimals))
unfolding combine
combine-padded whole frac decimals w f h =
    rw (w, f)
      (rw (le→ltb_false _ _ h) (
        read_digits_lem (padded whole (trim_right is_zero frac) decimals) (
          padded-digits whole (trim_right is_zero frac) decimals w
            (all-trim_right is_zero is_digit frac f))))

-- trimming the zeros of the fraction does not change the scaled value
trimmed-value :
    (whole frac : Text) (decimals : ℕ)
    → length (trim_right is_zero frac) ≤ decimals
    → value (padded whole (trim_right is_zero frac) decimals) * 10 ^ length frac
      ≡ value (whole ++ frac) * 10 ^ decimals
trimmed-value whole frac decimals h =
    let f' = trim_right is_zero frac in
    let (k, e) = zeros_trimmed frac in
    let n : length frac ≡ length f' + k =
      ap length e
      ∙ length-append f' (replicate k b'0')
      ∙ ap (λ (t : ℕ). length f' + t) (length-replicate k b'0') in
    ap (λ (t : ℕ). value (padded whole f' decimals) * 10 ^ t) n
    ∙ padded-value whole f' k decimals h
    ∙ ap (λ (t : Text). value (whole ++ t) * 10 ^ decimals) (sym e)

value_of_zero : (v n decimals m : ℕ) → n ≡ 0 → n * m ≡ v * 10 ^ decimals → v ≡ 0
value_of_zero v n decimals m z e = grind (arith, one-le-pow decimals 10)

positive-Exact :
    (whole frac : Text) (decimals n : ℕ)
    → n * 10 ^ length frac ≡ value (whole ++ frac) * 10 ^ decimals
    → Exact whole frac decimals (positive n)
positive-Exact whole frac decimals n e = elim (Bool-cases (n == 0)) [
  | inl z ↦
      rw z
        (value_of_zero (value (whole ++ frac)) n decimals (10 ^ length frac) ((==_iff n 0).0 z) e)
  | inr z ↦ rw z (ground arith, e)
]

combine-too_many :
    (whole frac : Text) (decimals : ℕ)
    → digits_only whole ≡ true
    → digits_only frac ≡ true
    → ltb decimals (length (trim_right is_zero frac)) ≡ true
    → Exact whole frac decimals (combine whole frac decimals)
unfolding combine
combine-too_many whole frac decimals w f e =
    rw (w, f) (rw e (ltb→lt decimals (length (trim_right is_zero frac)) e))

combine-Exact :
    (whole frac : Text) (decimals : ℕ)
    → digits_only whole ≡ true
    → digits_only frac ≡ true
    → Exact whole frac decimals (combine whole frac decimals)
combine-Exact whole frac decimals w f =
    let f' = trim_right is_zero frac in
    elim (Bool-cases (ltb decimals (length f'))) [
      | inl e ↦ combine-too_many whole frac decimals w f e
      | inr e ↦
          rw
            (combine-padded whole frac decimals w f
              (omega (arith, ltb_false→le decimals (length f') e)))
            (positive-Exact whole frac decimals _
              (trimmed-value whole frac decimals (ltb_false→le decimals (length f') e)))
    ]

-- Splitting at the point, and the tests before it, for texts of digits.
split-digits : (s : Text) → digits_only s ≡ true → split b'.' s ≡ s ∷ []
split-digits [] h = refl
split-digits (c ∷ s) h = rw (split-digits s (ground arith)) (ground arith)

split-point :
    (whole frac : Text)
    → digits_only whole ≡ true
    → digits_only frac ≡ true
    → split b'.' (whole ++ b'.' ∷ frac) ≡ whole ∷ frac ∷ []
split-point [] frac w f = rw (split-digits frac f)
split-point (c ∷ s) frac w f = rw (split-point s frac (ground arith) f) (ground arith)

any-exponent_digits : (s : Text) → digits_only s ≡ true → any is_exponent s ≡ false
any-exponent_digits [] h = refl
any-exponent_digits (c ∷ s) h = ground (arith, any-exponent_digits s)

any-exponent_point :
    (whole frac : Text)
    → digits_only whole ≡ true
    → digits_only frac ≡ true
    → any is_exponent (whole ++ b'.' ∷ frac) ≡ false
any-exponent_point [] frac w f = any-exponent_digits frac f
any-exponent_point (c ∷ s) frac w f = ground (arith, any-exponent_point s frac)

digits_no_space : (s : Text) → digits_only s ≡ true → all (λ c. not (is_space c)) s ≡ true
digits_no_space [] h = refl
digits_no_space (c ∷ s) h = ground (arith, digits_no_space s)

no_spaces :
    (whole frac : Text)
    → digits_only whole ≡ true
    → digits_only frac ≡ true
    → all (λ c. not (is_space c)) (whole ++ b'.' ∷ frac) ≡ true
no_spaces whole frac w f =
    rw all-append (ground (arith, digits_no_space whole, digits_no_space frac))

point-nonempty : (whole frac : Text) → text_eq (whole ++ b'.' ∷ frac) [] ≡ false
point-nonempty [] frac = refl
point-nonempty (c ∷ s) frac = refl

point-no_sign :
    (whole frac : Text)
    → digits_only whole ≡ true
    → has_prefix (codes "-") (whole ++ b'.' ∷ frac) ≡ false
point-no_sign [] frac w = refl
point-no_sign (c ∷ s) frac w = ground arith

-- a leading zero does not change the value
weaken_zero :
    (frac : Text) (decimals : ℕ) (r : Parsed)
    → Exact (b'0' ∷ []) frac decimals r
    → Exact [] frac decimals r
weaken_zero frac decimals (ok n) h = h
weaken_zero frac decimals (err not_positive) h = h
weaken_zero frac decimals (err too_many_decimals) h = h
weaken_zero frac decimals (err amount_required) h = h
weaken_zero frac decimals (err amount_invalid) h = h

or_zero-Exact :
    (whole frac : Text) (decimals : ℕ)
    → digits_only whole ≡ true
    → digits_only frac ≡ true
    → Exact whole frac decimals (combine (or_zero whole) frac decimals)
or_zero-Exact [] frac decimals w f =
    weaken_zero frac decimals (combine (b'0' ∷ []) frac decimals)
      (combine-Exact (b'0' ∷ []) frac decimals refl f)
or_zero-Exact (c ∷ s) frac decimals w f = combine-Exact (c ∷ s) frac decimals w f

module _ (whole frac : Text) (decimals : ℕ) (w : digits_only whole ≡ true)
    (f : digits_only frac ≡ true) where
  units-combine :
      decimal_to_base_units (whole ++ b'.' ∷ frac) decimals ≡ combine (or_zero whole) frac decimals
  unfolding decimal_to_base_units
  units-combine = rw (trim_space-none (whole ++ b'.' ∷ frac) (no_spaces whole frac w f)) (
      rw (
        point-nonempty whole frac,
        point-no_sign whole frac w,
        any-exponent_point whole frac w f,
        split-point whole frac w f,
      ))

  -- A decimal is converted exactly: the result is the decimal's value times 10^decimals and is
  -- positive; the amount is refused as not positive only if its value is 0, and as too fine only
  -- if its fraction without trailing zeros has more than `decimals` digits. No other error occurs.
  pub decimal_to_base_units-Exact :
      Exact whole frac decimals (decimal_to_base_units (whole ++ b'.' ∷ frac) decimals)
  decimal_to_base_units-Exact = rw units-combine (or_zero-Exact whole frac decimals w f)
