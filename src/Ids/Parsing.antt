-- ===== src/Ids/Parsing.antt =====
-- Parsing what `New` of ids.go makes.
use backend_go.Prelude.{
  ℕ, zero, suc, ◌+◌, ◌/◌, ◌%◌, ◌<◌, Bool, true, not, ◌&&◌, some, [], ◌∷◌, Text, length,
  length-append, all, all-append, trim_space, trim_space-none, to_upper, upper, is_space, ◌≡◌, refl,
  ap, ◌∙◌, sym, arith, ◌==◌, passes_below, passes_below_lem,
}
use backend_go.Ids.{
  symbol, encode_from, encode_time, BigInt80, set_bytes, mod32, div32, encode_random_from,
  encode_random, new, is_crockford, is_valid, parse,
}

upper_idem : (s : Text) → to_upper (to_upper s) ≡ to_upper s
upper_idem [] = refl
upper_idem (c ∷ s) = cc (upper_twice c, upper_idem s)
  where
    upper_twice : (c : ℕ) → upper (upper c) ≡ upper c
    upper_twice c = ground arith

no_space : (c : ℕ) → is_crockford (upper c) ≡ true → not (is_space c) ≡ true
unfolding is_crockford
no_space c h = ground arith

no_spaces :
    (s : Text) → all (λ c. is_crockford (upper c)) s ≡ true → all (λ c. not (is_space c)) s ≡ true
no_spaces [] h = refl
no_spaces (c ∷ s) h = ground (arith, no_space c, no_spaces s)

valid_chars : (s : Text) → is_valid s ≡ true → all (λ c. is_crockford (upper c)) s ≡ true
unfolding is_valid
valid_chars s h = ground arith

valid_trim : (s : Text) → is_valid s ≡ true → trim_space s ≡ s
valid_trim s h = trim_space-none s (no_spaces s (valid_chars s h))

parse_inversion :
    (raw id : Text)
    → parse raw ≡ some id
    → (is_valid (to_upper (trim_space raw)) ≡ true) × (to_upper (trim_space raw) ≡ id)
unfolding parse
parse_inversion raw id h = ground arith

parse_valid : (id : Text) → is_valid id ≡ true → to_upper id ≡ id → parse id ≡ some id
unfolding parse
parse_valid id v u = rw (valid_trim id v, u, v)

-- What `Parse` returns is a valid id in upper case, and `Parse` leaves it as it is.
pub parse-canonical :
    (raw id : Text)
    → parse raw ≡ some id
    → (is_valid id ≡ true) × (to_upper id ≡ id) × (parse id ≡ some id)
parse-canonical raw id h =
    let (v, e) = parse_inversion raw id h in
    let valid : is_valid id ≡ true = rw e at v in
    let up : to_upper id ≡ id = ap to_upper (sym e) ∙ upper_idem (trim_space raw) ∙ e in
    (valid, up, parse_valid id valid up)

length-encode_from : (n v : ℕ) (out : Text) → length (encode_from n v out) ≡ n + length out
unfolding encode_from
length-encode_from zero v out = omega arith
length-encode_from (suc n) v out =
    omega (arith, length-encode_from n (v / 32) (symbol (v % 32) ∷ out))

-- a symbol of the alphabet is a Crockford character in upper case
abbrev is_symbol : ℕ → Bool
is_symbol c = is_crockford (upper c) && upper c == c

symbol_table : passes_below (λ v. is_symbol (symbol v)) 32 ≡ true
unfolding passes_below symbol is_crockford
symbol_table = refl

symbol-is_symbol : (v : ℕ) → v < 32 → is_symbol (symbol v) ≡ true
symbol-is_symbol v h = passes_below_lem (λ x. is_symbol (symbol x)) 32 v h symbol_table

all-encode_from :
    (n v : ℕ) (out : Text) → all is_symbol out ≡ true → all is_symbol (encode_from n v out) ≡ true
unfolding encode_from
all-encode_from zero v out h = h
all-encode_from (suc n) v out h =
    all-encode_from n (v / 32) (symbol (v % 32) ∷ out)
      (rw (symbol-is_symbol (v % 32) (omega arith)) h)

mod32-small : (v : BigInt80) → mod32 v < 32
unfolding mod32
mod32-small v = omega arith

length-encode_random_from :
    (n : ℕ) (v : BigInt80) (out : Text) → length (encode_random_from n v out) ≡ n + length out
unfolding encode_random_from
length-encode_random_from zero v out = omega arith
length-encode_random_from (suc n) v out =
    omega (arith, length-encode_random_from n (div32 v) (symbol (mod32 v) ∷ out))

valid_of :
    (s : Text) → length s ≡ 26 → all (λ c. is_crockford (upper c)) s ≡ true → is_valid s ≡ true
unfolding is_valid
valid_of s n h = rw (n, h)

all-encode_random_from :
    (n : ℕ) (v : BigInt80) (out : Text)
    → all is_symbol out ≡ true
    → all is_symbol (encode_random_from n v out) ≡ true
unfolding encode_random_from
all-encode_random_from zero v out h = h
all-encode_random_from (suc n) v out h =
    all-encode_random_from n (div32 v) (symbol (mod32 v) ∷ out)
      (rw (symbol-is_symbol (mod32 v) (mod32-small v)) h)

symbols_valid :
    (s : Text)
    → all is_symbol s ≡ true
    → (all (λ c. is_crockford (upper c)) s ≡ true) × (to_upper s ≡ s)
symbols_valid [] h = (refl, refl)
symbols_valid (c ∷ s) h = ground (arith, symbols_valid s)

-- `Parse` accepts every id that `New` makes, and returns it unchanged.
pub parse-new : (ms b0 b1 : ℕ) (rest : Text) → parse (new ms b0 b1 rest) ≡ some (new ms b0 b1 rest)
unfolding new encode_time encode_random
parse-new ms b0 b1 rest =
    let v = set_bytes b0 b1 rest in
    let (chars, up) =
      symbols_valid (new ms b0 b1 rest) (
        rw all-append (rw (all-encode_from 10 ms [] refl) (all-encode_random_from 16 v [] refl))) in
    parse_valid (new ms b0 b1 rest)
      (valid_of (new ms b0 b1 rest)
        (rw length-append
          (omega (arith, length-encode_from 10 ms [], length-encode_random_from 16 v [])))
        chars)
      up
