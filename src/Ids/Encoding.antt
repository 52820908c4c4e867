-- ===== src/Ids/Encoding.antt =====
-- Reading an id in base 32.
use mathlib.Core.Path.{subst}
use native.Mathlib.Nat.{pow-suc, pow-zero, one-le-pow, mod-eq_of_lt, lt_of_lt_of_le}
use backend_go.Prelude.{
  ℕ, zero, suc, ◌+◌, ◌*◌, ◌/◌, ◌%◌, ◌^◌, ◌≤◌, ◌<◌, true, [], ◌∷◌, ◌++◌, Text, length, ◌≡◌, refl, ap,
  ◌∙◌, sym, arith, All, ◌==◌, passes_below, passes_below_lem, ==_iff, if◌then◌else◌,
}
use backend_go.Ids.{
  crockford, symbol, encode_from, encode_time, BigInt80, shift_in, set_bytes, mod32, div32,
  encode_random_from, encode_random, new,
}

-- the number that `hi` and `lo` stand for
abbrev pub number : BigInt80 → ℕ
number v = v.hi * 2 ^ 64 + v.lo

pub mod32-number : (v : BigInt80) → mod32 v ≡ number v % 32
unfolding mod32
mod32-number v = omega arith

pub number-div32 : (v : BigInt80) → v.lo < 2 ^ 64 → number (div32 v) ≡ number v / 32
unfolding div32
number-div32 v h = omega arith

div32-fits : (v : BigInt80) → v.lo < 2 ^ 64 → (div32 v).lo < 2 ^ 64
unfolding div32
div32-fits v h = omega arith

-- The two words are written as the one number that they stand for.
pub encode_random_from-number :
    (n : ℕ) (v : BigInt80) (out : Text)
    → v.lo < 2 ^ 64
    → encode_random_from n v out ≡ encode_from n (number v) out
unfolding encode_random_from encode_from
encode_random_from-number zero v out h = refl
encode_random_from-number (suc n) v out h =
    encode_random_from-number n (div32 v) (symbol (mod32 v) ∷ out) (div32-fits v h)
    ∙ ap (λ k. encode_from n k (symbol (mod32 v) ∷ out)) (number-div32 v h)
    ∙ ap (λ k. encode_from n (number v / 32) (symbol k ∷ out)) (mod32-number v)

-- reading a symbol back, by its place in the alphabet
abbrev place_from : ℕ → Text → ℕ → ℕ
place_from i [] c = i
place_from i (a ∷ s) c = let rest = place_from (i + 1) s c in if a == c then i else rest

pub digit : ℕ → ℕ
digit c = place_from 0 crockford c

abbrev pub decode_from : ℕ → Text → ℕ
decode_from n [] = n
decode_from n (c ∷ s) = decode_from (n * 32 + digit c) s

abbrev pub decode : Text → ℕ
decode = decode_from 0

digit_table : passes_below (λ v. digit (symbol v) == v) 32 ≡ true
unfolding passes_below digit symbol
digit_table = refl

digit-symbol : (v : ℕ) → v < 32 → digit (symbol v) ≡ v
digit-symbol v h = (==_iff _ v).0 (passes_below_lem _ 32 v h digit_table)

pow_pos : (n : ℕ) → 0 < 32 ^ n
pow_pos zero = simp pow-zero (omega arith)
pow_pos (suc n) = simp pow-suc (omega (arith, pow_pos n))

start_value : (k v : ℕ) → v < 32 ^ 0 → k ≡ k * 32 ^ 0 + v
start_value k v h = simp pow-zero (omega (arith, simp pow-zero at h))

quotient_small : (n v : ℕ) → v < 32 ^ suc n → v / 32 < 32 ^ n
quotient_small n v h = omega (arith, simp pow-suc at h)

step_value : (k n v : ℕ) → (k * 32 ^ n + v / 32) * 32 + digit (symbol (v % 32)) ≡ k * 32 ^ suc n + v
step_value k n v = rw (digit-symbol (v % 32) (omega arith), pow-suc) (omega arith)

-- decoding what was encoded before `out`
decode-encode_from :
    (n v : ℕ) (out : Text) (k : ℕ)
    → v < 32 ^ n
    → decode_from k (encode_from n v out) ≡ decode_from (k * 32 ^ n + v) out
unfolding encode_from
decode-encode_from zero v out k h = ap (λ t. decode_from t out) (start_value k v h)
decode-encode_from (suc n) v out k h =
    decode-encode_from n (v / 32) (symbol (v % 32) ∷ out) k (quotient_small n v h)
    ∙ ap (λ t. decode_from t out) (step_value k n v)

decode_from-append : (k : ℕ) (s t : Text) → decode_from k (s ++ t) ≡ decode_from (decode_from k s) t
decode_from-append k [] t = refl
decode_from-append k (c ∷ s) t = decode_from-append (k * 32 + digit c) s t

-- bytes as a big-endian number, and no bit of it lost by `set_bytes`
abbrev pub bytes_from : ℕ → Text → ℕ
bytes_from n [] = n
bytes_from n (b ∷ bytes) = bytes_from (n * 256 + b) bytes

abbrev pub IsByte : ℕ → Type 0
IsByte b = b < 256

room :
    (lo b p : ℕ) → b < 256 → (lo + 1) * (p * 256) ≤ 2 ^ 64 → 1 ≤ p → (lo * 256 + b + 1) * p ≤ 2 ^ 64
room lo b p h k l = grind arith

no_wrap : (lo p : ℕ) → (lo + 1) * (p * 256) ≤ 2 ^ 64 → 1 ≤ p → lo * 256 % 2 ^ 64 ≡ lo * 256
no_wrap lo p k l = mod-eq_of_lt (grind arith)

grow : (lo b p : ℕ) → b < 256 → (lo * 256 + b + 1) * p ≤ (lo + 1) * (p * 256)
grow lo b p h = grind arith

shift_in-bytes :
    (lo : ℕ) (bytes : Text)
    → All IsByte bytes
    → (lo + 1) * 256 ^ length bytes ≤ 2 ^ 64
    → (shift_in lo bytes ≡ bytes_from lo bytes)
      × (bytes_from lo bytes < (lo + 1) * 256 ^ length bytes)
shift_in-bytes lo [] h k = (refl, simp pow-zero (omega arith))
shift_in-bytes lo (b ∷ bytes) h k =
    let p = 256 ^ length bytes in
    let fits : (lo + 1) * (p * 256) ≤ 2 ^ 64 =
      subst (λ t. (lo + 1) * t ≤ 2 ^ 64) (pow-suc 256 (length bytes)) k in
    let pos : 1 ≤ p = one-le-pow (length bytes) 256 (omega arith) in
    let (same, small) = shift_in-bytes (lo * 256 + b) bytes h.1 (room lo b p h.0 fits pos) in
    (
      ap (λ t. shift_in (t + b) bytes) (no_wrap lo p fits pos) ∙ same,
      subst (λ t. bytes_from (lo * 256 + b) bytes < (lo + 1) * t) (sym (pow-suc 256 (length bytes)))
          (lt_of_lt_of_le small (grow lo b p h.0)),
    )

bytes_from-split : (n : ℕ) (s : Text) → bytes_from n s ≡ n * 256 ^ length s + bytes_from 0 s
bytes_from-split n [] = simp pow-zero (omega arith)
bytes_from-split n (b ∷ s) =
    simp pow-suc (omega (arith, bytes_from-split (n * 256 + b) s, bytes_from-split (0 * 256 + b) s))

module _ (b0 b1 : ℕ) (rest : Text) (h0 : b0 < 256) (h1 : b1 < 256) (bytes : All IsByte rest)
    (eight : length rest ≡ 8) where
  full : (0 + 1) * 256 ^ length rest ≤ 2 ^ 64
  full = rw eight (omega arith)

  split_at_64 :
      bytes_from ((0 + b0) * 256 + b1) rest ≡ ((0 + b0) * 256 + b1) * 2 ^ 64 + bytes_from 0 rest
  split_at_64 =
      bytes_from-split ((0 + b0) * 256 + b1) rest
      ∙ ap (λ n. ((0 + b0) * 256 + b1) * 256 ^ n + bytes_from 0 rest) eight

  low_small : bytes_from 0 rest < 2 ^ 64
  low_small = lt_of_lt_of_le (shift_in-bytes 0 rest bytes full).1 full

  wide : bytes_from ((0 + b0) * 256 + b1) rest < 2 ^ 80
  wide = omega (arith, split_at_64, low_small)

  -- `hi` and `lo` hold the ten bytes
  set_bytes-number :
      (number (set_bytes b0 b1 rest) ≡ bytes_from ((0 + b0) * 256 + b1) rest)
      × ((set_bytes b0 b1 rest).lo < 2 ^ 64)
  unfolding set_bytes
  set_bytes-number =
      let same = (shift_in-bytes 0 rest bytes full).0 in
      (omega (arith, same, split_at_64), omega (arith, same, low_small))

-- The clock and the ten random bytes can be read back from an id: read in base
-- 32, the id of a clock below 2^50 is the clock times 2^80 and the ten bytes as a big-endian
-- number.
pub decode-new :
    (ms b0 b1 : ℕ) (rest : Text)
    → ms < 2 ^ 50
    → b0 < 256
    → b1 < 256
    → All IsByte rest
    → length rest ≡ 8
    → decode (new ms b0 b1 rest) ≡ ms * 2 ^ 80 + bytes_from 0 (b0 ∷ b1 ∷ rest)
unfolding new encode_time encode_random
decode-new ms b0 b1 rest clock h0 h1 bytes eight =
    let v = set_bytes b0 b1 rest in
    let (same, low) = set_bytes-number b0 b1 rest h0 h1 bytes eight in
    ap decode (ap (λ (t : Text). encode_from 10 ms [] ++ t) (encode_random_from-number 16 v [] low))
    ∙ decode_from-append 0 (encode_from 10 ms []) (encode_from 16 (number v) [])
    ∙ ap (λ k. decode_from k (encode_from 16 (number v) [])) (decode-encode_from 10 ms [] 0 clock)
    ∙ decode-encode_from 16 (number v) [] (0 * 32 ^ 10 + ms)
        (omega (arith, same, wide b0 b1 rest h0 h1 bytes eight))
    ∙ omega (arith, same)
