-- ===== src/Ids.antt =====
-- ULIDs: internal/shared/ids/ids.go. `x & 31` is `x % 32`, a shift to the right is a division, and
-- a shift to the left wraps at 64 bits.
pub mod Encoding
pub mod Parsing
mod Examples
use backend_go.Prelude.{
  ℕ, zero, suc, ◌+◌, ◌*◌, ◌/◌, ◌%◌, ◌^◌, Bool, true, false, ◌&&◌, ◌||◌, Option, none, some, List,
  [], ◌∷◌, ◌++◌, Text, codes, trim_space, to_upper, upper, length, all, leb, ◌==◌, if◌then◌else◌,
}

abbrev pub encoded_len : ℕ
encoded_len = 26

abbrev pub crockford : Text
crockford = codes "0123456789ABCDEFGHJKMNPQRSTVWXYZ"

abbrev pub get_or : Text → ℕ → ℕ → ℕ
get_or [] i d = d
get_or (x ∷ xs) zero d = x
get_or (x ∷ xs) (suc i) d = get_or xs i d

-- crockford[v]
unfoldable pub symbol : ℕ → ℕ
symbol v = get_or crockford v 0

-- the loop of `encodeTime`, from the last of `n` symbols to the first
unfoldable pub encode_from : ℕ → ℕ → Text → Text
encode_from zero ms out = out
encode_from (suc n) ms out = encode_from n (ms / 32) (symbol (ms % 32) ∷ out)

unfoldable pub encode_time : ℕ → Text
encode_time ms = encode_from 10 ms []

-- bigInt80: hi is a uint16 and lo a uint64
pub record BigInt80 : Type 0 where
  pub hi : ℕ
  pub lo : ℕ

-- v.lo = (v.lo << 8) | uint64(b[i]); the byte fills the bits that the shift leaves
abbrev pub shift_in : ℕ → Text → ℕ
shift_in lo [] = lo
shift_in lo (b ∷ bytes) = shift_in (lo * 256 % 2 ^ 64 + b) bytes

-- the ten bytes of the entropy
unfoldable pub set_bytes : ℕ → ℕ → Text → BigInt80
set_bytes b0 b1 rest = record { hi = b0 * 256 % 2 ^ 16 + b1; lo = shift_in 0 rest }

unfoldable pub mod32 : BigInt80 → ℕ
mod32 v = v.lo % 32

-- the two parts of the new `lo` share no bit
unfoldable pub div32 : BigInt80 → BigInt80
div32 v = record { hi = v.hi / 32; lo = v.hi % 32 * 2 ^ 59 % 2 ^ 64 + v.lo / 32 }

unfoldable pub encode_random_from : ℕ → BigInt80 → Text → Text
encode_random_from zero v out = out
encode_random_from (suc n) v out = encode_random_from n (div32 v) (symbol (mod32 v) ∷ out)

unfoldable pub encode_random : BigInt80 → Text
encode_random v = encode_random_from 16 v []

-- New: `ms` is the clock, `b0`, `b1` and `rest` the random bytes
unfoldable pub new : ℕ → ℕ → ℕ → Text → Text
new ms b0 b1 rest = encode_time ms ++ encode_random (set_bytes b0 b1 rest)

abbrev pub between : ℕ → ℕ → ℕ → Bool
between lo hi c = leb lo c && leb c hi

unfoldable pub is_crockford : ℕ → Bool
is_crockford c =
    between b'0' b'9' c
    || (between b'A' b'H' c
        || (between b'J' b'K' c
            || (between b'M' b'N' c || (between b'P' b'T' c || between b'V' b'Z' c))))

unfoldable pub is_valid : Text → Bool
is_valid raw = length raw == encoded_len && all (λ c. is_crockford (upper c)) raw

unfoldable pub parse : Text → Option Text
parse raw = let id = to_upper (trim_space raw) in if is_valid id then some id else none
