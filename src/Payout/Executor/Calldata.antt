-- ===== src/Payout/Executor/Calldata.antt =====
-- The calldata of a token transfer, read back (`erc20TransferData` of payout_executor.go).
use mathlib.Core.Path.{subst}
use mathlib.Core.List.{append-nil, append_assoc}
use native.Mathlib.Numerals.{unary_clauses}
use backend_go.Prelude.{
  ℕ, zero, suc, ◌+◌, ◌-◌, ◌*◌, ◌/◌, ◌%◌, ◌^◌, ◌≤◌, ◌<◌, [], ◌∷◌, ◌++◌, codes, length, take, drop,
  replicate, length-append, length-replicate, ◌≡◌, refl, ap, sym, ◌∙◌, arith,
}
use backend_go.Payout.Executor.{
  Bytes, Ethereum, of_bytes_from, digits_256, bytes_of, left_pad_bytes, erc20_transfer_data,
}

-- the word of 32 bytes that starts at a byte
abbrev pub abi_word : ℕ → Bytes → ℕ
abi_word start bs = of_bytes_from 0 (take 32 (drop start bs))

digits_256_lem :
    (fuel n : ℕ) (rest : Bytes)
    → n < fuel
    → of_bytes_from 0 (digits_256 fuel n rest) ≡ of_bytes_from n rest
digits_256_lem zero n rest h = absurd (omega arith)
digits_256_lem (suc fuel) zero rest h = refl
digits_256_lem (suc fuel) (suc n) rest h =
    digits_256_lem fuel (suc n / 256) (suc n % 256 ∷ rest) (omega arith)
    ∙ ap (λ m. of_bytes_from m rest) (omega arith)

shorter : (n m : ℕ) → n < m * 256 → n / 256 < m
shorter n m h = omega arith

length-digits_256 :
    (k fuel n : ℕ) (rest : Bytes) → n < 256 ^ k → length (digits_256 fuel n rest) ≤ k + length rest
length-digits_256 k zero n rest h = omega arith
length-digits_256 k (suc fuel) zero rest h = omega arith
length-digits_256 zero (suc fuel) (suc n) rest h = absurd (omega arith)
length-digits_256 (suc k) (suc fuel) (suc n) rest h = omega (
  arith,
  length-digits_256 k fuel (suc n / 256) (suc n % 256 ∷ rest)
      (shorter (suc n) (256 ^ k) (simp unary_clauses at h)),
)

pub of_bytes_from-bytes_of : (n : ℕ) → of_bytes_from 0 (bytes_of n) ≡ n
unfolding bytes_of
of_bytes_from-bytes_of n = digits_256_lem (suc n) n [] (omega arith)

of_bytes_from-left_pad_bytes :
    (bs : Bytes) (n : ℕ) → of_bytes_from 0 (left_pad_bytes bs n) ≡ of_bytes_from 0 bs
of_bytes_from-left_pad_bytes bs n = go (n - length bs)
  where
    go : (j : ℕ) → of_bytes_from 0 (replicate j 0 ++ bs) ≡ of_bytes_from 0 bs
    go zero = refl
    go (suc j) = go j

length-left_pad_bytes : (bs : Bytes) (n : ℕ) → length bs ≤ n → length (left_pad_bytes bs n) ≡ n
length-left_pad_bytes bs n h =
    length-append (replicate (n - length bs) 0) bs
    ∙ omega (arith, length-replicate {A = ℕ} (n - length bs) 0)

take-append : (xs ys : Bytes) → take (length xs) (xs ++ ys) ≡ xs
take-append [] ys = refl
take-append (x ∷ xs) ys = ap (λ r. x ∷ r) (take-append xs ys)

drop-append : (xs ys : Bytes) → drop (length xs) (xs ++ ys) ≡ ys
drop-append [] ys = refl
drop-append (x ∷ xs) ys = drop-append xs ys

pub length-bytes_of : (k n : ℕ) → n < 256 ^ k → length (bytes_of n) ≤ k
unfolding bytes_of
length-bytes_of k n h = omega (arith, length-digits_256 k (suc n) n [] h)

take_at : (n : ℕ) (xs ys : Bytes) → length xs ≡ n → take n (xs ++ ys) ≡ xs
take_at n xs ys h = subst (λ (m : ℕ). take m (xs ++ ys) ≡ xs) h (take-append xs ys)

drop_at : (n : ℕ) (xs ys : Bytes) → length xs ≡ n → drop n (xs ++ ys) ≡ ys
drop_at n xs ys h = subst (λ (m : ℕ). drop m (xs ++ ys) ≡ ys) h (drop-append xs ys)

abi_word-parts :
    (s a b : Bytes)
    → length s ≡ 4
    → length a ≡ 32
    → length b ≡ 32
    → (abi_word 4 (s ++ (a ++ b)) ≡ of_bytes_from 0 a)
      × (abi_word 36 (s ++ (a ++ b)) ≡ of_bytes_from 0 b)
      × (length (s ++ (a ++ b)) ≡ 68)
abi_word-parts s a b h k l = (
  ap (λ r. of_bytes_from 0 (take 32 r)) (drop_at 4 s (a ++ b) h)
      ∙ ap (of_bytes_from 0) (take_at 32 a b k),
  ap (λ r. of_bytes_from 0 (take 32 (drop 36 r))) (sym (append_assoc s a b))
      ∙ (ap (λ r. of_bytes_from 0 (take 32 r))
            (drop_at 36 (s ++ a) b (omega (arith, length-append s a)))
          ∙ ap (of_bytes_from 0) (ap (take 32) (sym (append-nil b)) ∙ take_at 32 b [] l)),
  omega (arith, length-append s (a ++ b), length-append a b),
)

module _ {K : Type 0} (eth : Ethereum K) where
  -- A recipient below 2^160 and an amount below 2^256 are read back from the words of the calldata
  -- that follow a selector of four bytes, and the calldata ends there.
  pub abi_word-erc20_transfer_data :
      (to amount : ℕ)
      → length (eth.selector (codes "transfer(address,uint256)")) ≡ 4
      → to < 2 ^ 160
      → amount < 2 ^ 256
      → (abi_word 4 (erc20_transfer_data eth to amount) ≡ to)
        × (abi_word 36 (erc20_transfer_data eth to amount) ≡ amount)
        × (length (erc20_transfer_data eth to amount) ≡ 68)
  unfolding erc20_transfer_data
  abi_word-erc20_transfer_data to amount h1 h2 h3 =
      let to_bytes = left_pad_bytes (bytes_of to) 20 in
      let to_length = length-left_pad_bytes (bytes_of to) 20 (length-bytes_of 20 to h2) in
      let (p, q, r) =
        abi_word-parts (eth.selector (codes "transfer(address,uint256)"))
          (left_pad_bytes to_bytes 32) (left_pad_bytes (bytes_of amount) 32) h1
          (length-left_pad_bytes to_bytes 32 (omega (arith, to_length)))
          (length-left_pad_bytes (bytes_of amount) 32 (length-bytes_of 32 amount h3)) in
      (
        p
            ∙ (of_bytes_from-left_pad_bytes to_bytes 32
                ∙ (of_bytes_from-left_pad_bytes (bytes_of to) 20 ∙ of_bytes_from-bytes_of to)),
        q ∙ (of_bytes_from-left_pad_bytes (bytes_of amount) 32 ∙ of_bytes_from-bytes_of amount),
        r,
      )
