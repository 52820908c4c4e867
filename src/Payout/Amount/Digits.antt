-- ===== src/Payout/Amount/Digits.antt =====
-- Lemmas on digits for Payout/Amount.antt: values of texts of digits, and trimming of zeros.
use mathlib.Core.List.{reverse-append, reverse-reverse}
use mathlib.Core.Path.{ap₂}
use native.Mathlib.Nat.{pow-suc, pow-zero, zero-add, suc-add}
use backend_go.Prelude.{
  ℕ, zero, suc, ◌+◌, ◌-◌, ◌*◌, ◌^◌, ◌≤◌, Bool, true, [], ◌∷◌, ◌++◌, reverse, Text, trim_right,
  drop_while, replicate, all, all-append, ◌≡◌, refl, ap, sym, ◌∙◌, arith, Bool-cases, inl, inr,
  ==_iff,
}
use backend_go.Payout.Amount.{value_from, is_zero}

pub pow-add : (b m n : ℕ) → b ^ (m + n) ≡ b ^ m * b ^ n
pow-add b zero n = simp (zero-add, pow-zero) (omega arith)
pow-add b (suc m) n = simp (suc-add, pow-suc, pow-add b m n) (omega arith)

pub value_from-append : (n : ℕ) (s t : Text) → value_from n (s ++ t) ≡ value_from (value_from n s) t
value_from-append n [] t = refl
value_from-append n (c ∷ s) t = value_from-append (n * 10 + (c - 48)) s t

pub value_from-replicate : (n k : ℕ) → value_from n (replicate k b'0') ≡ n * 10 ^ k
value_from-replicate n zero = simp pow-zero (omega arith)
value_from-replicate n (suc k) =
    rw (value_from-replicate (n * 10 + (48 - 48)) k) (simp pow-suc (omega arith))

pub le-value_from : (n : ℕ) (s : Text) → n ≤ value_from n s
le-value_from n [] = omega arith
le-value_from n (c ∷ s) = omega (arith, le-value_from (n * 10 + (c - 48)) s)

pub all-drop_while : (p q : ℕ → Bool) (s : Text) → all q s ≡ true → all q (drop_while p s) ≡ true
all-drop_while p q [] h = refl
all-drop_while p q (c ∷ s) h = ground (arith, all-drop_while p q s)

pub value_from-drop_while : (s : Text) → value_from 0 (drop_while is_zero s) ≡ value_from 0 s
value_from-drop_while [] = refl
value_from-drop_while (c ∷ s) = ground (arith, value_from-drop_while s)

-- the leading zeros that are dropped
zeros_dropped : (s : Text) → (k : ℕ) × (s ≡ replicate k b'0' ++ drop_while is_zero s)
zeros_dropped [] = (0, refl)
zeros_dropped (c ∷ s) = elim (Bool-cases (is_zero c)) [
  | inl e ↦
      let (k, r) = zeros_dropped s in
      (suc k, rw e (ap₂ (λ (a : ℕ) (t : Text). a ∷ t) ((==_iff c b'0').0 e) r))
  | inr e ↦ (0, rw e)
]

replicate-snoc : (k : ℕ) (a : ℕ) → replicate k a ++ a ∷ [] ≡ replicate (suc k) a
replicate-snoc zero a = refl
replicate-snoc (suc k) a = ap (λ t. a ∷ t) (replicate-snoc k a)

reverse-replicate : (k : ℕ) (a : ℕ) → reverse (replicate k a) ≡ replicate k a
reverse-replicate zero a = refl
reverse-replicate (suc k) a =
    reverse-append (a ∷ []) (replicate k a)
    ∙ ap (λ (t : Text). t ++ a ∷ []) (reverse-replicate k a)
    ∙ replicate-snoc k a

all-reverse : (q : ℕ → Bool) (s : Text) → all q (reverse s) ≡ all q s
all-reverse q [] = refl
all-reverse q (c ∷ s) =
    rw (reverse-append (c ∷ []) s) (rw all-append (ground (arith, all-reverse q s)))

-- A text is its trimmed text and zeros.
pub zeros_trimmed : (s : Text) → (k : ℕ) × (s ≡ trim_right is_zero s ++ replicate k b'0')
unfolding trim_right
zeros_trimmed s =
    let (k, e) = zeros_dropped (reverse s) in
    (
      k,
      sym (reverse-reverse s)
          ∙ ap reverse e
          ∙ reverse-append (replicate k b'0') (drop_while is_zero (reverse s))
          ∙ ap (λ (t : Text). reverse (drop_while is_zero (reverse s)) ++ t)
              (reverse-replicate k b'0'),
    )

pub all-trim_right : (p q : ℕ → Bool) (s : Text) → all q s ≡ true → all q (trim_right p s) ≡ true
unfolding trim_right
all-trim_right p q s h =
    all-reverse q (drop_while p (reverse s)) ∙ all-drop_while p q (reverse s) (all-reverse q s ∙ h)
