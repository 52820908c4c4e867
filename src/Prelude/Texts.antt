-- ===== src/Prelude/Texts.antt =====
-- Texts as lists of bytes, and the functions of Go's `strings` on them. Texts are ASCII here:
-- Go's trimming and case mapping of characters from U+0080 on is not modelled.
use Prim.Native.Nat.{ℕ, ◌+◌, ◌-◌}
use Prim.Native.Char.{code}
use Prim.Native.String.{String}
use mathlib.Core.Path.{◌≡◌, refl, ap, ◌∙◌}
use mathlib.Core.Bool.{Bool, true, false, not, ◌&&◌, ◌||◌}
use mathlib.Core.List.{List, [], ◌∷◌, map, reverse, reverse_aux, reverse-reverse}
use native.Mathlib.Omega.{arith}
use backend_go.Prelude.Tests.{leb, ◌==◌, if◌then◌else◌}
use backend_go.Prelude.Lists.{all}

abbrev pub Text : Type 0
Text = List ℕ

abbrev pub codes : String → Text
codes String.[] = []
codes (String.◌∷◌ c s) = code c ∷ codes s

abbrev pub text_eq : Text → Text → Bool
text_eq [] [] = true
text_eq (a ∷ s) (b ∷ t) = a == b && text_eq s t
text_eq [] (b ∷ t) = false
text_eq (a ∷ s) [] = false

pub text_eq→eq : (s t : Text) → text_eq s t ≡ true → s ≡ t
text_eq→eq [] [] h = refl
text_eq→eq (a ∷ s) (b ∷ t) h = ground (arith, text_eq→eq s t)
text_eq→eq [] (b ∷ t) h = ground arith
text_eq→eq (a ∷ s) [] h = ground arith

pub text_eq_refl : (s : Text) → text_eq s s ≡ true
text_eq_refl [] = refl
text_eq_refl (a ∷ s) = ground (arith, text_eq_refl s)

-- '\t', '\n', '\v', '\f', '\r' and ' '
abbrev pub is_space : ℕ → Bool
is_space c = leb 9 c && leb c 13 || c == 32

abbrev pub drop_while : (ℕ → Bool) → Text → Text
drop_while p [] = []
drop_while p (c ∷ s) = let rest = drop_while p s in if p c then rest else c ∷ s

unfoldable pub trim_right : (ℕ → Bool) → Text → Text
trim_right p s = reverse (drop_while p (reverse s))

-- strings.TrimSpace
unfoldable pub trim_space : Text → Text
unfolding trim_right
trim_space s = trim_right is_space (drop_while is_space s)

abbrev pub lower : ℕ → ℕ
lower c = if leb b'A' c && leb c b'Z' then c + 32 else c

abbrev pub upper : ℕ → ℕ
upper c = if leb b'a' c && leb c b'z' then c - 32 else c

-- strings.ToLower, strings.ToUpper
abbrev pub to_lower : Text → Text
to_lower = map lower

abbrev pub to_upper : Text → Text
to_upper = map upper

-- strings.HasPrefix s p, with the prefix first
abbrev pub has_prefix : Text → Text → Bool
has_prefix [] s = true
has_prefix (a ∷ p) [] = false
has_prefix (a ∷ p) (c ∷ s) = a == c && has_prefix p s

-- strings.Contains s p, with the part first
abbrev pub contains : Text → Text → Bool
contains p [] = has_prefix p []
contains p (c ∷ s) = has_prefix p (c ∷ s) || contains p s

-- strings.Split s sep for a separator of one byte: always at least one part
abbrev pub add_front : ℕ → List Text → List Text
add_front c [] = (c ∷ []) ∷ []
add_front c (part ∷ parts) = (c ∷ part) ∷ parts

abbrev pub split : ℕ → Text → List Text
split sep [] = [] ∷ []
split sep (c ∷ s) = let rest = split sep s in if c == sep then [] ∷ rest else add_front c rest

-- a text whose bytes fail a test loses nothing to trimming by it
pub drop_while-none : (p : ℕ → Bool) (s : Text) → all (λ c. not (p c)) s ≡ true → drop_while p s ≡ s
drop_while-none p [] h = refl
drop_while-none p (c ∷ s) h = ground arith

-- a text equals at most one of two texts that differ
pub text_eq_exclusive :
    (s a b : Text) → text_eq a b ≡ false → text_eq s a ≡ true → text_eq s b ≡ false
text_eq_exclusive s a b h e = rw (text_eq→eq s a e) h

all-reverse_aux : (q : ℕ → Bool) (s t : Text) → all q (reverse_aux s t) ≡ (all q s && all q t)
all-reverse_aux q [] t = refl
all-reverse_aux q (c ∷ s) t = ground (arith, all-reverse_aux q s (c ∷ t))

pub all-reverse : (q : ℕ → Bool) (s : Text) → all q (reverse s) ≡ all q s
all-reverse q s = ground (arith, all-reverse_aux q s [])

-- a text without spaces is left as it is
pub trim_space-none : (s : Text) → all (λ c. not (is_space c)) s ≡ true → trim_space s ≡ s
unfolding trim_space
trim_space-none s h =
    ap (trim_right is_space) (drop_while-none is_space s h)
    ∙ ap reverse (drop_while-none is_space (reverse s) (all-reverse (λ c. not (is_space c)) s ∙ h))
    ∙ reverse-reverse s
