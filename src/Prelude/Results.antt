-- ===== src/Prelude/Results.antt =====
-- Results with an error, for `do` blocks.
use mathlib.Core.Path.{◌≡◌, refl}
use mathlib.Core.Bool.{Bool, true, false}
use mathlib.Core.Option.{Option, none, some}
use native.Mathlib.Omega.{arith}

pub data Result (E A : Type 0) : Type 0 where
  ok : A → Result E A
  err : E → Result E A

infixl 5 ◌>>=◌ ◌>>◌
abbrev pub ◌>>=◌ : {E A B : Type 0} → Result E A → (A → Result E B) → Result E B
ok a >>= f = f a
err e >>= f = err e

abbrev pub ◌>>◌ : {E B : Type 0} → Result E (Unit {0}) → Result E B → Result E B
m >> k = m >>= λ u. k

-- if !b { return err }
abbrev pub require : {E : Type 0} → Bool → E → Result E (Unit {0})
require true e = ok tt
require false e = err e

abbrev pub of_option : {E A : Type 0} → E → Option A → Result E A
of_option e none = err e
of_option e (some a) = ok a

-- what a successful `do` block has passed through
pub bind-ok :
    {E A B : Type 0} (m : Result E A) (f : A → Result E B) (b : B)
    → (m >>= f) ≡ ok b
    → (a : A) × (m ≡ ok a) × (f a ≡ ok b)
bind-ok (ok a) f b h = (a, refl, h)
bind-ok (err e) f b h = cc

pub require-ok :
    {E B : Type 0} (c : Bool) (e : E) (k : Result E B) (b : B)
    → (require c e >> k) ≡ ok b
    → (c ≡ true) × (k ≡ ok b)
require-ok true e k b h = (refl, h)
require-ok false e k b h = cc

pub of_option-ok : {E A : Type 0} (e : E) (o : Option A) (a : A) → of_option e o ≡ ok a → o ≡ some a
of_option-ok e none a h = cc
of_option-ok e (some b) a h = ground arith

-- the rest of a handler that has a state: an error is returned with the state reached
abbrev pub on_ok : {E A B S : Type 0} → Result E A → S → (A → Result E B × S) → Result E B × S
on_ok (err e) s k = (err e, s)
on_ok (ok a) s k = k a

-- a successful handler went on, from the value of the step
pub on_ok-ok :
    {E A B S : Type 0} (r : Result E A) (s : S) (k : A → Result E B × S) (b : B)
    → (on_ok r s k).0 ≡ ok b
    → (a : A) × (r ≡ ok a) × ((k a).0 ≡ ok b)
on_ok-ok (err e) s k b h = cc
on_ok-ok (ok a) s k b h = (a, refl, h)

-- a property of what a handler returns, from its error and from the rest
pub on_ok-cases :
    {E A B S : Type 0} (P : Result E B × S → Type 0) (r : Result E A) (s : S)
    (k : A → Result E B × S)
    → ((e : E) → P (err e, s))
    → ((a : A) → r ≡ ok a → P (k a))
    → P (on_ok r s k)
on_ok-cases P (err e) s k fails goes = fails e
on_ok-cases P (ok a) s k fails goes = goes a refl

pub require_both :
    {E : Type 0} (a b : Bool) (e f : E) (u : Unit {0})
    → (require a e >> require b f) ≡ ok u
    → (a ≡ true) × (b ≡ true)
require_both true true e f u h = (refl, refl)
require_both true false e f u h = cc
require_both false b e f u h = cc

pub ok-ok : {E A : Type 0} (a b : A) → Path (Result E A) (ok a) (ok b) → a ≡ b
ok-ok a b h = ground arith

-- a property of the state that a handler leaves
pub on_ok-state :
    {E A B S : Type 0} (P : S → Type 0) (r : Result E A) (s : S) (k : A → Result E B × S)
    → P s
    → ((a : A) → r ≡ ok a → P (k a).1)
    → P (on_ok r s k).1
on_ok-state P (err e) s k here rest = here
on_ok-state P (ok a) s k here rest = rest a refl
