-- ===== src/Float.antt =====
-- The `float64` arithmetic that the source uses, as operations on a type that stays abstract.
-- `parse` reads the text of a NUMERIC column (`parseFloat`, `parseFloatValue`), and `numeric` is
-- the column's value when a float is stored; NUMERIC amounts count units of 10^-18.
use backend_go.Prelude.{ℕ, ◌+◌, ◌-◌, ◌*◌, ◌/◌, Bool, ltb, leb}

pub record Float64 (F : Type 0) : Type 0 where
  pub zero : F
  pub one : F
  pub hundred : F
  pub e8 : F
  pub add : F → F → F
  pub sub : F → F → F
  pub mul : F → F → F
  pub div : F → F → F
  pub lt : F → F → Bool
  pub le : F → F → Bool
  pub round : F → F
  pub parse : ℕ → F
  pub numeric : F → ℕ

-- Decimals with eight places, to run the definitions: 1 is 10^8, and NUMERIC has ten places more.
abbrev pub fixed_point : Float64 ℕ
fixed_point = record {
  zero = 0;
  one = 100_000_000;
  hundred = 10_000_000_000;
  e8 = 10_000_000_000_000_000;
  add = λ a b. a + b;
  sub = λ a b. a - b;
  mul = λ a b. a * b / 100_000_000;
  div = λ a b. a * 100_000_000 / b;
  lt = ltb;
  le = leb;
  round = λ a. (a + 50_000_000) / 100_000_000 * 100_000_000;
  parse = λ n. n / 10_000_000_000;
  numeric = λ a. a * 10_000_000_000;
}
