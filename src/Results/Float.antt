-- ===== src/Results/Float.antt =====
-- Python's floats with the builtins that the result scripts apply to them. The scripts never look
-- inside a float, so the type and its operations are a parameter.
use skyros.Base.{
  ℕ, ◌+◌, ◌*◌, ◌/◌, ◌^◌, ◌<◌, ◌≡◌, Option, none, some, List, [], ◌∷◌, ◌==◌, if◌then◌else◌, length,
}
use skyros.Base.Text.{Text}
use skyros.Base.Decimal.{digits_value, str_int}
use mathlib.Core.List.{foldl}
use mathlib.Core.Option

pub record Floats : Type 1 where
  pub Float : Type 0
  -- `float(s)`; `none` is a ValueError
  pub float : Text → Option Float
  -- the float that an int is converted to, and the literal `n.0`
  pub of_int : ℕ → Float
  pub add : Float → Float → Float
  pub mul : Float → Float → Float
  -- `a / b`; `none` is a ZeroDivisionError
  pub div : Float → Float → Option Float
  -- `statistics.mean` of a list with a first element
  pub mean : Float → List Float → Float
  -- `round(a, places)`
  pub round : Float → ℕ → Float
  -- `int(a)` of a float that is not negative
  pub trunc : Float → ℕ
  -- `str(a)` and `repr(a)`, which Python 2 prints alone and inside a list
  pub str : Float → Text
  pub repr : Float → Text

-- What the theorems take from the documentation of Python. `divides` holds for the finite floats
-- other than zero.
pub record Laws (F : Floats) (divides : F.Float → Type 0) : Type 1 where
  -- the mean of one number is that number
  pub mean_one : (a : F.Float) → F.mean a [] ≡ a
  -- a finite number other than zero divided by itself is one
  pub div_self : (a : F.Float) → divides a → F.div a a ≡ some (F.of_int 1)
  -- the decimal print of a 64-bit number is read as that number
  pub float-str_int : (n : ℕ) → n < 2 ^ 64 → F.float (str_int n) ≡ some (F.of_int n)

-- Thousandths on natural numbers, to try the scripts on small inputs.
abbrev pub thousandths : Floats
thousandths = record {
  Float = ℕ;
  float = λ s. Option.map (λ n. n * 1000) (digits_value s);
  of_int = λ n. n * 1000;
  add = λ a b. a + b;
  mul = λ a b. a * b / 1000;
  div = λ a b. if b == 0 then none else some (a * 1000 / b);
  mean = λ a rest. foldl ◌+◌ a rest / length (a ∷ rest);
  round = λ a places. a / 10 * 10;
  trunc = λ a. a / 1000;
  str = str_int;
  repr = str_int;
}
