-- ===== src/Base/Decimal.antt =====
-- `str(n)` for a natural number, and `int(s)`: blanks at the ends, an optional sign, decimal
-- digits. (An underscore between digits, which Python 3 takes too, is refused here.)
use skyros.Base.{
  ℕ, zero, suc, ◌+◌, ◌-◌, ◌*◌, ◌/◌, ◌%◌, ◌<◌, ◌≡◌, refl, ap, ◌∙◌, ◌≢◌, Bool, true, false, ◌&&◌,
  ◌||◌, Option, none, some, [], ◌∷◌, ◌++◌, arith, ltb, leb, ◌==◌, if◌then◌else◌, All,
}
use skyros.Base.Text.{Text, codes, Lacks}

-- The digits of `n` in front of `rest`, on fuel; `suc n` is enough.
digits : ℕ → ℕ → Text → Text
digits zero n rest = rest
digits (suc fuel) n rest =
    let more = digits fuel (n / 10) ((b'0' + n % 10) ∷ rest) in
    if ltb n 10 then (b'0' + n) ∷ rest else more

-- `str(n)`
unfoldable pub str_int : ℕ → Text
unfolding digits
str_int n = digits (suc n) n []

abbrev pub is_digit : ℕ → Bool
is_digit c = leb b'0' c && leb c b'9'

-- The value of a run of digits behind the value of those before it.
unfoldable pub read_digits : ℕ → Text → Option ℕ
read_digits acc [] = some acc
read_digits acc (c ∷ s) =
    let rest = read_digits (acc * 10 + (c - b'0')) s in if is_digit c then rest else none

unfoldable pub digits_value : Text → Option ℕ
unfolding read_digits
digits_value [] = none
digits_value (c ∷ s) = read_digits 0 (c ∷ s)

-- blanks, tabs and line ends
abbrev pub is_space : ℕ → Bool
is_space c = (c == 32) || (leb 9 c && leb c 13)

unfoldable pub strip_left : Text → Text
strip_left [] = []
strip_left (c ∷ s) = let rest = strip_left s in if is_space c then rest else c ∷ s

unfoldable pub strip_right : Text → Text
strip_right [] = []
strip_right (c ∷ s) =
    let rest = strip_right s in
    elim rest [ [] ↦ if is_space c then [] else c ∷ [] | d ∷ t ↦ c ∷ d ∷ t ]

-- `s.strip()`
unfoldable pub strip : Text → Text
unfolding strip_left strip_right
strip s = strip_right (strip_left s)

-- An integer of Python: `negative n` is -n.
pub data PyInt : Type 0 where
  natural : ℕ → PyInt
  negative : ℕ → PyInt

signed : (ℕ → PyInt) → Option ℕ → Option PyInt
signed sign none = none
signed sign (some n) = some (sign n)

read_signed : Text → Option PyInt
unfolding signed digits_value
read_signed [] = none
read_signed (c ∷ s) =
    if c == b'-'
    then signed PyInt.negative (digits_value s)
    else if c == b'+'
    then signed PyInt.natural (digits_value s)
    else signed PyInt.natural (digits_value (c ∷ s))

-- `int(s)`; `none` is the ValueError.
unfoldable pub int : Text → Option PyInt
unfolding strip read_signed
int s = read_signed (strip s)

read_digits-digits :
    (fuel n : ℕ) (rest : Text) → n < fuel → read_digits 0 (digits fuel n rest) ≡ read_digits n rest
unfolding read_digits digits
read_digits-digits zero n rest h = elim h [ ]
read_digits-digits (suc fuel) n rest h =
    ground (arith, read_digits-digits fuel (n / 10) ((b'0' + n % 10) ∷ rest))

-- Every character is a decimal digit.
abbrev pub IsNumeral : Text → Type 0
IsNumeral = All (λ c. is_digit c ≡ true)

digits-IsNumeral :
    (fuel n : ℕ) (rest : Text) → n < fuel → IsNumeral rest → IsNumeral (digits fuel n rest)
unfolding digits
digits-IsNumeral zero n rest h d = elim h [ ]
digits-IsNumeral (suc fuel) n rest h d =
    ground (arith, digits-IsNumeral fuel (n / 10) ((b'0' + n % 10) ∷ rest))

pub str_int-IsNumeral : (n : ℕ) → IsNumeral (str_int n)
unfolding str_int
str_int-IsNumeral n = digits-IsNumeral (suc n) n [] (omega arith) tt

digits-ne-nil : (fuel n : ℕ) (rest : Text) → n < fuel → digits fuel n rest ≢ []
unfolding digits
digits-ne-nil zero n rest h = elim h [ ]
digits-ne-nil (suc fuel) n rest h =
    ground (arith, digits-ne-nil fuel (n / 10) ((b'0' + n % 10) ∷ rest))

pub str_int-ne-nil : (n : ℕ) → str_int n ≢ []
unfolding str_int
str_int-ne-nil n = digits-ne-nil (suc n) n [] (omega arith)

digits_value_cons : (s : Text) → s ≢ [] → digits_value s ≡ read_digits 0 s
unfolding digits_value
digits_value_cons [] h = absurd (h refl)
digits_value_cons (c ∷ s) h = refl

pub digits_value-str_int : (n : ℕ) → digits_value (str_int n) ≡ some n
digits_value-str_int n =
    digits_value_cons (str_int n) (str_int-ne-nil n)
    ∙ unfold str_int read_digits in read_digits-digits (suc n) n [] (omega arith)

-- A numeral has no other character.
pub IsNumeral-Lacks : (c : ℕ) (s : Text) → is_digit c ≡ false → IsNumeral s → Lacks c s
IsNumeral-Lacks c [] h d = tt
IsNumeral-Lacks c (x ∷ s) h (hx, d) = (ground arith, IsNumeral-Lacks c s h d)

strip_left_numeral : (s : Text) → IsNumeral s → strip_left s ≡ s
unfolding strip_left
strip_left_numeral [] d = refl
strip_left_numeral (c ∷ s) d = ground arith

strip_right_numeral : (s : Text) → IsNumeral s → strip_right (s ++ 10 ∷ []) ≡ s
unfolding strip_right
strip_right_numeral [] d = refl
strip_right_numeral (c ∷ []) d = ground arith
strip_right_numeral (c ∷ e ∷ s) (hc, d) = rw (strip_right_numeral (e ∷ s) d)

strip_left_line : (s rest : Text) → IsNumeral s → s ≢ [] → strip_left (s ++ rest) ≡ s ++ rest
unfolding strip_left
strip_left_line [] rest d h = absurd (h refl)
strip_left_line (c ∷ s) rest d h = ground arith

read_signed_numeral :
    (s : Text) {n : ℕ}
    → IsNumeral s
    → digits_value s ≡ some n
    → read_signed s ≡ some (PyInt.natural n)
unfolding read_signed
read_signed_numeral [] d v = unfold digits_value in cc
read_signed_numeral (c ∷ s) (hc, d) v = ground arith

-- A printed number with the end of its line is read back.
pub int-str_int_line : (n : ℕ) → int (str_int n ++ 10 ∷ []) ≡ some (PyInt.natural n)
unfolding int
int-str_int_line n =
    let d = str_int-IsNumeral n in
    rw
      (
        strip_left_line (str_int n) (10 ∷ []) d (str_int-ne-nil n),
        strip_right_numeral (str_int n) d,
      )
      (read_signed_numeral (str_int n) d (digits_value-str_int n))

strip_right_self : (s : Text) → IsNumeral s → strip_right s ≡ s
unfolding strip_right
strip_right_self [] d = refl
strip_right_self (c ∷ []) d = ground arith
strip_right_self (c ∷ e ∷ s) (hc, d) = rw (strip_right_self (e ∷ s) d)

-- A printed number is read back.
pub int-str_int : (n : ℕ) → int (str_int n) ≡ some (PyInt.natural n)
unfolding int
int-str_int n =
    let d = str_int-IsNumeral n in
    rw (strip_left_numeral (str_int n) d, strip_right_self (str_int n) d)
      (read_signed_numeral (str_int n) d (digits_value-str_int n))

-- Different numbers are printed differently.
pub str_int_injective : (m n : ℕ) → str_int m ≡ str_int n → m ≡ n
str_int_injective m n e = cc (digits_value-str_int m, digits_value-str_int n, ap digits_value e)

int_test : int (codes " 1234\n") ≡ some (PyInt.natural 1234)
unfolding int
int_test = refl

str_int_test : str_int 2000000 ≡ codes "2000000"
unfolding str_int
str_int_test = refl
