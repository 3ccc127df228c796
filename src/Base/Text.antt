-- ===== src/Base/Text.antt =====
-- Texts as lists of code points, with the operations of Python's `str` and of the shell that the
-- scripts use: equality, `in`, `split`, `replace(c, '')`, the lines of a file and `grep`.
pub mod Grep
use Prim.Native.Char.{code}
use skyros.Base.{
  ℕ, String, ◌≡◌, refl, ap, ◌∙◌, ◌≢◌, Bool, true, false, not, ◌&&◌, ◌||◌, List, [], ◌∷◌, ◌++◌,
  arith, ◌==◌, if◌then◌else◌, All, keep, ==_refl, ==_false,
}

abbrev pub Text : Type 0
Text = List ℕ

-- A literal of the source.
abbrev pub codes : String → Text
codes String.[] = []
codes (String.◌∷◌ c s) = code c ∷ codes s

abbrev pub newline : ℕ
newline = 10

abbrev pub tab : ℕ
tab = 9

abbrev pub is_empty : Text → Bool
is_empty [] = true
is_empty (c ∷ s) = false

infix 50 ◌=text◌
-- `a == b` on texts
unfoldable pub ◌=text◌ : Text → Text → Bool
[] =text [] = true
[] =text (d ∷ t) = false
(c ∷ s) =text [] = false
(c ∷ s) =text (d ∷ t) = (c == d) && (s =text t)

pub =text_refl : (s : Text) → (s =text s) ≡ true
unfolding ◌=text◌
=text_refl [] = refl
=text_refl (c ∷ s) = ground (arith, =text_refl s)

pub =text_sound : (s t : Text) → (s =text t) ≡ true → s ≡ t
unfolding ◌=text◌
=text_sound [] [] h = refl
=text_sound [] (d ∷ t) h = cc
=text_sound (c ∷ s) [] h = cc
=text_sound (c ∷ s) (d ∷ t) h = ground (arith, =text_sound s t)

-- `x in [..]`
unfoldable pub one_of : Text → List Text → Bool
one_of s [] = false
one_of s (t ∷ ts) = (s =text t) || one_of s ts

-- `s.startswith(p)`
unfoldable pub starts_with : Text → Text → Bool
starts_with [] s = true
starts_with (c ∷ p) [] = false
starts_with (c ∷ p) (d ∷ s) = (c == d) && starts_with p s

-- `needle in hay`
unfoldable pub occurs_in : Text → Text → Bool
unfolding starts_with
occurs_in needle [] = is_empty needle
occurs_in needle (c ∷ s) = starts_with needle (c ∷ s) || occurs_in needle s

pub starts_with-append : (p s : Text) → starts_with p (p ++ s) ≡ true
unfolding starts_with
starts_with-append [] s = refl
starts_with-append (c ∷ p) s = ground (arith, starts_with-append p s)

pub occurs_in-append :
    (before needle rest : Text) → occurs_in needle (before ++ needle ++ rest) ≡ true
unfolding occurs_in
occurs_in-append [] [] [] = refl
occurs_in-append [] [] (c ∷ rest) = refl
occurs_in-append [] (c ∷ p) rest = ground (arith, starts_with-append p rest)
occurs_in-append (b ∷ bs) needle rest = ground (arith, occurs_in-append bs needle rest)

-- `s.replace(c, '')`
abbrev pub remove_char : ℕ → Text → Text
remove_char c = keep (λ d. not (d == c))

abbrev pub put_front : ℕ → List Text → List Text
put_front c [] = (c ∷ []) ∷ []
put_front c (p ∷ ps) = (c ∷ p) ∷ ps

-- `s.split(sep)` for a separator of one character
unfoldable pub split : ℕ → Text → List Text
split sep [] = [] ∷ []
split sep (c ∷ s) = let parts = split sep s in if c == sep then [] ∷ parts else put_front c parts

-- `list(filter(lambda x: (len(x) > 0), parts))`
abbrev pub non_empty : List Text → List Text
non_empty = keep (λ p. not (is_empty p))

-- the lines that `for line in f` gives, each with its newline
unfoldable pub file_lines : Text → List Text
file_lines [] = []
file_lines (c ∷ s) =
    let rest = file_lines s in if c == newline then (c ∷ []) ∷ rest else put_front c rest

-- the output of `cat f | grep pattern`, where `content` is what `f` holds
unfoldable pub grep_lines : Text → List Text → Text
unfolding occurs_in
grep_lines pattern [] = []
grep_lines pattern (l ∷ ls) =
    let rest = grep_lines pattern ls in
    if occurs_in pattern (remove_char newline l)
    then remove_char newline l ++ newline ∷ rest
    else rest

unfoldable pub grep : Text → Text → Text
unfolding file_lines grep_lines
grep pattern content = grep_lines pattern (file_lines content)

-- `sep.join(parts)`
unfoldable pub join : Text → List Text → Text
join sep [] = []
join sep (p ∷ []) = p
join sep (p ∷ q ∷ ps) = p ++ (sep ++ join sep (q ∷ ps))

-- The text has no `c`.
abbrev pub Lacks : ℕ → Text → Type 0
Lacks c = All (λ d. d ≢ c)

-- A part that a split by spaces gives back: not empty, and with no space inside.
pub record IsWord (sep : ℕ) (p : Text) : Type 0 where
  pub full : p ≢ []
  pub lacks : Lacks sep p

pub split-Lacks : (sep : ℕ) (p : Text) → Lacks sep p → split sep p ≡ p ∷ []
unfolding split
split-Lacks sep [] h = refl
split-Lacks sep (c ∷ p) (hc, h) = rw (==_false c sep hc, split-Lacks sep p h)

pub split-append : (sep : ℕ) (p s : Text) → Lacks sep p → split sep (p ++ sep ∷ s) ≡ p ∷ split sep s
unfolding split
split-append sep [] s h = rw (==_refl sep)
split-append sep (c ∷ p) s (hc, h) = rw (==_false c sep hc, split-append sep p s h)

-- Splitting a join by the separator gives the parts back.
pub split-join :
    (sep : ℕ) (p : Text) (ps : List Text)
    → All (Lacks sep) (p ∷ ps)
    → split sep (join (sep ∷ []) (p ∷ ps)) ≡ p ∷ ps
unfolding join
split-join sep p [] (hp, _) = split-Lacks sep p hp
split-join sep p (q ∷ ps) (hp, h) =
    split-append sep p (join (sep ∷ []) (q ∷ ps)) hp
    ∙ ap (λ (ts : List Text). p ∷ ts) (split-join sep q ps h)
