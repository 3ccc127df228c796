-- ===== src/Base/Words.antt =====
-- The words of a text: `list(filter(lambda x: (len(x) > 0), s.split(' ')))`.
use mathlib.Core.List.{cons-ne-nil}
use skyros.Base.{
  Bool, true, not, ◌&&◌, ◌==◌, arith, ℕ, zero, suc, ◌-◌, ◌≡◌, refl, ap, ◌∙◌, ◌≢◌, List, [], ◌∷◌,
  ◌++◌, All, length,
}
use skyros.Base.Text.{Lacks, Text, split, split-append, split-Lacks, non_empty, IsWord, join}

abbrev pub space : ℕ
space = 32

unfoldable pub words : Text → List Text
words s = non_empty (split space s)

-- `n` blanks in front of a text
unfoldable pub blanks : ℕ → Text → Text
blanks zero s = s
blanks (suc n) s = space ∷ blanks n s

-- printf's `%-ns` in front of a text
unfoldable pub padded : ℕ → Text → Text → Text
unfolding blanks
padded n s rest = s ++ blanks (n - length s) rest

non_empty-cons : (p : Text) (ps : List Text) → p ≢ [] → non_empty (p ∷ ps) ≡ p ∷ non_empty ps
non_empty-cons [] ps h = absurd (h refl)
non_empty-cons (c ∷ p) ps h = refl

pub words-cons : (p s : Text) → IsWord space p → words (p ++ space ∷ s) ≡ p ∷ words s
unfolding words
words-cons p s w =
    ap non_empty (split-append space p s w.lacks) ∙ non_empty-cons p (split space s) w.full

pub words_one : (p : Text) → IsWord space p → words p ≡ p ∷ []
unfolding words
words_one p w = ap non_empty (split-Lacks space p w.lacks) ∙ non_empty-cons p [] w.full

pub words-space : (s : Text) → words (space ∷ s) ≡ words s
unfolding words split
words-space s = refl

pub words-blanks : (n : ℕ) (s : Text) → words (blanks n s) ≡ words s
unfolding blanks
words-blanks zero s = refl
words-blanks (suc n) s = words-space (blanks n s) ∙ words-blanks n s

-- A padded word and the blank behind it.
pub words-padded :
    (n : ℕ) (p s : Text) → IsWord space p → words (padded n p (space ∷ s)) ≡ p ∷ words s
unfolding padded
words-padded n p s w = go (n - length p)
  where
    go : (k : ℕ) → words (p ++ blanks k (space ∷ s)) ≡ p ∷ words s
    go zero = unfold blanks in words-cons p s w
    go (suc k) =
        (unfold blanks in words-cons p (blanks k (space ∷ s)) w)
        ∙ ap (λ (ps : List Text). p ∷ ps) (words-blanks k (space ∷ s) ∙ words-space s)

-- Words joined by one space are those words.
pub words-join : (ps : List Text) → All (IsWord space) ps → words (join (space ∷ []) ps) ≡ ps
unfolding join
words-join [] h = unfold words split in refl
words-join (p ∷ []) (hp, _) = words_one p hp
words-join (p ∷ q ∷ ps) (hp, h) =
    words-cons p (join (space ∷ []) (q ∷ ps)) hp
    ∙ ap (λ (ts : List Text). p ∷ ts) (words-join (q ∷ ps) h)

pub words-cons_eq :
    (p s : Text) {ws : List Text} → IsWord space p → words s ≡ ws → words (p ++ space ∷ s) ≡ p ∷ ws
words-cons_eq p s w e = words-cons p s w ∙ ap (λ (ts : List Text). p ∷ ts) e

pub words-padded_eq :
    (n : ℕ) (p s : Text) {ws : List Text}
    → IsWord space p
    → words s ≡ ws
    → words (padded n p (space ∷ s)) ≡ p ∷ ws
words-padded_eq n p s w e = words-padded n p s w ∙ ap (λ (ts : List Text). p ∷ ts) e

abbrev pub lacks_space : Text → Bool
lacks_space [] = true
lacks_space (c ∷ p) = not (c == space) && lacks_space p

lacks_space_sound : (p : Text) → lacks_space p ≡ true → Lacks space p
lacks_space_sound [] h = tt
lacks_space_sound (c ∷ p) h = (ground arith, lacks_space_sound p (ground arith))

-- For a literal both premises are evaluated.
pub literal-IsWord : (c : ℕ) (p : Text) → lacks_space (c ∷ p) ≡ true → IsWord space (c ∷ p)
literal-IsWord c p h = record { full = λ e. cons-ne-nil c p e; lacks = lacks_space_sound (c ∷ p) h }
