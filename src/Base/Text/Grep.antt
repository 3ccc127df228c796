-- ===== src/Base/Text/Grep.antt =====
-- Lines of a text: reading a file by lines, grep, and splitting at newlines.
use skyros.Base.Text.{
  split, split-append, remove_char, Lacks, is_empty, newline, grep_lines, non_empty, grep, Text,
  occurs_in, file_lines,
}
use skyros.Base.{
  ◌&&◌, ◌==◌, arith, Bool, append_assoc, ==_false, keep, ℕ, ◌≡◌, refl, ap, ◌∙◌, inl, inr, true, not,
  List, [], ◌∷◌, ◌++◌, if◌then◌else◌, Bool-cases, All,
}

-- Every line with its newline, one behind the other.
unfoldable pub unlines : List Text → Text
unlines [] = []
unlines (l ∷ ls) = l ++ newline ∷ unlines ls

pub file_lines-line :
    (l s : Text)
    → Lacks newline l
    → file_lines (l ++ newline ∷ s) ≡ (l ++ newline ∷ []) ∷ file_lines s
unfolding file_lines
file_lines-line [] s h = refl
file_lines-line (c ∷ l) s (hc, h) = rw (==_false c newline hc, file_lines-line l s h)

pub remove_newline : (l : Text) → Lacks newline l → remove_char newline (l ++ newline ∷ []) ≡ l
remove_newline [] h = refl
remove_newline (c ∷ l) (hc, h) = rw (==_false c newline hc, remove_newline l h)

pub grep-line :
    (pattern l s : Text)
    → Lacks newline l
    → grep pattern (l ++ newline ∷ s)
      ≡ (if occurs_in pattern l then l ++ newline ∷ grep pattern s else grep pattern s)
unfolding grep grep_lines
grep-line pattern l s h = rw (file_lines-line l s h, remove_newline l h)

-- A line in which a pattern occurs is not empty.
occurs_in-full :
    (c : ℕ) (pattern l : Text) → occurs_in (c ∷ pattern) l ≡ true → not (is_empty l) ≡ true
unfolding occurs_in
occurs_in-full c pattern [] h = cc
occurs_in-full c pattern (d ∷ l) h = refl

-- `cat f | grep pattern`, split into its lines, has the lines in which the pattern occurs.
abbrev pub found_lines : Text → Text → List Text
found_lines pattern content = non_empty (split newline (grep pattern content))

pub found_lines-line :
    (c : ℕ) (pattern l s : Text)
    → Lacks newline l
    → found_lines (c ∷ pattern) (l ++ newline ∷ s) ≡ (
        if occurs_in (c ∷ pattern) l
        then l ∷ found_lines (c ∷ pattern) s
        else found_lines (c ∷ pattern) s)
found_lines-line c pattern l s h = elim (Bool-cases (occurs_in (c ∷ pattern) l)) [
  | inl found ↦
      rw (grep-line (c ∷ pattern) l s h, found)
        (rw (split-append newline l (grep (c ∷ pattern) s) h)
          (rw (occurs_in-full c pattern l found)))
  | inr other ↦ rw (grep-line (c ∷ pattern) l s h, other)
]

pub found_lines-unlines :
    (c : ℕ) (pattern : Text) (ls : List Text) (s : Text)
    → All (Lacks newline) ls
    → found_lines (c ∷ pattern) (unlines ls ++ s)
      ≡ keep (occurs_in (c ∷ pattern)) ls ++ found_lines (c ∷ pattern) s
unfolding unlines
found_lines-unlines c pattern [] s h = refl
found_lines-unlines c pattern (l ∷ ls) s (hl, h) =
    ap (found_lines (c ∷ pattern)) (append_assoc l (newline ∷ unlines ls) s)
    ∙ found_lines-line c pattern l (unlines ls ++ s) hl
    ∙ elim (Bool-cases (occurs_in (c ∷ pattern) l)) [
      | inl found ↦ rw (found, found_lines-unlines c pattern ls s h)
      | inr other ↦ rw (other, found_lines-unlines c pattern ls s h)
    ]

-- `Lacks` by a test, for literals.
abbrev pub lacks : ℕ → Text → Bool
lacks c [] = true
lacks c (d ∷ s) = not (d == c) && lacks c s

pub literal-Lacks : (c : ℕ) (s : Text) → lacks c s ≡ true → Lacks c s
literal-Lacks c [] h = tt
literal-Lacks c (d ∷ s) h = (ground arith, literal-Lacks c s (ground arith))
