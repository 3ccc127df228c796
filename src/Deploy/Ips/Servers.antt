-- ===== src/Deploy/Ips/Servers.antt =====
-- The names of the servers, and addresses numbered by them.
use skyros.Base.Decimal.{str_int_injective, str_int}
use skyros.Base.Text.{=text_sound, ◌=text◌, Text}
use skyros.Deploy.Ips.{servers, clean, insert, servers_from}
use skyros.Base.{
  get_elem?, ℕ, zero, suc, ◌+◌, ◌≤◌, ◌<◌, ◌≡◌, refl, sym, ap, ◌∙◌, ◌≢◌, inl, inr, false, some, List,
  [], ◌∷◌, ◌++◌, arith, Bool-cases, All, length,
}

-- The entries of the servers from number `x` on, for the lines of the file.
unfoldable pub numbered : ℕ → List Text → List (Text × Text)
numbered x [] = []
numbered x (line ∷ lines) = (str_int (x + 1), clean line) ∷ numbered (x + 1) lines

-- The key is in no entry.
abbrev IsFresh : Text → List (Text × Text) → Type 0
IsFresh key = All (λ e. (e.0 =text key) ≡ false)

insert_fresh :
    (key value : Text) (ips : List (Text × Text))
    → IsFresh key ips
    → insert key value ips ≡ ips ++ (key, value) ∷ []
unfolding insert
insert_fresh key value [] h = refl
insert_fresh key value (e ∷ rest) (he, h) = rw (he, insert_fresh key value rest h)

pub =text_false : (m n : ℕ) → m ≢ n → (str_int m =text str_int n) ≡ false
=text_false m n h = elim (Bool-cases (str_int m =text str_int n)) [
  | inl same ↦ absurd (h (str_int_injective m n (=text_sound _ _ same)))
  | inr other ↦ other
]

numbered-IsFresh :
    (x k : ℕ) (lines : List Text)
    → x + length lines ≤ k
    → IsFresh (str_int (k + 1)) (numbered x lines)
unfolding numbered
numbered-IsFresh x k [] h = tt
numbered-IsFresh x k (line ∷ lines) h =
    (=text_false (x + 1) (k + 1) (omega arith), numbered-IsFresh (x + 1) k lines (omega arith))

get_elem?-servers_from :
    (x n i : ℕ) → i < n → get_elem? (servers_from x n) i ≡ some (str_int (x + i + 1))
unfolding servers_from
get_elem?-servers_from x zero i h = elim h [ ]
get_elem?-servers_from x (suc n) zero h = ground arith
get_elem?-servers_from x (suc n) (suc i) h =
    get_elem?-servers_from (x + 1) n i (omega arith)
    ∙ ap (λ (k : ℕ). some (str_int k)) (omega arith)

pub get_elem?-servers : (n i : ℕ) → i < n → get_elem? (servers n) i ≡ some (str_int (i + 1))
unfolding servers
get_elem?-servers n i h =
    get_elem?-servers_from 0 n i h ∙ ap (λ (k : ℕ). some (str_int k)) (omega arith)

numbered-snoc :
    (x : ℕ) (lines : List Text) (line : Text)
    → numbered x (lines ++ line ∷ [])
      ≡ numbered x lines ++ (str_int (x + length lines + 1), clean line) ∷ []
unfolding numbered
numbered-snoc x [] line = ap (λ (k : ℕ). (str_int k, clean line) ∷ []) (omega arith)
numbered-snoc x (l ∷ lines) line =
    ap (λ (es : List (Text × Text)). (str_int (x + 1), clean l) ∷ es)
      (numbered-snoc (x + 1) lines line
        ∙ ap (λ (k : ℕ). numbered (x + 1) lines ++ (str_int k, clean line) ∷ []) (omega arith))

-- Entering the next line after those of the servers before.
pub insert-numbered :
    (done : List Text) (line : Text)
    → insert (str_int (length done + 1)) (clean line) (numbered 0 done)
      ≡ numbered 0 (done ++ line ∷ [])
insert-numbered done line =
    insert_fresh _ _ _ (numbered-IsFresh 0 (length done) done (omega arith))
    ∙ sym (
        numbered-snoc 0 done line
        ∙ ap (λ (k : ℕ). numbered 0 done ++ (str_int k, clean line) ∷ []) (omega arith))

-- The first `n` elements.
abbrev pub take {ℓ} : {A : Type ℓ} → ℕ → List A → List A
take zero xs = []
take (suc n) [] = []
take (suc n) (x ∷ xs) = x ∷ take n xs
