-- ===== src/Protocol/Quorum/Maps.antt =====
-- What a map has after an assignment, and how many of its keys are below a bound.
use mathlib.Core.Path.{subst}
use skyros.Protocol.Quorum.{lookup_by, assign_by, Messages}
use skyros.Base.{
  ℕ, zero, suc, ◌+◌, ◌<◌, ◌≡◌, ◌≢◌, refl, sym, ap, ◌∙◌, inl, inr, Bool, true, false, Option, none,
  some, List, [], ◌∷◌, arith, ◌==◌, if◌then◌else◌, Bool-cases, length, ==_refl,
}

-- The test finds equal keys, and no others.
pub record IsEquality {K : Type 0} (same : K → K → Bool) : Type 0 where
  pub same_refl : (a : K) → same a a ≡ true
  pub same_sound : (a b : K) → same a b ≡ true → a ≡ b

pub lookup-assign :
    {K V : Type 0} (same : K → K → Bool)
    → IsEquality same
    → (a b : K) (v : V) (xs : List (K × V))
    → lookup_by same a (assign_by same b v xs) ≡ (if same a b then some v else lookup_by same a xs)
unfolding lookup_by assign_by
lookup-assign same h a b v [] = refl
lookup-assign same h a b v ((k, w) ∷ rest) = elim (Bool-cases (same b k)) [
  | inl here ↦
      let to_b = ap (same a) (sym (h.same_sound b k here)) in
      rw here (
        rw to_b
          (elim (Bool-cases (same a b)) [ inl holds ↦ rw holds refl | inr fails ↦ rw fails refl ]))
  | inr behind ↦ rw behind (
      rw (lookup-assign same h a b v rest) (elim (Bool-cases (same a b)) [
        | inl holds ↦
            let away = ap (λ x. same x k) (h.same_sound a b holds) ∙ behind in
            rw holds (rw away refl)
        | inr fails ↦ rw fails refl
      ]))
]

unfoldable pub is_some : {M : Type 0} → Option M → Bool
is_some none = false
is_some (some m) = true

pub index_IsEquality : IsEquality (λ (i j : ℕ). i == j)
index_IsEquality = record { same_refl = ==_refl; same_sound = λ a b h. ground arith }

abbrev pub find_message : {M : Type 0} → ℕ → Messages M → Option M
find_message i ms = lookup_by (λ i j. i == j) i ms

pub length-assign :
    {M : Type 0} (j : ℕ) (m : M) (ms : Messages M)
    → length (assign_by (λ i j. i == j) j m ms)
      ≡ length ms + (if is_some (find_message j ms) then 0 else 1)
unfolding lookup_by assign_by is_some
length-assign j m [] = refl
length-assign j m ((k, w) ∷ rest) = elim (Bool-cases (j == k)) [
  | inl here ↦ rw here (omega arith)
  | inr behind ↦ rw behind (omega (arith, length-assign j m rest))
]

-- How many numbers below the bound the test holds of.
unfoldable pub count : ℕ → (ℕ → Bool) → ℕ
count zero f = 0
count (suc n) f = (if f n then 1 else 0) + count n f

pub count-same : (n : ℕ) (f g : ℕ → Bool) → ((i : ℕ) → i < n → f i ≡ g i) → count n f ≡ count n g
unfolding count
count-same zero f g h = refl
count-same (suc n) f g h =
    rw (h n (omega arith), count-same n f g (λ i below. h i (omega arith))) refl

pub count-none : (n : ℕ) → count n (λ i. false) ≡ 0
unfolding count
count-none zero = refl
count-none (suc n) = omega (arith, count-none n)

pub count-set :
    (n j : ℕ) (f g : ℕ → Bool)
    → j < n
    → g j ≡ true
    → ((i : ℕ) → i ≢ j → g i ≡ f i)
    → count n g ≡ count n f + (if f j then 0 else 1)
unfolding count
count-set zero j f g below at other = absurd (omega arith)
count-set (suc n) j f g below at other = elim (Bool-cases (j == n)) [
  | inl last ↦
      let same_number : j ≡ n = ground arith in
      let new = subst (λ (i : ℕ). g i ≡ true) same_number at in
      let others =
        count-same n g f (λ i before. other i (λ e. absurd (omega (arith, same_number)))) in
      rw same_number (
        rw new (
          rw others (elim (Bool-cases (f n)) [
            | inl holds ↦ rw holds (omega arith)
            | inr fails ↦ rw fails (omega arith)
          ])))
  | inr before ↦
      let apart : n ≢ j = ground arith in
      let within : j < n = omega (arith, apart) in
      rw (other n apart) (omega (arith, count-set n j f g within at other))
]
