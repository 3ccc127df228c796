-- ===== src/Protocol/Log/Numbered.antt =====
-- The numbers of a log: every entry has the number of its place.
use skyros.Protocol.Log.{
  next_number, last_number, find_in, Log, LogEntry, add64, sub64, resize, get_elem?,
}
use skyros.Base.{
  ==_true, ◌^◌, ℕ, zero, suc, ◌+◌, ◌-◌, ◌≤◌, ◌<◌, ◌≡◌, refl, sym, ap, ◌∙◌, inl, inr, true, none,
  some, List, [], ◌∷◌, ◌++◌, arith, ltb, ◌==◌, if◌then◌else◌, Bool-cases, length,
}

-- The entries have the numbers from `n` on.
unfoldable pub Numbered : ℕ → List LogEntry → Type 0
Numbered n [] = Unit
Numbered n (e ∷ es) = (e.viewstamp.opnum ≡ n) × Numbered (suc n) es

-- The numbers begin with `start`, and there is room for one more.
pub record IsNumbered (l : Log) : Type 0 where
  pub numbered : Numbered l.start l.entries
  pub positive : 0 < l.start
  pub room : l.start + length l.entries < 2 ^ 64

pub sub64-le : (a b : ℕ) → b ≤ a → a < 2 ^ 64 → sub64 a b ≡ a - b
sub64-le a b h bound = omega arith

pub add64-one : (a : ℕ) → suc a < 2 ^ 64 → add64 a 1 ≡ suc a
add64-one a h = omega arith

pub Numbered-append :
    (n : ℕ) (es : List LogEntry) (e : LogEntry)
    → Numbered n es
    → e.viewstamp.opnum ≡ n + length es
    → Numbered n (es ++ e ∷ [])
unfolding Numbered
Numbered-append n [] e h last = (omega (arith, last), tt)
Numbered-append n (x ∷ es) e (hx, h) last =
    (hx, Numbered-append (suc n) es e h (omega (arith, last)))

pub Numbered-resize : (n k : ℕ) (es : List LogEntry) → Numbered n es → Numbered n (resize k es)
unfolding Numbered resize
Numbered-resize n zero es h = tt
Numbered-resize n (suc k) [] h = tt
Numbered-resize n (suc k) (e ∷ es) (he, h) = (he, Numbered-resize (suc n) k es h)

pub length-resize : (k : ℕ) (es : List LogEntry) → k ≤ length es → length (resize k es) ≡ k
unfolding resize
length-resize zero es h = refl
length-resize (suc k) [] h = absurd (omega arith)
length-resize (suc k) (e ∷ es) h = ap suc (length-resize k es (omega arith))

-- The entry at a place has the number of the place.
pub Numbered-get :
    (n i : ℕ) (es : List LogEntry)
    → Numbered n es
    → i < length es
    → (e : LogEntry) × ((get_elem? es i ≡ some e) × (e.viewstamp.opnum ≡ n + i))
unfolding Numbered
Numbered-get n i [] h within = absurd (omega arith)
Numbered-get n zero (e ∷ es) (he, h) within = (e, (refl, omega (arith, he)))
Numbered-get n (suc i) (e ∷ es) (he, h) within =
    let (x, (found, number)) = Numbered-get (suc n) i es h (omega arith) in
    (x, (found, omega (arith, number)))

last_number_start :
    (m n : ℕ) (e : LogEntry) (es : List LogEntry) → last_number m (e ∷ es) ≡ last_number n (e ∷ es)
unfolding last_number
last_number_start m n e [] = refl
last_number_start m n e (f ∷ es) = last_number_start m n f es

get_elem?-beyond : (es : List LogEntry) (i : ℕ) → length es ≤ i → get_elem? es i ≡ none
get_elem?-beyond [] i h = refl
get_elem?-beyond (e ∷ es) zero h = absurd (omega arith)
get_elem?-beyond (e ∷ es) (suc i) h = get_elem?-beyond es i (omega arith)

pub last_number-Numbered :
    (start : ℕ) (es : List LogEntry)
    → Numbered start es
    → 0 < start
    → start + length es < 2 ^ 64
    → last_number start es ≡ start + length es - 1
unfolding last_number Numbered
last_number-Numbered start [] h positive room = omega arith
last_number-Numbered start (e ∷ []) (he, h) positive room = omega (arith, he)
last_number-Numbered start (e ∷ f ∷ es) (he, h) positive room =
    last_number_start start (suc start) f es
    ∙ last_number-Numbered (suc start) (f ∷ es) h (omega arith) (omega arith)
    ∙ omega arith

pub next_number-Numbered :
    (start : ℕ) (es : List LogEntry)
    → Numbered start es
    → 0 < start
    → start + length es < 2 ^ 64
    → next_number start es ≡ start + length es
unfolding next_number
next_number-Numbered start [] h positive room = omega arith
next_number-Numbered start (e ∷ es) h positive room =
    rw (last_number-Numbered start (e ∷ es) h positive room) (omega arith)

-- On a log with its numbers, a look-up by number never fails its assertion: it finds the entry at the
-- place of the number, and NULL for every number outside of the log.
pub find_in-Numbered :
    (start opnum : ℕ) (es : List LogEntry)
    → Numbered start es
    → start + length es < 2 ^ 64
    → opnum < 2 ^ 64
    → find_in start opnum es ≡ some (if ltb opnum start then none else get_elem? es (opnum - start))
unfolding find_in
find_in-Numbered start opnum [] h room bound = elim (Bool-cases (ltb opnum start)) [
  | inl before ↦ rw before refl
  | inr from_start ↦ rw from_start refl
]
find_in-Numbered start opnum (e ∷ es) h room bound = elim (Bool-cases (ltb opnum start)) [
  | inl before ↦ rw before refl
  | inr from_start ↦
      let i = opnum - start in
      let offset : sub64 opnum start ≡ i = sub64-le opnum start (ground arith) bound in
      let last : sub64 (suc (length es)) 1 ≡ length es = omega arith in
      rw (from_start, offset, last)
        (elim (Bool-cases (ltb (length es) i)) [
          | inl behind ↦ rw behind (ap some (sym (get_elem?-beyond (e ∷ es) i (ground arith))))
          | inr within ↦
              let (x, (found, number)) = Numbered-get start i (e ∷ es) h (ground arith) in
              let same : (x.viewstamp.opnum == opnum) ≡ true = ==_true _ _ (ground arith) in
              rw (within, found, same) refl
        ])
]
