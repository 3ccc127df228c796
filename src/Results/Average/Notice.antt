-- ===== src/Results/Average/Notice.antt =====
-- The line that a client of src/skyros/bench prints (`Notice` of lib/message, `LatencyFmtNS` of
-- lib/latency, `BenchmarkClient::CooldownDone` of bench/benchmark.cc), and what the result scripts
-- read in it.
use mathlib.Core.List.{cons-ne-nil, concat-ne-nil}
use skyros.Base.{
  ◌-◌, ltb, ltb-true, ok, All, All-append, ◌≢◌, Bool-cases, inl, inr, ℕ, ◌/◌, ◌<◌, ◌^◌, ◌≡◌, refl,
  List, [], ◌∷◌, ◌++◌, ok, leb, if◌then◌else◌, arith,
}
use skyros.Base.Text.{Text, codes, IsWord}
use skyros.Base.Decimal.{str_int, str_int-ne-nil, str_int-IsNumeral, IsNumeral-Lacks}
use skyros.Results.Average.{latency_of_line}
use skyros.Results.Float.{Floats, Laws}
use skyros.Base.Words.{
  words_one, words-cons_eq, words-padded_eq, literal-IsWord, space, words, padded, words_one,
}
use skyros.Results.Float.{Floats, Laws}
use skyros.Results.Average.{latency_of_line}

-- The loop of `LatencyFmtNS` over the units that are left.
pub scale : ℕ → Text → List Text → ℕ × Text
scale ns unit [] = (ns, unit)
scale ns unit (bigger ∷ units) =
    let next = scale (ns / 1000) bigger units in if leb 10000 ns then next else (ns, unit)

abbrev pub scaled : ℕ → ℕ × Text
scaled ns = scale ns (codes "ns") (codes "us" ∷ codes "ms" ∷ codes "s" ∷ [])

-- What `Notice` prints before the message: the time, the process, `*`, the function and the place
-- in the source, and the message.
pub notice : Text → Text → Text → Text → Text → Text
notice time pid function place message =
    time
    ++ space
      ∷ (pid
          ++ space
            ∷ (b'*' ∷ space ∷ padded 15 function (space ∷ padded 19 place (space ∷ message))))

-- A 64-bit number that is printed with `%ld`, which takes it as a signed one.
unfoldable pub signed : ℕ → Text
signed ns = if ltb ns (2 ^ 63) then str_int ns else b'-' ∷ str_int (2 ^ 64 - ns)

signed-small : (ns : ℕ) → ns < 2 ^ 63 → signed ns ≡ str_int ns
unfolding signed
signed-small ns fits = rw (ltb-true ns (2 ^ 63) fits) refl

-- `Notice("Average latency is %ld ns (%s)", ns, buf)`
pub average_message : ℕ → Text
unfolding scale
average_message ns =
    codes "Average"
    ++ space
      ∷ (codes "latency"
          ++ space
            ∷ (codes "is"
                ++ space
                  ∷ (signed ns
                      ++ space
                        ∷ (codes "ns"
                            ++ space
                              ∷ ((b'(' ∷ str_int (scaled ns).0)
                                  ++ space ∷ ((scaled ns).1 ++ b')' ∷ []))))))

scale-IsWord :
    (us : List Text) (ns : ℕ) (u : Text)
    → IsWord space u
    → All (IsWord space) us
    → IsWord space (scale ns u us).1
unfolding scale
scale-IsWord [] ns u h hs = h
scale-IsWord (v ∷ us) ns u h (hv, hs) = elim (Bool-cases (leb 10000 ns)) [
  | inl big ↦ rw big (scale-IsWord us (ns / 1000) v hv hs)
  | inr small ↦ rw small h
]

str_int-IsWord : (n : ℕ) → IsWord space (str_int n)
str_int-IsWord n = record {
  full = str_int-ne-nil n;
  lacks = IsNumeral-Lacks space (str_int n) refl (str_int-IsNumeral n);
}

IsWord-snoc : (p : Text) (c : ℕ) → c ≢ space → IsWord space p → IsWord space (p ++ c ∷ [])
IsWord-snoc p c h w = record {
  full = λ e. concat-ne-nil c p e;
  lacks = All-append (λ d. d ≢ space) p (c ∷ []) w.lacks (h, tt);
}

IsWord-cons : (c : ℕ) (p : Text) → c ≢ space → IsWord space p → IsWord space (c ∷ p)
IsWord-cons c p h w = record { full = λ e. cons-ne-nil c p e; lacks = (h, w.lacks) }

unit-IsWord : (ns : ℕ) → IsWord space (scaled ns).1
unit-IsWord ns =
    scale-IsWord _ ns (codes "ns") (literal-IsWord _ _ refl)
      (literal-IsWord _ _ refl, (literal-IsWord _ _ refl, (literal-IsWord _ _ refl, tt)))

average_words :
    (ns : ℕ)
    → ns < 2 ^ 63
    → words (average_message ns)
      ≡ codes "Average"
        ∷ codes "latency"
        ∷ codes "is"
        ∷ str_int ns
        ∷ codes "ns"
        ∷ (b'(' ∷ str_int (scaled ns).0)
        ∷ ((scaled ns).1 ++ b')' ∷ [])
        ∷ []
unfolding average_message
average_words ns fits = rw (signed-small ns fits) (
    words-cons_eq (codes "Average") _ (literal-IsWord _ _ refl) (
      words-cons_eq (codes "latency") _ (literal-IsWord _ _ refl) (
        words-cons_eq (codes "is") _ (literal-IsWord _ _ refl) (
          words-cons_eq (str_int ns) _ (str_int-IsWord ns) (
            words-cons_eq (codes "ns") _ (literal-IsWord _ _ refl) (
              words-cons_eq (b'(' ∷ str_int (scaled ns).0) _
                (IsWord-cons b'(' _ (omega arith) (str_int-IsWord _))
                (words_one ((scaled ns).1 ++ b')' ∷ [])
                  (IsWord-snoc _ b')' (omega arith) (unit-IsWord ns)))))))))

-- The twelve words of the line.
words-notice :
    (time pid function place : Text) (ns : ℕ)
    → IsWord space time
    → IsWord space pid
    → IsWord space function
    → IsWord space place
    → words (notice time pid function place (average_message ns))
      ≡ time ∷ pid ∷ codes "*" ∷ function ∷ place ∷ words (average_message ns)
unfolding notice
words-notice time pid function place ns ht hp hf hl = words-cons_eq time _ ht (
    words-cons_eq pid _ hp (
      words-cons_eq (codes "*") _ (literal-IsWord _ _ refl)
        (words-padded_eq 15 function _ hf (words-padded_eq 19 place _ hl refl))))

-- A result script reads in the line of a client the average that the client has printed in
-- nanoseconds, whatever the time, the process, the function and the place in the source that stand
-- before it, if each of these is a word without blanks, and the average is below 2 ^ 63.
pub latency_of_line-notice :
    (F : Floats) {divides : F.Float → Type 0} (laws : Laws F divides)
    (time pid function place : Text) (ns : ℕ)
    → ns < 2 ^ 63
    → IsWord space time
    → IsWord space pid
    → IsWord space function
    → IsWord space place
    → latency_of_line F (notice time pid function place (average_message ns)) ≡ ok (F.of_int ns)
unfolding latency_of_line
latency_of_line-notice F laws time pid function place ns fits ht hp hf hl = rw (
  words-notice time pid function place ns ht hp hf hl,
  average_words ns fits,
  laws.float-str_int ns (omega arith),
)
