-- ===== src/Results/Latency/Bench/Waiting.antt =====
-- A client that waits for the reply to a request, and what its replies are to give.
use mathlib.Core.List.{map}
use skyros.Results.Latency.Bench.{
  BenchmarkClient, BenchEvent, warmup_ended, cooldown_ended, replied, run_events, raw_pairs,
}
use skyros.Results.Latency.Classify.Raw.{Operation}
use skyros.Base.{
  ℕ, ◌≡◌, refl, ap, Bool, true, false, ◌||◌, some, List, [], ◌∷◌, ◌++◌, arith, if◌then◌else◌, All,
  length, get_elem?,
}

abbrev is_warmup : BenchEvent → Bool
is_warmup warmup_ended = true
is_warmup cooldown_ended = false
is_warmup (replied ns elapsed) = false

-- The events behind the end of the warm-up.
abbrev pub AllLater : List BenchEvent → Type 0
AllLater = All (λ e. is_warmup e ≡ false)

-- The operations of the requests with the latencies of their replies, from these requests on, until
-- one of the replies comes when the duration has elapsed, or the cool-down has ended.
unfoldable pub measured : List ℕ → List BenchEvent → List Operation
measured [] es = []
measured (op ∷ ops) [] = []
measured (op ∷ ops) (warmup_ended ∷ es) = []
measured (op ∷ ops) (cooldown_ended ∷ es) = []
measured (op ∷ ops) (replied ns elapsed ∷ es) =
    let rest = measured ops es in (op, ns) ∷ (if elapsed then [] else rest)

abbrev pub firsts : List Operation → List ℕ
firsts = map (λ p. p.0)

abbrev pub seconds : List Operation → List ℕ
seconds = map (λ p. p.1)

pub firsts-snoc :
    (ps : List Operation) (op ns : ℕ) → firsts (ps ++ (op, ns) ∷ []) ≡ firsts ps ++ op ∷ []
firsts-snoc [] op ns = refl
firsts-snoc (p ∷ ps) op ns = ap (λ (l : List ℕ). p.0 ∷ l) (firsts-snoc ps op ns)

pub seconds-snoc :
    (ps : List Operation) (op ns : ℕ) → seconds (ps ++ (op, ns) ∷ []) ≡ seconds ps ++ ns ∷ []
seconds-snoc [] op ns = refl
seconds-snoc (p ∷ ps) op ns = ap (λ (l : List ℕ). p.1 ∷ l) (seconds-snoc ps op ns)

pub length-firsts : (ps : List Operation) → length (firsts ps) ≡ length ps
length-firsts [] = refl
length-firsts (p ∷ ps) = omega (arith, length-firsts ps)

pub raw_pairs-firsts :
    (ps : List Operation) (more : List ℕ) → raw_pairs (firsts ps ++ more) (seconds ps) ≡ some ps
unfolding raw_pairs
raw_pairs-firsts [] more = refl
raw_pairs-firsts ((op, ns) ∷ ps) more = rw (raw_pairs-firsts ps more) refl

pub get_elem?-behind :
    (xs : List ℕ) (y : ℕ) (ys : List ℕ) → get_elem? (xs ++ y ∷ ys) (length xs) ≡ some y
get_elem?-behind [] y ys = refl
get_elem?-behind (x ∷ xs) y ys = get_elem?-behind xs y ys

pub or_true : (b : Bool) → (b || true) ≡ true
or_true true = refl
or_true false = refl

pub either : (b : Bool) (l : List Operation) → (if b then l else l) ≡ l
either true l = refl
either false l = refl

-- A client that has taken the latencies of `ps` and waits for the reply to `op`.
abbrev pub waiting : List Operation → ℕ → BenchmarkClient
waiting ps op = record {
  started = true;
  done = false;
  cooldown_done = false;
  n = length ps;
  opcodes = firsts ps ++ op ∷ [];
  latencies = seconds ps;
}

-- The client ends with a raw file of these pairs.
abbrev pub Leaves : ℕ → List ℕ → List BenchEvent → BenchmarkClient → List Operation → Type 0
Leaves num_requests operations es b ps =
    (b' : BenchmarkClient) × (run_events num_requests operations es b ≡ some b')
    × (raw_pairs b'.opcodes b'.latencies ≡ some ps)
