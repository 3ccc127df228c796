-- ===== src/Results/Latency/Bench/Warmup.antt =====
-- A client with replies before the end of its warm-up.
use skyros.Results.Latency.Bench.{
  BenchmarkClient, BenchEvent, warmup_ended, replied, send_next, record_latency, on_reply, on_event,
  run_events, bench, raw_pairs,
}
use skyros.Results.Latency.Bench.Over.{send_next-Grows}
use skyros.Results.Latency.Bench.Waiting.{get_elem?-behind}
use skyros.Base.{
  ℕ, suc, ◌+◌, ◌≤◌, ◌<◌, ◌≡◌, refl, sym, ap, ◌∙◌, Bool, true, false, some, List, [], ◌∷◌, ◌++◌,
  arith, leb, leb-false, ◌||◌, length, append_assoc, append-nil, get_elem?, length-append,
}

-- Replies, with their latencies.
abbrev pub replies : List (ℕ × Bool) → List BenchEvent
replies [] = []
replies ((ns, elapsed) ∷ rs) = replied ns elapsed ∷ replies rs

-- A client in its warm-up that has sent these requests.
abbrev warming : List ℕ → ℕ → BenchmarkClient
warming opcodes n = record {
  started = false;
  done = false;
  cooldown_done = false;
  n = n;
  opcodes = opcodes;
  latencies = [];
}

module _ (num_requests : ℕ) (operations : List ℕ) where
  warming-run :
      (rs : List (ℕ × Bool)) (sent : List ℕ) (n : ℕ) (next more : List ℕ)
      → operations ≡ sent ++ (next ++ more)
      → n + 1 ≡ length sent
      → length rs ≡ length next
      → n + length rs < num_requests
      → run_events num_requests operations (replies rs) (warming sent n)
        ≡ some (warming (sent ++ next) (n + length rs))
  unfolding run_events on_event on_reply record_latency send_next
  warming-run [] sent n [] more trace count same left =
      let same_n : n ≡ n + 0 = omega arith in
      λ i. some (warming (sym (append-nil sent) i) (same_n i))
  warming-run [] sent n (z ∷ next) more trace count same left = absurd (omega arith)
  warming-run (r ∷ rs) sent n [] more trace count same left = absurd (omega arith)
  warming-run ((ns, elapsed) ∷ rs) sent n (z ∷ next) more trace count same left =
      let found : get_elem? operations (n + 1) ≡ some z =
        ap (λ (i : ℕ). get_elem? operations i) count
        ∙ ap (λ (l : List ℕ). get_elem? l (length sent)) trace
        ∙ get_elem?-behind sent z (next ++ more) in
      let later =
        warming-run rs (sent ++ z ∷ []) (n + 1) next more
          (trace ∙ sym (append_assoc sent (z ∷ []) (next ++ more)))
          (omega (arith, length-append sent (z ∷ []))) (omega arith) (omega arith) in
      let same_n : (n + 1) + length rs ≡ n + suc (length rs) = omega arith in
      rw (leb-false num_requests (n + 1) (omega arith), found)
        (later ∙ (λ i. some (warming (append_assoc sent (z ∷ []) next i) (same_n i))))

  first_pair :
      (first : ℕ) (sent : List ℕ) (n ns : ℕ) (elapsed : Bool)
      → num_requests ≤ length operations
      → (b : BenchmarkClient) × (run_events num_requests operations
            (warmup_ended ∷ replied ns elapsed ∷ [])
            (warming (first ∷ sent) n)
          ≡ some b)
        × (raw_pairs b.opcodes b.latencies ≡ some ((first, ns) ∷ []))
  unfolding run_events on_event on_reply record_latency raw_pairs
  first_pair first sent n ns elapsed enough =
      let (b, next, grows) = send_next-Grows num_requests operations enough (record {
        started = true;
        done = leb num_requests 1 || elapsed;
        cooldown_done = false;
        n = 1;
        opcodes = first ∷ sent;
        latencies = ns ∷ [];
      }) in
      (b, rw next refl, rw (grows.opcodes, grows.latencies) refl)

-- The raw file is shifted by a warm-up. If the trace begins with `first`, some operations and then
-- `asked`, and in the warm-up come as many replies as there are operations before `asked`, then
-- the client waits for the reply to `asked` when the warm-up ends; but the latency of that reply,
-- the first that is recorded, stands in the raw file behind `first`.
pub bench-shifted :
    (num_requests first : ℕ) (between : List ℕ) (asked : ℕ) (more : List ℕ) (rs : List (ℕ × Bool))
    (ns : ℕ) (elapsed : Bool)
    → length rs ≡ length between + 1
    → length rs < num_requests
    → num_requests ≤ length (first ∷ (between ++ asked ∷ more))
    → (b : BenchmarkClient) × (b' : BenchmarkClient) × (bench num_requests
          (first ∷ (between ++ asked ∷ more))
          (replies rs)
        ≡ some b)
      × (b.opcodes ≡ first ∷ (between ++ asked ∷ []))
      × (run_events num_requests
            (first ∷ (between ++ asked ∷ more))
            (warmup_ended ∷ replied ns elapsed ∷ [])
            b
          ≡ some b')
      × (raw_pairs b'.opcodes b'.latencies ≡ some ((first, ns) ∷ []))
unfolding bench send_next
bench-shifted num_requests first between asked more rs ns elapsed count left enough =
    let operations = first ∷ (between ++ asked ∷ more) in
    let trace : operations ≡ (first ∷ []) ++ ((between ++ asked ∷ []) ++ more) =
      ap (λ (l : List ℕ). first ∷ l) (sym (append_assoc between (asked ∷ []) more)) in
    let ran =
      warming-run num_requests operations rs (first ∷ []) 0 (between ++ asked ∷ []) more trace
        (omega arith) (omega (arith, length-append between (asked ∷ []))) (omega arith) in
    let (b', last, pairs) =
      first_pair num_requests operations first (between ++ asked ∷ []) (0 + length rs) ns elapsed
        enough in
    (
      warming (first ∷ (between ++ asked ∷ [])) (0 + length rs),
      b',
      rw (leb-false num_requests 0 (omega arith)) ran,
      refl,
      last,
      pairs,
    )
