-- ===== src/Results/Latency/Bench/Aligned.antt =====
-- A client whose warm-up ends before its first reply: each latency of the raw file stands behind the
-- operation of its own request.
use skyros.Results.Latency.Bench.Waiting.{
  AllLater, measured, firsts, seconds, firsts-snoc, seconds-snoc, length-firsts, raw_pairs-firsts,
  get_elem?-behind, or_true, either, waiting, Leaves,
}
use mathlib.Core.Path.{subst}
use skyros.Protocol.Log.{and_then}
use skyros.Results.Latency.Bench.Over.{IsOver, send_next-Grows, over-run}
use skyros.Results.Latency.Bench.{
  BenchmarkClient, BenchEvent, warmup_ended, cooldown_ended, replied, send_next, record_latency,
  on_reply, on_event, run_events, raw_pairs,
}
use skyros.Results.Latency.Classify.Raw.{Operation}
use skyros.Base.{
  ℕ, ◌+◌, ◌≤◌, ◌<◌, ◌≡◌, refl, sym, ap, ◌∙◌, inl, inr, Bool, true, false, ◌||◌, some, List, [], ◌∷◌,
  ◌++◌, arith, leb, leb-true, leb-false, length, append_assoc, append-nil, get_elem?, length-append,
  ==_false,
}

module _ (num_requests : ℕ) (operations : List ℕ) where
  -- The last reply that is taken.
  Leaves-over :
      (es : List BenchEvent) (b : BenchmarkClient) (ps : List Operation) (more : List ℕ)
      → num_requests ≤ length operations
      → IsOver b
      → b.opcodes ≡ firsts ps ++ more
      → b.latencies ≡ seconds ps
      → Leaves num_requests operations es b ps
  Leaves-over es b ps more enough over ops lats =
      let (b', ran, grows) = over-run num_requests operations enough es b over in
      (
        b',
        ran,
        ap (λ (l : List ℕ). raw_pairs b'.opcodes l) (grows.latencies ∙ lats)
            ∙ ap (λ (l : List ℕ). raw_pairs l (seconds ps))
                (grows.opcodes
                  ∙ ap (λ (l : List ℕ). l ++ grows.extra) ops
                  ∙ append_assoc (firsts ps) more grows.extra)
            ∙ raw_pairs-firsts ps (more ++ grows.extra),
      )

  -- What a reply makes of the client, before the next request is sent.
  taken : List Operation → ℕ → ℕ → Bool → BenchmarkClient
  taken ps op ns elapsed = record {
    started = true;
    done = leb num_requests (length ps + 1) || elapsed;
    cooldown_done = false;
    n = length ps + 1;
    opcodes = firsts ps ++ op ∷ [];
    latencies = seconds ps ++ ns ∷ [];
  }

  on_reply-waiting :
      (ps : List Operation) (op ns : ℕ) (elapsed : Bool)
      → on_reply num_requests operations ns elapsed (waiting ps op)
        ≡ send_next num_requests operations (taken ps op ns elapsed)
  unfolding on_reply record_latency taken
  on_reply-waiting ps op ns elapsed = rw (==_false (length ps + 1) 0 (omega arith)) refl

  Leaves-last :
      (es : List BenchEvent) (ps : List Operation) (op ns : ℕ) (elapsed : Bool)
      → num_requests ≤ length operations
      → (leb num_requests (length ps + 1) || elapsed) ≡ true
      → Leaves num_requests operations
          (replied ns elapsed ∷ es)
          (waiting ps op)
          (ps ++ (op, ns) ∷ [])
  unfolding run_events on_event taken
  Leaves-last es ps op ns elapsed enough done =
      let (b1, sent, grows) =
        send_next-Grows num_requests operations enough (taken ps op ns elapsed) in
      let (b', ran, pairs) =
        Leaves-over es b1 (ps ++ (op, ns) ∷ []) grows.extra enough (grows.over (inl done))
          (grows.opcodes ∙ ap (λ (l : List ℕ). l ++ grows.extra) (sym (firsts-snoc ps op ns)))
          (grows.latencies ∙ sym (seconds-snoc ps op ns)) in
      (
        b',
        ap (λ o. and_then o (λ b. run_events num_requests operations es b))
              (on_reply-waiting ps op ns elapsed ∙ sent)
            ∙ ran,
        pairs,
      )

  -- The operations of the trace behind a request and its reply.
  trace_next :
      (ps : List Operation) (op ns : ℕ) (more : List ℕ)
      → operations ≡ firsts ps ++ op ∷ more
      → operations ≡ firsts (ps ++ (op, ns) ∷ []) ++ more
  trace_next ps op ns more trace =
      trace
      ∙ sym (
          ap (λ (l : List ℕ). l ++ more) (firsts-snoc ps op ns)
          ∙ append_assoc (firsts ps) (op ∷ []) more)

  length-snoc : (ps : List Operation) (op ns : ℕ) → length (ps ++ (op, ns) ∷ []) ≡ length ps + 1
  length-snoc ps op ns = length-append ps ((op, ns) ∷ [])

  next_found :
      (ps : List Operation) (op ns op2 : ℕ) (more : List ℕ)
      → operations ≡ firsts ps ++ op ∷ op2 ∷ more
      → get_elem? operations (length ps + 1) ≡ some op2
  next_found ps op ns op2 more trace =
      let qs = ps ++ (op, ns) ∷ [] in
      ap (λ (i : ℕ). get_elem? operations i) (sym (length-firsts qs ∙ length-snoc ps op ns))
      ∙ ap (λ (l : List ℕ). get_elem? l (length (firsts qs)))
          (trace_next ps op ns (op2 ∷ more) trace)
      ∙ get_elem?-behind (firsts qs) op2 more

  next_request :
      (ps : List Operation) (op ns op2 : ℕ) (more : List ℕ)
      → operations ≡ firsts ps ++ op ∷ op2 ∷ more
      → length ps + 1 < num_requests
      → on_reply num_requests operations ns false (waiting ps op)
        ≡ some (waiting (ps ++ (op, ns) ∷ []) op2)
  unfolding send_next taken
  next_request ps op ns op2 more trace left =
      on_reply-waiting ps op ns false
      ∙ rw (leb-false num_requests (length ps + 1) left, next_found ps op ns op2 more trace)
          (ap (λ (b : BenchmarkClient). some b)
            (λ i. record {
              started = true;
              done = false;
              cooldown_done = false;
              n = sym (length-snoc ps op ns) i;
              opcodes = sym (firsts-snoc ps op ns) i ++ op2 ∷ [];
              latencies = sym (seconds-snoc ps op ns) i;
            }))

  trace_enough :
      (ps : List Operation) (op : ℕ) (rest spare : List ℕ)
      → operations ≡ firsts ps ++ op ∷ (rest ++ spare)
      → num_requests ≡ length ps + (1 + length rest)
      → num_requests ≤ length operations
  trace_enough ps op rest spare trace count = omega (
    arith,
    ap (λ (l : List ℕ). length l) trace,
    length-append (firsts ps) (op ∷ (rest ++ spare)),
    length-append rest spare,
    length-firsts ps,
  )

  pub Leaves-run :
      (es : List BenchEvent) (ps : List Operation) (op : ℕ) (rest spare : List ℕ)
      → operations ≡ firsts ps ++ op ∷ (rest ++ spare)
      → num_requests ≡ length ps + (1 + length rest)
      → AllLater es
      → Leaves num_requests operations es (waiting ps op) (ps ++ measured (op ∷ rest) es)
  unfolding run_events on_event measured
  Leaves-run [] ps op rest spare trace count later =
      (waiting ps op, refl, raw_pairs-firsts ps (op ∷ []) ∙ ap some (sym (append-nil ps)))
  Leaves-run (warmup_ended ∷ es) ps op rest spare trace count (never, later) = cc
  Leaves-run (cooldown_ended ∷ es) ps op rest spare trace count (here, later) =
      subst (Leaves num_requests operations es (record (waiting ps op) { cooldown_done = true }))
        (sym (append-nil ps))
        (Leaves-over es (record (waiting ps op) { cooldown_done = true }) ps (op ∷ [])
          (trace_enough ps op rest spare trace count) (inr refl) refl refl)
  Leaves-run (replied ns elapsed ∷ es) ps op [] spare trace count (here, later) =
      let enough = trace_enough ps op [] spare trace count in
      let done : (leb num_requests (length ps + 1) || elapsed) ≡ true =
        rw (leb-true num_requests (length ps + 1) (omega arith)) refl in
      subst (Leaves num_requests operations (replied ns elapsed ∷ es) (waiting ps op))
        (ap (λ (l : List Operation). ps ++ (op, ns) ∷ l) (sym (either elapsed [])))
        (Leaves-last es ps op ns elapsed enough done)
  Leaves-run (replied ns true ∷ es) ps op (op2 ∷ rest) spare trace count (here, later) =
      Leaves-last es ps op ns true (trace_enough ps op (op2 ∷ rest) spare trace count)
        (or_true (leb num_requests (length ps + 1)))
  Leaves-run (replied ns false ∷ es) ps op (op2 ∷ rest) spare trace count (here, later) =
      let qs = ps ++ (op, ns) ∷ [] in
      let (b', ran, pairs) =
        Leaves-run es qs op2 rest spare (trace_next ps op ns (op2 ∷ (rest ++ spare)) trace)
          (omega (arith, length-snoc ps op ns)) later in
      (
        b',
        ap (λ o. and_then o (λ b. run_events num_requests operations es b))
              (next_request ps op ns op2 (rest ++ spare) trace (omega arith))
            ∙ ran,
        pairs ∙ ap some (append_assoc ps ((op, ns) ∷ []) (measured (op2 ∷ rest) es)),
      )
