-- ===== src/Results/Latency/Bench/File.antt =====
-- The raw file of clients whose warm-up ends before their first reply, as parse.py reads it.
use skyros.Results.Latency.Bench.{
  BenchmarkClient, BenchEvent, warmup_ended, send_next, on_event, run_events, bench, raw_pairs,
  raw_file,
}
use skyros.Results.Latency.Bench.Waiting.{AllLater, measured}
use skyros.Results.Latency.Bench.Aligned.{Leaves-run}
use skyros.Results.Latency.Classify.Raw.{
  Operation, raw_text, has_class, after_operations, parse_lines-raw_text,
}
use skyros.Results.Latency.Classify.{Lists, parse_lines}
use skyros.Base.Text.{Text, file_lines}
use skyros.Base.{
  some_injective, ℕ, ◌≡◌, refl, sym, ap, ◌∙◌, true, some, List, [], ◌∷◌, ◌++◌, arith, leb-false,
  All, length, ok, append_assoc,
}

bench-pairs :
    (op : ℕ) (rest spare : List ℕ) (es : List BenchEvent)
    → AllLater es
    → (b : BenchmarkClient) × (bench (length (op ∷ rest)) (op ∷ (rest ++ spare)) (warmup_ended ∷ es)
        ≡ some b)
      × (raw_pairs b.opcodes b.latencies ≡ some (measured (op ∷ rest) es))
unfolding bench send_next run_events on_event
bench-pairs op rest spare es later =
    let (b, ran, pairs) =
      Leaves-run (length (op ∷ rest)) (op ∷ (rest ++ spare)) es [] op rest spare refl (omega arith)
        later in
    (b, rw (leb-false (length (op ∷ rest)) 0 (omega arith)) ran, pairs)

-- Clients that have run, and the operations that they have measured, with their latencies. The trace
-- of a client has the operations of its requests and may have more.
pub data Measured : List BenchmarkClient → List Operation → Type 0 where
  no_client : Measured [] []
  one_more :
      {b : BenchmarkClient} {xs : List BenchmarkClient} {ops : List Operation} (op : ℕ)
      (rest spare : List ℕ) (es : List BenchEvent)
      → AllLater es
      → bench (length (op ∷ rest)) (op ∷ (rest ++ spare)) (warmup_ended ∷ es) ≡ some b
      → Measured xs ops
      → Measured (b ∷ xs) (measured (op ∷ rest) es ++ ops)

raw_text-append : (xs ys : List Operation) → raw_text (xs ++ ys) ≡ raw_text xs ++ raw_text ys
unfolding raw_text
raw_text-append [] ys = refl
raw_text-append ((op, ns) ∷ xs) ys = rw (raw_text-append xs ys) (simp append_assoc)

raw_file-Measured :
    {xs : List BenchmarkClient} {ops : List Operation}
    → Measured xs ops
    → raw_file xs ≡ some (raw_text ops)
unfolding raw_file raw_text
raw_file-Measured no_client = refl
raw_file-Measured (one_more {b} {xs} {ops} op rest spare es later ran before) =
    let (b', again, pairs) = bench-pairs op rest spare es later in
    let same : b' ≡ b = some_injective (sym again ∙ ran) in
    let own = ap (λ (x : BenchmarkClient). raw_pairs x.opcodes x.latencies) (sym same) ∙ pairs in
    rw (own, raw_file-Measured before)
      (ap some (sym (raw_text-append (measured (op ∷ rest) es) ops)))

-- If the warm-up of every client ends before its first reply, and every operation that is measured is
-- of one of the three classes, then the benchmark writes its raw file, and parse.py reads it without
-- an error: each of its lists is longer by the latencies of the requests of its class, in order, and
-- the list of all by all of them.
pub parse_lines-raw_file :
    {xs : List BenchmarkClient} {ops : List Operation} (s : Lists)
    → Measured xs ops
    → All (λ o. has_class o.0 ≡ true) ops
    → (text : Text) × (raw_file xs ≡ some text)
      × (parse_lines (file_lines text) s ≡ ok (after_operations ops s))
parse_lines-raw_file {ops = ops} s clients classes =
    (raw_text ops, raw_file-Measured clients, parse_lines-raw_text ops s classes)
