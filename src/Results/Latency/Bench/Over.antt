-- ===== src/Results/Latency/Bench/Over.antt =====
-- A client that takes no more latencies.
use skyros.Results.Latency.Bench.{
  BenchmarkClient, BenchEvent, warmup_ended, cooldown_ended, replied, send_next, record_latency,
  on_reply, on_event, run_events,
}
use skyros.Base.{
  ℕ, ◌+◌, ◌≤◌, ◌<◌, ◌≡◌, refl, sym, ap, ◌∙◌, ◌⊎◌, inl, inr, Bool, true, false, some, List, [], ◌∷◌,
  ◌++◌, arith, leb, if◌then◌else◌, Bool-cases, length, append_assoc, append-nil, get_elem?-found,
}

-- The client takes no more latencies.
abbrev pub IsOver : BenchmarkClient → Type 0
IsOver b = (b.done ≡ true) ⊎ (b.cooldown_done ≡ true)

-- The latencies are the same, and more requests may have been sent.
pub record Grows (b b' : BenchmarkClient) : Type 0 where
  pub over : IsOver b → IsOver b'
  pub latencies : b'.latencies ≡ b.latencies
  pub extra : List ℕ
  pub opcodes : b'.opcodes ≡ b.opcodes ++ extra

Grows-same : (b : BenchmarkClient) → Grows b b
Grows-same b = record {
  over = λ h. h;
  latencies = refl;
  extra = [];
  opcodes = sym (append-nil b.opcodes);
}

Grows-trans : {b b1 b2 : BenchmarkClient} → Grows b b1 → Grows b1 b2 → Grows b b2
Grows-trans {b} g h = record {
  over = λ o. h.over (g.over o);
  latencies = h.latencies ∙ g.latencies;
  extra = g.extra ++ h.extra;
  opcodes =
      h.opcodes
      ∙ ap (λ (l : List ℕ). l ++ h.extra) g.opcodes
      ∙ append_assoc b.opcodes g.extra h.extra;
}

record_latency-done :
    (num_requests : ℕ) (operations : List ℕ) (ns : ℕ) (elapsed : Bool) (b : BenchmarkClient)
    → b.done ≡ true
    → record_latency num_requests operations ns elapsed b ≡ b
unfolding record_latency
record_latency-done num_requests operations ns elapsed b done = elim (Bool-cases b.started) [
  | inl started ↦ rw (started, done) refl
  | inr waiting ↦ rw waiting refl
]

on_reply-done :
    (num_requests : ℕ) (operations : List ℕ) (ns : ℕ) (elapsed : Bool) (b : BenchmarkClient)
    → b.done ≡ true
    → b.cooldown_done ≡ false
    → on_reply num_requests operations ns elapsed b
      ≡ send_next num_requests operations (record b { n = b.n + 1 })
unfolding on_reply
on_reply-done num_requests operations ns elapsed b done warm =
    let next = λ (x : BenchmarkClient). send_next num_requests operations x in
    ap
      (λ (cooled : Bool).
        if cooled
        then some b
        else next (record_latency num_requests operations ns elapsed (record b { n = b.n + 1 })))
      warm
    ∙ ap next
        (record_latency-done num_requests operations ns elapsed (record b { n = b.n + 1 }) done)

module _ (num_requests : ℕ) (operations : List ℕ) (enough : num_requests ≤ length operations) where
  pub send_next-Grows :
      (b : BenchmarkClient)
      → (b' : BenchmarkClient) × (send_next num_requests operations b ≡ some b') × Grows b b'
  unfolding send_next
  send_next-Grows b = elim (Bool-cases (leb num_requests b.n)) [
    | inl all_sent ↦ (b, rw all_sent refl, Grows-same b)
    | inr left ↦
        let within : b.n < length operations = ground arith in
        let (op, found) = get_elem?-found operations b.n within in
        (
          record b { opcodes = b.opcodes ++ op ∷ [] },
          rw (left, found) refl,
          record { over = λ h. h; latencies = refl; extra = op ∷ []; opcodes = refl },
        )
  ]

  over-event :
      (e : BenchEvent) (b : BenchmarkClient)
      → IsOver b
      → (b' : BenchmarkClient) × (on_event num_requests operations e b ≡ some b') × Grows b b'
  unfolding on_event on_reply record_latency
  over-event warmup_ended b over = (
    record b { started = true; n = 0 },
    refl,
    record { over = λ h. h; latencies = refl; extra = []; opcodes = sym (append-nil b.opcodes) },
  )
  over-event cooldown_ended b over = (
    record b { cooldown_done = true },
    refl,
    record {
      over = λ h. inr refl;
      latencies = refl;
      extra = [];
      opcodes = sym (append-nil b.opcodes);
    },
  )
  over-event (replied ns elapsed) b over = elim (Bool-cases b.cooldown_done) [
    | inl cooled ↦ (b, rw cooled refl, Grows-same b)
    | inr warm ↦ elim over [
      | inr cooled ↦ absurd (ground arith)
      | inl done ↦
          let (b', sent, grows) = send_next-Grows (record b { n = b.n + 1 }) in
          (
            b',
            on_reply-done num_requests operations ns elapsed b done warm ∙ sent,
            record {
              over = λ h. grows.over h;
              latencies = grows.latencies;
              extra = grows.extra;
              opcodes = grows.opcodes;
            },
          )
    ]
  ]

  pub over-run :
      (es : List BenchEvent) (b : BenchmarkClient)
      → IsOver b
      → (b' : BenchmarkClient) × (run_events num_requests operations es b ≡ some b') × Grows b b'
  unfolding run_events
  over-run [] b over = (b, refl, Grows-same b)
  over-run (e ∷ es) b over =
      let (b1, next, grows) = over-event e b over in
      let (b2, last, more) = over-run es b1 (grows.over over) in
      (b2, rw next last, Grows-trans grows more)
