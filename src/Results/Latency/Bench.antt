-- ===== src/Results/Latency/Bench.antt =====
-- A client of the benchmark, class BenchmarkClient of src/skyros/bench/benchmark.cc, and the raw file
-- that `main` of src/skyros/bench/client.cc writes: the replies and the timers that reach a client
-- are the events, requests are sent without a delay, and an operation is the first character of
-- its text. What is printed is left out. A number that is no index of a vector is `none`.
pub mod Over
pub mod Waiting
pub mod Aligned
pub mod File
pub mod Warmup
use skyros.Results.Latency.Classify.Raw.{Operation, raw_text}
use skyros.Protocol.Log.{and_then}
use skyros.Base.Text.{Text}
use skyros.Base.{
  ℕ, ◌+◌, Bool, true, false, not, ◌&&◌, ◌||◌, Option, none, some, List, [], ◌∷◌, ◌++◌, leb, ◌==◌,
  if◌then◌else◌, get_elem?,
}

pub record BenchmarkClient : Type 0 where
  pub started : Bool
  pub done : Bool
  pub cooldown_done : Bool
  pub n : ℕ
  pub opcodes : List ℕ
  pub latencies : List ℕ

abbrev pub new_client : BenchmarkClient
new_client = record {
  started = false;
  done = false;
  cooldown_done = false;
  n = 0;
  opcodes = [];
  latencies = [];
}

-- What reaches a client: the end of the warm-up, the end of the cool-down, and the reply to a
-- request after `ns` nanoseconds, with whether the duration of the experiment has elapsed.
pub data BenchEvent : Type 0 where
  warmup_ended : BenchEvent
  cooldown_ended : BenchEvent
  replied : ℕ → Bool → BenchEvent

module _ (num_requests : ℕ) (operations : List ℕ) where
  -- `SendNext`
  unfoldable pub send_next : BenchmarkClient → Option BenchmarkClient
  send_next b =
      if leb num_requests b.n
      then some b
      else and_then (get_elem? operations b.n)
          (λ op. some (record b { opcodes = b.opcodes ++ op ∷ [] }))

  -- `OnReply`, where it records the latency; `Finish` is called for either reason
  unfoldable pub record_latency : ℕ → Bool → BenchmarkClient → BenchmarkClient
  record_latency ns elapsed b =
      if b.started && (not b.done && not (b.n == 0))
      then record b { latencies = b.latencies ++ ns ∷ []; done = leb num_requests b.n || elapsed }
      else b

  -- `OnReply`
  unfoldable pub on_reply : ℕ → Bool → BenchmarkClient → Option BenchmarkClient
  on_reply ns elapsed b =
      if b.cooldown_done
      then some b
      else send_next (record_latency ns elapsed (record b { n = b.n + 1 }))

  -- `WarmupDone`, `CooldownDone` and `OnReply`
  unfoldable pub on_event : BenchEvent → BenchmarkClient → Option BenchmarkClient
  on_event warmup_ended b = some (record b { started = true; n = 0 })
  on_event cooldown_ended b = some (record b { cooldown_done = true })
  on_event (replied ns elapsed) b = on_reply ns elapsed b

  unfoldable pub run_events : List BenchEvent → BenchmarkClient → Option BenchmarkClient
  run_events [] b = some b
  run_events (e ∷ es) b = and_then (on_event e b) (λ b'. run_events es b')

  -- `Start`, and then the events
  unfoldable pub bench : List BenchEvent → Option BenchmarkClient
  bench es = and_then (send_next new_client) (λ b. run_events es b)

-- The pairs `opcodes[index++]` and `e` of a client.
unfoldable pub raw_pairs : List ℕ → List ℕ → Option (List Operation)
raw_pairs opcodes [] = some []
raw_pairs [] (ns ∷ rest) = none
raw_pairs (op ∷ ops) (ns ∷ rest) = and_then (raw_pairs ops rest) (λ pairs. some ((op, ns) ∷ pairs))

-- The raw file of the clients.
unfoldable pub raw_file : List BenchmarkClient → Option Text
raw_file [] = some []
raw_file (x ∷ xs) =
    and_then (raw_pairs x.opcodes x.latencies)
      (λ pairs. and_then (raw_file xs) (λ rest. some (raw_text pairs ++ rest)))
