-- ===== src/Tests/Percentiles.antt =====
-- Raw files of latencies, and the rows that process.py reads.
use skyros.Results.Latency.Classify.{parse_lines, no_latencies, Lists, append_latency, parse_line}
use skyros.Results.Latency.Classify.Raw.{after_operations}
use skyros.Results.Latency.Classify.Partition.{IsPartition, parse_lines-IsPartition}
use skyros.Results.Process.{workload_names}
use skyros.Results.Process.Write.{process_metric}
use skyros.Results.Process.Rows.{last_value, PerfRow, IsPerfRow, perf_line}
use skyros.Results.Latency.Bench.{
  BenchmarkClient, BenchEvent, bench, send_next, run_events, on_event, on_reply, record_latency,
  raw_pairs, raw_file,
}
use skyros.Results.Latency.Bench.Waiting.{measured}
use skyros.Results.Latency.Bench.File.{Measured, parse_lines-raw_file}
use skyros.Results.Latency.Bench.Warmup.{replies, bench-shifted}
use skyros.Results.Process.Tables.{table_events, Latency, Holds, IsLatency, process_metric-table}
use skyros.Results.Table.{opened, closed}
use skyros.Results.Float.{thousandths}
use skyros.Base.Decimal.{digits_value, int, PyInt}
use skyros.Base.Text.Grep.{lacks, literal-Lacks, unlines}
use skyros.Base.Text.{join, codes, Text, newline, file_lines, ◌=text◌}
use mathlib.Core.List.{map}
use mathlib.Core.List.Perm
use skyros.Base.{
  false, arith, ℕ, ◌*◌, ◌≡◌, refl, true, some, List, [], ◌∷◌, ◌++◌, if◌then◌else◌, ok, All,
}

-- A client with four requests and a longer trace.
abbrev later_events : List BenchEvent
later_events =
    BenchEvent.replied 12 false
    ∷ BenchEvent.replied 30 false
    ∷ BenchEvent.replied 7 false
    ∷ BenchEvent.replied 9 false
    ∷ BenchEvent.cooldown_ended
    ∷ []

abbrev requests : List ℕ
requests = b'e' ∷ b'u' ∷ b'r' ∷ []

abbrev finished : BenchmarkClient
finished = record {
  started = true;
  done = true;
  cooldown_done = true;
  n = 4;
  opcodes = b'r' ∷ b'e' ∷ b'u' ∷ b'r' ∷ [];
  latencies = 12 ∷ 30 ∷ 7 ∷ 9 ∷ [];
}

has_finished :
    bench 4 (b'r' ∷ (requests ++ b'i' ∷ [])) (BenchEvent.warmup_ended ∷ later_events)
    ≡ some finished
unfolding bench send_next run_events on_event on_reply record_latency
has_finished = refl

one_client : Measured (finished ∷ []) (measured (b'r' ∷ requests) later_events ++ [])
one_client =
    Measured.one_more b'r' requests (b'i' ∷ []) later_events
      (refl, (refl, (refl, (refl, (refl, tt))))) has_finished Measured.no_client

parse_lines-raw_file_example :
    (text : Text) × (raw_file (finished ∷ []) ≡ some text)
    × (parse_lines (file_lines text) no_latencies
        ≡ ok (after_operations (measured (b'r' ∷ requests) later_events ++ []) no_latencies))
unfolding measured
parse_lines-raw_file_example =
    parse_lines-raw_file no_latencies one_client (refl, (refl, (refl, (refl, tt))))

bench-shifted_example :
    (b : BenchmarkClient) × (b' : BenchmarkClient) × (bench 3
        (b'r' ∷ (b'u' ∷ []) ++ b'e' ∷ [])
        (replies ((5, false) ∷ (6, false) ∷ []))
      ≡ some b)
    × (b.opcodes ≡ b'r' ∷ ((b'u' ∷ []) ++ b'e' ∷ []))
    × (run_events 3
          (b'r' ∷ (b'u' ∷ []) ++ b'e' ∷ [])
          (BenchEvent.warmup_ended ∷ BenchEvent.replied 7 false ∷ [])
          b
        ≡ some b')
    × (raw_pairs b'.opcodes b'.latencies ≡ some ((b'r', 7) ∷ []))
bench-shifted_example =
    bench-shifted 3 b'r' (b'u' ∷ []) b'e' [] ((5, false) ∷ (6, false) ∷ []) 7 false (omega arith)
      (omega arith) (omega arith)

abbrev lines : List Text
lines = codes "r12\n" ∷ codes "E-3\n" ∷ codes "i 4\n" ∷ []

abbrev read_lines : Lists
read_lines = record {
  read_latencies = PyInt.natural 12 ∷ [];
  nilext_write_latencies = PyInt.natural 4 ∷ [];
  non_nilext_write_latencies = PyInt.negative 3 ∷ [];
  all_latencies = PyInt.natural 12 ∷ PyInt.negative 3 ∷ PyInt.natural 4 ∷ [];
}

lines_read : parse_lines lines no_latencies ≡ ok read_lines
unfolding parse_lines parse_line append_latency int
lines_read = refl

parse_lines-IsPartition_example : IsPartition read_lines
parse_lines-IsPartition_example = parse_lines-IsPartition lines no_latencies lines_read Perm.nil

-- Each system has a row for every workload, and "orig" takes twice as long.
abbrev value_of : Text → ℕ
value_of code = if code =text codes "orig" then 4000 else 2000

abbrev text_of : Text → Text
text_of code = if code =text codes "orig" then codes "4000" else codes "2000"

abbrev perf_row : Text → Text → PerfRow
perf_row code workload = record {
  workload = workload;
  op_type = codes "all";
  metric = codes "avg";
  value = text_of code;
  values = codes "[1]";
}

abbrev perf_rows : Text → List PerfRow
perf_rows code = map (λ e. perf_row code e.0) workload_names

abbrev perf_cat : Text → Text
perf_cat file =
    if file =text codes "orig_zipf"
    then unlines (map perf_line (perf_rows (codes "orig")))
    else unlines (map perf_line (perf_rows (codes "rtop")))

abbrev latency_of : Text → Text → Latency thousandths
latency_of code workload = record {
  text = text_of code;
  value = value_of code * 1000;
  thousandth = value_of code;
  ratio = if code =text codes "orig" then 1000 else 2000;
}

IsPerfRow-literal :
    (r : PerfRow)
    → lacks b' ' r.workload ≡ true
    → lacks b' ' r.op_type ≡ true
    → lacks b' ' r.metric ≡ true
    → lacks b' ' r.value ≡ true
    → lacks newline (perf_line r) ≡ true
    → IsPerfRow r
IsPerfRow-literal r a b c d e = record {
  workload_space = literal-Lacks b' ' r.workload a;
  op_space = literal-Lacks b' ' r.op_type b;
  metric_space = literal-Lacks b' ' r.metric c;
  value_space = literal-Lacks b' ' r.value d;
  one_line = literal-Lacks newline _ e;
}

orig_rows : All IsPerfRow (perf_rows (codes "orig"))
unfolding ◌=text◌ join
orig_rows = (
  IsPerfRow-literal _ refl refl refl refl refl,
  (
    IsPerfRow-literal _ refl refl refl refl refl,
    (
      IsPerfRow-literal _ refl refl refl refl refl,
      (
        IsPerfRow-literal _ refl refl refl refl refl,
        (IsPerfRow-literal _ refl refl refl refl refl, tt),
      ),
    ),
  ),
)

rtop_rows : All IsPerfRow (perf_rows (codes "rtop"))
unfolding ◌=text◌ join
rtop_rows = (
  IsPerfRow-literal _ refl refl refl refl refl,
  (
    IsPerfRow-literal _ refl refl refl refl refl,
    (
      IsPerfRow-literal _ refl refl refl refl refl,
      (
        IsPerfRow-literal _ refl refl refl refl refl,
        (IsPerfRow-literal _ refl refl refl refl refl, tt),
      ),
    ),
  ),
)

Holds-perf : Holds thousandths (codes "zipf") (codes "avg") perf_rows latency_of perf_cat
unfolding ◌=text◌
Holds-perf = record {
  orig_file = refl;
  rtop_file = refl;
  orig_rows = orig_rows;
  rtop_rows = rtop_rows;
}

abbrev IsLatencies : Text → Type 0
IsLatencies workload =
    IsLatency thousandths (codes "zipf") (codes "avg") perf_rows latency_of (codes "orig") workload
    × IsLatency thousandths (codes "zipf") (codes "avg") perf_rows latency_of (codes "rtop")
        workload

IsLatencies-last :
    (workload : Text)
    → last_value (codes "avg") workload (perf_rows (codes "orig")) ≡ some (codes "4000")
    → last_value (codes "avg") workload (perf_rows (codes "rtop")) ≡ some (codes "2000")
    → IsLatencies workload
unfolding ◌=text◌ digits_value
IsLatencies-last workload o r = (
  record { last = o; number = refl; scaled = refl; compared = refl },
  record { last = r; number = refl; scaled = refl; compared = refl },
)

IsLatencies-read : All (λ e. IsLatencies e.0) workload_names
unfolding ◌=text◌
IsLatencies-read = (
  IsLatencies-last _ refl refl,
  (
    IsLatencies-last _ refl refl,
    (
      IsLatencies-last _ refl refl,
      (IsLatencies-last _ refl refl, (IsLatencies-last _ refl refl, tt)),
    ),
  ),
)

process_metric-table_example :
    process_metric thousandths perf_cat (codes "zipf") (codes "avg") [] ≡ (
      ok tt,
      opened (codes "avg-zipf")
          ∷ (table_events thousandths
                (codes "zipf")
                (codes "avg")
                perf_rows
                latency_of
                workload_names
              ++ closed (codes "avg-zipf") ∷ []),
    )
process_metric-table_example =
    process_metric-table thousandths (codes "zipf") (codes "avg") perf_rows latency_of perf_cat
      Holds-perf IsLatencies-read
