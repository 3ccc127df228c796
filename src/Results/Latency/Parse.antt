-- ===== src/Results/Latency/Parse.antt =====
-- The parse.py of ycsb, commutativity-kv and micro-nilext-reads, three copies of one script: what
-- it prints and writes.
use mathlib.Core.List.{map}
use skyros.Base.Decimal.{PyInt}
use skyros.Results.Latency.Classify.{no_latencies, parse_files}
use skyros.Results.Float.{Floats}
use skyros.Base.Text.{newline, codes, tab, join, Text}
use skyros.Results.Table.{Event, printed, opened, wrote, closed}
use skyros.Base.{
  zero_division, or_raise, ℕ, zero, suc, Bool, ◌||◌, List, [], ◌∷◌, ◌++◌, if◌then◌else◌,
}
use skyros.Base.Script.{Script, pure, lift, emit, ◌>>=◌, ◌>>◌, for_each}

-- What the script takes from numpy, for lists with a first element: the average and a percentile,
-- with the text of the numbers; and the test of floats for equality.
pub record Numpy (F : Floats) : Type 0 where
  pub average : PyInt → List PyInt → Text
  pub percentile : PyInt → List PyInt → F.Float → Text
  pub equals : F.Float → F.Float → Bool

-- `print(latencyfiles)`, for names without a quote or a backslash
abbrev pub show_names : List Text → Text
show_names names =
    b'[' ∷ (join (codes ", ") (map (λ name. b'\'' ∷ (name ++ b'\'' ∷ [])) names) ++ b']' ∷ [])

module _ (F : Floats) (N : Numpy F) where
  open F use {Float, of_int, div, str}

  -- `[x/100.0 for x in range(1, 10001)]`, from the last on
  unfoldable pub hundredths : ℕ → List Float → Script Event (List Float)
  hundredths zero acc = pure acc
  hundredths (suc x) acc = do
    p ← lift (or_raise (div (of_int (suc x)) (of_int 100)) zero_division)
    hundredths x (p ∷ acc)

  abbrev pub interested_in : Float → Bool
  interested_in p =
      N.equals p (of_int 50)
      || (N.equals p (of_int 90) || (N.equals p (of_int 95) || N.equals p (of_int 99)))

  -- the body of the loop over the percentiles
  unfoldable pub print_percentile_at :
      Text → Text → PyInt → List PyInt → Float → Script Event (Unit {0})
  print_percentile_at op_type path n ns p =
      let value = N.percentile n ns p in
      do
        (if interested_in p
            then emit (printed (op_type ++ tab ∷ (str p ++ tab ∷ value)))
            else pure tt)
        emit (wrote path (str p ++ tab ∷ (value ++ newline ∷ [])))

  -- what is printed and written for a list with a first element
  unfoldable pub print_values :
      Text → Text → PyInt → List PyInt → List Float → Script Event (Unit {0})
  print_values op_type path n ns percentiles = do
    emit (printed (op_type ++ tab ∷ (codes "avg" ++ tab ∷ N.average n ns)))
    for_each percentiles (print_percentile_at op_type path n ns)

  -- `print_percentile`; the name of the file is `op_type` and `.lat`
  unfoldable pub print_percentile : Text → List PyInt → List Float → Text → Script Event (Unit {0})
  print_percentile dir [] percentiles op_type = do
    emit (opened (dir ++ (codes "/" ++ (op_type ++ codes ".lat"))))
    emit (closed (dir ++ (codes "/" ++ (op_type ++ codes ".lat"))))
  print_percentile dir (n ∷ ns) percentiles op_type = do
    emit (opened (dir ++ (codes "/" ++ (op_type ++ codes ".lat"))))
    print_values op_type (dir ++ (codes "/" ++ (op_type ++ codes ".lat"))) n ns percentiles
    emit (closed (dir ++ (codes "/" ++ (op_type ++ codes ".lat"))))

  -- the whole script; `glob` is what matches `latencies.*.raw*` in the directory
  unfoldable pub parse : (Text → Text) → (Text → List Text) → Text → Script Event (Unit {0})
  parse cat glob dir = do
    emit (printed (show_names (glob dir)))
    s ← lift (parse_files cat (glob dir) no_latencies)
    percentiles ← hundredths 10000 []
    print_percentile dir s.read_latencies percentiles (codes "read")
    print_percentile dir s.nilext_write_latencies percentiles (codes "nilextwrite")
    print_percentile dir s.non_nilext_write_latencies percentiles (codes "nonnilextwrite")
    print_percentile dir s.all_latencies percentiles (codes "all")

-- the copies of commutativity-kv and micro-nilext-reads
abbrev pub kv_parse :
    (F : Floats) → Numpy F → (Text → Text) → (Text → List Text) → Text → Script Event (Unit {0})
kv_parse = parse

abbrev pub nilext_reads_parse :
    (F : Floats) → Numpy F → (Text → Text) → (Text → List Text) → Text → Script Event (Unit {0})
nilext_reads_parse = parse
