-- ===== src/Results/Average/Lines.antt =====
-- The lines of a result file that the scripts read: the file is begun by remote-throughput.py with
-- its header, and goes on with what the client script prints.
use skyros.Base.Text.Grep.{literal-Lacks, found_lines-unlines, unlines, found_lines-line}
use skyros.Deploy.Run.{output_header}
use skyros.Base.Text.{codes, newline, Lacks, file_lines, Text, split, starts_with, grep, occurs_in}
use skyros.Results.Average.{average_lines}
use skyros.Base.{append-nil, keep, ◌≡◌, refl, sym, ap, ◌∙◌, List, [], ◌++◌, All}

abbrev header_line : Text
header_line = codes "#num_clients\ttotal_ops\tavg_time_taken\tcalc_ops_per_sec\ttotal_ops_per_sec"

-- The header has no number to read.
found_lines-header : (s : Text) → average_lines (output_header ++ s) ≡ average_lines s
unfolding average_lines occurs_in starts_with
found_lines-header s =
    found_lines-line b'A' (codes "verage") header_line s (literal-Lacks newline header_line refl)

-- Behind the header of the output file and any printed lines, a result script reads exactly the
-- lines in which the word "Average" occurs, each once and in order.
pub average_lines-output :
    (ls : List Text)
    → All (Lacks newline) ls
    → average_lines (output_header ++ unlines ls) ≡ keep (occurs_in (codes "Average")) ls
unfolding average_lines grep split file_lines
average_lines-output ls h =
    found_lines-header (unlines ls)
    ∙ ap average_lines (sym (append-nil (unlines ls)))
    ∙ found_lines-unlines b'A' (codes "verage") ls [] h
    ∙ append-nil (keep (occurs_in (codes "Average")) ls)
