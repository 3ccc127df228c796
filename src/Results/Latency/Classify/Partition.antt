-- ===== src/Results/Latency/Classify/Partition.antt =====
-- Every latency is in the list of all and in that of one class.
use mathlib.Core.Path.{subst}
use skyros.Base.Text.{Text}
use skyros.Base.Decimal.{int, PyInt}
use skyros.Results.Latency.Classify.{
  is_non_nilext_write, is_nilext_write, is_read, parse_lines, parse_line, append_latency, Lists,
}
use mathlib.Core.List.{Perm, perm_middle, perm_append_singleton}
use mathlib.Core.List.Perm
use skyros.Base.{
  Result-cases, ok_injective, Option-cases, append-nil, append_assoc, ℕ, ◌≡◌, sym, inl, inr, ◌||◌,
  List, [], ◌∷◌, ◌++◌, Bool-cases, ok,
}

-- The list of all has what the three lists of the classes have, as often, in some order.
abbrev pub IsPartition : Lists → Type 0
IsPartition s =
    Perm s.all_latencies
      (s.read_latencies ++ (s.nilext_write_latencies ++ s.non_nilext_write_latencies))

-- One more number in a list and somewhere in another.
Perm-insert :
    (n : PyInt) (all left right : List PyInt)
    → Perm all (left ++ right)
    → Perm (all ++ n ∷ []) (left ++ n ∷ right)
Perm-insert n all left right h =
    Perm.trans (perm_append_singleton n all)
      (Perm.trans (Perm.cons n h) (Perm.symm (perm_middle left right)))

append_latency-IsPartition :
    (c : ℕ) (n : PyInt) (s : Lists) {s' : Lists}
    → append_latency c n s ≡ ok s'
    → IsPartition s
    → IsPartition s'
unfolding append_latency
append_latency-IsPartition c n s e h = elim (Bool-cases (is_read c)) [
  | inl read ↦ subst IsPartition (ok_injective (rw read at e)) (
      subst (λ l. Perm (all ++ n ∷ []) l) (sym (append_assoc reads (n ∷ []) (nilexts ++ others)))
        (Perm-insert n all reads (nilexts ++ others) h))
  | inr not_read ↦ elim (Bool-cases (is_nilext_write c)) [
    | inl nilext ↦ subst IsPartition (ok_injective (rw (not_read, nilext) at e)) (
        subst (λ l. Perm (all ++ n ∷ []) l) (simp append_assoc)
          (Perm-insert n all (reads ++ nilexts) others
            (subst (λ l. Perm all l) (sym (append_assoc reads nilexts others)) h)))
    | inr not_nilext ↦ elim (Bool-cases (is_non_nilext_write c)) [
      | inl non_nilext ↦
          subst IsPartition (ok_injective (rw (not_read, not_nilext, non_nilext) at e)) (
            subst (λ l. Perm (all ++ n ∷ []) l) (simp append_assoc)
              (Perm-insert n all (reads ++ (nilexts ++ others)) []
                (subst (λ l. Perm all l) (sym (append-nil _)) h)))
      | inr other ↦ absurd (cc (rw (not_read, not_nilext, other) at e))
    ]
  ]
]
  where
    all : List PyInt
    all = s.all_latencies

    reads : List PyInt
    reads = s.read_latencies

    nilexts : List PyInt
    nilexts = s.nilext_write_latencies

    others : List PyInt
    others = s.non_nilext_write_latencies

parse_line-IsPartition :
    (line : Text) (s : Lists) {s' : Lists}
    → parse_line line s ≡ ok s'
    → IsPartition s
    → IsPartition s'
unfolding parse_line
parse_line-IsPartition [] s e h = absurd (cc e)
parse_line-IsPartition (c ∷ rest) s e h =
    elim (Bool-cases (is_read c || (is_nilext_write c || is_non_nilext_write c))) [
      | inl class ↦ elim (Option-cases (int rest)) [
        | inl no_number ↦ absurd (cc (rw (class, no_number) at e))
        | inr (n, number) ↦ append_latency-IsPartition c n s (rw (class, number) at e) h
      ]
      | inr other ↦ absurd (cc (rw other at e))
    ]

-- Reading lines, whatever they are, keeps this: where it does not raise, the list of all has what
-- the lists of the three classes have, as often, if that was so before.
pub parse_lines-IsPartition :
    (lines : List Text) (s : Lists) {s' : Lists}
    → parse_lines lines s ≡ ok s'
    → IsPartition s
    → IsPartition s'
unfolding parse_lines
parse_lines-IsPartition [] s e h = subst IsPartition (ok_injective e) h
parse_lines-IsPartition (line ∷ rest) s e h = elim (Result-cases (parse_line line s)) [
  | inl (s', read) ↦
      parse_lines-IsPartition rest s' (rw read at e) (parse_line-IsPartition line s read h)
  | inr (x, failed) ↦ absurd (cc (rw failed at e))
]
