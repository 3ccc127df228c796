-- ===== src/Results/Calc/Rows.antt =====
-- Where the second loop of `calc` puts its bars.
use skyros.Base.{
  inr, inl, ◌⊎◌, ◌≤◌, ◌<◌, ℕ, ◌+◌, ◌*◌, ◌≡◌, refl, sym, ◌∙◌, List, [], ◌∷◌, ◌++◌, append_assoc,
  append-nil, some, Result, ok, length, All, arith,
}
use skyros.Base.Text.{Text, newline}
use skyros.Base.Decimal.{str_int}
use skyros.Results.Float.{Floats}
use skyros.Results.Table.{Event, printed, wrote, lookup, lookup_pair, tabbed}
use skyros.Results.Calc.{Config, Throughputs, write_bar, write_bars, write_groups}

-- The left end of the bar of code number `j` in the group of workload number `i`.
abbrev pub bar_position : Config → ℕ → ℕ → ℕ
bar_position c i j = c.curx + c.bar_width * (i * (length c.codenames + 1) + j)

-- The next bar stands one width to the right, and between two groups one width is left free.
next_bar : (c : Config) (i j : ℕ) → bar_position c i j + c.bar_width ≡ bar_position c i (j + 1)
next_bar c i j = omega arith

next_group :
    (c : Config) (i : ℕ)
    → bar_position c i (0 + length c.codenames) + c.bar_width ≡ bar_position c (i + 1) 0
next_group c i = omega arith

pair_eq :
    {x y : ℕ} {s t : List Event}
    → x ≡ y
    → s ≡ t
    → ◌≡◌ {A = Result ℕ × List Event} (ok x, s) (ok y, t)
pair_eq p q = λ i. (ok (p i), q i)

slot_lt :
    (n i j i' j' : ℕ)
    → j < n
    → ((i < i') ⊎ ((i ≡ i') × (j < j')))
    → i * (n + 1) + j < i' * (n + 1) + j'
slot_lt n i j i' j' within (inl before) = grind arith
slot_lt n i j i' j' within (inr (same, before)) = grind arith

slots_apart : (x w a b : ℕ) → a < b → x + w * a + w ≤ x + w * b
slots_apart x w a b h = grind arith

-- The bar of a later code of the same group, and every bar of a later group, stands at least one
-- width to the right, so no two bars overlap.
pub bars_apart :
    (c : Config) (i j i' j' : ℕ)
    → j < length c.codenames
    → ((i < i') ⊎ ((i ≡ i') × (j < j')))
    → bar_position c i j + c.bar_width ≤ bar_position c i' j'
bars_apart c i j i' j' within order =
    slots_apart c.curx c.bar_width _ _ (slot_lt (length c.codenames) i j i' j' within order)

-- What a bar shows: the throughput, its ratio to the baseline, and the label of the workload.
pub record Cell (F : Floats) : Type 0 where
  pub tput : F.Float
  pub ratio : F.Float
  pub label : Text

module _ (F : Floats) (c : Config) (cell : Text → Text → Cell F) where
  open F use {Float, div, round, str}

  -- the row of a bar on the output, and in the table of its code
  abbrev pub bar_events : Text → Text → ℕ → List Event
  bar_events workload code x =
      let b = cell workload code in
      printed (tabbed (str_int x ∷ b.label ∷ code ∷ str (round b.ratio 2) ∷ str b.tput ∷ []))
      ∷ wrote code
          (tabbed (str_int x ∷ b.label ∷ str (round b.ratio 2) ∷ str b.tput ∷ []) ++ newline ∷ [])
      ∷ []

  -- the rows of the codes from number `j` on, and of the workloads from number `i` on
  abbrev pub bars_spec : ℕ → ℕ → Text → List Text → List Event
  bars_spec i j workload [] = []
  bars_spec i j workload (code ∷ rest) =
      bar_events workload code (bar_position c i j) ++ bars_spec i (j + 1) workload rest

  abbrev pub groups_spec : ℕ → List Text → List Event
  groups_spec i [] = []
  groups_spec i (workload ∷ rest) = bars_spec i 0 workload c.codenames ++ groups_spec (i + 1) rest

  module _ (dict : Throughputs F) where
    -- The dictionaries hold the cell of a workload and a code.
    pub record IsCell (workload code : Text) : Type 0 where
      pub base : Float
      pub measured : lookup_pair code workload dict ≡ some (cell workload code).tput
      pub baseline : lookup_pair c.baseline workload dict ≡ some base
      pub divided : div (cell workload code).tput base ≡ some (cell workload code).ratio
      pub labelled : lookup workload c.labels ≡ some (cell workload code).label

    write_bar-events :
        (workload code : Text) (x : ℕ) (t : List Event)
        → IsCell workload code
        → write_bar F c dict workload code x t ≡ (ok tt, t ++ bar_events workload code x)
    unfolding write_bar
    write_bar-events workload code x t h =
        rw (h.measured, h.baseline, h.divided, h.labelled) (simp append_assoc)

    write_bars-spec :
        (i j : ℕ) (workload : Text) (cs : List Text) (t : List Event)
        → All (λ code. IsCell workload code) cs
        → write_bars F c dict workload cs (bar_position c i j) t
          ≡ (ok (bar_position c i (j + length cs)), t ++ bars_spec i j workload cs)
    unfolding write_bars
    write_bars-spec i j workload [] t h = pair_eq (omega arith) (sym (append-nil t))
    write_bars-spec i j workload (code ∷ rest) t (hc, h) =
        let x = bar_position c i j in
        let now = bar_events workload code x in
        rw (write_bar-events workload code x t hc) (
          rw (next_bar c i j) (
            write_bars-spec i (j + 1) workload rest (t ++ now) h
            ∙ pair_eq (omega arith) (append_assoc t now (bars_spec i (j + 1) workload rest))))

    write_groups-spec :
        (i : ℕ) (ws : List Text) (t : List Event)
        → All (λ workload. All (λ code. IsCell workload code) c.codenames) ws
        → write_groups F c dict ws (bar_position c i 0) t
          ≡ (ok (bar_position c (i + length ws) 0), t ++ groups_spec i ws)
    unfolding write_groups
    write_groups-spec i [] t h = pair_eq (omega arith) (sym (append-nil t))
    write_groups-spec i (workload ∷ rest) t (hw, h) =
        let now = bars_spec i 0 workload c.codenames in
        rw (write_bars-spec i 0 workload c.codenames t hw) (
          rw (next_group c i) (
            write_groups-spec (i + 1) rest (t ++ now) h
            ∙ pair_eq (omega arith) (append_assoc t now (groups_spec (i + 1) rest))))

    -- If the dictionaries hold a cell for every workload and code, the second loop returns, and what
    -- it appends to the trace is two rows for each bar, in the order of the workloads and in each of
    -- the codes, with the bar of code `j` in group `i` at `bar_position c i j`.
    pub write_groups-rows :
        (t : List Event)
        → All (λ workload. All (λ code. IsCell workload code) c.codenames) c.workloads
        → write_groups F c dict c.workloads c.curx t
          ≡ (ok (bar_position c (length c.workloads) 0), t ++ groups_spec 0 c.workloads)
    write_groups-rows t h =
        let e : c.curx ≡ bar_position c 0 0 = omega arith in
        (λ i. write_groups F c dict c.workloads (e i) t)
        ∙ write_groups-spec 0 c.workloads t h
        ∙ pair_eq (omega arith) refl
