-- ===== src/Results/Latency/Mixed.antt =====
-- Which lines count for which class: the test is whether the name of the class occurs in the line.
use mathlib.Core.List.{map}
use skyros.Results.Latency.{collect_lines, collect_line, values_of, Dict, append_value, enter_line}
use skyros.Results.Float.{Floats}
use skyros.Base.Text.{
  occurs_in-append, occurs_in, =text_refl, codes, =text_sound, split-Lacks, ◌=text◌, split-append,
  split, Lacks, tab, Text,
}
use skyros.Base.{
  append_assoc, append-nil, length-append, ◌≡◌, refl, sym, ap, ◌∙◌, inl, inr, true, false, ◌&&◌,
  some, List, [], ◌∷◌, ◌++◌, arith, leb, if◌then◌else◌, Bool-cases, ok, All, length,
}
use skyros.Results.Table.{Event}

-- A line of parse.py: a class of operations, a metric and a value, between tabs.
abbrev pub line_text : Text → Text → Text → Text
line_text op metric value = op ++ tab ∷ (metric ++ tab ∷ value)

split-line :
    (op metric value : Text)
    → Lacks tab op
    → Lacks tab metric
    → Lacks tab value
    → split tab (line_text op metric value) ≡ op ∷ metric ∷ value ∷ []
split-line op metric value ho hm hv =
    split-append tab op (metric ++ tab ∷ value) ho
    ∙ ap (λ (ps : List Text). op ∷ ps)
        (split-append tab metric value hm
          ∙ ap (λ (ps : List Text). metric ∷ ps) (split-Lacks tab value hv))

long_line : (op metric value : Text) → leb (length (line_text op metric value)) 1 ≡ false
long_line op metric value =
    ground
      (arith, length-append op (tab ∷ (metric ++ tab ∷ value)), length-append metric (tab ∷ value))

module _ (F : Floats) where
  open F use {Float, float}

  -- A line as data, with the number that its value is read as.
  pub record Line : Type 0 where
    pub op : Text
    pub metric : Text
    pub value : Text
    pub number : Float

  abbrev pub text_of : Line → Text
  text_of l = line_text l.op l.metric l.value

  pub record IsLine (l : Line) : Type 0 where
    pub op_lacks : Lacks tab l.op
    pub metric_lacks : Lacks tab l.metric
    pub value_lacks : Lacks tab l.value
    pub read : float l.value ≡ some l.number

  -- The values of a metric after another is appended.
  values_of-append_value :
      (wanted metric : Text) (value : Float) (dict : Dict F)
      → values_of F wanted (append_value F metric value dict) ≡ (
          if metric =text wanted
          then values_of F wanted dict ++ value ∷ []
          else values_of F wanted dict)
  unfolding append_value values_of
  values_of-append_value wanted metric value [] = elim (Bool-cases (metric =text wanted)) [
    | inl same ↦ rw same
    | inr other ↦ rw other
  ]
  values_of-append_value wanted metric value ((k, vs) ∷ rest) = elim (Bool-cases (k =text metric)) [
    | inl here ↦
        let e = =text_sound k metric here in
        elim (Bool-cases (metric =text wanted)) [
          | inl same ↦ rw (here, same) (rw (ap (λ (x : Text). x =text wanted) e ∙ same))
          | inr other ↦ rw (here, other) (rw (ap (λ (x : Text). x =text wanted) e ∙ other))
        ]
    | inr later ↦ rw later (elim (Bool-cases (k =text wanted)) [
      | inl first ↦ rw first (elim (Bool-cases (metric =text wanted)) [
        | inl same ↦
            let e = =text_sound k wanted first ∙ sym (=text_sound metric wanted same) in
            cc (later, =text_refl k, ap (λ (x : Text). k =text x) e)
        | inr other ↦ rw other
      ])
      | inr neither ↦ rw neither (values_of-append_value wanted metric value rest)
    ])
  ]

  enter_line-IsLine :
      (l : Line) (dict : Dict F) (t : List Event)
      → IsLine l
      → enter_line F (text_of l) dict t ≡ (ok (append_value F l.metric l.number dict), t)
  unfolding enter_line
  enter_line-IsLine l dict t h =
      rw (split-line l.op l.metric l.value h.op_lacks h.metric_lacks h.value_lacks) (rw h.read)

  -- The dictionary behind the lines of a class.
  pub entered : Text → List Line → Dict F → Dict F
  entered op_type [] dict = dict
  entered op_type (l ∷ ls) dict =
      entered op_type ls
        (if occurs_in op_type (text_of l) then append_value F l.metric l.number dict else dict)

  collect_lines-entered :
      (op_type : Text) (ls : List Line) (dict : Dict F) (t : List Event)
      → All IsLine ls
      → collect_lines F op_type (map text_of ls) dict t ≡ (ok (entered op_type ls dict), t)
  unfolding collect_lines collect_line entered
  collect_lines-entered op_type [] dict t h = refl
  collect_lines-entered op_type (l ∷ ls) dict t (hl, h) =
      rw (long_line l.op l.metric l.value) (elim (Bool-cases (occurs_in op_type (text_of l))) [
        | inl found ↦
            rw (found, enter_line-IsLine l dict t hl) (collect_lines-entered op_type ls _ t h)
        | inr other ↦ rw other (collect_lines-entered op_type ls dict t h)
      ])

  -- The numbers of the lines in which the class occurs, with the metric.
  pub counted : Text → Text → List Line → List Float
  counted op_type wanted [] = []
  counted op_type wanted (l ∷ ls) =
      if occurs_in op_type (text_of l) && (l.metric =text wanted)
      then l.number ∷ counted op_type wanted ls
      else counted op_type wanted ls

  values_of-entered :
      (op_type wanted : Text) (ls : List Line) (dict : Dict F)
      → values_of F wanted (entered op_type ls dict)
        ≡ values_of F wanted dict ++ counted op_type wanted ls
  unfolding entered counted
  values_of-entered op_type wanted [] dict = sym (append-nil (values_of F wanted dict))
  values_of-entered op_type wanted (l ∷ ls) dict =
      elim (Bool-cases (occurs_in op_type (text_of l))) [
        | inl found ↦ rw found (
            values_of-entered op_type wanted ls (append_value F l.metric l.number dict)
            ∙ rw (values_of-append_value wanted l.metric l.number dict)
                (elim (Bool-cases (l.metric =text wanted)) [
                  | inl same ↦ rw same (append_assoc (values_of F wanted dict) (l.number ∷ []) _)
                  | inr other ↦ rw other
                ]))
        | inr other ↦ rw other (values_of-entered op_type wanted ls dict)
      ]

  -- If every line has a class, a metric and a value between tabs, with a value that is a number, then
  -- collecting a class returns and prints nothing, and the values of a metric are, in order, those of
  -- the lines with that metric in which the name of the class occurs.
  pub collect_lines-values :
      (op_type wanted : Text) (ls : List Line) (t : List Event)
      → All IsLine ls
      → (collect_lines F op_type (map text_of ls) [] t ≡ (ok (entered op_type ls []), t))
        × (values_of F wanted (entered op_type ls []) ≡ counted op_type wanted ls)
  unfolding values_of
  collect_lines-values op_type wanted ls t h =
      (collect_lines-entered op_type ls [] t h, values_of-entered op_type wanted ls [])

  nonnilextwrite_occurs :
      (metric value : Text)
      → occurs_in (codes "nilextwrite") (line_text (codes "nonnilextwrite") metric value) ≡ true
  nonnilextwrite_occurs metric value =
      occurs_in-append (codes "non") (codes "nilextwrite") (tab ∷ (metric ++ tab ∷ value))

  counted-nonnilextwrite :
      (wanted : Text) (ls : List Line)
      → All (λ l. (l.op ≡ codes "nonnilextwrite") × (l.metric ≡ wanted)) ls
      → counted (codes "nilextwrite") wanted ls ≡ map (λ l. l.number) ls
  unfolding counted
  counted-nonnilextwrite wanted [] h = refl
  counted-nonnilextwrite wanted (l ∷ ls) ((class, metric), h) =
      rw
        (
          ap (λ (op : Text). occurs_in (codes "nilextwrite") (line_text op l.metric l.value)) class
              ∙ nonnilextwrite_occurs l.metric l.value,
          ap (λ (x : Text). x =text wanted) metric ∙ =text_refl wanted,
        )
        (ap (λ (ns : List Float). l.number ∷ ns) (counted-nonnilextwrite wanted ls h))

  -- Every line of the class "nonnilextwrite" also counts for "nilextwrite": if all lines are of the
  -- first class and have the metric, then what is collected for the second class has, under the
  -- metric, the numbers of all of them.
  pub collect_lines-nonnilextwrite :
      (wanted : Text) (ls : List Line) (t : List Event)
      → All IsLine ls
      → All (λ l. (l.op ≡ codes "nonnilextwrite") × (l.metric ≡ wanted)) ls
      → (dict : Dict F) × ((collect_lines F (codes "nilextwrite") (map text_of ls) [] t
            ≡ (ok dict, t))
          × (values_of F wanted dict ≡ map (λ l. l.number) ls))
  collect_lines-nonnilextwrite wanted ls t h same =
      let found = collect_lines-values (codes "nilextwrite") wanted ls t h in
      (
        entered (codes "nilextwrite") ls [],
        (found.0, found.1 ∙ counted-nonnilextwrite wanted ls same),
      )
