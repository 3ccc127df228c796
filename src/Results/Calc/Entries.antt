-- ===== src/Results/Calc/Entries.antt =====
-- The entries of the throughputs that `calc` collects.
use skyros.Results.Calc.{Throughputs}
use skyros.Results.Table.{lookup_pair}
use skyros.Base.Text.{=text_sound, =text_refl, ◌=text◌, Text}
use skyros.Results.Float.{Floats}
use skyros.Base.{
  All-map, ◌≡◌, ap, inl, inr, true, ◌&&◌, some, List, [], ◌∷◌, arith, Bool-cases, All,
}

module _ (F : Floats) (kops : Text → Text → F.Float) where
  -- The dictionary has the throughput of a code under a workload.
  abbrev pub HasEntry : Text → Text → Throughputs F → Type 0
  HasEntry code workload dict = lookup_pair code workload dict ≡ some (kops code workload)

  HasEntry-here :
      (code workload : Text) (dict : Throughputs F)
      → HasEntry code workload ((code, workload, kops code workload) ∷ dict)
  unfolding lookup_pair
  HasEntry-here code workload dict = rw (=text_refl code, =text_refl workload)

  kops_same :
      (code workload j k : Text)
      → ((j =text code) && (k =text workload)) ≡ true
      → kops j k ≡ kops code workload
  kops_same code workload j k h =
      let e = =text_sound j code (ground arith) in
      let f = =text_sound k workload (ground arith) in cc (e, f)

  HasEntry-cons :
      (code workload j k : Text) (dict : Throughputs F)
      → HasEntry code workload dict
      → HasEntry code workload ((j, k, kops j k) ∷ dict)
  unfolding lookup_pair
  HasEntry-cons code workload j k dict h =
      elim (Bool-cases ((j =text code) && (k =text workload))) [
        | inl same ↦ rw same (ap some (kops_same code workload j k same))
        | inr other ↦ rw other h
      ]

  -- The dictionary after the workloads of a code, and after the codes.
  unfoldable pub entries : Text → List Text → Throughputs F → Throughputs F
  entries code [] dict = dict
  entries code (workload ∷ rest) dict =
      entries code rest ((code, workload, kops code workload) ∷ dict)

  unfoldable pub all_entries : List Text → List Text → Throughputs F → Throughputs F
  all_entries workloads [] dict = dict
  all_entries workloads (code ∷ rest) dict =
      all_entries workloads rest (entries code workloads dict)

  HasEntry-entries :
      (c w code : Text) (ws : List Text) (dict : Throughputs F)
      → HasEntry c w dict
      → HasEntry c w (entries code ws dict)
  unfolding entries
  HasEntry-entries c w code [] dict h = h
  HasEntry-entries c w code (v ∷ ws) dict h =
      HasEntry-entries c w code ws _ (HasEntry-cons c w code v dict h)

  HasEntry-all_entries :
      (c w : Text) (ws cs : List Text) (dict : Throughputs F)
      → HasEntry c w dict
      → HasEntry c w (all_entries ws cs dict)
  unfolding all_entries
  HasEntry-all_entries c w ws [] dict h = h
  HasEntry-all_entries c w ws (code ∷ cs) dict h =
      HasEntry-all_entries c w ws cs _ (HasEntry-entries c w code ws dict h)

  -- Every workload of a code has its entry, and every code.
  entries_complete :
      (code : Text) (ws : List Text) (dict : Throughputs F)
      → All (λ w. HasEntry code w (entries code ws dict)) ws
  unfolding entries
  entries_complete code [] dict = tt
  entries_complete code (w ∷ ws) dict =
      (HasEntry-entries code w code ws _ (HasEntry-here code w dict), entries_complete code ws _)

  pub all_entries_complete :
      (ws cs : List Text) (dict : Throughputs F)
      → All (λ code. All (λ w. HasEntry code w (all_entries ws cs dict)) ws) cs
  unfolding all_entries
  all_entries_complete ws [] dict = tt
  all_entries_complete ws (code ∷ cs) dict = (
    All-map (λ w h. HasEntry-all_entries code w ws cs _ h) ws (entries_complete code ws dict),
    all_entries_complete ws cs _,
  )
