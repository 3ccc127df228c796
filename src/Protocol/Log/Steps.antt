-- ===== src/Protocol/Log/Steps.antt =====
-- What a replica does with its log, as steps.
use skyros.Protocol.Log.Updated.{remove_after-Grown, update-Grown, append-Grown, Grown}
use skyros.Protocol.Log.Grown.{install-Grown, set_request-Grown}
use mathlib.Core.Path.{subst}
use skyros.Protocol.Log.{
  Log, LogEntryState, Viewstamp, Request, SentEntry, and_then, append, set_status, set_request,
  remove_after, install,
}
use skyros.Protocol.Log.Numbered.{Numbered, IsNumbered}
use skyros.Base.Text.{Text}
use skyros.Base.{◌^◌, ℕ, ◌+◌, ◌<◌, ◌≡◌, refl, sym, ap, Option, some, List, [], arith, All, length}

pub data Step : Type 0 where
  append_entry : Viewstamp → Request → LogEntryState → Step
  status : ℕ → LogEntryState → Step
  change_request : ℕ → Request → Step
  remove : ℕ → Step
  take_over : List SentEntry → Step

-- the log after a step, if the replica has not aborted
abbrev pub run : (Text → Request → Text) → Step → Log → Option Log
run sha (Step.append_entry vs req state) l = append sha vs req state l
run sha (Step.status op state) l = and_then (set_status op state l) (λ r. some r.1)
run sha (Step.change_request op req) l = and_then (set_request op req l) (λ r. some r.1)
run sha (Step.remove op) l = remove_after op l
run sha (Step.take_over sent) l = install sha sent l

-- How many entries a step can add.
abbrev pub added : Step → ℕ
added (Step.append_entry vs req state) = 1
added (Step.status op state) = 0
added (Step.change_request op req) = 0
added (Step.remove op) = 0
added (Step.take_over sent) = length sent

-- The numbers of a step are 64-bit integers.
abbrev pub Fits64 : Step → Type 0
Fits64 (Step.append_entry vs req state) = vs.opnum < 2 ^ 64
Fits64 (Step.status op state) = op < 2 ^ 64
Fits64 (Step.change_request op req) = op < 2 ^ 64
Fits64 (Step.remove op) = op < 2 ^ 64
Fits64 (Step.take_over sent) = All (λ e. e.opnum < 2 ^ 64) sent

run-Grown :
    (sha : Text → Request → Text) (s : Step) (l : Log) {l' : Log}
    → IsNumbered l
    → Fits64 s
    → l.start + length l.entries + added s < 2 ^ 64
    → run sha s l ≡ some l'
    → Grown l (added s) l'
run-Grown sha (Step.append_entry vs req state) l h fits room e =
    append-Grown sha vs req state l h (omega arith) e
run-Grown sha (Step.status op state) l h fits room e =
    update-Grown (λ x. record x { state = state }) op l (λ x. refl) h e
run-Grown sha (Step.change_request op req) l h fits room e = set_request-Grown op req l h e
run-Grown sha (Step.remove op) l h fits room e = remove_after-Grown op l h fits e
run-Grown sha (Step.take_over sent) l h fits room e = install-Grown sha sent l h fits room e

-- A log that a replica can have after steps that do not abort it, from a log with no entries.
pub data Reachable (sha : Text → Request → Text) : Log → Type 0 where
  fresh : (l : Log) → l.entries ≡ [] → 0 < l.start → l.start < 2 ^ 64 → Reachable sha l
  after :
      {l l' : Log} (s : Step)
      → Reachable sha l
      → Fits64 s
      → l.start + length l.entries + added s < 2 ^ 64
      → run sha s l ≡ some l'
      → Reachable sha l'

-- In every log that a replica can have, each entry has the number of its place.
pub Reachable-IsNumbered : {sha : Text → Request → Text} {l : Log} → Reachable sha l → IsNumbered l
unfolding Numbered
Reachable-IsNumbered (fresh l empty positive bound) = record {
  numbered = subst (Numbered l.start) (sym empty) tt;
  positive = positive;
  room = omega (arith, ap length empty);
}
Reachable-IsNumbered {sha = sha} (after {l} s before fits room e) =
    (run-Grown sha s l (Reachable-IsNumbered before) fits room e).is_numbered
