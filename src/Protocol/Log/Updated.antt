-- ===== src/Protocol/Log/Updated.antt =====
-- What appending, removing and updating do to the numbers of a log.
use mathlib.Core.Path.{subst}
use skyros.Protocol.Log.{
  Log, LogEntry, LogEntryState, Viewstamp, Request, and_then, append, find, update, update_at,
  remove_after, sub64,
}
use skyros.Protocol.Log.Numbered.{Numbered, IsNumbered}
use skyros.Protocol.Log.Find.{
  append-next, new_entry, appended-IsNumbered, remove_after-shortened, shortened-IsNumbered,
  length-resize_le,
}
use skyros.Base.Text.{Text}
use skyros.Base.{
  some_injective, Option-cases, length-append, ◌^◌, ℕ, zero, suc, ◌+◌, ◌-◌, ◌≤◌, ◌<◌, ◌≡◌, refl,
  sym, ap, ◌∙◌, ◌⊎◌, inl, inr, true, false, none, some, List, [], ◌∷◌, arith, ltb, ◌==◌, Bool-cases,
  length,
}

-- A log with its numbers, longer by `n` entries at most.
pub record Grown (l : Log) (n : ℕ) (l' : Log) : Type 0 where
  pub is_numbered : IsNumbered l'
  pub start : l'.start ≡ l.start
  pub size : length l'.entries ≤ length l.entries + n

pub append-Grown :
    (sha : Text → Request → Text) (vs : Viewstamp) (req : Request) (state : LogEntryState) (l : Log)
    {l' : Log}
    → IsNumbered l
    → l.start + suc (length l.entries) < 2 ^ 64
    → append sha vs req state l ≡ some l'
    → Grown l 1 l'
append-Grown sha vs req state l h room e =
    let branches = sym (append-next sha vs req state l h) ∙ e in
    elim (Bool-cases (vs.opnum == l.start + length l.entries)) [
      | inl next ↦ subst (Grown l 1) (some_injective (rw next at branches)) (record {
        is_numbered = appended-IsNumbered sha vs req state l h room (ground arith);
        start = refl;
        size = omega (arith, length-append l.entries (new_entry sha vs req state l ∷ []));
      })
      | inr other ↦ absurd (cc (rw other at branches))
    ]

pub remove_after-Grown :
    (op : ℕ) (l : Log) {l' : Log}
    → IsNumbered l
    → op < 2 ^ 64
    → remove_after op l ≡ some l'
    → Grown l 0 l'
remove_after-Grown op l h bound e =
    let branches = sym (remove_after-shortened op l h bound) ∙ e in
    elim (Bool-cases (ltb op l.start)) [
      | inl below ↦ absurd (cc (rw below at branches))
      | inr within ↦ subst (Grown l 0) (some_injective (rw within at branches)) (record {
        is_numbered = shortened-IsNumbered op l h;
        start = refl;
        size = omega (arith, length-resize_le (op - l.start) l.entries);
      })
    ]

Numbered-update_at :
    (f : LogEntry → LogEntry) (n i : ℕ) (es : List LogEntry)
    → ((e : LogEntry) → (f e).viewstamp.opnum ≡ e.viewstamp.opnum)
    → Numbered n es
    → Numbered n (update_at f es i)
unfolding Numbered update_at
Numbered-update_at f n i [] same h = tt
Numbered-update_at f n zero (e ∷ es) same (he, h) = (same e ∙ he, h)
Numbered-update_at f n (suc i) (e ∷ es) same (he, h) =
    (he, Numbered-update_at f (suc n) i es same h)

length-update_at :
    (f : LogEntry → LogEntry) (es : List LogEntry) (i : ℕ) → length (update_at f es i) ≡ length es
unfolding update_at
length-update_at f [] i = refl
length-update_at f (e ∷ es) zero = refl
length-update_at f (e ∷ es) (suc i) = ap suc (length-update_at f es i)

pub Grown-same : (l : Log) → IsNumbered l → Grown l 0 l
Grown-same l h = record { is_numbered = h; start = refl; size = omega arith }

update-cases :
    (f : LogEntry → LogEntry) (op : ℕ) (l : Log)
    → (update f op l ≡ none)
      ⊎ ((update f op l ≡ some (false, l))
          ⊎ (update f op l
              ≡ some (true, record l { entries = update_at f l.entries (sub64 op l.start) })))
unfolding update
update-cases f op l = elim (Option-cases (find op l)) [
  | inl aborted ↦ inl (rw aborted refl)
  | inr (found, is_found) ↦ elim (Option-cases found) [
    | inl missing ↦ inr (inl (rw (is_found, missing) refl))
    | inr (entry, there) ↦ inr (inr (rw (is_found, there) refl))
  ]
]

pub update-Grown :
    (f : LogEntry → LogEntry) (op : ℕ) (l : Log) {l' : Log}
    → ((e : LogEntry) → (f e).viewstamp.opnum ≡ e.viewstamp.opnum)
    → IsNumbered l
    → and_then (update f op l) (λ r. some r.1) ≡ some l'
    → Grown l 0 l'
update-Grown f op l same h e = elim (update-cases f op l) [
  | inl aborted ↦ absurd (cc (rw aborted at e))
  | inr (inl missing) ↦ subst (Grown l 0) (some_injective (rw missing at e)) (Grown-same l h)
  | inr (inr there) ↦ subst (Grown l 0) (some_injective (rw there at e)) (record {
    is_numbered = record {
      numbered = Numbered-update_at f l.start (sub64 op l.start) l.entries same h.numbered;
      positive = h.positive;
      room = omega (arith, h.room, length-update_at f l.entries (sub64 op l.start));
    };
    start = refl;
    size = omega (arith, length-update_at f l.entries (sub64 op l.start));
  })
]
