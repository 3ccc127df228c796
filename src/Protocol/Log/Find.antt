-- ===== src/Protocol/Log/Find.antt =====
-- What the operations on one place of the log do, on every branch.
use skyros.Protocol.Log.{
  Log, LogEntry, LogEntryState, Viewstamp, Request, sub64, last_number, last_hash, empty_hash,
  append, resize, remove_after,
}
use skyros.Protocol.Log.Numbered.{
  IsNumbered, sub64-le, last_number-Numbered, next_number-Numbered, length-resize, Numbered-resize,
  Numbered-append,
}
use skyros.Base.Text.{Text}
use skyros.Base.{
  ==_refl, ltb-true, ltb-false, length-append, ◌^◌, ℕ, zero, suc, ◌+◌, ◌-◌, ◌≤◌, ◌<◌, ◌≡◌, refl,
  sym, ap, ◌∙◌, inl, inr, none, some, List, [], ◌∷◌, ◌++◌, arith, ltb, ◌==◌, if◌then◌else◌,
  Bool-cases, length,
}

-- The entry that `append` adds.
abbrev pub new_entry :
    (Text → Request → Text) → Viewstamp → Request → LogEntryState → Log → LogEntry
new_entry sha vs req state l = record {
  viewstamp = vs;
  state = state;
  request = req;
  hash = if l.use_hash then sha (last_hash l) req else empty_hash;
}

abbrev pub appended : (Text → Request → Text) → Viewstamp → Request → LogEntryState → Log → Log
appended sha vs req state l = record l {
  entries = l.entries ++ new_entry sha vs req state l ∷ [];
  client_req_map = ((req.clientid, req.clientreqid), vs.opnum) ∷ l.client_req_map;
}

-- On a log with its numbers, an entry is appended if it has the next number, and aborts the replica
-- if it has another.
pub append-next :
    (sha : Text → Request → Text) (vs : Viewstamp) (req : Request) (state : LogEntryState) (l : Log)
    → IsNumbered l
    → append sha vs req state l ≡ (
        if vs.opnum == l.start + length l.entries then some (appended sha vs req state l) else none)
unfolding append
append-next sha vs req state l h =
    rw (next_number-Numbered l.start l.entries h.numbered h.positive h.room) refl

pub appended-IsNumbered :
    (sha : Text → Request → Text) (vs : Viewstamp) (req : Request) (state : LogEntryState) (l : Log)
    → IsNumbered l
    → l.start + suc (length l.entries) < 2 ^ 64
    → vs.opnum ≡ l.start + length l.entries
    → IsNumbered (appended sha vs req state l)
appended-IsNumbered sha vs req state l h room next = record {
  numbered = Numbered-append l.start l.entries (new_entry sha vs req state l) h.numbered next;
  positive = h.positive;
  room = omega (arith, length-append l.entries (new_entry sha vs req state l ∷ []));
}

pub length-resize_le : (k : ℕ) (es : List LogEntry) → length (resize k es) ≤ length es
unfolding resize
length-resize_le zero es = omega arith
length-resize_le (suc k) [] = omega arith
length-resize_le (suc k) (e ∷ es) = omega (arith, length-resize_le k es)

resize-beyond : (k : ℕ) (es : List LogEntry) → length es ≤ k → resize k es ≡ es
unfolding resize
resize-beyond zero [] h = refl
resize-beyond zero (e ∷ es) h = absurd (omega arith)
resize-beyond (suc k) [] h = refl
resize-beyond (suc k) (e ∷ es) h =
    ap (λ (xs : List LogEntry). e ∷ xs) (resize-beyond k es (omega arith))

abbrev pub shortened : ℕ → Log → Log
shortened op l = record l { entries = resize (op - l.start) l.entries }

-- On a log with its numbers, a removal keeps exactly the entries below its number, and aborts the
-- replica if that is below the first number of the log.
pub remove_after-shortened :
    (op : ℕ) (l : Log)
    → IsNumbered l
    → op < 2 ^ 64
    → remove_after op l ≡ (if ltb op l.start then none else some (shortened op l))
unfolding remove_after
remove_after-shortened op l h bound =
    let last = last_number-Numbered l.start l.entries h.numbered h.positive h.room in
    let k = op - l.start in
    let positive = h.positive in
    let room = h.room in
    elim (Bool-cases (ltb op l.start)) [
      | inl below ↦
          rw
            (
              below,
              last,
              ltb-false (l.start + length l.entries - 1) op (ground arith),
              ltb-false (sub64 op l.start) (length l.entries) (ground arith),
            )
            refl
      | inr within ↦ elim (Bool-cases (ltb (l.start + length l.entries - 1) op)) [
        | inl behind ↦
            rw (within, last, behind)
              (ap (λ (es : List LogEntry). some (record l { entries = es }))
                (sym (resize-beyond k l.entries (ground arith))))
        | inr inside ↦
            let offset : sub64 op l.start ≡ k = sub64-le op l.start (ground arith) bound in
            let kept : length (resize k l.entries) ≡ k = length-resize k l.entries (ground arith) in
            let shorter : last_number l.start (resize k l.entries) ≡ sub64 op 1 =
              last_number-Numbered l.start (resize k l.entries)
                (Numbered-resize l.start k l.entries h.numbered) h.positive (ground (arith, kept))
              ∙ ap (λ (n : ℕ). l.start + n - 1) kept
              ∙ (let same : l.start + k - 1 ≡ op - 1 = ground arith in same)
              ∙ sym (sub64-le op 1 (ground arith) bound) in
            rw
              (
                within,
                last,
                inside,
                offset,
                ltb-true k (length l.entries) (ground arith),
                shorter,
                ==_refl (sub64 op 1),
              )
              refl
      ]
    ]

pub shortened-IsNumbered : (op : ℕ) (l : Log) → IsNumbered l → IsNumbered (shortened op l)
shortened-IsNumbered op l h = record {
  numbered = Numbered-resize l.start (op - l.start) l.entries h.numbered;
  positive = h.positive;
  room = omega (arith, h.room, length-resize_le (op - l.start) l.entries);
}
