-- ===== src/Protocol/Log/Stale.antt =====
-- What a removal leaves behind in the map from requests to numbers.
use skyros.Protocol.Log.{
  find_number, resize, and_then, Log, LogEntry, LogEntryState, Viewstamp, Request, append, find,
  find_request, assigned, remove_after,
}
use skyros.Protocol.Log.Contents.{find-behind, resize-length}
use skyros.Protocol.Log.Numbered.{IsNumbered}
use skyros.Protocol.Log.Find.{
  append-next, appended, new_entry, appended-IsNumbered, remove_after-shortened, shortened,
  shortened-IsNumbered,
}
use skyros.Base.Text.{Text}
use skyros.Base.{
  ==_true, ltb-false, ==_refl, ◌^◌, ℕ, suc, ◌+◌, ◌-◌, ◌<◌, ◌≡◌, refl, ap, ◌∙◌, false, ◌&&◌, Option,
  some, List, [], ◌∷◌, arith, ◌==◌, length,
}

abbrev pub id_of : Request → ℕ × ℕ
id_of req = (req.clientid, req.clientreqid)

module _ (sha : Text → Request → Text) (l : Log) (h : IsNumbered l)
    (room : l.start + suc (length l.entries) < 2 ^ 64) (state : LogEntryState) where
  -- the next number, in two views
  abbrev pub next_in : ℕ → Viewstamp
  next_in view = record { view = view; opnum = l.start + length l.entries }

  -- A request is appended, its entry is removed, and another request gets its number.
  pub replaced : ℕ → ℕ → Request → Request → Option Log
  replaced view view' first second = and_then (append sha (next_in view) first state l) (λ l1.
      and_then (remove_after (l.start + length l.entries) l1)
        (append sha (next_in view') second state))

  -- The replica then finds the entry of the second request under the client and the number of the
  -- first, if they are of other requests.
  pub find_request-stale :
      (view view' : ℕ) (first second : Request)
      → ((second.clientid == first.clientid) && (second.clientreqid == first.clientreqid)) ≡ false
      → (l' : Log) × ((replaced view view' first second ≡ some l')
          × ((e : LogEntry) × ((find_request (id_of first) l' ≡ some (some e))
                × (e.request ≡ second))))
  unfolding replaced assigned
  find_request-stale view view' first second differ =
      let n = l.start + length l.entries in
      let l1 = appended sha (next_in view) first state l in
      let h1 = appended-IsNumbered sha (next_in view) first state l h room refl in
      let l2 = shortened n l1 in
      let h2 = shortened-IsNumbered n l1 h1 in
      let left : l2.entries ≡ l.entries =
        ap (λ (k : ℕ). resize k l1.entries)
          (let e : n - l.start ≡ length l.entries = omega arith in e)
        ∙ resize-length l.entries (new_entry sha (next_in view) first state l ∷ []) in
      let size : length l2.entries ≡ length l.entries =
        ap (λ (es : List LogEntry). length es) left in
      let l3 = appended sha (next_in view') second state l2 in
      let h3 =
        appended-IsNumbered sha (next_in view') second state l2 h2 (omega (arith, size))
          (omega (arith, size)) in
      let one : append sha (next_in view) first state l ≡ some l1 =
        append-next sha (next_in view) first state l h ∙ rw (==_refl n) refl in
      let two : remove_after n l1 ≡ some l2 =
        remove_after-shortened n l1 h1 (omega arith)
        ∙ rw (ltb-false n l.start (omega arith)) refl in
      let three : append sha (next_in view') second state l2 ≡ some l3 =
        append-next sha (next_in view') second state l2 h2
        ∙ rw (==_true n (l2.start + length l2.entries) (omega (arith, size))) refl in
      let entry = new_entry sha (next_in view') second state l2 in
      let key : assigned (id_of first) l3.client_req_map ≡ some n =
        rw (differ, ==_refl first.clientid, ==_refl first.clientreqid) refl in
      let found : find n l3 ≡ some (some entry) =
        ap (λ (k : ℕ). find k l3)
          (let e : n ≡ l2.start + length l2.entries = omega (arith, size) in e)
        ∙ find-behind l2.entries (entry ∷ []) l3 h3 refl (omega (arith, size)) in
      (l3, (rw (one, two) three, (entry, (ap (find_number l3) key ∙ found, refl))))
