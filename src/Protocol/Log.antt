-- ===== src/Protocol/Log.antt =====
-- src/skyros/common/log.cc, log.h and log-impl.h: the log of a replica. An assertion that fails
-- aborts the replica; this is `none`. The hash of an entry is SHA-1, which is a parameter. The data
-- that other protocols attach to an entry are left out, and so is the map of the viewstamps of other
-- shards, which this protocol never fills.
pub mod Numbered
pub mod Find
pub mod Contents
pub mod Install
pub mod Agree
pub mod Updated
pub mod Grown
pub mod Steps
pub mod Stale
use mathlib.Core.Option
use skyros.Base.Text.{Text}
use skyros.Base.{
  get_elem?, ◌^◌, ℕ, zero, suc, ◌+◌, ◌-◌, ◌*◌, ◌/◌, ◌%◌, ◌≤◌, ◌<◌, ◌≡◌, refl, sym, ap, ◌∙◌, ◌≢◌,
  ◌⊎◌, inl, inr, Bool, true, false, not, ◌&&◌, ◌||◌, Option, none, some, List, [], ◌∷◌, ◌++◌, arith,
  ltb, leb, ◌==◌, if◌then◌else◌, Bool-cases, Result, ok, err, All, length,
}

-- `uint64_t` addition and subtraction
abbrev pub add64 : ℕ → ℕ → ℕ
add64 a b = (a + b) % 2 ^ 64

abbrev pub sub64 : ℕ → ℕ → ℕ
sub64 a b = (a + (2 ^ 64 - b)) % 2 ^ 64

pub record Viewstamp : Type 0 where
  pub view : ℕ
  pub opnum : ℕ

pub record Request : Type 0 where
  pub op : Text
  pub clientid : ℕ
  pub clientreqid : ℕ

pub data LogEntryState : Type 0 where
  committed prepared speculative fast_prepared received noop executed : LogEntryState

pub record LogEntry : Type 0 where
  pub viewstamp : Viewstamp
  pub state : LogEntryState
  pub request : Request
  pub hash : Text

-- `EMPTY_HASH`, as long as a SHA-1 digest
abbrev pub empty_hash : Text
empty_hash = 0 ∷ 0 ∷ 0 ∷ 0 ∷ 0 ∷ 0 ∷ 0 ∷ 0 ∷ 0 ∷ 0 ∷ 0 ∷ 0 ∷ 0 ∷ 0 ∷ 0 ∷ 0 ∷ 0 ∷ 0 ∷ 0 ∷ 0 ∷ []

-- `(clientid, clientreqid)`, the key of a request
abbrev pub RequestId : Type 0
RequestId = ℕ × ℕ

pub record Log : Type 0 where
  pub entries : List LogEntry
  pub initial_hash : Text
  pub start : ℕ
  pub use_hash : Bool
  -- `clientReqMap`, the last assignment first
  pub client_req_map : List (RequestId × ℕ)

-- `entries.back()`
unfoldable pub back : List LogEntry → Option LogEntry
back [] = none
back (e ∷ []) = some e
back (e ∷ f ∷ es) = back (f ∷ es)

-- `LastOpnum`, by the first number and the entries
unfoldable pub last_number : ℕ → List LogEntry → ℕ
last_number start [] = sub64 start 1
last_number start (e ∷ []) = e.viewstamp.opnum
last_number start (e ∷ f ∷ es) = last_number start (f ∷ es)

abbrev pub last_opnum : Log → ℕ
last_opnum l = last_number l.start l.entries

abbrev pub last_hash : Log → Text
last_hash l = elim (back l.entries) [ none ↦ l.initial_hash | some e ↦ e.hash ]

-- `ASSERT(test)`
abbrev pub asserting : {A : Type 0} → Bool → Option A → Option A
asserting test rest = if test then rest else none

-- a step behind one that may abort
abbrev pub and_then : {A B : Type 0} → Option A → (A → Option B) → Option B
and_then none next = none
and_then (some a) next = next a

-- the number that the next entry has
unfoldable pub next_number : ℕ → List LogEntry → ℕ
next_number start [] = start
next_number start (e ∷ es) = add64 (last_number start (e ∷ es)) 1

-- `Append`; `sha` is `ComputeHash` on the hash so far and the request
unfoldable pub append :
    (Text → Request → Text) → Viewstamp → Request → LogEntryState → Log → Option Log
append sha vs req state l =
    let hash = if l.use_hash then sha (last_hash l) req else empty_hash in
    let entry : LogEntry = record { viewstamp = vs; state = state; request = req; hash = hash } in
    asserting (vs.opnum == next_number l.start l.entries) (
      some (record l {
        entries = l.entries ++ entry ∷ [];
        client_req_map = ((req.clientid, req.clientreqid), vs.opnum) ∷ l.client_req_map;
      }))

-- the entry that is found, with the assertion on its number
abbrev pub asserted : ℕ → Option LogEntry → Option (Option LogEntry)
asserted opnum none = none
asserted opnum (some entry) = asserting (entry.viewstamp.opnum == opnum) (some (some entry))

-- `Find(opnum)`, by the first number and the entries: an entry, or NULL
unfoldable pub find_in : ℕ → ℕ → List LogEntry → Option (Option LogEntry)
find_in start opnum [] = some none
find_in start opnum (e ∷ es) =
    let found = asserted opnum (get_elem? (e ∷ es) (sub64 opnum start)) in
    if ltb opnum start
    then some none
    else if ltb (sub64 (length (e ∷ es)) 1) (sub64 opnum start)
    then some none
    else found

abbrev pub find : ℕ → Log → Option (Option LogEntry)
find opnum l = find_in l.start opnum l.entries

-- `clientReqMap.find(reqid)`
unfoldable pub assigned : RequestId → List (RequestId × ℕ) → Option ℕ
assigned id [] = none
assigned id ((k, opnum) ∷ rest) =
    if (k.0 == id.0) && (k.1 == id.1) then some opnum else assigned id rest

-- `Find(clientReqMap[reqid])`, where the map has the request
abbrev pub find_number : Log → Option ℕ → Option (Option LogEntry)
find_number l none = some none
find_number l (some opnum) = find opnum l

-- `Find(reqid)`
abbrev pub find_request : RequestId → Log → Option (Option LogEntry)
find_request id l = find_number l (assigned id l.client_req_map)

-- the assignment to a field of the entry with an index
unfoldable pub update_at : (LogEntry → LogEntry) → List LogEntry → ℕ → List LogEntry
update_at f [] i = []
update_at f (e ∷ es) zero = f e ∷ es
update_at f (e ∷ es) (suc i) = e ∷ update_at f es i

-- `entry->… = …` on what `Find` has found, and whether it has
unfoldable pub update : (LogEntry → LogEntry) → ℕ → Log → Option (Bool × Log)
update f opnum l =
    let changed = record l { entries = update_at f l.entries (sub64 opnum l.start) } in
    and_then (find opnum l)
      (λ found. elim found [ none ↦ some (false, l) | some e ↦ some (true, changed) ])

abbrev pub set_status : ℕ → LogEntryState → Log → Option (Bool × Log)
set_status opnum state = update (λ e. record e { state = state }) opnum

-- `SetRequest`, which panics on a hashed log
unfoldable pub set_request : ℕ → Request → Log → Option (Bool × Log)
set_request opnum req l =
    asserting (not l.use_hash) (update (λ e. record e { request = req }) opnum l)

-- `entries.resize(n)`, for an `n` below the size
unfoldable pub resize : ℕ → List LogEntry → List LogEntry
resize zero es = []
resize (suc n) [] = []
resize (suc n) (e ∷ es) = e ∷ resize n es

-- `RemoveAfter`, which removes the entry `op` too
unfoldable pub remove_after : ℕ → Log → Option Log
remove_after op l =
    let shorter = record l { entries = resize (sub64 op l.start) l.entries } in
    if ltb (last_opnum l) op
    then some l
    else asserting (ltb (sub64 op l.start) (length l.entries))
        (asserting (last_opnum shorter == sub64 op 1) (some shorter))

-- An entry of a message, as `Install` reads it.
pub record SentEntry : Type 0 where
  pub view : ℕ
  pub opnum : ℕ
  pub request : Request

-- the first loop of `Install`: the entries that are left, and the log without what diverges
unfoldable pub drop_divergent : List SentEntry → Log → Option (List SentEntry × Log)
drop_divergent [] l = some ([], l)
drop_divergent (it ∷ rest) l =
    let agreed = drop_divergent rest l in
    let cut = and_then (remove_after it.opnum l) (λ shorter. some (it ∷ rest, shorter)) in
    and_then (find it.opnum l) (λ found. elim found [
      | none ↦ some (it ∷ rest, l)
      | some old ↦ if it.view == old.viewstamp.view then agreed else cut
    ])

-- the second loop of `Install`
unfoldable pub append_sent : (Text → Request → Text) → List SentEntry → Log → Option Log
append_sent sha [] l = some l
append_sent sha (it ∷ rest) l =
    let vs : Viewstamp = record { view = it.view; opnum = it.opnum } in
    and_then (append sha vs it.request LogEntryState.prepared l) (append_sent sha rest)

unfoldable pub install : (Text → Request → Text) → List SentEntry → Log → Option Log
install sha sent l = and_then (drop_divergent sent l) (λ left. append_sent sha left.0 left.1)
