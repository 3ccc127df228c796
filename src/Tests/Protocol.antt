-- ===== src/Tests/Protocol.antt =====
-- A log with two entries.
use skyros.Protocol.Log.{
  next_number, Log, LogEntry, LogEntryState, Viewstamp, Request, SentEntry, append, find_in,
  find_request, remove_after, empty_hash,
}
use skyros.Protocol.Log.Numbered.{Numbered, IsNumbered, find_in-Numbered}
use skyros.Protocol.Log.Find.{remove_after-shortened, shortened}
use skyros.Protocol.Log.Contents.{contents, sent_contents, taken_over}
use skyros.Protocol.Log.Install.{Installs, install-taken_over}
use skyros.Protocol.Log.Agree.{install-sent}
use skyros.Protocol.Log.Steps.{fresh, after, Step, Reachable, Reachable-IsNumbered}
use skyros.Protocol.Log.Stale.{find_request-stale, replaced, id_of}
use skyros.Base.Text.{codes, Text}
use skyros.Base.{
  get_elem?, ℕ, ◌-◌, ◌≡◌, refl, inl, false, none, some, List, [], ◌∷◌, ◌++◌, arith, ltb,
  if◌then◌else◌,
}

abbrev sha : Text → Request → Text
sha hash req = hash

abbrev request : ℕ → Request
request client = record { op = codes "put"; clientid = client; clientreqid = 1 }

abbrev entry : ℕ → ℕ → ℕ → LogEntry
entry view opnum client = record {
  viewstamp = record { view = view; opnum = opnum };
  state = LogEntryState.prepared;
  request = request client;
  hash = empty_hash;
}

abbrev log_of : List LogEntry → Log
log_of es = record {
  entries = es;
  initial_hash = empty_hash;
  start = 1;
  use_hash = false;
  client_req_map = [];
}

abbrev two_entries : Log
two_entries = log_of (entry 0 1 7 ∷ entry 0 2 8 ∷ [])

numbered : Numbered 1 two_entries.entries
unfolding Numbered
numbered = (refl, (refl, tt))

two_entries-IsNumbered : IsNumbered two_entries
two_entries-IsNumbered = record { numbered = numbered; positive = omega arith; room = omega arith }

find_in-Numbered_example :
    find_in 1 2 two_entries.entries
    ≡ some (if ltb 2 1 then none else get_elem? two_entries.entries (2 - 1))
find_in-Numbered_example =
    find_in-Numbered 1 2 two_entries.entries numbered (omega arith) (omega arith)

remove_after-shortened_example :
    remove_after 2 two_entries ≡ (if ltb 2 1 then none else some (shortened 2 two_entries))
remove_after-shortened_example =
    remove_after-shortened 2 two_entries two_entries-IsNumbered (omega arith)

-- A message from a later view, for the second entry and one more.
abbrev sent : List SentEntry
sent =
    record { view = 3; opnum = 2; request = request 9 }
    ∷ record { view = 3; opnum = 3; request = request 8 }
    ∷ []

install-taken_over_example :
    Installs sha sent two_entries
      (contents (entry 0 1 7 ∷ []) ++ taken_over (contents (entry 0 2 8 ∷ [])) (sent_contents sent))
install-taken_over_example =
    install-taken_over sha sent (entry 0 1 7 ∷ []) (entry 0 2 8 ∷ []) two_entries
      two_entries-IsNumbered refl (refl, (refl, tt)) (omega arith)

install-sent_example :
    (behind : List (ℕ × Request)) × Installs sha sent two_entries
      (contents (entry 0 1 7 ∷ []) ++ (sent_contents sent ++ behind))
install-sent_example =
    install-sent sha sent (entry 0 1 7 ∷ []) (entry 0 2 8 ∷ []) two_entries two_entries-IsNumbered
      refl (refl, (refl, tt)) (omega arith) (inl (λ e. omega arith), tt)

abbrev one_log : Log
one_log = record (log_of (entry 0 1 7 ∷ [])) { client_req_map = ((7, 1), 1) ∷ [] }

abbrev first_viewstamp : Viewstamp
first_viewstamp = record { view = 0; opnum = 1 }

one_entry : append sha first_viewstamp (request 7) LogEntryState.prepared (log_of []) ≡ some one_log
unfolding append next_number
one_entry = refl

Reachable-one : Reachable sha one_log
Reachable-one =
    after (Step.append_entry first_viewstamp (request 7) LogEntryState.prepared)
      (fresh (log_of []) refl (omega arith) (omega arith)) (omega arith) (omega arith) one_entry

Reachable-IsNumbered_example : IsNumbered one_log
Reachable-IsNumbered_example = Reachable-IsNumbered Reachable-one

find_request-stale_example :
    (l' : Log) × ((replaced sha two_entries two_entries-IsNumbered
          (omega arith)
          LogEntryState.prepared
          0
          1
          (request 8)
          (request 9)
        ≡ some l')
      × ((e : LogEntry) × ((find_request (id_of (request 8)) l' ≡ some (some e))
            × (e.request ≡ request 9))))
find_request-stale_example =
    find_request-stale sha two_entries two_entries-IsNumbered (omega arith) LogEntryState.prepared 0
      1 (request 8) (request 9) refl
