-- ===== src/Client/Launch/Commands.antt =====
-- The effects of the measuring phase.
use skyros.Base.Decimal.{PyInt}
use skyros.Client.Load.Waits.{wait_for_clients-polls, BusyFor, polls}
use mathlib.Core.List.{map}
use skyros.Client.Load.{ps_command, consensus_words, World}
use skyros.Base.Text.{file_lines, newline, remove_char, codes, ◌=text◌, Text}
use skyros.Client.{count_from, printed, system, Event, has_consensus, Args}
use skyros.Client.Launch.{
  clean_command, run_phase, server_command, client_words, start_server, start_client, print_output,
}
use skyros.Base.{
  or_right, append_assoc, append-nil, ℕ, suc, ◌<◌, ◌≡◌, sym, ◌∙◌, inl, inr, Bool, true, ◌||◌, some,
  List, [], ◌∷◌, ◌++◌, if◌then◌else◌, Bool-cases, ok, All,
}
use skyros.Base.Script.{for_each-emit, for_each, trace_eq}

-- The words of the second configuration, for the codes that have one.
abbrev pub second_config : Args → List Text
second_config a = if has_consensus a.code then consensus_words a else []

-- The codes that the script knows.
abbrev pub is_known : Text → Bool
is_known code = has_consensus code || ((code =text codes "orig") || (code =text codes "curp"))

start_client-known :
    (a : Args) (i : ℕ) (t : List Event)
    → is_known a.code ≡ true
    → start_client a i t ≡ (ok tt, t ++ system (client_words a i (second_config a)) ∷ [])
unfolding start_client
start_client-known a i t known = elim (Bool-cases (has_consensus a.code)) [
  | inl two ↦ simp two
  | inr one ↦ simp (one, or_right (has_consensus a.code) _ one known)
]

abbrev pub start_events : Args → List ℕ → List Event
start_events a = map (λ i. system (client_words a i (second_config a)))

-- The lines of a text, printed without their newlines.
abbrev pub printed_lines : Text → List Event
printed_lines content = map (λ line. printed (remove_char newline line)) (file_lines content)

abbrev pub output_events : (ℕ → Text) → List ℕ → List Event
output_events lats [] = []
output_events lats (i ∷ is) = printed_lines (lats i) ++ output_events lats is

start_clients-known :
    (a : Args) (is : List ℕ) (t : List Event)
    → is_known a.code ≡ true
    → for_each is (start_client a) t ≡ (ok tt, t ++ start_events a is)
unfolding for_each
start_clients-known a [] t known = trace_eq (sym (append-nil t))
start_clients-known a (i ∷ is) t known = rw (start_client-known a i t known) (
    start_clients-known a is _ known
    ∙ trace_eq
        (append_assoc t (system (client_words a i (second_config a)) ∷ []) (start_events a is)))

print_output-lines :
    (w : World) (lats : ℕ → Text) (i : ℕ) (t : List Event)
    → w.lat i ≡ some (lats i)
    → print_output w i t ≡ (ok tt, t ++ printed_lines (lats i))
unfolding print_output
print_output-lines w lats i t e =
    simp e (for_each-emit (λ line. printed (remove_char newline line)) (file_lines (lats i)) t)

print_outputs-lines :
    (w : World) (lats : ℕ → Text) (is : List ℕ) (t : List Event)
    → All (λ i. w.lat i ≡ some (lats i)) is
    → for_each is (print_output w) t ≡ (ok tt, t ++ output_events lats is)
unfolding for_each
print_outputs-lines w lats [] t h = trace_eq (sym (append-nil t))
print_outputs-lines w lats (i ∷ is) t (e, h) = rw (print_output-lines w lats i t e) (
    print_outputs-lines w lats is _ h
    ∙ trace_eq (append_assoc t (printed_lines (lats i)) (output_events lats is)))

abbrev pub server_events : Args → List Event
server_events a =
    if a.workload =text codes "r"
    then system (server_command a) ∷ system (codes "sleep 1") ∷ []
    else []

start_server-events : (a : Args) (t : List Event) → start_server a t ≡ (ok tt, t ++ server_events a)
unfolding start_server
start_server-events a t = elim (Bool-cases (a.workload =text codes "r")) [
  | inl window ↦ rw window (trace_eq (append_assoc t (system (server_command a) ∷ []) _))
  | inr other ↦ rw other (trace_eq (sym (append-nil t)))
]

-- the effects between the first client and the last line of output
abbrev pub client_events : Args → (ℕ → Text) → List ℕ → ℕ → List Event
client_events a lats is n =
    start_events a is
    ++ (polls ps_command (suc n)
        ++ (output_events lats is ++ system (codes "killall -s 9 server") ∷ []))

-- If the code is known, the clients are seen at `n` polls, fewer than the rounds, and then no more,
-- and each has left its output file, then the measuring phase ends, and its effects are these: the
-- old files are removed; for the workload "r" the request server is started; the clients are
-- started in order, each with its number in its trace and its files, and with the second
-- configuration if the code has one; the polls; the lines of all the output files in order; and
-- the request server is stopped.
pub run_phase-effects :
    (a : Args) (w : World) (lats : ℕ → Text) (rounds n clients : ℕ) (t : List Event)
    → is_known a.code ≡ true
    → a.num_clients ≡ PyInt.natural clients
    → BusyFor w.run_ps 0 n
    → n < rounds
    → All (λ i. w.lat i ≡ some (lats i)) (count_from 1 clients)
    → run_phase rounds a w t ≡ (
      ok tt,
      t
          ++ (system (clean_command a)
              ∷ (server_events a ++ client_events a lats (count_from 1 clients) n)),
    )
unfolding run_phase
run_phase-effects a w lats rounds n clients t known count busy enough files =
    let is = count_from 1 clients in
    let t1 = t ++ system (clean_command a) ∷ [] in
    let t2 = t1 ++ server_events a in
    let t3 = t2 ++ start_events a is in
    let t4 = t3 ++ polls ps_command (suc n) in
    let t5 = t4 ++ output_events lats is in
    rw (start_server-events a t1) (
      rw count (
        rw (start_clients-known a is t2 known) (
          rw (wait_for_clients-polls n rounds 0 w.run_ps t3 busy enough)
            (rw (print_outputs-lines w lats is t4 files) (trace_eq (simp append_assoc))))))
