-- ===== src/Client/Load/Waits.antt =====
-- How the loops of the loading phase end.
use skyros.Client.{printed, slept, invoked, Event}
use skyros.Client.Load.{check_load, gave_up, ps_command, check_command, wait_for_clients}
use skyros.Base.Text.{codes, is_empty, occurs_in, Text}
use mathlib.Core.Option
use skyros.Base.{
  ltb-false, ltb-true, append_assoc, system_exit, ℕ, zero, suc, ◌+◌, ◌<◌, ◌≡◌, ◌∙◌, inl, inr, false,
  Option, none, some, List, [], ◌∷◌, ◌++◌, arith, if◌then◌else◌, Bool-cases, Result, ok, err,
}
use skyros.Base.Script.{trace_eq}

-- The processes are seen at `n` polls from poll `k` on, and then no more.
abbrev pub BusyFor : (ℕ → Text) → ℕ → ℕ → Type 0
BusyFor ps k zero = ps k ≡ []
BusyFor ps k (suc n) = (is_empty (ps k) ≡ false) × BusyFor ps (k + 1) n

-- `n` polls by a command, each with its sleep
abbrev pub polls : Text → ℕ → List Event
polls command zero = []
polls command (suc n) = invoked command ∷ slept 2 ∷ polls command n

one_poll :
    (t : List Event) (command : Text) (rest : List Event)
    → ((t ++ invoked command ∷ []) ++ slept 2 ∷ []) ++ rest
      ≡ t ++ (invoked command ∷ slept 2 ∷ rest)
one_poll t command rest = simp append_assoc

-- The wait polls as long as the processes are seen and once more, and then it ends; it needs no
-- more rounds than that.
pub wait_for_clients-polls :
    (n rounds k : ℕ) (ps : ℕ → Text) (t : List Event)
    → BusyFor ps k n
    → n < rounds
    → wait_for_clients rounds ps k t ≡ (ok tt, t ++ polls ps_command (suc n))
unfolding wait_for_clients
wait_for_clients-polls n zero k ps t busy enough = absurd (omega arith)
wait_for_clients-polls zero (suc rounds) k ps t busy enough =
    rw busy (trace_eq (append_assoc t (invoked ps_command ∷ []) (slept 2 ∷ [])))
wait_for_clients-polls (suc n) (suc rounds) k ps t (seen, busy) enough = rw seen (
    wait_for_clients-polls n rounds (k + 1) ps _ busy (omega arith)
    ∙ trace_eq (one_poll t ps_command (polls ps_command (suc n))))

-- How many replies, of `n` from number `k` on, come before the first that shows the load as
-- complete.
abbrev pub seen_after : ℕ → (ℕ → Text) → ℕ → Option ℕ
seen_after zero reply k = none
seen_after (suc n) reply k =
    if occurs_in (codes "1000000") (reply k)
    then some 0
    else Option.map suc (seen_after n reply (k + 1))

-- The outcome of the loop with `n` replies left to look at, from reply `k` on.
abbrev pub check_outcome :
    Text → (ℕ → Text) → ℕ → ℕ → Option ℕ → List Event → Result Text × List Event
check_outcome ip reply k n (some i) t = (ok (reply (k + i)), t ++ polls (check_command ip) (suc i))
check_outcome ip reply k n none t =
    (err system_exit, t ++ (polls (check_command ip) (suc n) ++ printed gave_up ∷ []))

reply_eq :
    {i j : ℕ} {s t : List Event} (reply : ℕ → Text)
    → i ≡ j
    → s ≡ t
    → ◌≡◌ {A = Result Text × List Event} (ok (reply i), s) (ok (reply j), t)
reply_eq reply p q = λ x. (ok (reply (p x)), q x)

later :
    (ip : Text) (reply : ℕ → Text) (k n : ℕ) (found : Option ℕ) (t : List Event)
    → check_outcome ip reply
        (k + 1)
        n
        found
        ((t ++ invoked (check_command ip) ∷ []) ++ slept 2 ∷ [])
      ≡ check_outcome ip reply k (suc n) (Option.map suc found) t
later ip reply k n none t = trace_eq (one_poll t (check_command ip) _)
later ip reply k n (some i) t =
    reply_eq reply (omega arith) (one_poll t (check_command ip) (polls (check_command ip) (suc i)))

check_load-outcome :
    (n k : ℕ) (ip : Text) (reply : ℕ → Text) (t : List Event)
    → n + k ≡ 7
    → check_load (suc n) ip reply k t ≡ check_outcome ip reply k n (seen_after n reply k) t
unfolding check_load
check_load-outcome zero k ip reply t e =
    rw (ltb-true 7 (k + 1) (omega arith)) (trace_eq (simp append_assoc))
check_load-outcome (suc n) k ip reply t e =
    elim (Bool-cases (occurs_in (codes "1000000") (reply k))) [
      | inl seen ↦
          rw (ltb-false 7 (k + 1) (omega arith), seen)
            (reply_eq reply (omega arith)
              (append_assoc t (invoked (check_command ip) ∷ []) (slept 2 ∷ [])))
      | inr unseen ↦
          rw (ltb-false 7 (k + 1) (omega arith), unseen)
            (check_load-outcome n (k + 1) ip reply _ (omega arith)
              ∙ later ip reply k n (seen_after n reply (k + 1)) t)
    ]

-- The loop always ends. If one of the first seven replies shows the load as complete, it returns
-- the first such reply, after as many polls as that takes. If none does, it makes an eighth poll,
-- prints that the load did not complete and exits, whatever the eighth reply is.
pub check_load-ends :
    (ip : Text) (reply : ℕ → Text) (t : List Event)
    → check_load 8 ip reply 0 t ≡ check_outcome ip reply 0 7 (seen_after 7 reply 0) t
check_load-ends ip reply t = check_load-outcome 7 0 ip reply t (omega arith)
