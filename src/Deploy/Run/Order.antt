-- ===== src/Deploy/Run/Order.antt =====
-- What the loops over the servers do, in the order of the servers.
pub mod Steps
pub mod Effects
pub mod Prepared
pub mod Deployed
pub mod Written
pub mod Output
use skyros.Deploy.Run.Whole.{target_factory}
use skyros.Deploy.Context.{Context, check_context_sanity}
use mathlib.Core.List.{map}
use skyros.Deploy.Run.{
  ssh_command, copy_file_remote, print_line, os_system, address, Effect, run_remote, copy_if_given,
}
use skyros.Base.Decimal.{str_int}
use skyros.Results.Table.{lookup}
use skyros.Base.Text.{one_of, codes, ◌=text◌, =text_refl, Text}
use skyros.Deploy.Ips.Servers.{=text_false, numbered}
use skyros.Deploy.Ips.{clean, servers, servers_from}
use skyros.Base.{
  inr, inl, Bool-cases, ok, append-nil, append_assoc, All-map, ℕ, ◌+◌, ◌<◌, ◌≡◌, refl, sym, ap, ◌∙◌,
  false, some, List, [], ◌∷◌, ◌++◌, arith, All, length,
}
use skyros.Base.Script.{trace_eq, Script, ◌>>=◌, for_each, Does}

-- On another machine, a command that is not waited for.
abbrev pub ran : Text → Text → List Effect
ran ip command = print_line (ssh_command ip command) ∷ os_system (ssh_command ip command) ∷ []

-- A copy to another machine.
abbrev pub sent : Text → Text → Text → List Effect
sent ip from_path to_path =
    os_system
      (codes "scp " ++ (from_path ++ (codes " sarthakm@" ++ (ip ++ (codes ":" ++ to_path)))))
    ∷ []

-- What happens for each server, given its number, as a text, and its address.
pub on_each : (Text → Text → List Effect) → List (Text × Text) → List Effect
on_each events [] = []
on_each events ((i, ip) ∷ rest) = events i ip ++ on_each events rest

servers_from-numbered :
    (x : ℕ) (lines : List Text) → servers_from x (length lines) ≡ map (λ e. e.0) (numbered x lines)
unfolding servers_from numbered
servers_from-numbered x [] = refl
servers_from-numbered x (l ∷ ls) =
    ap (λ (is : List Text). str_int (x + 1) ∷ is) (servers_from-numbered (x + 1) ls)

pub servers-numbered :
    (lines : List Text) → servers (length lines) ≡ map (λ e. e.0) (numbered 0 lines)
unfolding servers
servers-numbered lines = servers_from-numbered 0 lines

-- Every server has its address.
abbrev pub HasAddresses : List (Text × Text) → List (Text × Text) → Type 0
HasAddresses ips = All (λ e. lookup e.0 ips ≡ some e.1)

later_keys :
    (k x : ℕ) (lines : List Text)
    → k < x
    → All (λ e. (str_int (k + 1) =text e.0) ≡ false) (numbered x lines)
unfolding numbered
later_keys k x [] h = tt
later_keys k x (l ∷ ls) h =
    (=text_false (k + 1) (x + 1) (omega arith), later_keys k (x + 1) ls (omega arith))

lookup_later :
    (k v : Text) (rest es : List (Text × Text))
    → All (λ e. (k =text e.0) ≡ false) es
    → HasAddresses rest es
    → HasAddresses ((k, v) ∷ rest) es
unfolding lookup
lookup_later k v rest [] h a = tt
lookup_later k v rest (e ∷ es) (he, h) (ae, a) = (rw he ae, lookup_later k v rest es h a)

pub numbered-HasAddresses :
    (x : ℕ) (lines : List Text) → HasAddresses (numbered x lines) (numbered x lines)
unfolding numbered lookup
numbered-HasAddresses x [] = tt
numbered-HasAddresses x (l ∷ ls) = (
  rw (=text_refl (str_int (x + 1))),
  lookup_later (str_int (x + 1)) (clean l) (numbered (x + 1) ls) (numbered (x + 1) ls)
      (later_keys x (x + 1) ls (omega arith)) (numbered-HasAddresses (x + 1) ls),
)

each-Does :
    (events : Text → Text → List Effect) (body : Text → Script Effect (Unit {0}))
    (es : List (Text × Text))
    → All (λ e. Does (body e.0) tt (events e.0 e.1)) es
    → Does (for_each (map (λ e. e.0) es) body) tt (on_each events es)
unfolding for_each on_each
each-Does events body [] h t = trace_eq (sym (append-nil t))
each-Does events body ((i, ip) ∷ rest) (h, hs) t = rw (h t) (
    each-Does events body rest hs (t ++ events i ip)
    ∙ trace_eq (append_assoc t (events i ip) (on_each events rest)))

module _ (names : List Text) (ips : List (Text × Text)) (known : names ≡ map (λ e. e.0) ips) where
  -- A loop over the servers, each of which does what `events` says.
  pub servers-Does :
      (events : Text → Text → List Effect) (body : Text → Script Effect (Unit {0}))
      → All (λ e. Does (body e.0) tt (events e.0 e.1)) ips
      → Does (for_each names body) tt (on_each events ips)
  servers-Does events body h t = rw known (each-Does events body ips h t)

  -- A command on every server.
  pub run_each-Does :
      (command : Text)
      → HasAddresses ips ips
      → Does
          (for_each names (λ i. address ips i >>= λ machine_ip. run_remote machine_ip command))
          tt
          (on_each (λ i ip. ran ip command) ips)
  unfolding run_remote
  run_each-Does command h =
      servers-Does _ _ (All-map (λ e found t. rw found (trace_eq (simp append_assoc))) ips h)

pub copy_if_given-Does :
    (ips : List (Text × Text)) (i ip from_path to_path : Text)
    → lookup i ips ≡ some ip
    → Does (copy_if_given ips i (some from_path, some to_path)) tt (sent ip from_path to_path)
unfolding copy_if_given copy_file_remote
copy_if_given-Does ips i ip from_path to_path found t = rw found

-- Options that pass the check name the system that there is.
pub check_context_sanity-target :
    (c : Context) → check_context_sanity c ≡ ok tt → target_factory c.target_system_name ≡ ok tt
unfolding check_context_sanity target_factory one_of
check_context_sanity-target c h = elim (Bool-cases (c.target_system_name =text codes "vr")) [
  | inl vr ↦ rw vr
  | inr other ↦ cc (rw other at h)
]
