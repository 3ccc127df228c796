-- ===== src/Deploy/Ips.antt =====
-- The address files of experiments/remote-throughput.py.
pub mod Servers
pub mod Numbered
use skyros.Base.Decimal.{str_int}
use skyros.Base.Text.{newline, is_empty, tab, remove_char, ◌=text◌, file_lines, Text}
use skyros.Base.{
  index_error, assertion_error, get_elem?, or_raise, ℕ, zero, suc, ◌+◌, ◌-◌, ◌*◌, ◌/◌, ◌%◌, ◌≤◌,
  ◌<◌, ◌≡◌, refl, sym, ap, ◌∙◌, ◌≢◌, ◌⊎◌, inl, inr, Bool, true, false, not, ◌&&◌, ◌||◌, Option,
  none, some, List, [], ◌∷◌, ◌++◌, arith, ltb, leb, ◌==◌, if◌then◌else◌, Bool-cases, Result, ok,
  err, All, length,
}
use skyros.Base.Checked.{◌>>=◌, ◌>>◌, guard}

-- `ips[key] = value` of a dict
unfoldable pub insert : Text → Text → List (Text × Text) → List (Text × Text)
insert key value [] = (key, value) ∷ []
insert key value ((k, v) ∷ rest) =
    if k =text key then (k, value) ∷ rest else (k, v) ∷ insert key value rest

-- `[str(x+1) for x in range(num_nodes)]`, from the number `x` on
unfoldable pub servers_from : ℕ → ℕ → List Text
servers_from x zero = []
servers_from x (suc n) = str_int (x + 1) ∷ servers_from (x + 1) n

-- `context.servers`
unfoldable pub servers : ℕ → List Text
unfolding servers_from
servers num_nodes = servers_from 0 num_nodes

-- `line.replace('\n','').replace('\t','')`
abbrev pub clean : Text → Text
clean line = remove_char tab (remove_char newline line)

-- the loop of `get_internal_ips`
internal_loop : List Text → ℕ → List Text → ℕ → List (Text × Text) → Result (List (Text × Text))
internal_loop names num_nodes [] count ips = ok ips
internal_loop names num_nodes (line ∷ lines) count ips = do
  server ← or_raise (get_elem? names count) index_error
  let ips' = insert server (clean line) ips
  let rest = internal_loop names num_nodes lines (count + 1) ips'
  if count + 1 == num_nodes then ok ips' else rest

-- `get_internal_ips`, over what `./internal_ips` holds
unfoldable pub get_internal_ips : List Text → ℕ → Text → Result (List (Text × Text))
unfolding internal_loop
get_internal_ips names num_nodes content = internal_loop names num_nodes (file_lines content) 0 []

-- the loop of `get_server_client_external_ips`
external_loop :
    List Text → ℕ → List Text → ℕ → List (Text × Text) → Text → Result (List (Text × Text) × Text)
external_loop names num_nodes [] count ips client_ip = ok (ips, client_ip)
external_loop names num_nodes (line ∷ lines) count ips client_ip = do
  ips' ←
      (if ltb count num_nodes
        then (do
          server ← or_raise (get_elem? names count) index_error
          ok (insert server (clean line) ips))
        else ok ips)
  external_loop names num_nodes lines (count + 1) ips'
      (if count == num_nodes then clean line else client_ip)

-- `get_server_client_external_ips`, over what `./external_ips` holds
unfoldable pub get_server_client_external_ips :
    List Text → ℕ → Text → Result (List (Text × Text) × Text)
unfolding external_loop
get_server_client_external_ips names num_nodes content = do
  found ← external_loop names num_nodes (file_lines content) 0 [] []
  guard (not (is_empty found.1)) assertion_error
  guard (length found.0 == length names) assertion_error
  ok found
