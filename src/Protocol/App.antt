-- ===== src/Protocol/App.antt =====
-- The key-value store of a replica, class AppReplica of src/skyros/common/replica.h: the store, the
-- durability log of the updates that are not ordered yet, and the index of the last update to each
-- key. A failed assertion, a panic or an exception is `none`. The maps that are only looked up are
-- functions; the durability log is a list, in the order of insertion.
pub mod Pending
pub mod Reads
pub mod Orders
pub mod Ordered
pub mod Settled
pub mod Lost
use mathlib.Core.Option
use skyros.Protocol.Log.{and_then, Request, RequestId}
use skyros.Base.Text.{Text, ◌=text◌, codes}
use skyros.Base.{
  keep, ℕ, zero, suc, ◌+◌, ◌-◌, ◌*◌, ◌/◌, ◌%◌, ◌≤◌, ◌<◌, ◌≡◌, refl, sym, ap, ◌∙◌, ◌≢◌, ◌⊎◌, inl,
  inr, Bool, true, false, not, ◌&&◌, ◌||◌, Option, none, some, List, [], ◌∷◌, ◌++◌, arith, ltb, leb,
  ◌==◌, if◌then◌else◌, Bool-cases, Result, ok, err, All, length,
}

-- An entry of the durability log.
pub record Durable : Type 0 where
  pub id : RequestId
  pub position : ℕ
  pub request : Request

pub record App : Type 0 where
  pub kv_store : Text → Option Text
  pub last_update_to_key : Text → Option RequestId
  pub durability_log : List Durable
  pub dur_log_index : ℕ

-- `substr(0, n)`, and what is behind it
unfoldable pub first_codes : ℕ → Text → Text
first_codes zero s = []
first_codes (suc n) [] = []
first_codes (suc n) (c ∷ s) = c ∷ first_codes n s

unfoldable pub behind_codes : ℕ → Text → Option Text
behind_codes zero s = some s
behind_codes (suc n) [] = none
behind_codes (suc n) (c ∷ s) = behind_codes n s

-- `op().substr(opLength, keyLength)`; it raises for an empty text
unfoldable pub key_of : Text → Option Text
key_of [] = none
key_of (c ∷ s) = some (first_codes 24 s)

-- the value of a write, behind operation and key
abbrev pub value_of : Text → Option Text
value_of op = behind_codes 25 op

-- `IsGet`, `IsSet` and `IsNonNilextWrite` of the first character
abbrev pub starts_as : (ℕ → Bool) → Text → Bool
starts_as test [] = false
starts_as test (c ∷ s) = test c

abbrev pub is_get : Text → Bool
is_get op = starts_as (λ c. (c == b'r') || (c == b'R')) op

abbrev pub is_set : Text → Bool
is_set op = starts_as (λ c. (c == b'i') || ((c == b'I') || ((c == b'u') || (c == b'U')))) op

abbrev pub is_non_nilext_write : Text → Bool
is_non_nilext_write op = starts_as (λ c. (c == b'e') || (c == b'E')) op

abbrev pub id_of : Request → RequestId
id_of req = (req.clientid, req.clientreqid)

abbrev pub same_id : RequestId → RequestId → Bool
same_id a b = (a.0 == b.0) && (a.1 == b.1)

-- `durabilityLog.find(id) != end()`
unfoldable pub is_durable : RequestId → List Durable → Bool
is_durable id [] = false
is_durable id (d ∷ ds) = same_id d.id id || is_durable id ds

-- `durabilityLog.insert_or_assign`
unfoldable pub insert_or_assign : Durable → List Durable → List Durable
insert_or_assign d [] = d ∷ []
insert_or_assign d (x ∷ xs) =
    let rest = insert_or_assign d xs in if same_id x.id d.id then d ∷ xs else x ∷ rest

-- `durabilityLog.erase`
abbrev pub erase : RequestId → List Durable → List Durable
erase id = keep (λ d. not (same_id d.id id))

abbrev pub assign : {V : Type 0} → Text → V → (Text → Option V) → Text → Option V
assign key v map k = if k =text key then some v else map k

-- `getFromStore`
abbrev pub found_or : Text → Option Text → Text
found_or other none = other
found_or other (some v) = v

abbrev pub get_from_store : Text → App → Text
get_from_store key a = found_or (codes "NOTFOUND") (a.kv_store key)

-- What `AppUpcall` gives back: whether the operation is to be ordered now, and the result.
pub record Answer : Type 0 where
  pub sync_order : Bool
  pub read_res : Text

abbrev pub answer : Bool → Text → Option Answer
answer sync_order read_res = some (record { sync_order = sync_order; read_res = read_res })

-- the branch of `AppUpcall` for a write that needs no order now
unfoldable pub make_durable : Request → Text → App → App
make_durable req key a = record a {
  durability_log =
      insert_or_assign (record { id = id_of req; position = a.dur_log_index; request = req })
        a.durability_log;
  last_update_to_key = assign key (id_of req) a.last_update_to_key;
  dur_log_index = a.dur_log_index + 1;
}

-- the branch for a read of a key that has been updated, with the assertion on the store
unfoldable pub read_updated : Text → RequestId → App → Option Answer
read_updated key id a =
    if is_durable id a.durability_log
    then answer true (codes "ordernowread!")
    else elim (a.kv_store key) [ none ↦ none | some v ↦ answer false v ]

abbrev pub read_by_index : Text → App → Option RequestId → Option Answer
read_by_index key a none = answer false (get_from_store key a)
read_by_index key a (some id) = read_updated key id a

-- the branch for a read
unfoldable pub read : Text → App → Option Answer
read key a =
    if ltb 0 (length a.durability_log)
    then read_by_index key a (a.last_update_to_key key)
    else answer false (get_from_store key a)

-- `AppUpcall`, once it has the key
unfoldable pub app_upcall_at : Text → Request → App → Option (Answer × App)
app_upcall_at key req a =
    if is_set req.op
    then and_then (answer false (codes "durable-ack")) (λ r. some (r, make_durable req key a))
    else if is_get req.op
    then and_then (read key a) (λ r. some (r, a))
    else if is_non_nilext_write req.op
    then and_then (answer true (codes "ordernownonnilext!")) (λ r. some (r, a))
    else none

-- `AppUpcall`
unfoldable pub app_upcall : Request → App → Option (Answer × App)
app_upcall req a = and_then (key_of req.op) (λ key. app_upcall_at key req a)

-- `ReplicaUpcall`, which applies an ordered operation; the text is `str2`
unfoldable pub replica_upcall : Request → App → Option (Text × App)
replica_upcall req a = and_then (key_of req.op) (λ key.
    if is_get req.op
    then some (get_from_store key a, a)
    else and_then (value_of req.op) (λ value. some (
      [],
      record a {
        kv_store = assign key value a.kv_store;
        durability_log = erase (id_of req) a.durability_log;
      },
    )))

-- `clearDurabilityLog`
unfoldable pub clear_durability_log : App → App
clear_durability_log a = record a { durability_log = []; dur_log_index = 0 }

-- `addToDurabilityLogInOrder`; each request is inserted as `AppUpcall` inserts a write
unfoldable pub add_to_durability_log_in_order : List Request → App → Option App
add_to_durability_log_in_order [] a = some a
add_to_durability_log_in_order (req ∷ rest) a =
    and_then (key_of req.op) (λ key. add_to_durability_log_in_order rest (make_durable req key a))
