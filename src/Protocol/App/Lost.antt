-- ===== src/Protocol/App/Lost.antt =====
-- An update that a view change does not keep: vr/replica.cc clears the durability log and fills it
-- with the requests of the others, but the index of the last updates stays.
use mathlib.Core.Path.{subst}
use skyros.Protocol.App.Settled.{get-is_set}
use skyros.Protocol.App.{
  is_get, is_set, Answer, app_upcall_at, clear_durability_log, app_upcall,
  add_to_durability_log_in_order, App, Durable, key_of, id_of, same_id, is_durable,
  insert_or_assign, make_durable, read, read_updated,
}
use skyros.Protocol.Log.{Request, RequestId}
use skyros.Base.Text.{=text_refl, Text, ◌=text◌}
use skyros.Base.{
  some_injective, ap, true, ◌<◌, ◌≡◌, refl, inl, inr, false, none, some, List, [], ◌∷◌, arith,
  ltb-true, Bool-cases, All, length,
}

-- The request has another key and another identity.
pub record IsOther (key : Text) (id : RequestId) (req : Request) : Type 0 where
  pub own_key : Text
  pub has_key : key_of req.op ≡ some own_key
  pub other_key : (key =text own_key) ≡ false
  pub other_id : same_id (id_of req) id ≡ false

-- The last update of the key is this request, but it is nowhere.
record IsLost (key : Text) (id : RequestId) (a : App) : Type 0 where
  pub indexed : a.last_update_to_key key ≡ some id
  pub not_durable : is_durable id a.durability_log ≡ false
  pub not_stored : a.kv_store key ≡ none

is_durable-insert :
    (id : RequestId) (d : Durable) (ds : List Durable)
    → same_id d.id id ≡ false
    → is_durable id ds ≡ false
    → is_durable id (insert_or_assign d ds) ≡ false
unfolding is_durable insert_or_assign
is_durable-insert id d [] other gone = rw other refl
is_durable-insert id d (x ∷ xs) other gone =
    let first : same_id x.id id ≡ false = ground arith in
    let rest : is_durable id xs ≡ false = ground arith in
    elim (Bool-cases (same_id x.id d.id)) [
      | inl here ↦ rw (here, other, rest) refl
      | inr there ↦ rw (there, first, is_durable-insert id d xs other rest) refl
    ]

insert-some : (d : Durable) (ds : List Durable) → 0 < length (insert_or_assign d ds)
unfolding insert_or_assign
insert-some d [] = omega arith
insert-some d (x ∷ xs) = elim (Bool-cases (same_id x.id d.id)) [
  | inl here ↦ rw here (omega arith)
  | inr there ↦ rw there (omega arith)
]

make_durable-IsLost :
    (key : Text) (id : RequestId) (req : Request) (a : App) (other : IsOther key id req)
    → IsLost key id a
    → IsLost key id (make_durable req other.own_key a)
unfolding make_durable
make_durable-IsLost key id req a other lost = record {
  indexed = rw (other.other_key) lost.indexed;
  not_durable = is_durable-insert id _ a.durability_log other.other_id lost.not_durable;
  not_stored = lost.not_stored;
}

read-IsLost :
    (key : Text) (id : RequestId) (a : App)
    → IsLost key id a
    → 0 < length a.durability_log
    → read key a ≡ none
unfolding read read_updated
read-IsLost key id a lost some_entry =
    rw (ltb-true 0 (length a.durability_log) some_entry, lost.indexed)
      (rw (lost.not_durable, lost.not_stored) refl)

added-IsLost :
    (key : Text) (id : RequestId) (rs : List Request) (a : App)
    → All (IsOther key id) rs
    → IsLost key id a
    → 0 < length a.durability_log
    → (a' : App) × (add_to_durability_log_in_order rs a ≡ some a') × (read key a' ≡ none)
unfolding add_to_durability_log_in_order make_durable
added-IsLost key id [] a others lost some_entry = (a, refl, read-IsLost key id a lost some_entry)
added-IsLost key id (req ∷ rs) a (other, others) lost some_entry =
    let (a', added, fails) =
      added-IsLost key id rs (make_durable req other.own_key a) others
        (make_durable-IsLost key id req a other lost) (insert-some _ a.durability_log) in
    (a', rw (other.has_key) added, fails)

cleared-IsLost :
    (key : Text) (req : Request) (a : App)
    → a.kv_store key ≡ none
    → IsLost key (id_of req) (clear_durability_log (make_durable req key a))
unfolding clear_durability_log make_durable is_durable
cleared-IsLost key req a nowhere = record {
  indexed = rw (=text_refl key) refl;
  not_durable = refl;
  not_stored = nowhere;
}

-- If an update of a key that has no value yet is made durable, and then the durability log is cleared
-- and filled with requests, at least one, of which none is that update or has that key, the filling
-- does not raise, and the next read of the key fails its assertion.
pub app_upcall-lost :
    (a : App) {a1 : App} {r : Answer} (update read_request first : Request) (rest : List Request)
    (key : Text)
    → key_of update.op ≡ some key
    → is_set update.op ≡ true
    → a.kv_store key ≡ none
    → app_upcall update a ≡ some (r, a1)
    → All (IsOther key (id_of update)) (first ∷ rest)
    → key_of read_request.op ≡ some key
    → is_get read_request.op ≡ true
    → (a2 : App) × (add_to_durability_log_in_order (first ∷ rest) (clear_durability_log a1)
        ≡ some a2)
      × (app_upcall read_request a2 ≡ none)
unfolding app_upcall app_upcall_at add_to_durability_log_in_order make_durable
app_upcall-lost a {a1} update read_request first rest key has is_write nowhere e (other, others)
      asks get =
    let made : make_durable update key a ≡ a1 =
      ap (λ (p : Answer × App). p.1) (some_injective (rw (has, is_write) at e)) in
    let lost =
      subst (λ x. IsLost key (id_of update) (clear_durability_log x)) made
        (cleared-IsLost key update a nowhere) in
    let (a2, added, fails) =
      added-IsLost key (id_of update) rest
        (make_durable first other.own_key (clear_durability_log a1)) others
        (make_durable-IsLost key (id_of update) first (clear_durability_log a1) other lost)
        (insert-some _ _) in
    (a2, rw (other.has_key) added, rw (asks, get-is_set read_request.op get, get, fails) refl)
