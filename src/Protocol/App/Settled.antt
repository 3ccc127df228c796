-- ===== src/Protocol/App/Settled.antt =====
-- The stores of a replica whose updates are new requests, ordered in turn, and what their reads are
-- answered.
use mathlib.Core.Path.{subst}
use skyros.Protocol.App.{
  app_upcall_at, App, Durable, Answer, answer, app_upcall, replica_upcall, key_of, value_of, is_set,
  is_get, id_of, is_durable, erase, assign, found_or, read,
}
use skyros.Protocol.App.Pending.{erase-other, Consistent, last_pending, is_for, has_key}
use skyros.Protocol.App.Reads.{read-Consistent, answered}
use skyros.Protocol.App.Orders.{IsNew, make_durable-Consistent}
use skyros.Protocol.App.Ordered.{
  stored_with, other-Consistent, first-Consistent, erase-first, replica_upcall-cases,
}
use skyros.Protocol.Log.{Request}
use skyros.Base.Text.{Text, codes}
use skyros.Base.{
  some_injective, Option-cases, ◌≡◌, refl, sym, ap, ◌∙◌, ◌⊎◌, inl, inr, Bool, true, false, Option,
  none, some, List, [], ◌∷◌, arith, Bool-cases,
}

-- A store that a replica reaches from an empty durability log and index, as long as each update that
-- is made durable is of a request that the store does not know, of the durable updates always the
-- oldest is ordered, and the durability log is not cleared: no request is sent again, and there is
-- no view change and no recovery.
pub data Undisturbed : App → Type 0 where
  fresh :
      (a : App)
      → a.durability_log ≡ []
      → ((key : Text) → a.last_update_to_key key ≡ none)
      → Undisturbed a
  update :
      {a a' : App} {r : Answer} (req : Request) (key : Text)
      → Undisturbed a
      → key_of req.op ≡ some key
      → is_set req.op ≡ true
      → IsNew (id_of req) a
      → app_upcall req a ≡ some (r, a')
      → Undisturbed a'
  order_oldest :
      {a a' : App} {r : Text} (d : Durable) (rest : List Durable)
      → Undisturbed a
      → a.durability_log ≡ d ∷ rest
      → replica_upcall d.request a ≡ some (r, a')
      → Undisturbed a'
  order_other :
      {a a' : App} {r : Text} (req : Request)
      → Undisturbed a
      → is_durable (id_of req) a.durability_log ≡ false
      → replica_upcall req a ≡ some (r, a')
      → Undisturbed a'

fresh-Consistent :
    (a : App)
    → a.durability_log ≡ []
    → ((key : Text) → a.last_update_to_key key ≡ none)
    → Consistent a
fresh-Consistent a empty never = record {
  tracked = λ key. inl (ap (last_pending key) empty);
  keyed = λ key. rw (never key) tt;
  stored = λ key. inr (inl (never key));
  apart = rw empty tt;
  made = rw empty tt;
}

update-Consistent :
    (req : Request) (key : Text) (a : App) {r : Answer} {a' : App}
    → Consistent a
    → key_of req.op ≡ some key
    → is_set req.op ≡ true
    → IsNew (id_of req) a
    → app_upcall req a ≡ some (r, a')
    → Consistent a'
unfolding app_upcall app_upcall_at
update-Consistent req key a h has is_write new e =
    subst Consistent (ap (λ (p : Answer × App). p.1) (some_injective (rw (has, is_write) at e)))
      (make_durable-Consistent req key a has new h is_write)

order_oldest-Consistent :
    (d : Durable) (rest : List Durable) (a : App) {r : Text} {a' : App}
    → Consistent a
    → a.durability_log ≡ d ∷ rest
    → replica_upcall d.request a ≡ some (r, a')
    → Consistent a'
order_oldest-Consistent d rest a h split e = elim (replica_upcall-cases d.request a e) [
  | inl same ↦ subst Consistent (sym same) h
  | inr (key, (value, (has, (is_value, after)))) ↦
      let whole : Consistent (record a { durability_log = d ∷ rest }) =
        subst Consistent (λ i. record a { durability_log = split i }) h in
      let left : erase (id_of d.request) a.durability_log ≡ rest =
        ap (erase (id_of d.request)) split ∙ erase-first d rest whole.made.0 whole.apart in
      subst Consistent (sym (after ∙ ap (λ (ds : List Durable). stored_with key value ds a) left))
        (first-Consistent a key value d rest has whole)
]

order_other-Consistent :
    (req : Request) (a : App) {r : Text} {a' : App}
    → Consistent a
    → is_durable (id_of req) a.durability_log ≡ false
    → replica_upcall req a ≡ some (r, a')
    → Consistent a'
order_other-Consistent req a h gone e = elim (replica_upcall-cases req a e) [
  | inl same ↦ subst Consistent (sym same) h
  | inr (key, (value, (has, (is_value, after)))) ↦
      let left = erase-other (id_of req) a.durability_log gone in
      subst Consistent (sym (after ∙ ap (λ (ds : List Durable). stored_with key value ds a) left))
        (other-Consistent a key value h)
]

pub Undisturbed-Consistent : {a : App} → Undisturbed a → Consistent a
Undisturbed-Consistent (fresh a empty never) = fresh-Consistent a empty never
Undisturbed-Consistent (update {a} req key before has is_write new e) =
    update-Consistent req key a (Undisturbed-Consistent before) has is_write new e
Undisturbed-Consistent (order_oldest {a} d rest before split e) =
    order_oldest-Consistent d rest a (Undisturbed-Consistent before) split e
Undisturbed-Consistent (order_other {a} req before gone e) =
    order_other-Consistent req a (Undisturbed-Consistent before) gone e

-- The store once every update of the durability log is ordered, the oldest first.
unfoldable pub write_to : Option Text → Option Text → (Text → Option Text) → Text → Option Text
write_to none value kv = kv
write_to (some key) none kv = kv
write_to (some key) (some value) kv = assign key value kv

unfoldable pub settled : List Durable → (Text → Option Text) → Text → Option Text
settled [] kv = kv
settled (d ∷ ds) kv = settled ds (write_to (key_of d.request.op) (value_of d.request.op) kv)

write_to-other :
    (key : Text) (own value : Option Text) (kv : Text → Option Text)
    → has_key key own ≡ false
    → write_to own value kv key ≡ kv key
unfolding write_to
write_to-other key none value kv h = refl
write_to-other key (some k) none kv h = refl
write_to-other key (some k) (some v) kv h = rw h refl

settled-missing :
    (key : Text) (ds : List Durable) (kv : Text → Option Text)
    → last_pending key ds ≡ none
    → settled ds kv key ≡ kv key
unfolding settled
settled-missing key [] kv h = refl
settled-missing key (d ∷ ds) kv h = elim (Option-cases (last_pending key ds)) [
  | inr (id, found) ↦ absurd (cc (rw found at h))
  | inl missing ↦ elim (Bool-cases (is_for key d)) [
    | inl same ↦ absurd (cc (rw (missing, same) at h))
    | inr other ↦
        settled-missing key ds _ missing
        ∙ write_to-other key (key_of d.request.op) (value_of d.request.op) kv other
  ]
]

-- What a read finds in such a store.
read-settled :
    {a : App} (key : Text)
    → Undisturbed a
    → (read key a ≡ answer true (codes "ordernowread!"))
      ⊎ (read key a
          ≡ answer false (found_or (codes "NOTFOUND") (settled a.durability_log a.kv_store key)))
read-settled {a = a} key undisturbed =
    let answers = read-Consistent key a (Undisturbed-Consistent undisturbed) in
    elim (Option-cases (last_pending key a.durability_log)) [
      | inr (id, pending) ↦ inl (answers ∙ ap (answered key a) pending)
      | inl missing ↦ inr (
          answers
          ∙ ap (answered key a) missing
          ∙ ap (λ (v : Option Text). answer false (found_or (codes "NOTFOUND") v))
              (sym (settled-missing key a.durability_log a.kv_store missing)))
    ]

pub get-is_set : (op : Text) → is_get op ≡ true → is_set op ≡ false
get-is_set [] h = refl
get-is_set (c ∷ op) h = ground arith

abbrev pub answer_of : Bool → Text → Answer
answer_of sync_order read_res = record { sync_order = sync_order; read_res = read_res }

-- As long as each update that is made durable is of a request that the store does not know, durable
-- updates are ordered the oldest first, and the durability log is not cleared, a read does not fail
-- its assertion and leaves the store as it is. Either it is to be ordered first, or it is answered
-- at once, and then with the value that the key has once every update of the durability log is
-- ordered.
pub app_upcall-settled :
    {a : App} (req : Request) (key : Text)
    → Undisturbed a
    → key_of req.op ≡ some key
    → is_get req.op ≡ true
    → (app_upcall req a ≡ some (answer_of true (codes "ordernowread!"), a))
      ⊎ (app_upcall req a
          ≡ some (
            answer_of false (found_or (codes "NOTFOUND") (settled a.durability_log a.kv_store key)),
            a,
          ))
unfolding app_upcall app_upcall_at
app_upcall-settled {a = a} req key undisturbed has get = elim (read-settled key undisturbed) [
  | inl ordered ↦ inl (rw (has, get-is_set req.op get, get, ordered) refl)
  | inr now ↦ inr (rw (has, get-is_set req.op get, get, now) refl)
]
