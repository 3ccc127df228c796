-- ===== src/Protocol/App/Reads.antt =====
-- What a read is answered, and how the store gets there.
use mathlib.Core.Path.{subst}
use skyros.Protocol.App.{
  App, Durable, Answer, answer, is_durable, get_from_store, read, read_updated,
}
use skyros.Protocol.App.Pending.{
  Consistent, last_pending, KeyedBy, pending-indexed, pending-durable,
}
use skyros.Protocol.Log.{RequestId}
use skyros.Base.Text.{Text, codes}
use skyros.Base.{
  Option-cases, ◌≡◌, refl, sym, ◌∙◌, inl, inr, true, false, Option, none, some, List, [], ◌∷◌,
  arith, ltb, Bool-cases, length,
}

-- What a read is answered, by the last update of its key that is not ordered yet.
abbrev pub answered : Text → App → Option RequestId → Option Answer
answered key a none = answer false (get_from_store key a)
answered key a (some id) = answer true (codes "ordernowread!")

none-pending :
    (key : Text) (ds : List Durable) → ltb 0 (length ds) ≡ false → last_pending key ds ≡ none
none-pending key [] h = refl
none-pending key (d ∷ ds) h = absurd (ground arith)

not_durable-pending :
    (key : Text) (id : RequestId) (a : App)
    → Consistent a
    → a.last_update_to_key key ≡ some id
    → is_durable id a.durability_log ≡ false
    → last_pending key a.durability_log ≡ none
not_durable-pending key id a h indexed gone = elim (h.tracked key) [
  | inl missing ↦ missing
  | inr same ↦
      let there = pending-durable key id a.durability_log (same ∙ indexed) in
      absurd (ground (arith, there, gone))
]

store-has :
    (key : Text) (id : RequestId) (a : App)
    → Consistent a
    → a.last_update_to_key key ≡ some id
    → last_pending key a.durability_log ≡ none
    → (v : Text) × (a.kv_store key ≡ some v)
store-has key id a h indexed missing = elim (h.stored key) [
  | inl (other, pending) ↦ absurd (cc (sym missing ∙ pending))
  | inr (inl never) ↦ absurd (cc (sym never ∙ indexed))
  | inr (inr found) ↦ found
]

read_updated-Consistent :
    (key : Text) (id : RequestId) (a : App)
    → Consistent a
    → a.last_update_to_key key ≡ some id
    → read_updated key id a ≡ answered key a (last_pending key a.durability_log)
unfolding read_updated
read_updated-Consistent key id a h indexed = elim (Bool-cases (is_durable id a.durability_log)) [
  | inl there ↦ elim (Option-cases (last_pending key a.durability_log)) [
    | inl missing ↦
        let keyed = subst (λ o. KeyedBy key o a.durability_log) indexed (h.keyed key) in
        absurd (pending-indexed key id a.durability_log keyed there missing)
    | inr (other, pending) ↦ rw (there, pending) refl
  ]
  | inr gone ↦
      let missing = not_durable-pending key id a h indexed gone in
      let (v, found) = store-has key id a h indexed missing in rw (gone, missing, found) refl
]

-- On a consistent store the assertion of a read does not fail: a key that has an update which is not
-- ordered yet is ordered first, and any other is read from the store.
pub read-Consistent :
    (key : Text) (a : App)
    → Consistent a
    → read key a ≡ answered key a (last_pending key a.durability_log)
unfolding read
read-Consistent key a h = elim (Bool-cases (ltb 0 (length a.durability_log))) [
  | inr empty ↦ rw (empty, none-pending key a.durability_log empty) refl
  | inl some_entry ↦ rw some_entry (elim (Option-cases (a.last_update_to_key key)) [
    | inl never ↦ elim (h.tracked key) [
      | inl missing ↦ rw (never, missing) refl
      | inr same ↦ rw (never, same ∙ never) refl
    ]
    | inr (id, indexed) ↦ rw indexed (read_updated-Consistent key id a h indexed)
  ])
]
