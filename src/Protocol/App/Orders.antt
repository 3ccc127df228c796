-- ===== src/Protocol/App/Orders.antt =====
-- An update that is made durable keeps the store consistent.
use mathlib.Core.Path.{subst}
use skyros.Protocol.App.{
  App, Durable, key_of, is_set, id_of, same_id, is_durable, assign, make_durable,
}
use skyros.Protocol.App.Pending.{
  Consistent, last_pending, is_for, has_key, KeyedBy, IsMade, insert-new, last_pending-append,
  Apart-append,
}
use skyros.Protocol.Log.{Request, RequestId}
use skyros.Base.Text.{Text, ◌=text◌}
use skyros.Base.{
  All-append, ◌+◌, ◌≡◌, refl, sym, ap, ◌∙◌, ◌⊎◌, inl, inr, true, false, Option, none, some, List,
  [], ◌∷◌, ◌++◌, arith, if◌then◌else◌, Bool-cases,
}

-- No request of the store has the identity.
pub record IsNew (id : RequestId) (a : App) : Type 0 where
  pub not_durable : is_durable id a.durability_log ≡ false
  pub not_indexed :
      (key : Text)
      → (a.last_update_to_key key ≡ none)
        ⊎ ((other : RequestId) × ((a.last_update_to_key key ≡ some other)
              × (same_id id other ≡ false)))

KeyedBy-new :
    (key : Text) (id : RequestId) (ds : List Durable)
    → is_durable id ds ≡ false
    → KeyedBy key (some id) ds
unfolding is_durable
KeyedBy-new key id [] h = tt
KeyedBy-new key id (d ∷ ds) h = (inl (ground arith), KeyedBy-new key id ds (ground arith))

module _ (req : Request) (key : Text) (a : App) (has : key_of req.op ≡ some key)
    (new : IsNew (id_of req) a) (h : Consistent a) where
  added : Durable
  added = record { id = id_of req; position = a.dur_log_index; request = req }

  longer : List Durable
  longer = a.durability_log ++ added ∷ []

  longer-pending :
      (k : Text)
      → last_pending k longer
        ≡ (if k =text key then some (id_of req) else last_pending k a.durability_log)
  unfolding longer added
  longer-pending k =
      last_pending-append k a.durability_log added
      ∙ ap
          (λ (o : Option Text).
            if has_key k o then some (id_of req) else last_pending k a.durability_log)
          has

  index_after : Text → Option RequestId
  index_after = assign key (id_of req) a.last_update_to_key

  tracked_after :
      (k : Text) → (last_pending k longer ≡ none) ⊎ (last_pending k longer ≡ index_after k)
  unfolding index_after
  tracked_after k = elim (Bool-cases (k =text key)) [
    | inl same ↦ inr (longer-pending k ∙ rw same refl)
    | inr other ↦ rw (longer-pending k, other) (h.tracked k)
  ]

  keyed_after : (k : Text) → KeyedBy k (index_after k) longer
  unfolding index_after longer added
  keyed_after k = elim (Bool-cases (k =text key)) [
    | inl same ↦
        let own : is_for k added ≡ true = ap (has_key k) has ∙ same in
        rw same (
          All-append _ a.durability_log (added ∷ [])
            (KeyedBy-new k (id_of req) a.durability_log new.not_durable) (inr own, tt))
    | inr differ ↦ rw differ (elim (new.not_indexed k) [
      | inl never ↦ rw never tt
      | inr (other, (indexed, apart)) ↦
          let before = subst (λ o. KeyedBy k o a.durability_log) indexed (h.keyed k) in
          rw indexed (All-append _ a.durability_log (added ∷ []) before (inl apart, tt))
    ])
  ]

  stored_after :
      (k : Text)
      → ((id : RequestId) × (last_pending k longer ≡ some id))
        ⊎ ((index_after k ≡ none) ⊎ ((v : Text) × (a.kv_store k ≡ some v)))
  unfolding index_after
  stored_after k = elim (Bool-cases (k =text key)) [
    | inl same ↦ inl (id_of req, longer-pending k ∙ rw same refl)
    | inr other ↦ rw (longer-pending k, other) (h.stored k)
  ]

  -- An update of a new request keeps the store consistent.
  pub make_durable-Consistent : is_set req.op ≡ true → Consistent (make_durable req key a)
  unfolding make_durable longer added index_after
  make_durable-Consistent is_write =
      subst Consistent
        (λ i. record a {
          durability_log = sym (insert-new added a.durability_log new.not_durable) i;
          last_update_to_key = assign key (id_of req) a.last_update_to_key;
          dur_log_index = a.dur_log_index + 1;
        })
        (record {
          tracked = tracked_after;
          keyed = keyed_after;
          stored = stored_after;
          apart = Apart-append a.durability_log added h.apart new.not_durable;
          made =
              All-append IsMade a.durability_log (added ∷ []) h.made
                (record { own_id = refl; is_write = is_write }, tt);
        })
