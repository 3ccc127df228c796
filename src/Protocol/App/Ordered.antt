-- ===== src/Protocol/App/Ordered.antt =====
-- An update that is ordered keeps the store consistent.
use skyros.Protocol.App.{
  App, Durable, key_of, value_of, is_get, id_of, same_id, is_durable, erase, assign, replica_upcall,
}
use skyros.Protocol.App.Pending.{
  Consistent, last_pending, is_for, has_key, KeyedBy, IsMade, Apart, erase-other, same_id_refl,
}
use skyros.Protocol.Log.{Request, RequestId}
use skyros.Base.Text.{Text, ◌=text◌}
use skyros.Base.{
  some_injective, Option-cases, ◌≡◌, refl, sym, ap, ◌∙◌, ◌⊎◌, inl, inr, true, false, Option, none,
  some, List, ◌∷◌, Bool-cases,
}

-- The store with the value of a key, and with these entries.
abbrev pub stored_with : Text → Text → List Durable → App → App
stored_with key value ds a = record a {
  kv_store = assign key value a.kv_store;
  durability_log = ds;
}

KeyedBy-tail :
    (key : Text) (o : Option RequestId) (d : Durable) (ds : List Durable)
    → KeyedBy key o (d ∷ ds)
    → KeyedBy key o ds
KeyedBy-tail key none d ds h = tt
KeyedBy-tail key (some id) d ds (_, h) = h

-- The store of a key that gets a value has it, and that of another key is as it was.
assigned-stored :
    (key value : Text) (kv : Text → Option Text) (k : Text)
    → ((v : Text) × (assign key value kv k ≡ some v)) ⊎ (assign key value kv k ≡ kv k)
assigned-stored key value kv k = elim (Bool-cases (k =text key)) [
  | inl same ↦ inl (value, rw same refl)
  | inr other ↦ inr (rw other refl)
]

module _ (a : App) (key value : Text) where
  -- An operation that is not in the durability log.
  pub other-Consistent : Consistent a → Consistent (stored_with key value a.durability_log a)
  other-Consistent h = record {
    tracked = h.tracked;
    keyed = h.keyed;
    stored = λ k. elim (assigned-stored key value a.kv_store k) [
      | inl found ↦ inr (inr found)
      | inr same ↦ rw same (h.stored k)
    ];
    apart = h.apart;
    made = h.made;
  }

  module _ (d : Durable) (rest : List Durable) (has : key_of d.request.op ≡ some key)
      (h : Consistent (record a { durability_log = d ∷ rest })) where
    tracked_rest :
        (k : Text) → (last_pending k rest ≡ none) ⊎ (last_pending k rest ≡ a.last_update_to_key k)
    tracked_rest k = elim (Option-cases (last_pending k rest)) [
      | inl missing ↦ inl missing
      | inr (id, found) ↦ elim (h.tracked k) [
        | inl missing ↦ absurd (cc (rw found at missing))
        | inr same ↦ inr (found ∙ rw found at same)
      ]
    ]

    stored_rest :
        (k : Text)
        → ((id : RequestId) × (last_pending k rest ≡ some id))
          ⊎ ((a.last_update_to_key k ≡ none)
              ⊎ ((v : Text) × (assign key value a.kv_store k ≡ some v)))
    stored_rest k = elim (Bool-cases (k =text key)) [
      | inl same ↦ inr (inr (value, rw same refl))
      | inr other ↦
          let not_for : is_for k d ≡ false = ap (has_key k) has ∙ other in
          elim (h.stored k) [
            | inl (id, pending) ↦ elim (Option-cases (last_pending k rest)) [
              | inl missing ↦ absurd (cc (rw (missing, not_for) at pending))
              | inr (x, found) ↦ inl (x, found)
            ]
            | inr (inl never) ↦ inr (inl never)
            | inr (inr found) ↦ inr (inr (found.0, rw other found.1))
          ]
    ]

    -- The first entry of the durability log.
    pub first-Consistent : Consistent (stored_with key value rest a)
    first-Consistent = record {
      tracked = tracked_rest;
      keyed = λ k. KeyedBy-tail k (a.last_update_to_key k) d rest (h.keyed k);
      stored = stored_rest;
      apart = h.apart.1;
      made = h.made.1;
    }

-- The first entry, and no other, is erased with its request.
pub erase-first :
    (d : Durable) (rest : List Durable)
    → IsMade d
    → Apart (d ∷ rest)
    → erase (id_of d.request) (d ∷ rest) ≡ rest
erase-first d rest made (apart, _) =
    let own : same_id d.id (id_of d.request) ≡ true =
      ap (λ (i : RequestId). same_id i (id_of d.request)) made.own_id
      ∙ same_id_refl (id_of d.request) in
    rw own (
      erase-other (id_of d.request) rest
        (ap (λ (i : RequestId). is_durable i rest) (sym made.own_id) ∙ apart))

-- What an ordered operation does to the store, where it does not raise.
pub replica_upcall-cases :
    (req : Request) (a : App) {r : Text} {a' : App}
    → replica_upcall req a ≡ some (r, a')
    → (a' ≡ a)
      ⊎ ((key : Text) × ((value : Text) × ((key_of req.op ≡ some key)
              × ((value_of req.op ≡ some value)
                  × (a' ≡ stored_with key value (erase (id_of req) a.durability_log) a)))))
unfolding replica_upcall
replica_upcall-cases req a e = elim (Option-cases (key_of req.op)) [
  | inl no_key ↦ absurd (cc (rw no_key at e))
  | inr (key, has) ↦ elim (Bool-cases (is_get req.op)) [
    | inl get ↦ inl (ap (λ (p : Text × App). p.1) (some_injective (sym (rw (has, get) at e))))
    | inr write ↦ elim (Option-cases (value_of req.op)) [
      | inl short ↦ absurd (cc (rw (has, write, short) at e))
      | inr (value, is_value) ↦ inr (
        key,
        (
          value,
          (
            has,
            (
              is_value,
              ap (λ (p : Text × App). p.1) (some_injective (sym (rw (has, write, is_value) at e))),
            ),
          ),
        ),
      )
    ]
  ]
]
