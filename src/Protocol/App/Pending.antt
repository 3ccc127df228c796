-- ===== src/Protocol/App/Pending.antt =====
-- The updates that are not ordered yet, by key.
use skyros.Protocol.App.{
  App, Durable, key_of, is_set, id_of, same_id, is_durable, insert_or_assign, erase,
}
use skyros.Protocol.Log.{RequestId}
use skyros.Base.Text.{Text, ◌=text◌}
use skyros.Base.{
  Option-cases, or_else, ==_refl, ◌≡◌, refl, ap, ◌∙◌, ◌≢◌, ◌⊎◌, inl, inr, Bool, true, false, Option,
  none, some, List, [], ◌∷◌, ◌++◌, arith, if◌then◌else◌, Bool-cases, All,
}

-- The update is of the key.
abbrev pub has_key : Text → Option Text → Bool
has_key key none = false
has_key key (some k) = key =text k

abbrev pub is_for : Text → Durable → Bool
is_for key d = has_key key (key_of d.request.op)

-- The last update of a key that is not ordered yet.
abbrev pub last_pending : Text → List Durable → Option RequestId
last_pending key [] = none
last_pending key (d ∷ ds) = or_else (last_pending key ds) (if is_for key d then some d.id else none)

-- No two entries have the same request.
abbrev pub Apart : List Durable → Type 0
Apart [] = Unit
Apart (d ∷ ds) = (is_durable d.id ds ≡ false) × Apart ds

-- The entry is that of a write, under its request.
pub record IsMade (d : Durable) : Type 0 where
  pub own_id : d.id ≡ id_of d.request
  pub is_write : is_set d.request.op ≡ true

-- Where the entry of the indexed request is not ordered yet, it is an update of the key.
abbrev pub KeyedBy : Text → Option RequestId → List Durable → Type 0
KeyedBy key none ds = Unit
KeyedBy key (some id) ds = All (λ d. (same_id d.id id ≡ false) ⊎ (is_for key d ≡ true)) ds

pub record Consistent (a : App) : Type 0 where
  pub tracked :
      (key : Text)
      → (last_pending key a.durability_log ≡ none)
        ⊎ (last_pending key a.durability_log ≡ a.last_update_to_key key)
  pub keyed : (key : Text) → KeyedBy key (a.last_update_to_key key) a.durability_log
  pub stored :
      (key : Text)
      → ((id : RequestId) × (last_pending key a.durability_log ≡ some id))
        ⊎ ((a.last_update_to_key key ≡ none) ⊎ ((v : Text) × (a.kv_store key ≡ some v)))
  pub apart : Apart a.durability_log
  pub made : All IsMade a.durability_log

pub same_id_refl : (id : RequestId) → same_id id id ≡ true
same_id_refl id = rw (==_refl id.0, ==_refl id.1) refl

pub same_id_sym : (a b : RequestId) → same_id a b ≡ same_id b a
same_id_sym a b = ground arith

pub is_durable-append :
    (id : RequestId) (ds : List Durable) (d : Durable)
    → is_durable id ds ≡ false
    → same_id d.id id ≡ false
    → is_durable id (ds ++ d ∷ []) ≡ false
unfolding is_durable
is_durable-append id [] d h other = rw other refl
is_durable-append id (x ∷ xs) d h other =
    let first : same_id x.id id ≡ false = ground arith in
    let rest : is_durable id xs ≡ false = ground arith in
    rw (first, is_durable-append id xs d rest other) refl

pub insert-new :
    (d : Durable) (ds : List Durable)
    → is_durable d.id ds ≡ false
    → insert_or_assign d ds ≡ ds ++ d ∷ []
unfolding insert_or_assign is_durable
insert-new d [] h = refl
insert-new d (x ∷ xs) h =
    let other : same_id x.id d.id ≡ false = ground arith in
    let rest : is_durable d.id xs ≡ false = ground arith in
    rw other (ap (λ (ds : List Durable). x ∷ ds) (insert-new d xs rest))

pub erase-other : (id : RequestId) (ds : List Durable) → is_durable id ds ≡ false → erase id ds ≡ ds
unfolding is_durable
erase-other id [] h = refl
erase-other id (x ∷ xs) h =
    let other : same_id x.id id ≡ false = ground arith in
    let rest : is_durable id xs ≡ false = ground arith in
    rw other (ap (λ (ds : List Durable). x ∷ ds) (erase-other id xs rest))

pub last_pending-append :
    (key : Text) (ds : List Durable) (d : Durable)
    → last_pending key (ds ++ d ∷ []) ≡ (if is_for key d then some d.id else last_pending key ds)
last_pending-append key [] d = refl
last_pending-append key (x ∷ xs) d = elim (Bool-cases (is_for key d)) [
  | inl same ↦ rw (last_pending-append key xs d, same) refl
  | inr other ↦ rw (last_pending-append key xs d, other) refl
]

pub Apart-append :
    (ds : List Durable) (d : Durable) → Apart ds → is_durable d.id ds ≡ false → Apart (ds ++ d ∷ [])
unfolding is_durable
Apart-append [] d h new = (refl, tt)
Apart-append (x ∷ xs) d (hx, h) new =
    let other : same_id x.id d.id ≡ false = ground arith in
    let rest : is_durable d.id xs ≡ false = ground arith in
    (is_durable-append x.id xs d hx (same_id_sym d.id x.id ∙ other), Apart-append xs d h rest)

-- An entry that is not ordered yet, of an indexed request, makes its key pending.
pub pending-indexed :
    (key : Text) (id : RequestId) (ds : List Durable)
    → KeyedBy key (some id) ds
    → is_durable id ds ≡ true
    → last_pending key ds ≢ none
unfolding is_durable
pending-indexed key id [] h durable e = cc
pending-indexed key id (x ∷ xs) (hx, h) durable e = elim (Option-cases (last_pending key xs)) [
  | inr (y, found) ↦ cc (rw found at e)
  | inl missing ↦ elim hx [
    | inr same ↦ cc (rw (missing, same) at e)
    | inl other ↦ pending-indexed key id xs h (ground (arith, other)) missing
  ]
]

pub pending-durable :
    (key : Text) (id : RequestId) (ds : List Durable)
    → last_pending key ds ≡ some id
    → is_durable id ds ≡ true
unfolding is_durable
pending-durable key id [] e = cc
pending-durable key id (x ∷ xs) e = elim (Option-cases (last_pending key xs)) [
  | inr (y, found) ↦
      let rest = pending-durable key id xs (found ∙ rw found at e) in ground (arith, rest)
  | inl missing ↦ elim (Bool-cases (is_for key x)) [
    | inl same ↦
        let equal : x.id ≡ id = cc (rw (missing, same) at e) in
        rw (ap (λ j. same_id j id) equal, same_id_refl id) refl
    | inr other ↦ absurd (cc (rw (missing, other) at e))
  ]
]
