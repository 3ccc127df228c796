-- ===== src/Protocol/Quorum.antt =====
-- The messages of the replicas and their quorum, class QuorumSet of src/skyros/common/quorumset.h.
-- A std::map is a list of keys and values with each key once; the order of its keys, which the class
-- does not use, is the one in which they came. The type of the ids is a parameter.
pub mod Maps
pub mod Heard
use skyros.Base.{
  ℕ, Bool, true, false, Option, none, some, List, [], ◌∷◌, leb, ◌==◌, if◌then◌else◌, length,
}

-- `find` of a map
unfoldable pub lookup_by : {K V : Type 0} → (K → K → Bool) → K → List (K × V) → Option V
lookup_by same key [] = none
lookup_by same key ((k, v) ∷ rest) =
    let found = lookup_by same key rest in if same key k then some v else found

-- `map[key] = value`
unfoldable pub assign_by : {K V : Type 0} → (K → K → Bool) → K → V → List (K × V) → List (K × V)
assign_by same key value [] = (key, value) ∷ []
assign_by same key value ((k, v) ∷ rest) =
    let changed = assign_by same key value rest in
    if same key k then (k, value) ∷ rest else (k, v) ∷ changed

-- The messages of one id, by the number of the replica.
abbrev pub Messages : Type 0 → Type 0
Messages M = List (ℕ × M)

pub record QuorumSet (K M : Type 0) : Type 0 where
  pub num_required : ℕ
  pub messages : List (K × Messages M)

-- The constructor.
unfoldable pub quorum_set : {K M : Type 0} → ℕ → QuorumSet K M
quorum_set num_required = record { num_required = num_required; messages = [] }

unfoldable pub or_empty : {M : Type 0} → Option (Messages M) → Messages M
or_empty none = []
or_empty (some ms) = ms

module _ {K M : Type 0} (same : K → K → Bool) where
  -- `GetMessages`: what `messages[vs]` is. For a new id it is empty; that C++ gives the id an entry
  -- then is not seen by any operation.
  unfoldable pub get_messages : K → QuorumSet K M → Messages M
  get_messages vs q = or_empty (lookup_by same vs q.messages)

  -- The set with other messages of an id
  unfoldable pub set_messages : K → Messages M → QuorumSet K M → QuorumSet K M
  set_messages vs ms q = record q { messages = assign_by same vs ms q.messages }

  -- `Clear()` and `Clear(vs)`
  unfoldable pub clear : QuorumSet K M → QuorumSet K M
  clear q = record q { messages = [] }

  unfoldable pub clear_id : K → QuorumSet K M → QuorumSet K M
  clear_id vs q = set_messages vs [] q

  -- The messages, where there are enough, and the set that is left behind.
  unfoldable pub check_for_quorum : K → QuorumSet K M → Option (Messages M) × QuorumSet K M
  check_for_quorum vs q =
      let vsmessages = get_messages vs q in
      (
        (if leb q.num_required (length vsmessages) then some vsmessages else none),
        set_messages vs vsmessages q,
      )

  unfoldable pub add_and_check_for_quorum :
      K → ℕ → M → QuorumSet K M → Option (Messages M) × QuorumSet K M
  add_and_check_for_quorum vs replica_idx msg q =
      check_for_quorum vs
        (set_messages vs (assign_by (λ i j. i == j) replica_idx msg (get_messages vs q)) q)

  unfoldable pub add : K → ℕ → M → QuorumSet K M → QuorumSet K M
  add vs replica_idx msg q = (add_and_check_for_quorum vs replica_idx msg q).1
