-- ===== src/Protocol/Quorum/Heard.antt =====
-- The quorum that is reported after any sequence of messages, checks and clearings.
use skyros.Protocol.Quorum.{
  lookup_by, assign_by, Messages, QuorumSet, quorum_set, or_empty, get_messages, set_messages,
  clear, clear_id, check_for_quorum, add_and_check_for_quorum, add,
}
use skyros.Protocol.Quorum.Maps.{
  IsEquality, lookup-assign, is_some, index_IsEquality, find_message, length-assign, count,
  count-same, count-none, count-set,
}
use skyros.Base.{
  ℕ, ◌<◌, ◌≡◌, refl, sym, ap, ◌∙◌, inl, inr, Bool, ◌&&◌, Option, none, some, List, [], ◌∷◌, arith,
  ◌==◌, leb, if◌then◌else◌, Bool-cases, length, ==_refl, ==_false, All,
}

-- What a replica does with the set.
pub data QuorumEvent (K M : Type 0) : Type 0 where
  added : K → ℕ → M → QuorumEvent K M
  checked : K → QuorumEvent K M
  cleared_id : K → QuorumEvent K M
  cleared : QuorumEvent K M

-- The messages come from replicas with numbers below `n`.
abbrev pub IsKnown : {K M : Type 0} → ℕ → QuorumEvent K M → Type 0
IsKnown n (added vs idx msg) = idx < n
IsKnown n (checked vs) = Unit {0}
IsKnown n (cleared_id vs) = Unit {0}
IsKnown n cleared = Unit {0}

-- As many numbers as are below `n` and have a message.
abbrev pub IsCounted : {M : Type 0} → ℕ → Messages M → Type 0
IsCounted n ms = length ms ≡ count n (λ i. is_some (find_message i ms))

assign-IsCounted :
    {M : Type 0} (n j : ℕ) (m : M) (ms : Messages M)
    → j < n
    → IsCounted n ms
    → IsCounted n (assign_by (λ i j. i == j) j m ms)
unfolding is_some
assign-IsCounted n j m ms below h =
    let found = λ (i : ℕ). lookup-assign (λ i j. i == j) index_IsEquality i j m ms in
    let more =
      count-set n j (λ i. is_some (find_message i ms))
        (λ i. is_some (find_message i (assign_by (λ i j. i == j) j m ms))) below
        (rw (found j, ==_refl j) refl) (λ i apart. rw (found i, ==_false i j apart) refl) in
    omega (arith, length-assign j m ms, more)

module _ {K M : Type 0} (same : K → K → Bool) where
  -- The set after the events, the last one first.
  unfoldable pub quorum_after : ℕ → List (QuorumEvent K M) → QuorumSet K M
  quorum_after r [] = quorum_set r
  quorum_after r (added vs idx msg ∷ es) = add same vs idx msg (quorum_after r es)
  quorum_after r (checked vs ∷ es) = (check_for_quorum same vs (quorum_after r es)).1
  quorum_after r (cleared_id vs ∷ es) = clear_id same vs (quorum_after r es)
  quorum_after r (cleared ∷ es) = clear same (quorum_after r es)

  -- The last message of a replica for the id, since the id was cleared.
  unfoldable pub last_message : K → ℕ → List (QuorumEvent K M) → Option M
  last_message vs i [] = none
  last_message vs i (added w idx msg ∷ es) =
      let before = last_message vs i es in if same vs w && (i == idx) then some msg else before
  last_message vs i (checked w ∷ es) = last_message vs i es
  last_message vs i (cleared_id w ∷ es) =
      let before = last_message vs i es in if same vs w then none else before
  last_message vs i (cleared ∷ es) = none

module _ {K M : Type 0} (same : K → K → Bool) (h : IsEquality same) where
  get_messages-set :
      (vs w : K) (ms : Messages M) (q : QuorumSet K M)
      → get_messages same vs (set_messages same w ms q)
        ≡ (if same vs w then ms else get_messages same vs q)
  unfolding get_messages set_messages or_empty
  get_messages-set vs w ms q =
      rw (lookup-assign same h vs w ms q.messages)
        (elim (Bool-cases (same vs w)) [ inl this ↦ rw this refl | inr other ↦ rw other refl ])

  get_messages-check :
      (vs w : K) (q : QuorumSet K M)
      → get_messages same vs (check_for_quorum same w q).1 ≡ get_messages same vs q
  unfolding check_for_quorum
  get_messages-check vs w q =
      rw (get_messages-set vs w (get_messages same w q) q) (elim (Bool-cases (same vs w)) [
        | inl this ↦ rw this (ap (λ k. get_messages same k q) (sym (h.same_sound vs w this)))
        | inr other ↦ rw other refl
      ])

  get_messages-add :
      (vs w : K) (idx : ℕ) (msg : M) (q : QuorumSet K M)
      → get_messages same vs (add same w idx msg q) ≡ (
          if same vs w
          then assign_by (λ i j. i == j) idx msg (get_messages same w q)
          else get_messages same vs q)
  unfolding add add_and_check_for_quorum
  get_messages-add vs w idx msg q = get_messages-check vs w _ ∙ get_messages-set vs w _ q

  reported :
      (vs : K) (idx : ℕ) (msg : M) (q : QuorumSet K M)
      → let ms = get_messages same vs (add same vs idx msg q) in
        (add_and_check_for_quorum same vs idx msg q).0
        ≡ (if leb q.num_required (length ms) then some ms else none)
  unfolding add add_and_check_for_quorum check_for_quorum set_messages
  reported vs idx msg q =
      let ms =
        get_messages same vs
          (set_messages same vs (assign_by (λ i j. i == j) idx msg (get_messages same vs q)) q) in
      ap (λ (l : Messages M). if leb q.num_required (length l) then some l else none)
        (sym (get_messages-check vs vs _))

  num_required-after :
      (r : ℕ) (es : List (QuorumEvent K M)) → (quorum_after same r es).num_required ≡ r
  unfolding quorum_after quorum_set add add_and_check_for_quorum check_for_quorum set_messages clear
      clear_id
  num_required-after r [] = refl
  num_required-after r (added vs idx msg ∷ es) = num_required-after r es
  num_required-after r (checked vs ∷ es) = num_required-after r es
  num_required-after r (cleared_id vs ∷ es) = num_required-after r es
  num_required-after r (cleared ∷ es) = num_required-after r es

  find-heard :
      (r : ℕ) (vs : K) (i : ℕ) (es : List (QuorumEvent K M))
      → find_message i (get_messages same vs (quorum_after same r es)) ≡ last_message same vs i es
  unfolding quorum_after quorum_set last_message get_messages or_empty lookup_by clear clear_id
  find-heard r vs i [] = refl
  find-heard r vs i (added w idx msg ∷ es) =
      rw (get_messages-add vs w idx msg (quorum_after same r es)) (elim (Bool-cases (same vs w)) [
        | inl this ↦ rw this (
            rw (sym (h.same_sound vs w this)) (
              lookup-assign (λ i j. i == j) index_IsEquality i idx msg _
              ∙ ap (λ (o : Option M). if i == idx then some msg else o) (find-heard r vs i es)))
        | inr other ↦ rw other (find-heard r vs i es)
      ])
  find-heard r vs i (checked w ∷ es) =
      rw (get_messages-check vs w (quorum_after same r es)) (find-heard r vs i es)
  find-heard r vs i (cleared_id w ∷ es) =
      rw (get_messages-set vs w [] (quorum_after same r es)) (elim (Bool-cases (same vs w)) [
        | inl this ↦ rw this refl
        | inr other ↦ rw other (find-heard r vs i es)
      ])
  find-heard r vs i (cleared ∷ es) = refl

  after-IsCounted :
      (n r : ℕ) (es : List (QuorumEvent K M))
      → All (IsKnown n) es
      → (vs : K) → IsCounted n (get_messages same vs (quorum_after same r es))
  unfolding quorum_after quorum_set get_messages or_empty lookup_by is_some clear clear_id
  after-IsCounted n r [] known vs = sym (count-none n)
  after-IsCounted n r (added w idx msg ∷ es) (below, known) vs =
      rw (get_messages-add vs w idx msg (quorum_after same r es)) (elim (Bool-cases (same vs w)) [
        | inl this ↦ rw this (assign-IsCounted n idx msg _ below (after-IsCounted n r es known w))
        | inr other ↦ rw other (after-IsCounted n r es known vs)
      ])
  after-IsCounted n r (checked w ∷ es) (below, known) vs =
      rw (get_messages-check vs w (quorum_after same r es)) (after-IsCounted n r es known vs)
  after-IsCounted n r (cleared_id w ∷ es) (below, known) vs =
      rw (get_messages-set vs w [] (quorum_after same r es)) (elim (Bool-cases (same vs w)) [
        | inl this ↦ rw this (sym (count-none n))
        | inr other ↦ rw other (after-IsCounted n r es known vs)
      ])
  after-IsCounted n r (cleared ∷ es) known vs = sym (count-none n)

  -- After any messages, checks and clearings, from replicas with numbers below `n`, a further message
  -- for an id is answered with a quorum exactly if the replicas that have sent one for the id since it
  -- was cleared, each counted once, are as many as are required. The messages it is answered with are
  -- the last one of each of these replicas.
  pub add_and_check_for_quorum-heard :
      (n r : ℕ) (es : List (QuorumEvent K M)) (vs : K) (idx : ℕ) (msg : M)
      → All (IsKnown n) es
      → idx < n
      → let all = added vs idx msg ∷ es in
        let ms = get_messages same vs (quorum_after same r all) in
        ((add_and_check_for_quorum same vs idx msg (quorum_after same r es)).0
          ≡ (if leb r (count n (λ i. is_some (last_message same vs i all))) then some ms else none))
        × ((i : ℕ) → find_message i ms ≡ last_message same vs i all)
  unfolding quorum_after add
  add_and_check_for_quorum-heard n r es vs idx msg known below =
      let all = added vs idx msg ∷ es in
      let ms = get_messages same vs (quorum_after same r all) in
      let counted = after-IsCounted n r all (below, known) vs in
      let heard =
        count-same n _ (λ i. is_some (last_message same vs i all))
          (λ i within. ap is_some (find-heard r vs i all)) in
      (
        reported vs idx msg (quorum_after same r es)
            ∙ ap (λ (k : ℕ). if leb k (length ms) then some ms else none) (num_required-after r es)
            ∙ ap (λ (k : ℕ). if leb r k then some ms else none) (counted ∙ heard),
        λ i. find-heard r vs i all,
      )
