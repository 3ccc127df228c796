-- ===== src/Tests/Quorum.antt =====
-- A set of messages of three replicas, for views.
use skyros.Protocol.Quorum.{
  add_and_check_for_quorum, get_messages, check_for_quorum, set_messages, add, quorum_set, or_empty,
  lookup_by, assign_by,
}
use skyros.Protocol.Quorum.Maps.{index_IsEquality, find_message, is_some, count}
use skyros.Protocol.Quorum.Heard.{
  QuorumEvent, quorum_after, last_message, add_and_check_for_quorum-heard,
}
use skyros.Base.{ℕ, ◌≡◌, refl, Bool, none, some, List, [], ◌∷◌, arith, ◌==◌, leb, if◌then◌else◌}

abbrev same_view : ℕ → ℕ → Bool
same_view a b = a == b

-- Replica 1 has sent for view 4, and again, and replica 2 for view 5.
abbrev sent_before : List (QuorumEvent ℕ ℕ)
sent_before =
    QuorumEvent.added 5 2 9
    ∷ QuorumEvent.added 4 1 8
    ∷ QuorumEvent.checked 4
    ∷ QuorumEvent.added 4 1 7
    ∷ []

again : (add_and_check_for_quorum same_view 4 1 6 (quorum_after same_view 2 sent_before)).0 ≡ none
unfolding quorum_after add_and_check_for_quorum get_messages check_for_quorum set_messages add
    quorum_set or_empty lookup_by assign_by
again = refl

reached :
    (add_and_check_for_quorum same_view 4 0 6 (quorum_after same_view 2 sent_before)).0
    ≡ some ((1, 8) ∷ (0, 6) ∷ [])
unfolding quorum_after add_and_check_for_quorum get_messages check_for_quorum set_messages add
    quorum_set or_empty lookup_by assign_by
reached = refl

add_and_check_for_quorum-heard_example :
    let all = QuorumEvent.added 4 0 6 ∷ sent_before in
    let ms = get_messages same_view 4 (quorum_after same_view 2 all) in
    ((add_and_check_for_quorum same_view 4 0 6 (quorum_after same_view 2 sent_before)).0
      ≡ (if leb 2 (count 3 (λ i. is_some (last_message same_view 4 i all))) then some ms else none))
    × ((i : ℕ) → find_message i ms ≡ last_message same_view 4 i all)
add_and_check_for_quorum-heard_example =
    add_and_check_for_quorum-heard same_view index_IsEquality 3 2 sent_before 4 0 6
      (omega arith, (omega arith, (tt, (omega arith, tt)))) (omega arith)
