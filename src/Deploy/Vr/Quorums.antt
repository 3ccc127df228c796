-- ===== src/Deploy/Vr/Quorums.antt =====
-- The quorums of a cluster that vr.py configures: `Configuration::QuorumSize` of
-- src/skyros/lib/configuration.cc over the faults of the configuration file.
use skyros.Deploy.Vr.{num_faults}
use skyros.Deploy.Vr.Config.{quorum_size}
use skyros.Protocol.Quorum.Maps.{count}
use skyros.Base.{
  refl, ℕ, zero, suc, ◌+◌, ◌≤◌, ◌<◌, ◌≡◌, inl, inr, Bool, true, not, arith, Bool-cases, ◌%◌,
}

-- Two sets of numbers below `n` with more than `n` members between them have one in common.
common :
    (n : ℕ) (p q : ℕ → Bool)
    → n < count n p + count n q
    → (i : ℕ) × (i < n) × (p i ≡ true) × (q i ≡ true)
unfolding count
common zero p q h = absurd (omega arith)
common (suc n) p q h = elim (Bool-cases (p n)) [
  | inl in_p ↦ elim (Bool-cases (q n)) [
    | inl in_q ↦ (n, omega arith, in_p, in_q)
    | inr out_q ↦
        let (i, below, in_p, in_q) = common n p q (omega (arith, rw (in_p, out_q) at h)) in
        (i, omega arith, in_p, in_q)
  ]
  | inr out_p ↦
      let more : n < count n p + count n q = elim (Bool-cases (q n)) [
        | inl in_q ↦ omega (arith, rw (out_p, in_q) at h)
        | inr out_q ↦ omega (arith, rw (out_p, out_q) at h)
      ] in
      let (i, below, in_p, in_q) = common n p q more in (i, omega arith, in_p, in_q)
]

count-not : (n : ℕ) (p : ℕ → Bool) → count n p + count n (λ i. not (p i)) ≡ n
unfolding count
count-not zero p = refl
count-not (suc n) p = elim (Bool-cases (p n)) [
  | inl inside ↦ rw inside (omega (arith, count-not n p))
  | inr outside ↦ rw outside (omega (arith, count-not n p))
]

-- Any two sets of the n replicas that have as many members as a quorum for the faults of the
-- configuration file have a replica in common.
pub quorum_size-common :
    (n : ℕ) (p q : ℕ → Bool)
    → quorum_size (num_faults n) ≤ count n p
    → quorum_size (num_faults n) ≤ count n q
    → (i : ℕ) × (i < n) × (p i ≡ true) × (q i ≡ true)
unfolding quorum_size
quorum_size-common n p q hp hq = common n p q (omega arith)

-- When as many of the n replicas have failed as the configuration file allows for, the others are
-- just a quorum for an odd n, and one less than a quorum for an even n.
pub quorum_size-left :
    (n : ℕ) (failed : ℕ → Bool)
    → count n failed ≡ num_faults n
    → count n (λ i. not (failed i)) + 1 ≡ quorum_size (num_faults n) + n % 2
unfolding quorum_size
quorum_size-left n failed faults = omega (arith, count-not n failed)
