-- ===== src/Protocol/Log/Grown.antt =====
-- What each operation does to the numbers of a log and to its length, where it does not abort.
use skyros.Protocol.Log.Updated.{
  Grown, Grown, append-Grown, remove_after-Grown, Grown-same, update-Grown,
}
use mathlib.Core.Path.{subst}
use skyros.Protocol.Log.{
  Log, LogEntryState, Viewstamp, Request, SentEntry, and_then, append, find, update, set_request,
  remove_after, drop_divergent, append_sent, install,
}
use skyros.Protocol.Log.Numbered.{IsNumbered}
use skyros.Base.Text.{Text}
use skyros.Base.{
  some_injective, Option-cases, ◌^◌, ℕ, suc, ◌+◌, ◌≤◌, ◌<◌, ◌≡◌, refl, ◌∙◌, inl, inr, some, List,
  [], ◌∷◌, arith, ◌==◌, Bool-cases, All, length,
}

Grown-trans : {l l1 l2 : Log} (m n k : ℕ) → m + n ≡ k → Grown l m l1 → Grown l1 n l2 → Grown l k l2
Grown-trans m n k sum g h = record {
  is_numbered = h.is_numbered;
  start = h.start ∙ g.start;
  size = omega (arith, g.size, h.size);
}

append_sent-Grown :
    (sha : Text → Request → Text) (sent : List SentEntry) (l : Log) {l' : Log}
    → IsNumbered l
    → l.start + length l.entries + length sent < 2 ^ 64
    → append_sent sha sent l ≡ some l'
    → Grown l (length sent) l'
unfolding append_sent
append_sent-Grown sha [] l h room e = subst (Grown l 0) (some_injective e) (Grown-same l h)
append_sent-Grown sha (it ∷ rest) l h room e =
    let vs : Viewstamp = record { view = it.view; opnum = it.opnum } in
    elim (Option-cases (append sha vs it.request LogEntryState.prepared l)) [
      | inl aborted ↦ absurd (cc (rw aborted at e))
      | inr (l1, one) ↦
          let g = append-Grown sha vs it.request LogEntryState.prepared l h (omega arith) one in
          Grown-trans 1 (length rest) (suc (length rest)) (omega arith) g (
            append_sent-Grown sha rest l1 g.is_numbered (omega (arith, g.start, g.size))
              (rw one at e))
    ]

-- What the first loop of `Install` leaves.
record Left (l : Log) (n : ℕ) (r : List SentEntry × Log) : Type 0 where
  grown : Grown l 0 r.1
  shorter : length r.0 ≤ n

drop_divergent-Left :
    (sent : List SentEntry) (l : Log) {r : List SentEntry × Log}
    → IsNumbered l
    → All (λ e. e.opnum < 2 ^ 64) sent
    → drop_divergent sent l ≡ some r
    → Left l (length sent) r
unfolding drop_divergent
drop_divergent-Left [] l h bounds e =
    subst (Left l 0) (some_injective e) (record { grown = Grown-same l h; shorter = omega arith })
drop_divergent-Left (it ∷ rest) l h (bound, bounds) e = elim (Option-cases (find it.opnum l)) [
  | inl aborted ↦ absurd (cc (rw aborted at e))
  | inr (found, is_found) ↦ elim (Option-cases found) [
    | inl missing ↦
        subst (Left l (suc (length rest))) (some_injective (rw (is_found, missing) at e))
          (record { grown = Grown-same l h; shorter = omega arith })
    | inr (old, there) ↦ elim (Bool-cases (it.view == old.viewstamp.view)) [
      | inl same ↦
          let left = drop_divergent-Left rest l h bounds (rw (is_found, there, same) at e) in
          record { grown = left.grown; shorter = omega (arith, left.shorter) }
      | inr other ↦ elim (Option-cases (remove_after it.opnum l)) [
        | inl refused ↦ absurd (cc (rw (is_found, there, other, refused) at e))
        | inr (l1, cut) ↦
            subst (Left l (suc (length rest)))
              (some_injective (rw (is_found, there, other, cut) at e))
              (record { grown = remove_after-Grown it.opnum l h bound cut; shorter = omega arith })
      ]
    ]
  ]
]

pub set_request-Grown :
    (op : ℕ) (req : Request) (l : Log) {l' : Log}
    → IsNumbered l
    → and_then (set_request op req l) (λ r. some r.1) ≡ some l'
    → Grown l 0 l'
unfolding set_request update
set_request-Grown op req l h e = elim (Bool-cases l.use_hash) [
  | inl hashed ↦ absurd (cc (rw hashed at e))
  | inr plain ↦ update-Grown (λ x. record x { request = req }) op l (λ x. refl) h (rw plain at e)
]

pub install-Grown :
    (sha : Text → Request → Text) (sent : List SentEntry) (l : Log) {l' : Log}
    → IsNumbered l
    → All (λ e. e.opnum < 2 ^ 64) sent
    → l.start + length l.entries + length sent < 2 ^ 64
    → install sha sent l ≡ some l'
    → Grown l (length sent) l'
unfolding install
install-Grown sha sent l h fits room e = elim (Option-cases (drop_divergent sent l)) [
  | inl aborted ↦ absurd (cc (rw aborted at e))
  | inr (left, dropped) ↦
      let d = drop_divergent-Left sent l h fits dropped in
      let g =
        append_sent-Grown sha left.0 left.1 d.grown.is_numbered
          (omega (arith, d.grown.start, d.grown.size, d.shorter)) (rw dropped at e) in
      record {
        is_numbered = g.is_numbered;
        start = g.start ∙ d.grown.start;
        size = omega (arith, g.size, d.grown.size, d.shorter);
      }
]
