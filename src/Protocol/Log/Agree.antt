-- ===== src/Protocol/Log/Agree.antt =====
-- `Install`, where the log and the message agree.
use skyros.Protocol.Log.Contents.{sent_contents, contents, SentFrom, Content, taken_over}
use skyros.Protocol.Log.Install.{install-taken_over, Installs}
use skyros.Protocol.Log.{Log, LogEntry, Request, SentEntry}
use skyros.Protocol.Log.Numbered.{IsNumbered}
use skyros.Base.Text.{Text}
use skyros.Base.{
  append-nil, ◌^◌, ◌+◌, ◌<◌, ◌≡◌, refl, sym, ap, ◌∙◌, ◌≢◌, ◌⊎◌, inl, inr, List, [], ◌∷◌, ◌++◌,
  arith, ◌==◌, Bool-cases, length,
}

-- Two replicas agree on a number: they have other views there, or the same view and request.
abbrev pub Agree : List Content → List Content → Type 0
Agree [] ms = Unit
Agree (o ∷ own) [] = Unit
Agree (o ∷ own) (m ∷ ms) = ((m.0 ≢ o.0) ⊎ (o ≡ m)) × Agree own ms

taken_over-sent :
    (own ms : List Content)
    → Agree own ms
    → (behind : List Content) × (taken_over own ms ≡ ms ++ behind)
unfolding taken_over
taken_over-sent [] [] h = ([], refl)
taken_over-sent (o ∷ own) [] h = (o ∷ own, refl)
taken_over-sent [] (m ∷ ms) h = ([], sym (append-nil (m ∷ ms)))
taken_over-sent (o ∷ own) (m ∷ ms) (agree, h) = elim (Bool-cases (m.0 == o.0)) [
  | inr other ↦ ([], rw other (sym (append-nil (m ∷ ms))))
  | inl same ↦ elim agree [
    | inl differ ↦ absurd (differ (ground arith))
    | inr equal ↦
        let (behind, e) = taken_over-sent own ms h in (behind, rw same (λ i. equal i ∷ e i))
  ]
]

-- If moreover the log and the message agree, the log then has every entry of the message, in its
-- place, behind its own entries before the message.
pub install-sent :
    (sha : Text → Request → Text) (sent : List SentEntry) (done rest : List LogEntry) (l : Log)
    → IsNumbered l
    → l.entries ≡ done ++ rest
    → SentFrom (l.start + length done) sent
    → l.start + length done + length sent < 2 ^ 64
    → Agree (contents rest) (sent_contents sent)
    → (behind : List Content) × Installs sha sent l
        (contents done ++ (sent_contents sent ++ behind))
install-sent sha sent done rest l h split from room agree =
    let (l', (e, holds)) = install-taken_over sha sent done rest l h split from room in
    let (behind, has_sent) = taken_over-sent (contents rest) (sent_contents sent) agree in
    (
      behind,
      (
        l',
        (
          e,
          record {
            is_numbered = holds.is_numbered;
            content = holds.content ∙ ap (λ (cs : List Content). contents done ++ cs) has_sent;
          },
        ),
      ),
    )
