-- ===== src/Protocol/Log/Install.antt =====
-- `Install`: the log takes over the entries of a message.
use skyros.Protocol.Log.Contents.{
  Holds, Content, contents, sent_contents, SentFrom, taken_over, contents-append, resize-length,
  find-behind,
}
use mathlib.Core.Path.{subst}
use skyros.Protocol.Log.{
  and_then, Log, LogEntry, LogEntryState, Viewstamp, Request, SentEntry, append, find, resize,
  remove_after, drop_divergent, append_sent, install,
}
use skyros.Protocol.Log.Numbered.{IsNumbered}
use skyros.Protocol.Log.Find.{
  append-next, appended, new_entry, appended-IsNumbered, remove_after-shortened, shortened,
  shortened-IsNumbered,
}
use skyros.Base.Text.{Text}
use skyros.Base.{
  append_assoc, ltb-false, length-append, ==_true, append-nil, ◌^◌, ℕ, suc, ◌+◌, ◌-◌, ◌<◌, ◌≡◌,
  refl, sym, ap, ◌∙◌, inl, inr, true, Option, none, some, List, [], ◌∷◌, ◌++◌, arith, ◌==◌,
  Bool-cases, length,
}

module _ (sha : Text → Request → Text) where
  append_sent-Holds :
      (sent : List SentEntry) (l : Log)
      → IsNumbered l
      → SentFrom (l.start + length l.entries) sent
      → l.start + length l.entries + length sent < 2 ^ 64
      → (l' : Log) × ((append_sent sha sent l ≡ some l')
          × Holds l' (contents l.entries ++ sent_contents sent))
  unfolding append_sent
  append_sent-Holds [] l h from room =
      (l, (refl, record { is_numbered = h; content = sym (append-nil _) }))
  append_sent-Holds (it ∷ rest) l h (number, from) room =
      let vs : Viewstamp = record { view = it.view; opnum = it.opnum } in
      let l1 = appended sha vs it.request LogEntryState.prepared l in
      let added = new_entry sha vs it.request LogEntryState.prepared l in
      let next : (it.opnum == l.start + length l.entries) ≡ true = ==_true _ _ number in
      let grown : length l1.entries ≡ suc (length l.entries) =
        omega (arith, length-append l.entries (added ∷ [])) in
      let one : append sha vs it.request LogEntryState.prepared l ≡ some l1 =
        append-next sha vs it.request LogEntryState.prepared l h ∙ rw next refl in
      let n1 =
        appended-IsNumbered sha vs it.request LogEntryState.prepared l h (omega arith) number in
      let (l', (e, done)) =
        append_sent-Holds rest l1 n1 (subst (λ n. SentFrom n rest) (omega (arith, grown)) from)
          (omega (arith, grown)) in
      (
        l',
        (
          ap (λ (o : Option Log). and_then o (append_sent sha rest)) one ∙ e,
          record {
            is_numbered = done.is_numbered;
            content =
                done.content
                ∙ ap (λ (cs : List Content). cs ++ sent_contents rest)
                    (contents-append l.entries (added ∷ []))
                ∙ append_assoc (contents l.entries) ((it.view, it.request) ∷ [])
                    (sent_contents rest);
          },
        ),
      )

  -- The log takes over the message without an abort, and then holds the contents.
  abbrev pub Installs : List SentEntry → Log → List Content → Type 0
  Installs sent l cs = (l' : Log) × ((install sha sent l ≡ some l') × Holds l' cs)

  -- If the entries of a message have successive numbers, from a number that the log has or that is its
  -- next one, then `Install` does not abort, and the log has its numbers again, its own entries before
  -- the message, and behind them what it takes over: its own up to the first entry of another view,
  -- and from there those of the message and no others.
  pub install-taken_over :
      (sent : List SentEntry) (done rest : List LogEntry) (l : Log)
      → IsNumbered l
      → l.entries ≡ done ++ rest
      → SentFrom (l.start + length done) sent
      → l.start + length done + length sent < 2 ^ 64
      → Installs sent l (contents done ++ taken_over (contents rest) (sent_contents sent))
  unfolding install drop_divergent append_sent taken_over
  install-taken_over [] done rest l h split from room = (
    l,
    (refl, record { is_numbered = h; content = ap contents split ∙ contents-append done rest }),
  )
  install-taken_over (m ∷ ms) done [] l h split (number, from) room =
      let here : l.start + length l.entries ≡ l.start + length done =
        omega (arith, ap length split, length-append done []) in
      let found : find m.opnum l ≡ some none =
        ap (λ n. find n l) number ∙ find-behind done [] l h split (omega arith) in
      let (l', (e, holds)) =
        append_sent-Holds (m ∷ ms) l h
          (number ∙ sym here, subst (λ n. SentFrom (suc n) ms) (sym here) from)
          (omega (arith, here)) in
      (
        l',
        (
          rw found e,
          record {
            is_numbered = holds.is_numbered;
            content =
                holds.content
                ∙ ap (λ (es : List LogEntry). contents es ++ sent_contents (m ∷ ms))
                    (split ∙ append-nil done);
          },
        ),
      )
  install-taken_over (m ∷ ms) done (e ∷ es) l h split (number, from) room =
      let found : find m.opnum l ≡ some (some e) =
        ap (λ n. find n l) number ∙ find-behind done (e ∷ es) l h split (omega arith) in
      elim (Bool-cases (m.view == e.viewstamp.view)) [
        | inl same ↦
            let longer : length (done ++ e ∷ []) ≡ suc (length done) =
              omega (arith, length-append done (e ∷ [])) in
            let (l', (e1, holds)) =
              install-taken_over ms (done ++ e ∷ []) es l h
                (split ∙ sym (append_assoc done (e ∷ []) es))
                (subst (λ n. SentFrom n ms) (omega (arith, longer)) from) (omega (arith, longer)) in
            (
              l',
              (
                rw (found, same) e1,
                record {
                  is_numbered = holds.is_numbered;
                  content = rw same (
                      holds.content
                      ∙ ap
                          (λ (cs : List Content). cs ++ taken_over (contents es) (sent_contents ms))
                          (contents-append done (e ∷ []))
                      ∙ append_assoc (contents done) _ _);
                },
              ),
            )
        | inr other ↦
            let l1 = shortened m.opnum l in
            let cut : remove_after m.opnum l ≡ some l1 =
              remove_after-shortened m.opnum l h (omega arith)
              ∙ rw (ltb-false m.opnum l.start (omega arith)) refl in
            let left : l1.entries ≡ done =
              ap (λ (k : ℕ). resize k l.entries)
                (let n : m.opnum - l.start ≡ length done = omega arith in n)
              ∙ ap (resize (length done)) split
              ∙ resize-length done (e ∷ es) in
            let here : l1.start + length l1.entries ≡ l.start + length done =
              ap (λ (xs : List LogEntry). l.start + length xs) left in
            let (l', (e1, holds)) =
              append_sent-Holds (m ∷ ms) l1 (shortened-IsNumbered m.opnum l h)
                (number ∙ sym here, subst (λ n. SentFrom (suc n) ms) (sym here) from)
                (omega (arith, here)) in
            (
              l',
              (
                rw (found, other, cut) e1,
                record {
                  is_numbered = holds.is_numbered;
                  content = rw other (
                      holds.content
                      ∙ ap (λ (xs : List LogEntry). contents xs ++ sent_contents (m ∷ ms)) left);
                },
              ),
            )
      ]
