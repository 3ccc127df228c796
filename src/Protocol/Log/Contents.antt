-- ===== src/Protocol/Log/Contents.antt =====
-- The contents of a log, and the log that has taken over a message.
use skyros.Protocol.Log.{Log, LogEntry, Request, SentEntry, find, resize}
use skyros.Protocol.Log.Numbered.{IsNumbered, find_in-Numbered}
use mathlib.Core.List.{map}
use skyros.Base.{
  ltb-false, get_elem?, ◌^◌, ℕ, suc, ◌+◌, ◌-◌, ◌<◌, ◌≡◌, refl, ap, ◌∙◌, some, List, [], ◌∷◌, ◌++◌,
  arith, ◌==◌, if◌then◌else◌, length,
}

-- What two replicas compare of an entry: its view and its request.
abbrev pub Content : Type 0
Content = ℕ × Request

abbrev pub contents : List LogEntry → List Content
contents es = map (λ e. (e.viewstamp.view, e.request)) es

abbrev pub sent_contents : List SentEntry → List Content
sent_contents sent = map (λ e. (e.view, e.request)) sent

-- The entries of a message have the numbers from `n` on.
abbrev pub SentFrom : ℕ → List SentEntry → Type 0
SentFrom n [] = Unit
SentFrom n (e ∷ es) = (e.opnum ≡ n) × SentFrom (suc n) es

-- What a log has from the first number of a message on, after it has taken over the message: up to
-- the first entry of another view its own, and then those of the message; and its own behind a
-- message that ends before.
unfoldable pub taken_over : List Content → List Content → List Content
taken_over own [] = own
taken_over [] (m ∷ ms) = m ∷ ms
taken_over (o ∷ own) (m ∷ ms) = if m.0 == o.0 then o ∷ taken_over own ms else m ∷ ms

pub contents-append : (xs ys : List LogEntry) → contents (xs ++ ys) ≡ contents xs ++ contents ys
contents-append [] ys = refl
contents-append (x ∷ xs) ys =
    ap (λ (cs : List Content). (x.viewstamp.view, x.request) ∷ cs) (contents-append xs ys)

-- A log with its numbers and the contents.
pub record Holds (l : Log) (cs : List Content) : Type 0 where
  pub is_numbered : IsNumbered l
  pub content : contents l.entries ≡ cs

get_elem?-behind :
    (done rest : List LogEntry) → get_elem? (done ++ rest) (length done) ≡ get_elem? rest 0
get_elem?-behind [] rest = refl
get_elem?-behind (d ∷ done) rest = get_elem?-behind done rest

pub resize-length : (done rest : List LogEntry) → resize (length done) (done ++ rest) ≡ done
unfolding resize
resize-length [] rest = refl
resize-length (d ∷ done) rest = ap (λ (es : List LogEntry). d ∷ es) (resize-length done rest)

pub find-behind :
    (done rest : List LogEntry) (l : Log)
    → IsNumbered l
    → l.entries ≡ done ++ rest
    → l.start + length done < 2 ^ 64
    → find (l.start + length done) l ≡ some (get_elem? rest 0)
find-behind done rest l h split bound =
    find_in-Numbered l.start (l.start + length done) l.entries h.numbered h.room bound
    ∙ rw (ltb-false (l.start + length done) l.start (omega arith)) (
        ap some (
          ap (get_elem? l.entries)
            (let n : l.start + length done - l.start ≡ length done = omega arith in n)
          ∙ ap (λ (es : List LogEntry). get_elem? es (length done)) split
          ∙ get_elem?-behind done rest))
