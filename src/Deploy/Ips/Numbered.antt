-- ===== src/Deploy/Ips/Numbered.antt =====
-- What the address files give: server `i + 1` has line `i`, and the client has the line behind
-- those of the servers.
use skyros.Deploy.Ips.Servers.{take, numbered, get_elem?-servers, insert-numbered}
use skyros.Base.Text.{is_empty, file_lines, Text}
use skyros.Deploy.Ips.{
  get_server_client_external_ips, get_internal_ips, external_loop, internal_loop, servers, clean,
  servers_from,
}
use skyros.Base.{
  assertion_error, append_assoc, ltb-false, ==_false, ltb-true, length-append, ==_true, append-nil,
  ℕ, zero, suc, ◌+◌, ◌≤◌, ◌<◌, ◌≡◌, refl, sym, ap, ◌∙◌, ◌≢◌, true, not, List, [], ◌∷◌, ◌++◌, arith,
  ◌==◌, ok, err, length,
}

take_all : (n : ℕ) (xs : List Text) → length xs ≤ n → take n xs ≡ xs
take_all zero [] h = refl
take_all zero (x ∷ xs) h = absurd (omega arith)
take_all (suc n) [] h = refl
take_all (suc n) (x ∷ xs) h = ap (λ (ys : List Text). x ∷ ys) (take_all n xs (omega arith))

pub length-snoc : (done : List Text) (line : Text) → length done + 1 ≡ length (done ++ line ∷ [])
length-snoc done line = omega (arith, length-append done (line ∷ []))

internal_loop-numbered :
    (n left : ℕ) (lines done : List Text)
    → length done + suc left ≡ n
    → internal_loop (servers n) n lines (length done) (numbered 0 done)
      ≡ ok (numbered 0 (done ++ take (suc left) lines))
unfolding internal_loop
internal_loop-numbered n left [] done h = rw (append-nil done)
internal_loop-numbered n zero (line ∷ lines) done h =
    rw (get_elem?-servers n (length done) (omega arith))
      (rw (insert-numbered done line) (rw (==_true (length done + 1) n (omega arith))))
internal_loop-numbered n (suc left) (line ∷ lines) done h =
    rw (get_elem?-servers n (length done) (omega arith)) (
      rw (insert-numbered done line) (
        rw (==_false (length done + 1) n (omega arith)) (
          ap (λ (k : ℕ). internal_loop (servers n) n lines k (numbered 0 (done ++ line ∷ [])))
            (length-snoc done line)
          ∙ internal_loop-numbered n left lines (done ++ line ∷ [])
              (omega (arith, length-snoc done line))
          ∙ ap (λ (ls : List Text). ok (numbered 0 ls))
              (append_assoc done (line ∷ []) (take (suc left) lines)))))

-- For one server or more, the internal address of server `i + 1` is line `i` of the file without
-- its newline and its tabs, up to the number of servers or the end of the file, and nothing raises.
pub get_internal_ips-numbered :
    (n : ℕ) (content : Text)
    → 0 < n
    → get_internal_ips (servers n) n content ≡ ok (numbered 0 (take n (file_lines content)))
unfolding get_internal_ips
get_internal_ips-numbered zero content h = absurd (omega arith)
get_internal_ips-numbered (suc n) content h =
    (unfold numbered in internal_loop-numbered (suc n) n (file_lines content) [] (omega arith))

external_loop_after :
    (names : List Text) (n : ℕ) (lines : List Text) (count : ℕ) (ips : List (Text × Text))
    (client : Text)
    → n < count
    → external_loop names n lines count ips client ≡ ok (ips, client)
unfolding external_loop
external_loop_after names n [] count ips client h = refl
external_loop_after names n (line ∷ lines) count ips client h =
    rw (ltb-false count n (omega arith), ==_false count n (omega arith))
      (external_loop_after names n lines (count + 1) ips client (omega arith))

external_loop-numbered :
    (n : ℕ) (first rest done : List Text) (line client : Text)
    → length done + length first ≡ n
    → external_loop (servers n) n (first ++ line ∷ rest) (length done) (numbered 0 done) client
      ≡ ok (numbered 0 (done ++ first), clean line)
unfolding external_loop
external_loop-numbered n [] rest done line client h =
    rw (ltb-false (length done) n (omega arith), ==_true (length done) n (omega arith))
      (external_loop_after (servers n) n rest (length done + 1) (numbered 0 done) (clean line)
          (omega arith)
        ∙ ap (λ (ls : List Text). ok (numbered 0 ls, clean line)) (sym (append-nil done)))
external_loop-numbered n (l ∷ first) rest done line client h =
    rw (ltb-true (length done) n (omega arith), get_elem?-servers n (length done) (omega arith))
      (rw (insert-numbered done l, ==_false (length done) n (omega arith))
        (ap
            (λ (k : ℕ).
              external_loop (servers n) n (first ++ line ∷ rest) k (numbered 0 (done ++ l ∷ []))
                client)
            (length-snoc done l)
          ∙ external_loop-numbered n first rest (done ++ l ∷ []) line client
              (omega (arith, length-snoc done l))
          ∙ ap (λ (ls : List Text). ok (numbered 0 ls, clean line))
              (append_assoc done (l ∷ []) first)))

external_loop_short :
    (n : ℕ) (lines done : List Text) (client : Text)
    → length done + length lines ≤ n
    → external_loop (servers n) n lines (length done) (numbered 0 done) client
      ≡ ok (numbered 0 (done ++ lines), client)
unfolding external_loop
external_loop_short n [] done client h =
    ap (λ (ls : List Text). ok (numbered 0 ls, client)) (sym (append-nil done))
external_loop_short n (l ∷ lines) done client h =
    rw (ltb-true (length done) n (omega arith), get_elem?-servers n (length done) (omega arith))
      (rw (insert-numbered done l, ==_false (length done) n (omega arith))
        (ap (λ (k : ℕ). external_loop (servers n) n lines k (numbered 0 (done ++ l ∷ [])) client)
            (length-snoc done l)
          ∙ external_loop_short n lines (done ++ l ∷ []) client (omega (arith, length-snoc done l))
          ∙ ap (λ (ls : List Text). ok (numbered 0 ls, client)) (append_assoc done (l ∷ []) lines)))

pub length-numbered : (x : ℕ) (lines : List Text) → length (numbered x lines) ≡ length lines
unfolding numbered
length-numbered x [] = refl
length-numbered x (line ∷ lines) = omega (arith, length-numbered (x + 1) lines)

length-servers_from : (x n : ℕ) → length (servers_from x n) ≡ n
unfolding servers_from
length-servers_from x zero = refl
length-servers_from x (suc n) = omega (arith, length-servers_from (x + 1) n)

pub length-servers : (n : ℕ) → length (servers n) ≡ n
unfolding servers
length-servers n = length-servers_from 0 n

not_empty : (s : Text) → s ≢ [] → not (is_empty s) ≡ true
not_empty [] h = absurd (h refl)
not_empty (c ∷ s) h = refl

external_short :
    (n : ℕ) (lines : List Text)
    → length lines ≤ n
    → external_loop (servers n) n lines 0 [] [] ≡ ok (numbered 0 lines, [])
unfolding numbered
external_short n lines h = external_loop_short n lines [] [] (omega arith)

external_complete :
    (n : ℕ) (first rest : List Text) (line : Text)
    → length first ≡ n
    → external_loop (servers n) n (first ++ line ∷ rest) 0 [] [] ≡ ok (numbered 0 first, clean line)
unfolding numbered
external_complete n first rest line len =
    external_loop-numbered n first rest [] line [] (omega arith)

same_length :
    (n : ℕ) (first : List Text)
    → length first ≡ n
    → (length (numbered 0 first) == length (servers n)) ≡ true
same_length n first len = ==_true _ _ (omega (arith, length-numbered 0 first, length-servers n))

-- If the file has a line for each server and one more, which is not blank, then server `i + 1` has
-- line `i`, the client has the line behind those of the servers, and the lines after it are not
-- used.
pub get_server_client_external_ips-numbered :
    (n : ℕ) (content line : Text) (first rest : List Text)
    → file_lines content ≡ first ++ line ∷ rest
    → length first ≡ n
    → clean line ≢ []
    → get_server_client_external_ips (servers n) n content ≡ ok (numbered 0 first, clean line)
unfolding get_server_client_external_ips
get_server_client_external_ips-numbered n content line first rest e len h =
    rw (e, external_complete n first rest line len)
      (rw (not_empty (clean line) h, same_length n first len))

-- A file with no line for the client stops the run.
pub get_server_client_external_ips-short :
    (n : ℕ) (content : Text)
    → length (file_lines content) ≤ n
    → get_server_client_external_ips (servers n) n content ≡ err assertion_error
unfolding get_server_client_external_ips
get_server_client_external_ips-short n content h = rw (external_short n (file_lines content) h)
