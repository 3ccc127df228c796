-- ===== src/Sources/Threads.antt =====
-- `parallel_start_and_join`: threads that take turns in any order, and are all waited for.
use mathlib.Core.List.{map}
use mathlib.Core.Path.{subst}
use skyros.Base.{
  All-append, All-map, ℕ, suc, ◌+◌, ◌≡◌, refl, sym, ap, ◌∙◌, List, [], ◌∷◌, ◌++◌, arith, All,
  length,
}

-- The effects of threads, each with what it still has to do, in an order in which they can happen.
pub data Interleaved {E : Type 0} : List (List E) → List E → Type 0 where
  finished : {ts : List (List E)} → All (λ t. t ≡ []) ts → Interleaved ts []
  turn :
      {ts : List (List E)} (before after : List (List E)) (e : E) (rest : List E) {es : List E}
      → ts ≡ before ++ (e ∷ rest) ∷ after
      → Interleaved (before ++ rest ∷ after) es
      → Interleaved ts (e ∷ es)

-- The first list stands in the second in its order, perhaps with others between.
pub data InOrder {E : Type 0} : List E → List E → Type 0 where
  no_more : {es : List E} → InOrder [] es
  here : (e : E) {xs es : List E} → InOrder xs es → InOrder (e ∷ xs) (e ∷ es)
  later : (e : E) {xs es : List E} → InOrder xs es → InOrder xs (e ∷ es)

module _ {E : Type 0} where
  pub total_length : List (List E) → ℕ
  total_length [] = 0
  total_length (t ∷ ts) = length t + total_length ts

  All-split :
      (P : List E → Type 0) (before : List (List E)) (t : List E) (after : List (List E))
      → All P (before ++ t ∷ after)
      → All P before × P t × All P after
  All-split P [] t after (h, hs) = (tt, h, hs)
  All-split P (b ∷ before) t after (h, hs) =
      let (hb, ht, ha) = All-split P before t after hs in ((h, hb), ht, ha)

  total_length-middle :
      (before : List (List E)) (e : E) (rest : List E) (after : List (List E))
      → total_length (before ++ (e ∷ rest) ∷ after) ≡ suc (total_length (before ++ rest ∷ after))
  unfolding total_length
  total_length-middle [] e rest after = omega arith
  total_length-middle (b ∷ before) e rest after =
      omega (arith, total_length-middle before e rest after)

  total_length-empty : (ts : List (List E)) → All (λ t. t ≡ []) ts → total_length ts ≡ 0
  unfolding total_length
  total_length-empty [] h = refl
  total_length-empty (t ∷ ts) (ht, h) = rw (ht, total_length-empty ts h)

  -- Whatever the order of the turns, the effects of every thread happen in the order in which the
  -- thread has them, and no other effect happens.
  pub Interleaved-InOrder :
      {ts : List (List E)} {es : List E}
      → Interleaved ts es
      → All (λ t. InOrder t es) ts × (length es ≡ total_length ts)
  Interleaved-InOrder {ts = ts} (finished h) = (
    All-map (λ t e. subst (λ (x : List E). InOrder x []) (sym e) no_more) ts h,
    sym (total_length-empty ts h),
  )
  Interleaved-InOrder (turn before after e rest {es} split more) =
      let (orders, count) = Interleaved-InOrder more in
      let (ob, ot, oa) = All-split (λ t. InOrder t es) before rest after orders in
      let earlier =
        All-append (λ t. InOrder t (e ∷ es)) before ((e ∷ rest) ∷ after)
          (All-map (λ t h. later e h) before ob) (here e ot, All-map (λ t h. later e h) after oa) in
      (
        subst (All (λ t. InOrder t (e ∷ es))) (sym split) earlier,
        ap suc count ∙ sym (total_length-middle before e rest after) ∙ ap total_length (sym split),
      )

  pub InOrder-append : {xs es : List E} (more : List E) → InOrder xs es → InOrder xs (es ++ more)
  InOrder-append more no_more = no_more
  InOrder-append more (here e h) = here e (InOrder-append more h)
  InOrder-append more (later e h) = later e (InOrder-append more h)

pub InOrder-map :
    {D E : Type 0} (f : D → E) {xs es : List D} → InOrder xs es → InOrder (map f xs) (map f es)
InOrder-map f no_more = no_more
InOrder-map f (here e h) = here (f e) (InOrder-map f h)
InOrder-map f (later e h) = later (f e) (InOrder-map f h)
