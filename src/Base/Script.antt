-- ===== src/Base/Script.antt =====
-- A script as an action: it has effects, which its trace lists, and it returns or raises. The
-- trace so far comes back beside an error too.
use mathlib.Core.List.{map}
use skyros.Base.{
  sym, append-nil, append_assoc, ◌≡◌, ap, ◌∙◌, List, [], ◌∷◌, ◌++◌, Bool, true, false, Result, ok,
  err, PyError, assertion_error,
}

abbrev pub Script : Type 0 → Type 0 → Type 0
Script E A = List E → Result A × List E

module _ {E A : Type 0} where
  abbrev pub pure : A → Script E A
  pure a t = (ok a, t)

  abbrev pub raise : PyError → Script E A
  raise e t = (err e, t)

  abbrev pub lift : Result A → Script E A
  lift r t = (r, t)

abbrev pub emit : {E : Type 0} → E → Script E (Unit {0})
emit e t = (ok tt, t ++ e ∷ [])

abbrev pub verify : {E : Type 0} → Bool → Script E (Unit {0})
verify true t = (ok tt, t)
verify false t = (err assertion_error, t)

abbrev pub continue : {E A B : Type 0} → Result A × List E → (A → Script E B) → Result B × List E
continue (ok a, t) f = f a t
continue (err e, t) f = (err e, t)

infixl 5 ◌>>=◌ ◌>>◌
abbrev pub ◌>>=◌ : {E A B : Type 0} → Script E A → (A → Script E B) → Script E B
◌>>=◌ m f t = continue (m t) f

abbrev pub ◌>>◌ : {E A B : Type 0} → Script E A → Script E B → Script E B
m >> k = m >>= λ _. k

-- `for x in xs: body(x)`
unfoldable pub for_each : {E A : Type 0} → List A → (A → Script E (Unit {0})) → Script E (Unit {0})
for_each [] body = pure tt
for_each (x ∷ xs) body = body x >> for_each xs body

module _ {E A B : Type 0} (f : A → Script E B) {p : Result A × List E} {t : List E} where
  -- A first step that returns or raises decides how the block goes on.
  pub bind_ok : {a : A} {r : Result B × List E} → p ≡ (ok a, t) → f a t ≡ r → continue p f ≡ r
  bind_ok e k = ap (λ (q : Result A × List E). continue q f) e ∙ k

  pub bind_err : {e : PyError} → p ≡ (err e, t) → continue p f ≡ (err e, t)
  bind_err h = ap (λ (q : Result A × List E). continue q f) h

-- Equal traces behind the same result.
pub trace_eq :
    {E A : Type 0} {r : Result A} {s t : List E} → s ≡ t → ◌≡◌ {A = Result A × List E} (r, s) (r, t)
trace_eq {r = r} p = λ i. (r, p i)

-- A loop whose body only appends what `events` says.
pub for_each-emit :
    {E A : Type 0} (f : A → E) (xs : List A) (t : List E)
    → for_each xs (λ x. emit (f x)) t ≡ (ok tt, t ++ map f xs)
unfolding for_each
for_each-emit f [] t = trace_eq (sym (append-nil t))
for_each-emit f (x ∷ xs) t =
    for_each-emit f xs (t ++ f x ∷ []) ∙ trace_eq (append_assoc t (f x ∷ []) (map f xs))

-- The step returns the value and adds the effects, whatever came before.
abbrev pub Does : {E A : Type 0} → Script E A → A → List E → Type 0
Does {E = E} m a es = (t : List E) → m t ≡ (ok a, t ++ es)
