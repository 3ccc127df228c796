-- ===== src/Base/Checked.antt =====
-- Expressions that may raise and have no effect: `do` blocks over `Result`.
use skyros.Base.{Bool, Result, ok, err, PyError, if◌then◌else◌}

-- `assert test`, with the exception that it raises
abbrev pub guard : Bool → PyError → Result (Unit {0})
guard test exception = if test then ok tt else err exception

infixl 5 ◌>>=◌
abbrev pub ◌>>=◌ {κ ℓ} : {X : Type κ} {Y : Type ℓ} → Result X → (X → Result Y) → Result Y
err exception >>= rest = err exception
ok value >>= rest = rest value

infixl 5 ◌>>◌
abbrev pub ◌>>◌ {ℓ} : {Y : Type ℓ} → Result (Unit {0}) → Result Y → Result Y
first >> then_do = first >>= (λ done. then_do)
