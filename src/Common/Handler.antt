-- ===== src/Common/Handler.antt =====
-- Methods that change an object: they may panic, or return an error and keep what they have written.
use mathlib.Core.Option.{Option, none, some}
use mpc_server.Common.Fallible.{Result, ok, err}

pub data Outcome (S E A : Type 0) : Type 0 where
  panicked : Outcome S E A
  failed : E → S → Outcome S E A
  done : A → S → Outcome S E A

abbrev pub Exec : Type 0 → Type 0 → Type 0 → Type 0
Exec S E A = S → Outcome S E A

module _ {S E : Type 0} where
  abbrev pub continue : {A B : Type 0} → Outcome S E A → (A → Exec S E B) → Outcome S E B
  continue panicked f = panicked
  continue (failed e s) f = failed e s
  continue (done a s) f = f a s

  infixl 5 ◌>>=◌ ◌>>◌
  abbrev pub ◌>>=◌ : {A B : Type 0} → Exec S E A → (A → Exec S E B) → Exec S E B
  ◌>>=◌ m f s = continue (m s) f

  abbrev pub ◌>>◌ : {B : Type 0} → Exec S E (Unit {0}) → Exec S E B → Exec S E B
  m >> k = m >>= λ _. k

  abbrev pub pure : {A : Type 0} → A → Exec S E A
  pure a s = done a s

  abbrev pub gets : {A : Type 0} → (S → A) → Exec S E A
  gets f s = done (f s) s

  abbrev pub modify : (S → S) → Exec S E (Unit {0})
  modify f s = done tt (f s)

  -- `?` on a result.
  abbrev pub lift : {A : Type 0} → Result E A → Exec S E A
  lift (ok a) s = done a s
  lift (err e) s = failed e s

  -- A computation that panics where it has no value.
  abbrev pub or_panic : {A : Type 0} → Option A → Exec S E A
  or_panic (some a) s = done a s
  or_panic none s = panicked

  abbrev pub caught : {F A : Type 0} → Outcome S E A → Outcome S F (Result E A)
  caught panicked = panicked
  caught (failed e s) = done (err e) s
  caught (done a s) = done (ok a) s

  -- The result as a value, to be matched or thrown away (`let _ = …`).
  abbrev pub attempt : {F A : Type 0} → Exec S E A → Exec S F (Result E A)
  attempt m s = caught (m s)
