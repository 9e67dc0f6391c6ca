-- ===== src/Common/Fallible.antt =====
-- Rust's `Result`, with its error type.
use mathlib.Core.Option.{Option, none, some}
use mathlib.Core.Logic.{◌⊎◌, inl, inr}
use mathlib.Core.Path.{◌≡◌, refl}

pub data Result (E : Type 0) (A : Type 0) : Type 0 where
  ok : A → Result E A
  err : E → Result E A

infixl 5 ◌>>=◌
abbrev pub ◌>>=◌ : {E A B : Type 0} → Result E A → (A → Result E B) → Result E B
ok a >>= f = f a
err e >>= f = err e

-- `.map_err(|_| e)`, and `.context(e)` on a result.
abbrev pub map_err : {E F A : Type 0} → Result E A → F → Result F A
map_err (ok a) e = ok a
map_err (err _) e = err e

-- `.ok_or(e)`, and `.context(e)` on an option.
abbrev pub ok_or : {E A : Type 0} → Option A → E → Result E A
ok_or (some a) e = ok a
ok_or none e = err e

-- The inverse of a `?`: what a successful call went through.
pub ok_or_bind-eq-ok :
    {E A B : Type 0} (o : Option A) (e : E) (f : A → Result E B) {b : B}
    → (ok_or o e >>= f) ≡ ok b
    → (a : A) × (o ≡ some a) × (f a ≡ ok b)
ok_or_bind-eq-ok none e f h = cc
ok_or_bind-eq-ok (some a) e f h = (a, refl, h)

pub map_err_bind-eq-ok :
    {E F A B : Type 0} (r : Result E A) (e : F) (f : A → Result F B) {b : B}
    → (map_err r e >>= f) ≡ ok b
    → (a : A) × (r ≡ ok a) × (f a ≡ ok b)
map_err_bind-eq-ok (err x) e f h = cc
map_err_bind-eq-ok (ok a) e f h = (a, refl, h)

pub ok_or-eq-ok : {E A : Type 0} (o : Option A) (e : E) {a : A} → ok_or o e ≡ ok a → o ≡ some a
ok_or-eq-ok none e h = cc
ok_or-eq-ok (some a) e h = cc

pub ok-injective : {E A : Type 0} {a b : A} → ◌≡◌ {A = Result E A} (ok a) (ok b) → a ≡ b
ok-injective h = cc

pub some-injective : {A : Type 0} {a b : A} → some a ≡ some b → a ≡ b
some-injective h = cc

pub bind-eq-ok :
    {E A B : Type 0} (r : Result E A) (f : A → Result E B) {b : B}
    → (r >>= f) ≡ ok b
    → (a : A) × (r ≡ ok a) × (f a ≡ ok b)
bind-eq-ok (err x) f h = cc
bind-eq-ok (ok a) f h = (a, refl, h)

-- The same, for long chains: the rest of the proof sees variables.
pub ok_or_bind-elim :
    {E A B P : Type 0} (o : Option A) (e : E) (f : A → Result E B) {b : B}
    → (ok_or o e >>= f) ≡ ok b
    → ((a : A) → o ≡ some a → f a ≡ ok b → P)
    → P
ok_or_bind-elim none e f h k = absurd (cc h)
ok_or_bind-elim (some a) e f h k = k a refl h

pub bind-elim :
    {E A B P : Type 0} (r : Result E A) (f : A → Result E B) {b : B}
    → (r >>= f) ≡ ok b
    → ((a : A) → r ≡ ok a → f a ≡ ok b → P)
    → P
bind-elim (err x) f h k = absurd (cc h)
bind-elim (ok a) f h k = k a refl h

pub Result-cases :
    {E A : Type 0} (r : Result E A) → ((a : A) × (r ≡ ok a)) ⊎ ((e : E) × (r ≡ err e))
Result-cases (ok a) = inl (a, refl)
Result-cases (err e) = inr (e, refl)
