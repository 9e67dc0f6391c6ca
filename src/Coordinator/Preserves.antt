-- ===== src/Coordinator/Preserves.antt =====
-- Every handler of the coordinator keeps it sound.
use mpc_server.Common.{
  ℕ, ◌≡◌, refl, sym, ◌∙◌, subst, Option, none, some, List, [], ◌∷◌, ◌++◌, Result, ok, err, ltb, All,
  Outcome, panicked, failed, done, Exec, Bool-cases, inl, inr,
}
use mathlib.Core.List.{append_assoc, append-nil}
use mpc_server.Common.Fallible.{some-injective}
use mpc_server.Common.Handler.{continue, lift, or_panic, caught}
use mpc_server.Externals.{
  Externals, the_sled, the_crypto, the_gg20, the_raw, the_generic, the_sealed, the_groups,
  the_shares,
}
use mpc_server.Messages.{RetryMessage, IncomingMessage}
use mpc_server.Proto.{WireMessage}
use mpc_server.Coordinator.State.{
  Coordinator, Effect, after_effect, keep_db, sends_keygen, sends_offline, sends_partial,
}
use mpc_server.Coordinator.Retry.{retry}
use mpc_server.Coordinator.Incoming.{handle_incoming_unsafe}
use mpc_server.Coordinator.Routing.{
  handed, to_offline, to_signer, to_keygen, retried, or_retried, with_effects, retry_lem,
  handle_incoming_unsafe_lem,
}
use mpc_server.Coordinator.Actors.{
  Kind, keygen_player, offline_player, signer_actor, origin, target, IsStarted, IsSound,
}
use mpc_server.Coordinator.Logged.{IsQuiet, IsStarted-append, quiet-IsSound}

module _ ⦃x : Externals⦄ where
  -- The predicate holds of the coordinator that a handler leaves, by an error or not.
  abbrev pub OnAny : {E A : Type 0} → (Coordinator → Type 0) → Outcome Coordinator E A → Type 0
  OnAny P panicked = Unit
  OnAny P (failed e s) = P s
  OnAny P (done a s) = P s

  module _ {E A B : Type 0} (P : Coordinator → Type 0) where
    pub lift-OnAny :
        (r : Result E A) (f : A → Exec Coordinator E B) (s : Coordinator)
        → P s
        → ((a : A) → OnAny P (f a s))
        → OnAny P (continue (lift r s) f)
    lift-OnAny (ok a) f s h k = k a
    lift-OnAny (err e) f s h k = h

    pub or_panic-OnAny :
        (o : Option A) (f : A → Exec Coordinator E B) (s : Coordinator)
        → ((a : A) → OnAny P (f a s))
        → OnAny P (continue (or_panic o s) f)
    or_panic-OnAny none f s k = tt
    or_panic-OnAny (some a) f s k = k a

    -- After a call whose error is a value.
    pub attempt-OnAny :
        {F : Type 0} (Q : Coordinator → Type 0) (o : Outcome Coordinator F A)
        (f : Result F A → Exec Coordinator E B)
        → OnAny Q o
        → ((r : Result F A) (s : Coordinator) → Q s → OnAny P (f r s))
        → OnAny P (continue (caught {F = E} o) f)
    attempt-OnAny Q panicked f h k = tt
    attempt-OnAny Q (failed e s) f h k = k (err e) s h
    attempt-OnAny Q (done a s) f h k = k (ok a) s h

    pub continue-OnAny :
        (Q : Coordinator → Type 0) (o : Outcome Coordinator E A) (f : A → Exec Coordinator E B)
        → OnAny Q o
        → ((s : Coordinator) → Q s → P s)
        → ((a : A) (s : Coordinator) → Q s → OnAny P (f a s))
        → OnAny P (continue o f)
    continue-OnAny Q panicked f h g k = tt
    continue-OnAny Q (failed e s) f h g k = g s h
    continue-OnAny Q (done a s) f h g k = k a s h

  pub last-OnAny :
      {E A : Type 0} (P : Coordinator → Type 0) (r : Result E A) (s : Coordinator)
      → P s
      → OnAny P (lift r s)
  last-OnAny P (ok a) s h = h
  last-OnAny P (err e) s h = h

  pub keep_db-OnAny :
      {E B F : Type 0} (P : Coordinator → Type 0) (r : Result F x.sled.Db)
      (f : Unit {0} → Exec Coordinator E B) (s : Coordinator)
      → ((db : x.sled.Db) → OnAny P (f tt (record s { db = db })))
      → OnAny P (continue (keep_db r s) f)
  keep_db-OnAny P (ok db) f s k = k db
  keep_db-OnAny P (err e) f s k = k s.db

  -- The effects of routing are quiet.
  IsQuiet-append : (es more : List Effect) (e : Effect) → IsQuiet es e → IsQuiet (es ++ more) e
  IsQuiet-append es more e (no_start, h) = (no_start, λ a t. IsStarted-append es more a (h a t))

  All-IsQuiet-append :
      (es more fs : List Effect) → All (IsQuiet es) fs → All (IsQuiet (es ++ more)) fs
  All-IsQuiet-append es more [] h = tt
  All-IsQuiet-append es more (f ∷ fs) h =
      (IsQuiet-append es more f h.0, All-IsQuiet-append es more fs h.1)

  pub with_effects-IsSound :
      (s : Coordinator) (es : List Effect)
      → IsSound s
      → All (IsQuiet s.effects) es
      → IsSound (with_effects s es)
  with_effects-IsSound s [] h q =
      subst (λ l. IsSound (record s { effects = l })) (sym (append-nil s.effects)) h
  with_effects-IsSound s (e ∷ es) h q =
      subst (λ l. IsSound (record s { effects = l })) (append_assoc s.effects (e ∷ []) es)
        (with_effects-IsSound (after_effect e s) es (quiet-IsSound s e h q.0)
          (All-IsQuiet-append s.effects (e ∷ []) es q.1))

  handed-IsQuiet :
      {M : Type 0} (es : List Effect) (to : ℕ → IncomingMessage M → Effect) (count : Effect)
      (k : Kind) (m : WireMessage) (runner : Option ℕ) (msg : Option M)
      → ((addr : ℕ)
          → runner ≡ some addr
          → IsStarted es (record { kind = k; address = addr; room = m.room }))
      → ((addr : ℕ) (i : IncomingMessage M)
          → (origin (to addr i) ≡ none)
            × (target (to addr i) ≡ some (record { kind = k; address = addr; room = i.room })))
      → (origin count ≡ none) × (target count ≡ none)
      → All (IsQuiet es) (handed to count m runner msg)
  handed-IsQuiet es to count k m none msg h t c = tt
  handed-IsQuiet es to count k m (some addr) none h t c = tt
  handed-IsQuiet es to count k m (some addr) (some msg) h t c = (
    (
      (t addr _).0,
      λ a q. subst (IsStarted es) (some-injective (sym (t addr _).1 ∙ q)) (h addr refl),
    ),
    ((c.0, λ a q. absurd (cc (sym c.1 ∙ q))), tt),
  )

  All-append : (P : Effect → Type 0) (es fs : List Effect) → All P es → All P fs → All P (es ++ fs)
  All-append P [] fs h k = k
  All-append P (e ∷ es) fs h k = (h.0, All-append P es fs h.1 k)

  routed-IsQuiet :
      (m : WireMessage) (s : Coordinator)
      → IsSound s
      → All (IsQuiet s.effects) (to_offline m s ++ (to_signer m s ++ to_keygen m s))
  unfolding to_offline to_signer to_keygen
  routed-IsQuiet m s h =
      All-append _ _ _
        (handed-IsQuiet s.effects sends_offline _ offline_player m _ _
          (λ addr e. h.offline m.room addr e) (λ addr i. (refl, refl)) (refl, refl))
        (All-append _ _ _
          (handed-IsQuiet s.effects sends_partial _ signer_actor m _ _
            (λ addr e. h.signing m.room addr e) (λ addr i. (refl, refl)) (refl, refl))
          (handed-IsQuiet s.effects sends_keygen _ keygen_player m _ _
            (λ addr e. h.keygen m.room addr e) (λ addr i. (refl, refl)) (refl, refl)))

  retried-IsQuiet : (es : List Effect) (m : RetryMessage) → IsQuiet es (retried m)
  unfolding retried
  retried-IsQuiet es m = elim (Bool-cases (ltb 33 m.attempts)) [
    | inl e ↦ rw (e, retried) (refl, λ a q. absurd (cc q))
    | inr e ↦ rw (e, retried) (refl, λ a q. absurd (cc q))
  ]

  or_retried-IsQuiet :
      (es fs : List Effect) (m : RetryMessage)
      → All (IsQuiet es) fs
      → All (IsQuiet es) (or_retried m fs)
  or_retried-IsQuiet es [] m h = (retried-IsQuiet es m, tt)
  or_retried-IsQuiet es (f ∷ fs) m h = h

  pub retry-IsSound :
      (E : Type 0) (m : RetryMessage) (s : Coordinator)
      → IsSound s
      → OnAny IsSound (retry {E = E} m s)
  retry-IsSound E m s h =
      subst (OnAny IsSound) (sym (retry_lem m s))
        (with_effects-IsSound s (retried m ∷ []) h (retried-IsQuiet s.effects m, tt))

  pub handle_incoming_unsafe-IsSound :
      (E : Type 0) (m : WireMessage) (ts attempts : ℕ) (s : Coordinator)
      → IsSound s
      → OnAny IsSound (handle_incoming_unsafe {E = E} m ts attempts s)
  handle_incoming_unsafe-IsSound E m ts attempts s h =
      subst (OnAny IsSound) (sym (handle_incoming_unsafe_lem m ts attempts s))
        (with_effects-IsSound s _ h (or_retried-IsQuiet s.effects _ _ (routed-IsQuiet m s h)))
