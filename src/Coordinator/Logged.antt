-- ===== src/Coordinator/Logged.antt =====
-- What keeps a coordinator sound: effects, actors that start, and changes of its maps.
use mpc_server.Common.{
  ℕ, zero, suc, ◌≡◌, ◌⊎◌, refl, sym, ap, ◌∙◌, subst, inl, inr, none, some, List, [], ◌∷◌, ◌++◌,
  Text, text_eq_iff, Map, lookup, insert, remove, lookup-insert, lookup-remove, get_elem?,
  get_elem?-append, length, arith,
}
use mpc_server.Common.Fallible.{some-injective}
use mpc_server.Externals.{Externals, the_gg20, the_sled, the_crypto}
use mpc_server.Coordinator.State.{Coordinator, Effect, after_effect}
use mpc_server.Coordinator.Actors.{
  Kind, keygen_player, offline_player, signer_actor, Actor, origin, target, IsStarted, AreStarted,
  IsLogged, IsSound,
}

lookup-insert_cases :
    (k j : Text) (v w : ℕ) (m : Map ℕ)
    → lookup j (insert k v m) ≡ some w
    → ((k ≡ j) × (v ≡ w)) ⊎ (lookup j m ≡ some w)
lookup-insert_cases k j v w m h = ground (arith, lookup-insert k j v m, text_eq_iff k j)

lookup-remove-some :
    (k j : Text) (w : ℕ) (m : Map ℕ) → lookup j (remove k m) ≡ some w → lookup j m ≡ some w
lookup-remove-some k j w m h = ground (arith, lookup-remove k j m)

get_elem?-prefix {ℓ} :
    {A : Type ℓ} (xs ys : List A) (i : ℕ) (e : A)
    → get_elem? xs i ≡ some e
    → get_elem? (xs ++ ys) i ≡ some e
get_elem?-prefix [] ys i e h = absurd (cc h)
get_elem?-prefix (x ∷ xs) ys zero e h = h
get_elem?-prefix (x ∷ xs) ys (suc i) e h = get_elem?-prefix xs ys i e h

-- An element of a list with one more at its end.
snoc-cases {ℓ} :
    {A : Type ℓ} (xs : List A) (y : A) (i : ℕ) (e : A)
    → get_elem? (xs ++ (y ∷ [])) i ≡ some e
    → (get_elem? xs i ≡ some e) ⊎ ((i ≡ length xs) × (e ≡ y))
snoc-cases [] y zero e h = inr (refl, cc h)
snoc-cases [] y (suc i) e h = absurd (cc h)
snoc-cases (x ∷ xs) y zero e h = inl h
snoc-cases (x ∷ xs) y (suc i) e h = elim (snoc-cases xs y i e h) [
  | inl p ↦ inl p
  | inr (p, q) ↦ inr (ap suc p, q)
]

module _ ⦃x : Externals⦄ where
  pub IsStarted-append :
      (es more : List Effect) (a : Actor) → IsStarted es a → IsStarted (es ++ more) a
  IsStarted-append es more a (i, e, at, o) = (i, e, get_elem?-prefix es more i e at, o)

  -- An effect that starts nothing, and is for an actor that has been started.
  abbrev pub IsQuiet : List Effect → Effect → Type 0
  IsQuiet es e = (origin e ≡ none) × ((a : Actor) → target e ≡ some a → IsStarted es a)

  quiet-IsLogged :
      (es : List Effect) (n : ℕ) (e : Effect)
      → IsLogged es n
      → IsQuiet es e
      → IsLogged (es ++ (e ∷ [])) n
  quiet-IsLogged es n e h (no_start, for_started) = record {
    sent = λ i f a at to. IsStarted-append es _ a (elim (snoc-cases es e i f at) [
      | inl before ↦ h.sent i f a before to
      | inr (_, new) ↦ for_started a (ap target (sym new) ∙ to)
    ]);
    below = λ i f a at o. elim (snoc-cases es e i f at) [
      | inl before ↦ h.below i f a before o
      | inr (_, new) ↦ absurd (cc (sym (ap origin new ∙ no_start) ∙ o))
    ];
    unique = λ i j f g a b at at' o o' q. elim (snoc-cases es e i f at) [
      | inr (_, new) ↦ absurd (cc (sym (ap origin new ∙ no_start) ∙ o))
      | inl before ↦ elim (snoc-cases es e j g at') [
        | inr (_, new) ↦ absurd (cc (sym (ap origin new ∙ no_start) ∙ o'))
        | inl before' ↦ h.unique i j f g a b before before' o o' q
      ]
    ];
  }

  -- An effect that starts an actor at the next address.
  start-IsLogged :
      (es : List Effect) (n : ℕ) (e : Effect) (new : Actor)
      → IsLogged es n
      → target e ≡ none
      → origin e ≡ some new
      → new.address ≡ n
      → IsLogged (es ++ (e ∷ [])) (suc n)
  start-IsLogged es n e new h no_target starts next = record {
    sent = λ i f a at to. IsStarted-append es _ a (elim (snoc-cases es e i f at) [
      | inl before ↦ h.sent i f a before to
      | inr (_, q) ↦ absurd (cc (sym (ap target q ∙ no_target) ∙ to))
    ]);
    below = λ i f a at o. elim (snoc-cases es e i f at) [
      | inl before ↦ omega (arith, h.below i f a before o)
      | inr (_, q) ↦
          let same = some-injective (sym (ap origin q ∙ starts) ∙ o) in
          omega (arith, ap (λ (c : Actor). c.address) same, next)
    ];
    unique = λ i j f g a b at at' o o' q. elim (snoc-cases es e i f at) [
      | inl before ↦ elim (snoc-cases es e j g at') [
        | inl before' ↦ h.unique i j f g a b before before' o o' q
        | inr (_, r) ↦
            let same = some-injective (sym (ap origin r ∙ starts) ∙ o') in
            absurd
              (omega (arith, h.below i f a before o, ap (λ (c : Actor). c.address) same, next, q))
      ]
      | inr (l, r) ↦ elim (snoc-cases es e j g at') [
        | inl before' ↦
            let same = some-injective (sym (ap origin r ∙ starts) ∙ o) in
            absurd
              (omega (arith, h.below j g b before' o', ap (λ (c : Actor). c.address) same, next, q))
        | inr (l', _) ↦ l ∙ sym l'
      ]
    ];
  }

  AreStarted-append :
      (es more : List Effect) (k : Kind) (m : Map ℕ)
      → AreStarted es k m
      → AreStarted (es ++ more) k m
  AreStarted-append es more k m h room addr at = IsStarted-append es more _ (h room addr at)

  AreStarted-insert :
      (es : List Effect) (k : Kind) (m : Map ℕ) (room : Text) (addr : ℕ)
      → AreStarted es k m
      → IsStarted es (record { kind = k; address = addr; room = room })
      → AreStarted es k (insert room addr m)
  AreStarted-insert es k m room addr h new other a at =
      elim (lookup-insert_cases room other addr a m at) [
        | inl (r, e) ↦
            subst (λ b. IsStarted es (record { kind = k; address = b; room = other })) e
              (subst (λ o. IsStarted es (record { kind = k; address = addr; room = o })) r new)
        | inr old ↦ h other a old
      ]

  AreStarted-remove :
      (es : List Effect) (k : Kind) (m : Map ℕ) (room : Text)
      → AreStarted es k m
      → AreStarted es k (remove room m)
  AreStarted-remove es k m room h other a at = h other a (lookup-remove-some room other a m at)

  pub quiet-IsSound :
      (s : Coordinator) (e : Effect) → IsSound s → IsQuiet s.effects e → IsSound (after_effect e s)
  quiet-IsSound s e h q = record {
    keygen = AreStarted-append s.effects _ _ _ h.keygen;
    offline = AreStarted-append s.effects _ _ _ h.offline;
    signing = AreStarted-append s.effects _ _ _ h.signing;
    log = quiet-IsLogged s.effects s.started e h.log q;
  }

  -- The state after `start`, and the new actor in it.
  pub start-IsSound :
      (s : Coordinator) (e : Effect) (new : Actor)
      → IsSound s
      → target e ≡ none
      → origin e ≡ some new
      → new.address ≡ s.started
      → let s' = after_effect e (record s { started = suc s.started }) in
        IsSound s' × IsStarted s'.effects new
  start-IsSound s e new h no_target starts next = (
    record {
      keygen = AreStarted-append s.effects _ _ _ h.keygen;
      offline = AreStarted-append s.effects _ _ _ h.offline;
      signing = AreStarted-append s.effects _ _ _ h.signing;
      log = start-IsLogged s.effects s.started e new h.log no_target starts next;
    },
    (length s.effects, e, get_elem?-append s.effects e, starts),
  )

  -- The changes of the maps and of the rest.
  pub keygen_runners-IsSound :
      (s : Coordinator) (room : Text) (addr : ℕ)
      → IsSound s
      → IsStarted s.effects (record { kind = keygen_player; address = addr; room = room })
      → IsSound (record s { keygen_runners = insert room addr s.keygen_runners })
  keygen_runners-IsSound s room addr h new = record {
    keygen = AreStarted-insert s.effects _ s.keygen_runners room addr h.keygen new;
    offline = h.offline;
    signing = h.signing;
    log = h.log;
  }

  pub offline_runners-IsSound :
      (s : Coordinator) (room : Text) (addr : ℕ)
      → IsSound s
      → IsStarted s.effects (record { kind = offline_player; address = addr; room = room })
      → IsSound (record s { offline_state_runners = insert room addr s.offline_state_runners })
  offline_runners-IsSound s room addr h new = record {
    keygen = h.keygen;
    offline = AreStarted-insert s.effects _ s.offline_state_runners room addr h.offline new;
    signing = h.signing;
    log = h.log;
  }

  pub signers-IsSound :
      (s : Coordinator) (room : Text) (addr : ℕ)
      → IsSound s
      → IsStarted s.effects (record { kind = signer_actor; address = addr; room = room })
      → IsSound (record s { signers = insert room addr s.signers })
  signers-IsSound s room addr h new = record {
    keygen = h.keygen;
    offline = h.offline;
    signing = AreStarted-insert s.effects _ s.signers room addr h.signing new;
    log = h.log;
  }

  pub offline_removed-IsSound :
      (s : Coordinator) (room : Text)
      → IsSound s
      → IsSound (record s { offline_state_runners = remove room s.offline_state_runners })
  offline_removed-IsSound s room h = record {
    keygen = h.keygen;
    offline = AreStarted-remove s.effects _ s.offline_state_runners room h.offline;
    signing = h.signing;
    log = h.log;
  }

  -- The database and the clock do not matter.
  pub rest-IsSound :
      (s : Coordinator) (db : x.sled.Db) (now : ℕ)
      → IsSound s
      → IsSound (record s { db = db; clock = now })
  rest-IsSound s db now h = record {
    keygen = h.keygen;
    offline = h.offline;
    signing = h.signing;
    log = h.log;
  }
