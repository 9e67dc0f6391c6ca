-- ===== src/Player/Trace.antt =====
-- What a player sends during its life.
use mpc_server.Common.{
  ◌≡◌, refl, sym, ap, ◌∙◌, Option, none, some, List, [], ◌∷◌, ◌++◌, Result, ok, err, Text, All,
  Option-cases, inl, inr,
}
use mathlib.Core.List.{append_assoc, append-nil}
use mpc_server.External.RoundBased.{Msg, StateMachine}
use mpc_server.Player.{
  Sent, MpcPlayer, error, outgoing, result, maybe_proceed_later, outgoings, send_outgoing,
  finish_with,
}
use mpc_server.Player.Preserves.{Event, IsKept, run, run_keeps}

-- It names the room and the input, and a timer is one of 250 milliseconds.
abbrev pub IsLabelled : {I M E O : Type 0} → Text → I → Sent I M E O → Type 0
IsLabelled room input (error e) = e.room ≡ room
IsLabelled room input (outgoing m) = m.room ≡ room
IsLabelled room input (result r) = r.input ≡ input
IsLabelled room input (maybe_proceed_later n) = n ≡ 250

All-append {ℓ ℓ'} :
    {A : Type ℓ} (P : A → Type ℓ') (xs ys : List A) → All P xs → All P ys → All P (xs ++ ys)
All-append P [] ys hx hy = hy
All-append P (x ∷ xs) ys hx hy = (hx.0, All-append P xs ys hx.1 hy)

module _ {I SM M E O : Type 0} where
  -- The second player is the first one later: it has sent more, all of it labelled, and the
  -- room, the index and the input are the same.
  pub record IsLater (p q : MpcPlayer I SM M E O) : Type 0 where
    pub more : List (Sent I M E O)
    pub sent : q.sent ≡ p.sent ++ more
    pub labelled : All (IsLabelled p.room p.input) more
    pub room : q.room ≡ p.room
    pub index : q.index ≡ p.index
    pub input : q.input ≡ p.input

  IsLater-same :
      (p q : MpcPlayer I SM M E O)
      → q.sent ≡ p.sent
      → q.room ≡ p.room
      → q.index ≡ p.index
      → q.input ≡ p.input
      → IsLater p q
  IsLater-same p q s r i n = record {
    more = [];
    sent = s ∙ sym (append-nil p.sent);
    labelled = tt;
    room = r;
    index = i;
    input = n;
  }

  IsLater-trans : (p q r : MpcPlayer I SM M E O) → IsLater p q → IsLater q r → IsLater p r
  IsLater-trans p q r a b = record {
    more = a.more ++ b.more;
    sent = b.sent ∙ ap (λ l. l ++ b.more) a.sent ∙ append_assoc p.sent a.more b.more;
    labelled = All-append _ a.more b.more a.labelled (rw (sym a.room, sym a.input) b.labelled);
    room = b.room ∙ a.room;
    index = b.index ∙ a.index;
    input = b.input ∙ a.input;
  }

  IsLater-sent :
      (p : MpcPlayer I SM M E O) (e : Sent I M E O)
      → IsLabelled p.room p.input e
      → IsLater p (record p { sent = p.sent ++ (e ∷ []) })
  IsLater-sent p e h = record {
    more = e ∷ [];
    sent = refl;
    labelled = (h, tt);
    room = refl;
    index = refl;
    input = refl;
  }

  module _ (machine : StateMachine SM M E O) (write : Msg M → Option Text) where
    outgoings-IsLabelled :
        (p : MpcPlayer I SM M E O) (ms : List (Msg M))
        → All (IsLabelled p.room p.input) (outgoings machine write p.room ms)
    unfolding outgoings
    outgoings-IsLabelled p [] = tt
    outgoings-IsLabelled p (m ∷ ms) = elim (Option-cases (write m)) [
      | inl e ↦ rw (e, outgoings) (outgoings-IsLabelled p ms)
      | inr (t, e) ↦ rw (e, outgoings) (refl, outgoings-IsLabelled p ms)
    ]

    send_outgoing-IsLater : (p : MpcPlayer I SM M E O) → IsLater p (send_outgoing machine write p)
    unfolding send_outgoing
    send_outgoing-IsLater p = record {
      more = outgoings machine write p.room (machine.message_queue p.state);
      sent = refl;
      labelled = outgoings-IsLabelled p (machine.message_queue p.state);
      room = refl;
      index = refl;
      input = refl;
    }

    finish_with-IsLater :
        (o : Option (Result E O)) (p : MpcPlayer I SM M E O)
        → IsLater p (finish_with machine write o p)
    unfolding finish_with
    finish_with-IsLater none p = IsLater-same _ _ refl refl refl refl
    finish_with-IsLater (some (err e)) p = IsLater-same _ _ refl refl refl refl
    finish_with-IsLater (some (ok output)) p = IsLater-sent p _ refl

    -- Each change of a player makes it a later one.
    IsLater-IsKept : (p : MpcPlayer I SM M E O) → IsKept machine write (IsLater p)
    IsLater-IsKept p =
        let same : (q r : MpcPlayer I SM M E O)
            → IsLater p q
            → r.sent ≡ q.sent
            → r.room ≡ q.room
            → r.index ≡ q.index
            → r.input ≡ q.input
            → IsLater p r =
          λ q r h s o i n. IsLater-trans p q r h (IsLater-same q r s o i n) in
        record {
          counts = λ n q h. same q _ h refl refl refl refl;
          times = λ round deadline q h. same q _ h refl refl refl refl;
          errs = λ e msg q h. IsLater-trans p q _ h (IsLater-sent q _ refl);
          waits = λ q h. IsLater-trans p q _ h (IsLater-sent q _ refl);
          takes = λ m q h. same q _ h refl refl refl refl;
          proceeds = λ q h. same q _ h refl refl refl refl;
          drains = λ q h. IsLater-trans p q _ h (send_outgoing-IsLater q);
          finishes = λ q h e.
              IsLater-trans p (record q { state = (machine.pick_output q.state).1 }) _
                (same q _ h refl refl refl refl) (finish_with-IsLater _ _);
        }

    -- Whatever messages and timers a player is given, in any order: it only adds to what it has
    -- sent, its errors and messages name its own room, its results carry its own input, its timers
    -- are of 250 milliseconds, and its room, index and input stay.
    pub run-IsLater :
        (es : List (Event M)) (p : MpcPlayer I SM M E O) → IsLater p (run machine write es p)
    run-IsLater es p =
        run_keeps machine write (IsLater p) (IsLater-IsKept p) es p
          (IsLater-same p p refl refl refl refl)
