-- ===== src/System/Network.antt =====
-- Messages on their way from the sinks of servers through the broker to the stream of another.
use mpc_server.Common.{
  ℕ, suc, ◌+◌, ◌<◌, ◌≡◌, refl, sym, ap, ◌∙◌, Bool, true, false, Option, none, some, List, [], ◌∷◌,
  ◌++◌, Result, ok, err, Text, text_eq, length, length-append, take, drop, map, if◌then◌else◌,
  arith,
}
use mathlib.Core.List.{filter_map, filter_map-cons-some}
use mpc_server.Common.Fallible.{◌>>=◌, bind-elim, ok-injective}
use mpc_server.External.Crypto.{Crypto, CryptoLaws}
use mpc_server.External.Queues.{Event, message}
use mpc_server.External.Serde.{Serde, SerdeLaws}
use mpc_server.Failure.{Failure}
use mpc_server.Messenger.{Db, Subscription, room_id, watched, messages_at}
use mpc_server.Messenger.Delivery.{events, numbered, events-eq-history}
use mpc_server.Messenger.Race.{broadcast_all, broadcast_all-others}
use mpc_server.Proto.{WireMessage, CoreMessage}
use mpc_server.Transport.{incoming, outgoing}
use mpc_server.Transport.RoundTrip.{incoming-cons, do_parse_signed-outgoing}
use mpc_server.Transport.Clients.{own_pub_key, text_of_event, texts_of_events}

module _ ⦃crypto : Crypto⦄ ⦃wire : Serde WireMessage⦄ where
  -- What the sinks of these servers broadcast, one message after the other.
  unfoldable pub signed_texts : List (crypto.SecretKey × CoreMessage) → Result Failure (List Text)
  signed_texts [] = ok []
  signed_texts ((key, unsigned) ∷ rest) = do
    text ← outgoing key unsigned
    texts ← signed_texts rest
    ok (text ∷ texts)

  -- The messages that are not a server's own, with the keys of their senders.
  abbrev pub of_others :
      Text → List (crypto.SecretKey × CoreMessage) → List (Option (CoreMessage × Text))
  of_others own [] = []
  of_others own ((key, unsigned) ∷ rest) =
      if text_eq (own_pub_key key) own
      then of_others own rest
      else some (unsigned, own_pub_key key) ∷ of_others own rest

  -- What a message of the stream says, and who sent it.
  abbrev pub said : Result Failure WireMessage → Option (CoreMessage × Text)
  said (ok w) = some (record { room = w.room; message = w.payload }, w.sender_public_key)
  said (err _) = none

-- Events as they come out of the broker.
abbrev pub as_events : List (ℕ × Text) → List (Option Event)
as_events es = map (λ e. some (message e.1)) es

drop-length_append : (ms more : List Text) → drop (length ms) (ms ++ more) ≡ more
drop-length_append [] more = refl
drop-length_append (m ∷ ms) more = drop-length_append ms more

take-length : (ms : List Text) → take (length ms) ms ≡ ms
take-length [] = refl
take-length (m ∷ ms) = ap (◌∷◌ m) (take-length ms)

as_events-numbered :
    (i : ℕ) (ms : List Text) → as_events (numbered i ms) ≡ map (λ m. some (message m)) ms
unfolding numbered
as_events-numbered i [] = refl
as_events-numbered i (m ∷ ms) = ap (◌∷◌ (some (message m))) (as_events-numbered (suc i) ms)

-- A subscription at the end of its room reads next what is broadcast then.
events-broadcast_all :
    (ms : List Text) (s : Subscription) (db : Db)
    → watched db room_id ≡ some s.room
    → s.next_event ≡ length (messages_at db s.room)
    → s.next_event + length ms < 65536
    → events (length ms) s (broadcast_all ms db) ≡ numbered s.next_event ms
events-broadcast_all ms s db watching end small =
    let (grown, _) =
      broadcast_all-others ms db s.room (suc s.room) watching (λ q. absurd (omega (arith, q))) in
    let enough : length (messages_at (broadcast_all ms db) s.room) ≡ s.next_event + length ms =
      ap length grown
      ∙ length-append (messages_at db s.room) ms
      ∙ ap (λ n. n + length ms) (sym end) in
    events-eq-history (length ms) s (broadcast_all ms db) (omega (arith, enough)) small
    ∙ ap (λ h. numbered s.next_event (take (length ms) (drop s.next_event h))) grown
    ∙ ap (λ n. numbered s.next_event (take (length ms) (drop n (messages_at db s.room ++ ms)))) end
    ∙ ap (λ h. numbered s.next_event (take (length ms) h))
        (drop-length_append (messages_at db s.room) ms)
    ∙ ap (numbered s.next_event) (take-length ms)

module _ ⦃crypto : Crypto⦄ ⦃wire : Serde WireMessage⦄ (keys : CryptoLaws)
    (json : SerdeLaws WireMessage) where
  -- A Rust string is UTF-8.
  abbrev pub IsUtf8 : Type 0
  IsUtf8 = (w : WireMessage) (text : Text) → wire.write w ≡ some text → crypto.is_utf8 text ≡ true

  abbrev arrived : Text → List Text → List (Result Failure WireMessage)
  arrived own texts = incoming own (texts_of_events (map (λ m. some (message m)) texts))

  said_if :
      (b : Bool) (r : Result Failure WireMessage) (rest : List (Result Failure WireMessage))
      → map said (if b then rest else r ∷ rest)
        ≡ (if b then map said rest else said r ∷ map said rest)
  said_if true r rest = refl
  said_if false r rest = refl

  text_of_event_lem :
      (text : Text)
      → crypto.is_utf8 text ≡ true
      → text_of_event (some (message text)) ≡ some (ok text)
  unfolding text_of_event
  text_of_event_lem text e = rw e refl

  one_arrives :
      IsUtf8
      → (own text : Text) (texts : List Text) (key : crypto.SecretKey) (unsigned : CoreMessage)
      → outgoing key unsigned ≡ ok text
      → map said (arrived own (text ∷ texts)) ≡ (
          if text_eq (own_pub_key key) own
          then map said (arrived own texts)
          else some (unsigned, own_pub_key key) ∷ map said (arrived own texts))
  one_arrives utf8 own text texts key unsigned sends =
      let (w, parsed, written, room, payload, sender) =
        do_parse_signed-outgoing keys json key text unsigned sends in
      ap (λ l. map said (incoming own l))
        (filter_map-cons-some text_of_event (some (message text))
          (map (λ m. some (message m)) texts) (text_of_event_lem text (utf8 w text written)))
      ∙ ap (map said) (
          incoming-cons key own text (texts_of_events (map (λ m. some (message m)) texts)) w parsed)
      ∙ said_if (text_eq w.sender_public_key own) (ok w) (arrived own texts)
      ∙ rw (sender, room, payload) refl

  texts_arrive :
      IsUtf8
      → (own : Text) (senders : List (crypto.SecretKey × CoreMessage)) (texts : List Text)
      → signed_texts senders ≡ ok texts
      → map said (arrived own texts) ≡ of_others own senders
  unfolding signed_texts incoming filter_map
  texts_arrive utf8 own [] texts h = rw (sym (ok-injective h)) refl
  texts_arrive utf8 own ((key, unsigned) ∷ senders) texts h =
      bind-elim (outgoing key unsigned) _ h λ text sends h1.
        bind-elim (signed_texts senders) _ h1 λ more rest h2.
          ap (λ l. map said (arrived own l)) (sym (ok-injective h2))
          ∙ one_arrives utf8 own text more key unsigned sends
          ∙ ap
              (λ l.
                if text_eq (own_pub_key key) own then l else some (unsigned, own_pub_key key) ∷ l)
              (texts_arrive utf8 own senders more rest)

  -- While a subscriber waits at the end of a watched room that stays below 65536 messages, any
  -- messages are signed and broadcast, by any servers and in any order: the stream that the
  -- subscriber's server makes of its next events has exactly the messages whose senders' key is
  -- not its own, in the order of the broadcasts, with their rooms, texts and senders unchanged.
  pub network_delivers :
      (own : Text) (senders : List (crypto.SecretKey × CoreMessage)) (texts : List Text)
      (s : Subscription) (db : Db)
      → IsUtf8
      → signed_texts senders ≡ ok texts
      → watched db room_id ≡ some s.room
      → s.next_event ≡ length (messages_at db s.room)
      → s.next_event + length texts < 65536
      → map said (
          incoming own
            (texts_of_events (as_events (events (length texts) s (broadcast_all texts db)))))
        ≡ of_others own senders
  network_delivers own senders texts s db utf8 sends watching end small =
      ap (λ es. map said (incoming own (texts_of_events (as_events es))))
        (events-broadcast_all texts s db watching end small)
      ∙ ap (λ es. map said (incoming own (texts_of_events es)))
          (as_events-numbered s.next_event texts)
      ∙ texts_arrive utf8 own senders texts sends
