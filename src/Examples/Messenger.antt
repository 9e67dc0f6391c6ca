-- ===== src/Examples/Messenger.antt =====
-- The message broker at concrete inputs.
use mpc_server.Common.{
  ◌++◌, insert, arith, ◌≡◌, refl, [], ◌∷◌, none, some, ok, bytes, lookup, text_eq, arith,
}
use mathlib.Core.List.Memᴰ.{head}
use mpc_server.Messenger.Live.{Trail, start, subscribes, broadcasts, leaves, all_live_reached}
use mpc_server.Messenger.{
  broadcast, unsubscribe, publish, subscribe_room, get_room_or_create_empty, entry_or_empty, Db,
  Subscription, room_id, empty, watched, messages_at, next, subscribe,
}
use mpc_server.Messenger.Race.{raced, broadcast_all, first_subscriber_orphaned}
use mpc_server.Common.Decimal.{to_string}
use mpc_server.Messenger.Resume.{from_request, resumes}

abbrev pub two : Db
two = record {
  rooms = (room_id, 0) ∷ [];
  heap = record { messages = bytes "a" ∷ bytes "b" ∷ []; subscribers = 1; next_idx = 1 } ∷ [];
}

abbrev at_start : Subscription
at_start = record { room = 0; next_event = 0 }

abbrev pub at_end : Subscription
at_end = record { room = 0; next_event = 2 }

-- Two clients that come at the same moment, and a message after them.
first_subscriber_orphaned_example :
    let ((a, b), db) = raced none (some 4) empty in
    (messages_at (broadcast_all (bytes "a" ∷ []) db) b.room ≡ bytes "a" ∷ [])
    × (messages_at (broadcast_all (bytes "a" ∷ []) db) a.room ≡ [])
    × (next a (broadcast_all (bytes "a" ∷ []) db) ≡ none)
unfolding watched lookup
first_subscriber_orphaned_example =
    first_subscriber_orphaned empty none (some 4) (bytes "a" ∷ []) refl

abbrev between : Subscription
between = record { room = 0; next_event = 1 }

read_one : next at_start two ≡ some ((0, bytes "a"), between)
unfolding next
read_one = refl

resumes_example :
    (from_request (some (to_string 0)) ≡ ok (some 0)) × ((subscribe (some 0) two).0 ≡ between)
unfolding watched lookup text_eq
resumes_example = resumes two two at_start between 0 (bytes "a") read_one (omega arith) refl

-- Two clients subscribe, a message is broadcast, and the first one leaves.
abbrev walked : Db
walked =
    let (a, db1) = subscribe none empty in
    let (b, db2) = subscribe (some 4) db1 in unsubscribe a (broadcast (bytes "a") db2)

trail : Trail walked (0 ∷ [])
unfolding subscribe subscribe_room broadcast publish get_room_or_create_empty entry_or_empty watched
    lookup insert text_eq
trail =
    leaves (0 ∷ []) [] (record { room = 0; next_event = 0 })
      (broadcasts (bytes "a")
        (subscribes (some 4) (subscribes none start (omega arith)) (omega arith)))

all_live_reached_example :
    (watched walked room_id ≡ some 0)
    × (messages_at (broadcast (bytes "b") walked) 0 ≡ messages_at walked 0 ++ (bytes "b" ∷ []))
all_live_reached_example =
    all_live_reached walked (0 ∷ []) (record { room = 0; next_event = 5 }) (bytes "b") trail
      (head refl)
