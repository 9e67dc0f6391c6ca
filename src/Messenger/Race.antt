-- ===== src/Messenger/Race.antt =====
-- Two routes of the broker that come between one another.
use mpc_server.Common.{
  ℕ, ◌+◌, ◌%◌, ◌≡◌, ◌≢◌, ◌<◌, refl, sym, ap, ◌∙◌, List, [], ◌∷◌, ◌++◌, Option, none, some, Text,
  lookup, length, get_elem?, set, arith, length-append, get_elem?-append, get_elem?-append_lt,
  get_elem?-set_self, get_elem?-set_ne, Option-cases, inl, inr,
}
use mathlib.Core.List.{append_assoc, append-nil}
use mpc_server.Messenger.{
  Room, Db, Subscription, room_id, empty_room, watched, get_room_or_create_empty, update_room,
  publish, first_event, subscribe_room, messages_at, next, broadcast,
}
use mpc_server.Messenger.Delivery.{
  get_room-new, watched_room, watched_of_room, update_room_lem, messages_at_room,
  messages_at-publish, broadcast-watched, lookup-insert_self, with_room, next_waits,
}

-- Messages that are broadcast one after the other.
pub broadcast_all : List Text → Db → Db
broadcast_all [] db = db
broadcast_all (m ∷ ms) db = broadcast_all ms (broadcast m db)

-- The routes of two subscribers, where both look for the room before either joins it.
pub raced : Option ℕ → Option ℕ → Db → (Subscription × Subscription) × Db
raced last_a last_b db =
    let (room_a, db1) = get_room_or_create_empty db room_id in
    let (room_b, db2) = get_room_or_create_empty db1 room_id in
    let (a, db3) = subscribe_room room_a last_a db2 in
    let (b, db4) = subscribe_room room_b last_b db3 in ((a, b), db4)

abbrev one_more : Room → Room
one_more r = record r { subscribers = (r.subscribers + 1) % 65536 }

abbrev joined : Room
joined = record empty_room { subscribers = 1 }

-- What two subscribers make of a room that nobody watches.
abbrev both_joined : Db → Db
both_joined db =
    let db2 = with_room (with_room db room_id) room_id in
    record db2 {
      heap = set (set db2.heap (length db.heap) joined) (length (with_room db room_id).heap) joined;
    }

module _ (db : Db) (e : watched db room_id ≡ none) where
  with_room_unwatched : watched (with_room db room_id) room_id ≡ none
  with_room_unwatched =
      watched_of_room (with_room db room_id) room_id (length db.heap) empty_room
        (lookup-insert_self room_id (length db.heap) db) (get_elem?-append db.heap empty_room)

  first_below : length db.heap < length (with_room db room_id).heap
  first_below = omega (arith, length-append db.heap (empty_room ∷ []))

  apart : length db.heap ≢ length (with_room db room_id).heap
  apart q = absurd (omega (arith, first_below, q))

  heap_first :
      get_elem? (with_room (with_room db room_id) room_id).heap (length db.heap) ≡ some empty_room
  heap_first =
      get_elem?-append_lt (with_room db room_id).heap (empty_room ∷ []) (length db.heap) first_below
      ∙ get_elem?-append db.heap empty_room

  heap_second :
      get_elem?
        (set (with_room (with_room db room_id) room_id).heap (length db.heap) joined)
        (length (with_room db room_id).heap)
      ≡ some empty_room
  heap_second =
      get_elem?-set_ne (with_room (with_room db room_id) room_id).heap (length db.heap)
        (length (with_room db room_id).heap) joined apart
      ∙ get_elem?-append (with_room db room_id).heap empty_room

  raced_lem :
      (last_a last_b : Option ℕ)
      → raced last_a last_b db ≡ (
        (
          record { room = length db.heap; next_event = first_event last_a },
          record { room = length (with_room db room_id).heap; next_event = first_event last_b },
        ),
        both_joined db,
      )
  unfolding raced subscribe_room
  raced_lem last_a last_b =
      let db2 = with_room (with_room db room_id) room_id in
      let first = length db.heap in
      let second = length (with_room db room_id).heap in
      rw (get_room-new db room_id e, raced)
        (rw (get_room-new (with_room db room_id) room_id with_room_unwatched) (
          ap
            (λ d. (
              (
                record { room = first; next_event = first_event last_a },
                record { room = second; next_event = first_event last_b },
              ),
              d,
            ))
            (ap (update_room one_more second)
                (update_room_lem one_more first db2 empty_room heap_first)
              ∙ update_room_lem one_more second (record db2 { heap = set db2.heap first joined })
                  empty_room heap_second)))

  both_joined-watched : watched (both_joined db) room_id ≡ some (length (with_room db room_id).heap)
  both_joined-watched =
      watched_of_room (both_joined db) room_id (length (with_room db room_id).heap) joined
        (lookup-insert_self room_id (length (with_room db room_id).heap) (with_room db room_id))
        (get_elem?-set_self
          (set (with_room (with_room db room_id) room_id).heap (length db.heap) joined)
          (length (with_room db room_id).heap) joined empty_room heap_second)

  both_joined-second : messages_at (both_joined db) (length (with_room db room_id).heap) ≡ []
  both_joined-second =
      messages_at_room (both_joined db) (length (with_room db room_id).heap) joined (
        get_elem?-set_self
          (set (with_room (with_room db room_id) room_id).heap (length db.heap) joined)
          (length (with_room db room_id).heap) joined empty_room heap_second)

  both_joined-first : messages_at (both_joined db) (length db.heap) ≡ []
  both_joined-first = messages_at_room (both_joined db) (length db.heap) joined (
      get_elem?-set_ne (set (with_room (with_room db room_id) room_id).heap (length db.heap) joined)
        (length (with_room db room_id).heap) (length db.heap) joined (λ q. apart (sym q))
      ∙ get_elem?-set_self (with_room (with_room db room_id) room_id).heap (length db.heap) joined
          empty_room heap_first)

watched-lookup :
    (db : Db) (id : Text) (addr : ℕ) → watched db id ≡ some addr → lookup id db.rooms ≡ some addr
unfolding watched
watched-lookup db id addr e = elim (Option-cases (lookup id db.rooms)) [
  | inl none_there ↦ absurd (ground arith)
  | inr (a, there) ↦ elim (Option-cases (get_elem? db.heap a)) [
    | inl no_room ↦ absurd (ground arith)
    | inr (room, at) ↦ ground arith
  ]
]

posted : Room → Text → Room
posted room m = record room { messages = room.messages ++ (m ∷ []) }

publish_lem :
    (db : Db) (addr : ℕ) (m : Text) (room : Room)
    → get_elem? db.heap addr ≡ some room
    → publish addr m db ≡ record db { heap = set db.heap addr (posted room m) }
unfolding publish posted
publish_lem db addr m room at = update_room_lem (λ r. posted r m) addr db room at

messages_at_ne :
    (db : Db) (addr other : ℕ) (room : Room)
    → addr ≢ other
    → messages_at (record db { heap = set db.heap addr room }) other ≡ messages_at db other
messages_at_ne db addr other room ne =
    rw (get_elem?-set_ne db.heap addr other room ne, messages_at) refl

-- A broadcast into a watched room: it stays watched, and no other room changes.
broadcast-others :
    (db : Db) (addr other : ℕ) (m : Text)
    → watched db room_id ≡ some addr
    → addr ≢ other
    → (watched (broadcast m db) room_id ≡ some addr)
      × (messages_at (broadcast m db) addr ≡ messages_at db addr ++ (m ∷ []))
      × (messages_at (broadcast m db) other ≡ messages_at db other)
broadcast-others db addr other m watching ne =
    let (room, at, busy) = watched_room db room_id addr watching in
    let after = record db { heap = set db.heap addr (posted room m) } in
    let e : broadcast m db ≡ after =
      broadcast-watched db addr m watching ∙ publish_lem db addr m room at in
    (
      ap (λ d. watched d room_id) e
          ∙ watched_of_room after room_id addr (posted room m)
              (watched-lookup db room_id addr watching)
              (get_elem?-set_self db.heap addr (posted room m) room at)
          ∙ (unfold posted in rw busy refl),
      ap (λ d. messages_at d addr) (broadcast-watched db addr m watching)
          ∙ messages_at-publish db addr m room at
          ∙ ap (λ ms. ms ++ (m ∷ [])) (sym (messages_at_room db addr room at)),
      ap (λ d. messages_at d other) e ∙ messages_at_ne db addr other (posted room m) ne,
    )

pub broadcast_all-others :
    (ms : List Text) (db : Db) (addr other : ℕ)
    → watched db room_id ≡ some addr
    → addr ≢ other
    → (messages_at (broadcast_all ms db) addr ≡ messages_at db addr ++ ms)
      × (messages_at (broadcast_all ms db) other ≡ messages_at db other)
unfolding broadcast_all
broadcast_all-others [] db addr other watching ne = (sym (append-nil (messages_at db addr)), refl)
broadcast_all-others (m ∷ ms) db addr other watching ne =
    let (still, here, there) = broadcast-others db addr other m watching ne in
    let (here', there') = broadcast_all-others ms (broadcast m db) addr other still ne in
    (
      here' ∙ ap (λ l. l ++ ms) here ∙ append_assoc (messages_at db addr) (m ∷ []) ms,
      there' ∙ there,
    )

-- Two subscribers that both look for a room that nobody watches, before either joins it, get a
-- room each: whatever is broadcast afterwards, the second one's room has all of it, and the first
-- one's has nothing, so that the first subscriber waits for ever.
pub first_subscriber_orphaned :
    (db : Db) (last_a last_b : Option ℕ) (ms : List Text)
    → watched db room_id ≡ none
    → let ((a, b), db') = raced last_a last_b db in
      (messages_at (broadcast_all ms db') b.room ≡ ms)
      × (messages_at (broadcast_all ms db') a.room ≡ [])
      × (next a (broadcast_all ms db') ≡ none)
first_subscriber_orphaned db last_a last_b ms e =
    let (second, first) =
      broadcast_all-others ms (both_joined db) (length (with_room db room_id).heap) (length db.heap)
        (both_joined-watched db e) (λ q. apart db e (sym q)) in
    let nothing = first ∙ both_joined-first db e in
    rw (raced_lem db e last_a last_b) (
      second ∙ ap (λ l. l ++ ms) (both_joined-second db e),
      nothing,
      next_waits _ (broadcast_all ms (both_joined db)) (rw nothing refl),
    )
