-- ===== src/Messenger/Delivery.antt =====
-- Which messages reach a subscription.
use mpc_server.Common.{
  ℕ, zero, suc, ◌+◌, ◌%◌, ◌≤◌, ◌<◌, ◌≡◌, refl, sym, ap, ◌∙◌, false, List, [], ◌∷◌, ◌++◌, Option,
  none, some, Text, lookup, insert, lookup-insert, text_eq_refl, length, get_elem?, set,
  if◌then◌else◌, arith, get_elem?-set_self, get_elem?-append, Option-cases, inl, inr, take, drop,
}
use mpc_server.Messenger.{
  Db, Room, Subscription, room_id, empty_room, is_abandoned, watched, get_room_or_create_empty,
  publish, update_room, subscribe, next, broadcast, messages_at, entry_or_empty,
}

-- The next `n` events of a subscription, while nothing else happens; fewer if it has to wait.
pub events : ℕ → Subscription → Db → List (ℕ × Text)
events zero s db = []
events (suc n) s db = elim (next s db) [ none ↦ [] | some (event, s') ↦ event ∷ events n s' db ]

-- Messages with their places, counted from a start.
unfoldable pub numbered : ℕ → List Text → List (ℕ × Text)
numbered i [] = []
numbered i (m ∷ ms) = (i, m) ∷ numbered (suc i) ms

drop-get_elem? :
    (ms : List Text) (i : ℕ)
    → i < length ms
    → (m : Text) × (get_elem? ms i ≡ some m) × (drop i ms ≡ m ∷ drop (suc i) ms)
drop-get_elem? [] i h = elim h [ ]
drop-get_elem? (m ∷ ms) zero h = (m, refl, refl)
drop-get_elem? (m ∷ ms) (suc i) h = drop-get_elem? ms i (omega arith)

next_lem :
    (s : Subscription) (db : Db) (m : Text)
    → get_elem? (messages_at db s.room) s.next_event ≡ some m
    → next s db ≡ some ((s.next_event, m), record s { next_event = (s.next_event + 1) % 65536 })
unfolding next
next_lem s db m e = rw (e, next)

pub next_waits :
    (s : Subscription) (db : Db)
    → get_elem? (messages_at db s.room) s.next_event ≡ none
    → next s db ≡ none
unfolding next
next_waits s db e = rw (e, next)

get_elem?-length : (ms : List Text) → get_elem? ms (length ms) ≡ none
get_elem?-length [] = refl
get_elem?-length (m ∷ ms) = get_elem?-length ms

-- A subscription reads the history of its room in order and without a gap, from its next event
-- on, with the places of the messages as event ids, as long as it stays below 65536 events.
pub events-eq-history :
    (n : ℕ) (s : Subscription) (db : Db)
    → s.next_event + n ≤ length (messages_at db s.room)
    → s.next_event + n < 65536
    → events n s db ≡ numbered s.next_event (take n (drop s.next_event (messages_at db s.room)))
unfolding events numbered
events-eq-history zero s db h small = refl
events-eq-history (suc n) s db h small =
    let ms = messages_at db s.room in
    let (m, here, rest) = drop-get_elem? ms s.next_event (omega arith) in
    let s' : Subscription = record s { next_event = suc s.next_event } in
    let step : next s db ≡ some ((s.next_event, m), s') =
      next_lem s db m here
      ∙ ap (λ k. some ((s.next_event, m), record s { next_event = k })) (omega arith) in
    rw (step, rest, events)
      (ap (◌∷◌ (s.next_event, m)) (events-eq-history n s' db (omega arith) (omega arith)))

-- After the event with id 65535 the ids start again, and the subscription reads the first message
-- of its room once more.
pub next_after_65535 :
    (s : Subscription) (db : Db) (m first : Text)
    → s.next_event ≡ 65535
    → get_elem? (messages_at db s.room) 65535 ≡ some m
    → get_elem? (messages_at db s.room) 0 ≡ some first
    → (s' : Subscription) × (next s db ≡ some ((65535, m), s'))
      × (next s' db ≡ some ((0, first), record s' { next_event = 1 }))
next_after_65535 s db m first last here start =
    let s' : Subscription = record s { next_event = 0 } in
    (
      s',
      next_lem s db m (rw last here)
          ∙ ap (λ k. some ((k, m), record s { next_event = (k + 1) % 65536 })) last,
      next_lem s' db first start,
    )

module _ (db : Db) (id : Text) where
  pub get_room-watched :
      (addr : ℕ) → watched db id ≡ some addr → get_room_or_create_empty db id ≡ (addr, db)
  unfolding get_room_or_create_empty
  get_room-watched addr e = rw (e, get_room_or_create_empty)

  pub get_room-new :
      watched db id ≡ none
      → get_room_or_create_empty db id ≡ (
        length db.heap,
        record { rooms = insert id (length db.heap) db.rooms; heap = db.heap ++ (empty_room ∷ []) },
      )
  unfolding get_room_or_create_empty
  get_room-new e = rw (e, get_room_or_create_empty, e, entry_or_empty)

  pub watched_room :
      (addr : ℕ)
      → watched db id ≡ some addr
      → (room : Room) × (get_elem? db.heap addr ≡ some room) × (is_abandoned room ≡ false)
  unfolding watched
  watched_room addr e = elim (Option-cases (lookup id db.rooms)) [
    | inl none_there ↦ absurd (ground arith)
    | inr (a, there) ↦ elim (Option-cases (get_elem? db.heap a)) [
      | inl no_room ↦ absurd (ground arith)
      | inr (room, at) ↦ (room, ground arith, ground arith)
    ]
  ]

  pub watched_of_room :
      (addr : ℕ) (room : Room)
      → lookup id db.rooms ≡ some addr
      → get_elem? db.heap addr ≡ some room
      → watched db id ≡ (if is_abandoned room then none else some addr)
  unfolding watched
  watched_of_room addr room there at = rw (there, watched, at)

pub update_room_lem :
    (f : Room → Room) (addr : ℕ) (db : Db) (room : Room)
    → get_elem? db.heap addr ≡ some room
    → update_room f addr db ≡ record db { heap = set db.heap addr (f room) }
update_room_lem f addr db room e = rw (e, update_room)

pub messages_at_room :
    (db : Db) (addr : ℕ) (room : Room)
    → get_elem? db.heap addr ≡ some room
    → messages_at db addr ≡ room.messages
messages_at_room db addr room e = rw (e, messages_at)

pub messages_at_lem :
    (db : Db) (addr : ℕ) (room old : Room)
    → get_elem? db.heap addr ≡ some old
    → messages_at (record db { heap = set db.heap addr room }) addr ≡ room.messages
messages_at_lem db addr room old e =
    messages_at_room (record db { heap = set db.heap addr room }) addr room
      (get_elem?-set_self db.heap addr room old e)

-- A published message goes to the end of the room at the address.
pub messages_at-publish :
    (db : Db) (addr : ℕ) (m : Text) (room : Room)
    → get_elem? db.heap addr ≡ some room
    → messages_at (publish addr m db) addr ≡ room.messages ++ (m ∷ [])
unfolding publish
messages_at-publish db addr m room e =
    ap (λ d. messages_at d addr)
      (update_room_lem (λ r. record r { messages = r.messages ++ (m ∷ []) }) addr db room e)
    ∙ messages_at_lem db addr (record room { messages = room.messages ++ (m ∷ []) }) room e

pub broadcast-watched :
    (db : Db) (addr : ℕ) (m : Text)
    → watched db room_id ≡ some addr
    → broadcast m db ≡ publish addr m db
unfolding broadcast
broadcast-watched db addr m e = rw (get_room-watched db room_id addr e)

-- A message that is broadcast while the room is watched is appended to the room that is watched:
-- a subscription of that room at the end of its history waits before, and reads the message next.
pub next-broadcast :
    (db : Db) (s : Subscription) (m : Text)
    → watched db room_id ≡ some s.room
    → s.next_event ≡ length (messages_at db s.room)
    → (next s db ≡ none)
      × (messages_at (broadcast m db) s.room ≡ messages_at db s.room ++ (m ∷ []))
      × (next s (broadcast m db)
          ≡ some ((s.next_event, m), record s { next_event = (s.next_event + 1) % 65536 }))
next-broadcast db s m watching end =
    let (room, at, _) = watched_room db room_id s.room watching in
    let published : messages_at (broadcast m db) s.room ≡ messages_at db s.room ++ (m ∷ []) =
      ap (λ d. messages_at d s.room) (broadcast-watched db s.room m watching)
      ∙ messages_at-publish db s.room m room at
      ∙ ap (λ ms. ms ++ (m ∷ [])) (sym (messages_at_room db s.room room at)) in
    (
      next_waits s db (rw end (get_elem?-length (messages_at db s.room))),
      published,
      next_lem s (broadcast m db) m (
          ap (λ ms. get_elem? ms s.next_event) published
          ∙ rw end (get_elem?-append (messages_at db s.room) m)),
    )

pub lookup-insert_self : (k : Text) (v : ℕ) (db : Db) → lookup k (insert k v db.rooms) ≡ some v
lookup-insert_self k v db = lookup-insert k k v db.rooms ∙ rw (text_eq_refl k)

abbrev pub with_room : Db → Text → Db
with_room db id = record {
  rooms = insert id (length db.heap) db.rooms;
  heap = db.heap ++ (empty_room ∷ []);
}

-- A room that was made for a message has no subscribers.
watched-broadcast_unwatched :
    (db : Db) (m : Text) → watched db room_id ≡ none → watched (broadcast m db) room_id ≡ none
unfolding broadcast publish
watched-broadcast_unwatched db m e =
    let db1 = with_room db room_id in
    let n = length db.heap in
    let posted : Room = record empty_room { messages = m ∷ [] } in
    let made : get_elem? db1.heap n ≡ some empty_room = get_elem?-append db.heap empty_room in
    rw (get_room-new db room_id e) (
      ap (λ d. watched d room_id)
        (update_room_lem (λ r. record r { messages = r.messages ++ (m ∷ []) }) n db1 empty_room
          made)
      ∙ watched_of_room (record db1 { heap = set db1.heap n posted }) room_id n posted
          (lookup-insert_self room_id n db) (get_elem?-set_self db1.heap n posted empty_room made))

subscribe_unwatched :
    (db : Db) (last : Option ℕ)
    → watched db room_id ≡ none
    → messages_at (subscribe last db).1 (subscribe last db).0.room ≡ []
unfolding subscribe
subscribe_unwatched db last e =
    let db1 = with_room db room_id in
    let n = length db.heap in
    let joined : Room = record empty_room { subscribers = 1 } in
    let made : get_elem? db1.heap n ≡ some empty_room = get_elem?-append db.heap empty_room in
    rw (get_room-new db room_id e) (
      ap (λ d. messages_at d n)
        (update_room_lem (λ r. record r { subscribers = (r.subscribers + 1) % 65536 }) n db1
          empty_room made)
      ∙ messages_at_lem db1 n joined empty_room made)

-- A message that is broadcast while nobody watches the room is lost: whoever subscribes next,
-- with any last seen id, gets a room without messages and waits.
pub broadcast_unwatched :
    (db : Db) (m : Text) (last : Option ℕ)
    → watched db room_id ≡ none
    → let (s, db') = subscribe last (broadcast m db) in
      (messages_at db' s.room ≡ []) × (next s db' ≡ none)
broadcast_unwatched db m last e =
    let (s, db') = subscribe last (broadcast m db) in
    let none_there =
      subscribe_unwatched (broadcast m db) last (watched-broadcast_unwatched db m e) in
    (none_there, next_waits s db' (ap (λ ms. get_elem? ms s.next_event) none_there))
