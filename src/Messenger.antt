-- ===== src/Messenger.antt =====
-- messenger/src/main.rs: the message broker. Rooms are shared (`Arc`), so they lie on a heap and
-- the table holds their addresses. Every 16-bit number wraps.
pub mod Delivery
pub mod Race
pub mod Resume
pub mod Live
use mpc_server.Common.{
  ℕ, ◌+◌, ◌%◌, Bool, true, false, List, [], ◌∷◌, ◌++◌, Option, none, some, Text, bytes, Map, lookup,
  insert, length, get_elem?, set, if◌then◌else◌, ◌==◌,
}

-- `ROOM_ID`
abbrev pub room_id : Text
room_id = bytes "---default---"

-- `Notify` is left out: a subscription that has nothing to read waits.
pub record Room : Type 0 where
  pub messages : List Text
  pub subscribers : ℕ
  pub next_idx : ℕ

pub record Db : Type 0 where
  pub rooms : Map ℕ
  pub heap : List Room

pub record Subscription : Type 0 where
  pub room : ℕ
  pub next_event : ℕ

-- `Room::empty`
abbrev pub empty_room : Room
empty_room = record { messages = []; subscribers = 0; next_idx = 1 }

-- `Db::empty`
abbrev pub empty : Db
empty = record { rooms = []; heap = [] }

-- `is_abandoned`
abbrev pub is_abandoned : Room → Bool
is_abandoned room = room.subscribers == 0

-- The address that the table holds for a room, if somebody watches the room.
unfoldable pub watched : Db → Text → Option ℕ
watched db id = elim (lookup id db.rooms) [
  | none ↦ none
  | some addr ↦ elim (get_elem? db.heap addr) [
    | none ↦ none
    | some room ↦ (if is_abandoned room then none else some addr)
  ]
]

-- Under the write lock: `Entry::Occupied` of a watched room keeps it, and the other two cases put
-- an empty room there.
unfoldable pub entry_or_empty : Db → Text → ℕ × Db
entry_or_empty db id = elim (watched db id) [
  | some addr ↦ (addr, db)
  | none ↦ (
    length db.heap,
    record { rooms = insert id (length db.heap) db.rooms; heap = db.heap ++ (empty_room ∷ []) },
  )
]

-- `get_room_or_create_empty`: a look under the read lock, then one under the write lock. Nobody
-- comes in between here.
unfoldable pub get_room_or_create_empty : Db → Text → ℕ × Db
unfolding entry_or_empty
get_room_or_create_empty db id = elim (watched db id) [
  | some addr ↦ (addr, db)
  | none ↦ entry_or_empty db id
]

abbrev pub update_room : (Room → Room) → ℕ → Db → Db
update_room f addr db = elim (get_elem? db.heap addr) [
  | none ↦ db
  | some room ↦ record db { heap = set db.heap addr (f room) }
]

-- `Room::publish`
unfoldable pub publish : ℕ → Text → Db → Db
publish addr message db =
    update_room (λ room. record room { messages = room.messages ++ (message ∷ []) }) addr db

abbrev pub first_event : Option ℕ → ℕ
first_event none = 0
first_event (some i) = (i + 1) % 65536

-- `Room::subscribe`
unfoldable pub subscribe_room : ℕ → Option ℕ → Db → Subscription × Db
subscribe_room addr last_seen_msg db = (
  record { room = addr; next_event = first_event last_seen_msg },
  update_room (λ room. record room { subscribers = (room.subscribers + 1) % 65536 }) addr db,
)

-- `drop` of a subscription
pub unsubscribe : Subscription → Db → Db
unsubscribe s db =
    update_room (λ room. record room { subscribers = (room.subscribers + 65535) % 65536 }) s.room db

-- `Room::issue_unique_idx`
pub issue_unique_idx : Room → ℕ × Room
issue_unique_idx room = (room.next_idx, record room { next_idx = (room.next_idx + 1) % 65536 })

abbrev pub messages_at : Db → ℕ → List Text
messages_at db addr = elim (get_elem? db.heap addr) [ none ↦ [] | some room ↦ room.messages ]

-- `Subscription::next`: the event's id, its message and the subscription after it; `none` while it
-- waits for a message.
unfoldable pub next : Subscription → Db → Option ((ℕ × Text) × Subscription)
next s db = elim (get_elem? (messages_at db s.room) s.next_event) [
  | none ↦ none
  | some msg ↦ some ((s.next_event, msg), record s { next_event = (s.next_event + 1) % 65536 })
]

-- The route `broadcast`
unfoldable pub broadcast : Text → Db → Db
unfolding publish
broadcast message db =
    let (room, db') = get_room_or_create_empty db room_id in publish room message db'

-- The route `subscribe`, up to its stream of `next`.
unfoldable pub subscribe : Option ℕ → Db → Subscription × Db
unfolding subscribe_room
subscribe last_seen_msg db =
    let (room, db') = get_room_or_create_empty db room_id in subscribe_room room last_seen_msg db'
