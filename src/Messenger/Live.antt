-- ===== src/Messenger/Live.antt =====
-- The broker while its routes come one after the other: where its live subscriptions are.
use mathlib.Core.List.{Memᴰ}
use mathlib.Core.List.Memᴰ
use mathlib.Core.List.Memᴰ.{head, tail}
use mpc_server.Common.{
  ℕ, suc, ◌+◌, ◌%◌, ◌≤◌, ◌<◌, ◌≡◌, ◌⊎◌, inl, inr, refl, sym, ap, ◌∙◌, subst, false, List, [], ◌∷◌,
  ◌++◌, Option, none, some, Text, lookup, length, get_elem?, arith, Bool-cases, All,
  get_elem?-set_self, get_elem?-append,
}
use mpc_server.Messenger.{
  Db, Room, Subscription, room_id, empty, empty_room, is_abandoned, watched,
  get_room_or_create_empty, publish, update_room, subscribe, subscribe_room, unsubscribe, broadcast,
  messages_at,
}
use mpc_server.Messenger.Delivery.{
  get_room-watched, get_room-new, watched_of_room, update_room_lem, lookup-insert_self,
  next-broadcast,
}

-- What the broker has come to by whole routes, with the rooms of the subscriptions that live: at
-- most 65535 at a time. A subscription keeps its room while it reads.
pub data Trail : Db → List ℕ → Type 0 where
  start : Trail empty []
  subscribes :
      {db : Db} {live : List ℕ} (last : Option ℕ)
      → Trail db live
      → length live < 65535
      → Trail (subscribe last db).1 ((subscribe last db).0.room ∷ live)
  broadcasts : {db : Db} {live : List ℕ} (m : Text) → Trail db live → Trail (broadcast m db) live
  leaves :
      {db : Db} (before after : List ℕ) (s : Subscription)
      → Trail db (before ++ (s.room ∷ after))
      → Trail (unsubscribe s db) (before ++ after)

-- The table has a room, all live subscriptions are in it, and it has counted them.
pub record IsHome (db : Db) (live : List ℕ) (addr : ℕ) : Type 0 where
  pub room : Room
  pub there : lookup room_id db.rooms ≡ some addr
  pub at : get_elem? db.heap addr ≡ some room
  pub counted : room.subscribers ≡ length live
  pub together : All (λ a. a ≡ addr) live

-- Or there is no room yet, and no subscription.
abbrev pub IsTogether : Db → List ℕ → Type 0
IsTogether db live =
    (length live < 65536)
    × (((lookup room_id db.rooms ≡ none) × (live ≡ [])) ⊎ ((addr : ℕ) × IsHome db live addr))

unwatched_if_none : (db : Db) → lookup room_id db.rooms ≡ none → watched db room_id ≡ none
unfolding watched
unwatched_if_none db e = rw (e, watched) refl

none_live : (live : List ℕ) → length live ≡ 0 → live ≡ []
none_live [] e = refl
none_live (a ∷ live) e = absurd (omega arith)

-- A new room is the home of no subscription.
new-IsHome :
    (db : Db) (live : List ℕ)
    → watched db room_id ≡ none
    → live ≡ []
    → let (addr, db') = get_room_or_create_empty db room_id in IsHome db' live addr
new-IsHome db live e nobody =
    rw (get_room-new db room_id e, nobody)
      (record {
        room = empty_room;
        there = lookup-insert_self room_id (length db.heap) db;
        at = get_elem?-append db.heap empty_room;
        counted = refl;
        together = tt;
      })

-- The room that a route gets is the home of all live subscriptions.
get_room-IsHome :
    (db : Db) (live : List ℕ)
    → IsTogether db live
    → let (addr, db') = get_room_or_create_empty db room_id in IsHome db' live addr
get_room-IsHome db live (_, inl (nothing, nobody)) =
    new-IsHome db live (unwatched_if_none db nothing) nobody
get_room-IsHome db live (_, inr (addr, home)) =
    let found = watched_of_room db room_id addr home.room home.there home.at in
    elim (Bool-cases (is_abandoned home.room)) [
      | inl e ↦
          new-IsHome db live (found ∙ rw e refl) (none_live live (sym home.counted ∙ ground arith))
      | inr e ↦ rw (get_room-watched db room_id addr (found ∙ rw e refl)) home
    ]

-- A home whose room is changed is still one, of as many as it counts then.
update_room-IsHome :
    (f : Room → Room) (db : Db) (live live' : List ℕ) (addr : ℕ) (home : IsHome db live addr)
    → (f home.room).subscribers ≡ length live'
    → All (λ a. a ≡ addr) live'
    → IsHome (update_room f addr db) live' addr
update_room-IsHome f db live live' addr home counts together =
    rw (update_room_lem f addr db home.room home.at) (record {
      room = f home.room;
      there = home.there;
      at = get_elem?-set_self db.heap addr (f home.room) home.room home.at;
      counted = counts;
      together = together;
    })

All-remove :
    (before after : List ℕ) (a addr : ℕ)
    → All (λ b. b ≡ addr) (before ++ (a ∷ after))
    → (a ≡ addr) × All (λ b. b ≡ addr) (before ++ after)
All-remove [] after a addr h = h
All-remove (b ∷ before) after a addr (e, h) =
    let (same, rest) = All-remove before after a addr h in (same, (e, rest))

length-remove :
    (before after : List ℕ) (a : ℕ)
    → length (before ++ (a ∷ after)) ≡ suc (length (before ++ after))
length-remove [] after a = refl
length-remove (b ∷ before) after a = ap suc (length-remove before after a)

not_nil : (before after : List ℕ) (a : ℕ) → before ++ (a ∷ after) ≡ [] → ⊥
not_nil [] after a e = cc e
not_nil (b ∷ before) after a e = cc e

subscribe-IsTogether :
    (db : Db) (live : List ℕ) (last : Option ℕ)
    → IsTogether db live
    → length live < 65535
    → IsTogether (subscribe last db).1 ((subscribe last db).0.room ∷ live)
unfolding subscribe subscribe_room
subscribe-IsTogether db live last h few =
    let home = get_room-IsHome db live h in
    let addr = (get_room_or_create_empty db room_id).0 in
    (
      omega arith,
      inr (
        addr,
        update_room-IsHome (λ room. record room { subscribers = (room.subscribers + 1) % 65536 })
            (get_room_or_create_empty db room_id).1 live (addr ∷ live) addr home
            (omega (arith, home.counted)) (refl, home.together),
      ),
    )

broadcast-IsTogether :
    (db : Db) (live : List ℕ) (m : Text) → IsTogether db live → IsTogether (broadcast m db) live
unfolding broadcast publish
broadcast-IsTogether db live m h =
    let home = get_room-IsHome db live h in
    let addr = (get_room_or_create_empty db room_id).0 in
    (
      h.0,
      inr (
        addr,
        update_room-IsHome (λ room. record room { messages = room.messages ++ (m ∷ []) })
            (get_room_or_create_empty db room_id).1 live live addr home home.counted home.together,
      ),
    )

unsubscribe-IsTogether :
    (db : Db) (before after : List ℕ) (s : Subscription)
    → IsTogether db (before ++ (s.room ∷ after))
    → IsTogether (unsubscribe s db) (before ++ after)
unfolding unsubscribe
unsubscribe-IsTogether db before after s (few, inl (nothing, nobody)) =
    absurd (not_nil before after s.room nobody)
unsubscribe-IsTogether db before after s (few, inr (addr, home)) =
    let (same, rest) = All-remove before after s.room addr home.together in
    let fewer = length-remove before after s.room in
    (
      omega (arith, fewer, few),
      inr (
        addr,
        rw same (
            update_room-IsHome
              (λ room. record room { subscribers = (room.subscribers + 65535) % 65536 }) db
              (before ++ (s.room ∷ after)) (before ++ after) addr home
              (omega (arith, home.counted, fewer, few)) rest),
      ),
    )

Trail-IsTogether : {db : Db} {live : List ℕ} → Trail db live → IsTogether db live
unfolding lookup
Trail-IsTogether start = (omega arith, inl (refl, refl))
Trail-IsTogether (subscribes last t few) = subscribe-IsTogether _ _ last (Trail-IsTogether t) few
Trail-IsTogether (broadcasts m t) = broadcast-IsTogether _ _ m (Trail-IsTogether t)
Trail-IsTogether (leaves before after s t) =
    unsubscribe-IsTogether _ before after s (Trail-IsTogether t)

Mem-room :
    (addr a : ℕ) (live : List ℕ)
    → Memᴰ a live
    → All (λ b. b ≡ addr) live
    → (a ≡ addr) × (1 ≤ length live)
Mem-room addr a [] i h = absurd (Memᴰ.not-nil i)
Mem-room addr a (b ∷ live) (head e) h = (e ∙ h.0, omega arith)
Mem-room addr a (b ∷ live) (tail i) h = ((Mem-room addr a live i h.1).0, omega arith)

-- The broker starts empty, and clients subscribe, broadcast and leave, each route a step of its
-- own, in any order, with at most 65535 subscriptions at a time. Then every subscription that
-- lives is in the room that the broker has for a broadcast, and the next broadcast adds its
-- message to the history that this subscription reads.
pub all_live_reached :
    (db : Db) (live : List ℕ) (s : Subscription) (m : Text)
    → Trail db live
    → Memᴰ s.room live
    → (watched db room_id ≡ some s.room)
      × (messages_at (broadcast m db) s.room ≡ messages_at db s.room ++ (m ∷ []))
all_live_reached db live s m trail among =
    let (_, cases) = Trail-IsTogether trail in
    elim cases [
      | inl (nothing, nobody) ↦ absurd (Memᴰ.not-nil (subst (Memᴰ s.room) nobody among))
      | inr (addr, home) ↦
          let (same, some_live) = Mem-room addr s.room live among home.together in
          let counted = home.counted in
          let held : is_abandoned home.room ≡ false = ground arith in
          let watching : watched db room_id ≡ some s.room =
            watched_of_room db room_id addr home.room home.there home.at
            ∙ rw held (ap some (sym same)) in
          let at_end : Subscription = record {
            room = s.room;
            next_event = length (messages_at db s.room);
          } in
          (watching, (next-broadcast db at_end m watching refl).1)
    ]
