-- ===== src/Messenger/Resume.antt =====
-- messenger/src/main.rs: the header `Last-Event-ID`, with which a client goes on where it was.
use mpc_server.Common.{
  ℕ, ◌+◌, ◌%◌, ◌≡◌, ◌≤◌, ◌<◌, refl, sym, ap, ◌∙◌, false, [], ◌∷◌, Option, none, some, Result, ok,
  err, Text, if◌then◌else◌, arith, inl, inr, get_elem?, Option-cases, ◌==◌,
}
use mpc_server.Common.Decimal.{
  ParseError, StartsDigit, read_number, read_number-digits, to_string, digits_first,
}
use mpc_server.Messenger.Delivery.{get_room-watched}
use mpc_server.Messenger.{
  Db, Subscription, room_id, watched, next, subscribe, subscribe_room, messages_at,
}

-- The number that the digits at the start make, when nothing follows them.
abbrev whole : Result ParseError (Text × ℕ) → Option ℕ
whole (ok ([], n)) = some n
whole (ok (_ ∷ _, n)) = none
whole (err _) = none

-- `str::parse::<u16>`: not empty, and a plus sign may stand in front of digits.
unfoldable pub parse_u16 : Text → Option ℕ
parse_u16 [] = none
parse_u16 (c ∷ []) = whole (read_number 65535 (c ∷ []))
parse_u16 (c ∷ d ∷ cs) =
    if c == 43 then whole (read_number 65535 (d ∷ cs)) else whole (read_number 65535 (c ∷ d ∷ cs))

-- The status of a refused request.
pub data Refusal : Type 0 where
  bad_request : Refusal

-- `LastEventId::from_request`, of the header if there is one.
unfoldable pub from_request : Option Text → Result Refusal (Option ℕ)
from_request none = ok none
from_request (some id) = elim (parse_u16 id) [
  | some last_seen_msg ↦ ok (some last_seen_msg)
  | none ↦ err bad_request
]

parse_u16_of_digits : (t : Text) → StartsDigit 0 t → parse_u16 t ≡ whole (read_number 65535 t)
unfolding parse_u16
parse_u16_of_digits [] h = absurd h
parse_u16_of_digits (c ∷ []) h = refl
parse_u16_of_digits (c ∷ d ∷ cs) h = let e : (c == 43) ≡ false = ground arith in rw e refl

parse_u16-to_string : (n : ℕ) → n ≤ 65535 → parse_u16 (to_string n) ≡ some n
unfolding to_string
parse_u16-to_string n b =
    parse_u16_of_digits (to_string n) (digits_first n [])
    ∙ ap whole (read_number-digits 65535 n [] b tt)

next-inversion :
    (db : Db) (s s' : Subscription) (i : ℕ) (m : Text)
    → next s db ≡ some ((i, m), s')
    → (s.next_event ≡ i) × (s' ≡ record s { next_event = (s.next_event + 1) % 65536 })
unfolding next
next-inversion db s s' i m h =
    elim (Option-cases (get_elem? (messages_at db s.room) s.next_event)) [
      | inl e ↦ absurd (ground arith)
      | inr (msg, e) ↦ (ground arith, ground arith)
    ]

-- A client that has read an event below 65535 and comes back with the event's id as its header, to
-- a room that is still watched, goes on with the event after it, in the same room: the broker
-- reads the id that it has printed, and gives the client the subscription that it had.
pub resumes :
    (db db' : Db) (s s' : Subscription) (i : ℕ) (m : Text)
    → next s db ≡ some ((i, m), s')
    → i < 65535
    → watched db' room_id ≡ some s.room
    → (from_request (some (to_string i)) ≡ ok (some i)) × ((subscribe (some i) db').0 ≡ s')
unfolding from_request subscribe subscribe_room
resumes db db' s s' i m read small watching =
    let (at, after) = next-inversion db s s' i m read in
    (
      rw (parse_u16-to_string i (omega arith), from_request) refl,
      ap (λ r. record { room = r; next_event = (i + 1) % 65536 })
            (ap (λ (p : ℕ × Db). p.0) (get_room-watched db' room_id s.room watching))
          ∙ ap (λ n. record { room = s.room; next_event = (n + 1) % 65536 }) (sym at)
          ∙ sym after,
    )
