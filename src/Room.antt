-- ===== src/Room.antt =====
-- src/utils/mod.rs: room ids.
pub mod Laws
use mpc_server.Common.{
  ℕ, suc, ◌+◌, ◌<◌, ◌≡◌, refl, Bool, true, false, List, [], ◌∷◌, ◌++◌, Result, ok, err, Text, bytes,
  ltb, length, get_elem?, if◌then◌else◌, ◌==◌,
}

-- `RoomParseError`
pub data RoomParseError : Type 0 where
  failed_to_parse_group_id : RoomParseError

-- `ROOM_SEPARATOR`, the byte of '@'
abbrev pub room_separator : ℕ
room_separator = b'@'

-- Puts a byte in front of the first piece.
abbrev pub cons_first : ℕ → List Text → List Text
cons_first c [] = (c ∷ []) ∷ []
cons_first c (piece ∷ pieces) = (c ∷ piece) ∷ pieces

-- `s.split(separator).collect()`
unfoldable pub split : ℕ → Text → List Text
split separator [] = [] ∷ []
split separator (c ∷ s) =
    let rest = split separator s in if c == separator then [] ∷ rest else cons_first c rest

second : List Text → Result RoomParseError Text
second [] = err failed_to_parse_group_id
second (a ∷ []) = err failed_to_parse_group_id
second (a ∷ b ∷ rest) = ok b

-- `extract_group_id`
unfoldable pub extract_group_id : Text → Result RoomParseError Text
unfolding split second
extract_group_id room = second (split room_separator room)

-- `make_room_id`
unfoldable pub make_room_id : Text → Text → Text
make_room_id request_id group_id = request_id ++ (room_separator ∷ group_id)
