-- ===== src/Room/Laws.antt =====
-- Which part of a room id its group id is.
use mpc_server.Common.{◌≡◌, refl, ◌≢◌, [], ◌∷◌, ◌++◌, ok, err, Text, All, arith, ap, ◌∙◌}
use mathlib.Core.List.{append_assoc}
use mpc_server.Room.{
  room_separator, split, second, extract_group_id, make_room_id, failed_to_parse_group_id,
}

-- No byte of the text is the separator.
abbrev pub IsFree : Text → Type 0
IsFree = All (λ c. c ≢ room_separator)

split_free : (a : Text) → IsFree a → split room_separator a ≡ a ∷ []
unfolding split
split_free [] h = refl
split_free (c ∷ a) h = ground (arith, split_free a h.1)

split-append :
    (a s : Text)
    → IsFree a
    → split room_separator (a ++ (room_separator ∷ s)) ≡ a ∷ split room_separator s
unfolding split
split-append [] s h = refl
split-append (c ∷ a) s h = ground (arith, split-append a s h.1)

-- A room id without a separator has no group id.
pub extract_group_id_missing :
    (room : Text) → IsFree room → extract_group_id room ≡ err failed_to_parse_group_id
unfolding extract_group_id second
extract_group_id_missing room h = ap second (split_free room h)

-- The group id is what stands between the first separator and the next.
pub extract_group_id_between :
    (a b rest : Text)
    → IsFree a
    → IsFree b
    → extract_group_id (a ++ (room_separator ∷ (b ++ (room_separator ∷ rest)))) ≡ ok b
extract_group_id_between a b rest ha hb =
    unfold extract_group_id second in
    ap second (split-append a _ ha ∙ ap (◌∷◌ a) (split-append b rest hb))

-- A room made of a request id and a group id gives the group id back, where neither has a separator.
pub extract_group_id-make_room_id :
    (request_id group_id : Text)
    → IsFree request_id
    → IsFree group_id
    → extract_group_id (make_room_id request_id group_id) ≡ ok group_id
unfolding extract_group_id make_room_id second
extract_group_id-make_room_id r g hr hg =
    ap second (split-append r g hr ∙ ap (◌∷◌ r) (split_free g hg))

-- A request id with one separator: the group id that is read out of its room is what stands behind
-- that separator, whatever the group is.
pub extract_group_id_of_request_id :
    (a b group_id : Text)
    → IsFree a
    → IsFree b
    → extract_group_id (make_room_id (a ++ (room_separator ∷ b)) group_id) ≡ ok b
unfolding make_room_id
extract_group_id_of_request_id a b group_id ha hb =
    ap extract_group_id (append_assoc a (room_separator ∷ b) (room_separator ∷ group_id))
    ∙ extract_group_id_between a b group_id ha hb
