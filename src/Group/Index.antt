-- ===== src/Group/Index.antt =====
-- Indices of a group, from 1, against its list of keys.
use mpc_server.Common.{
  ℕ, zero, suc, ◌+◌, ◌-◌, ◌≡◌, ◌≤◌, ◌<◌, none, some, List, [], ◌∷◌, ok, Text, text_eq_iff, length,
  get_elem?, arith, ◌≢◌, ◌↔◌, Option-cases, inl, inr, ap, ◌∙◌,
}
use mpc_server.Group.{PublicKeyGroup, position, get_index, get_public_key, get_i, get_n}

position-get_elem? :
    (key : Text) (pks : List Text) (i : ℕ)
    → position key pks ≡ some i
    → (get_elem? pks i ≡ some key) × (i < length pks)
unfolding position
position-get_elem? key [] i h = ground arith
position-get_elem? key (pk ∷ pks) zero h = ground (arith, text_eq_iff pk key)
position-get_elem? key (pk ∷ pks) (suc i) h =
    ground (arith, text_eq_iff pk key, position-get_elem? key pks i)

-- Where a list has the key, `position` finds one.
pub position_found :
    (key : Text) (pks : List Text) (i : ℕ) → get_elem? pks i ≡ some key → position key pks ≢ none
unfolding position
position_found key [] i h = ground arith
position_found key (pk ∷ pks) zero h = ground (arith, text_eq_iff pk key)
position_found key (pk ∷ pks) (suc i) h = ground (arith, position_found key pks i)

-- No key stands at two places.
abbrev pub IsDistinct : List Text → Type 0
IsDistinct pks =
    (i j : ℕ) (key : Text) → get_elem? pks i ≡ some key → get_elem? pks j ≡ some key → i ≡ j

-- The index that a key is found at is from 1 to the number of keys, and the key at that index is
-- the key itself.
pub get_public_key-get_index :
    (g : PublicKeyGroup) (key : Text) (i : ℕ)
    → get_index g key ≡ some i
    → (get_public_key g i ≡ ok key) × (1 ≤ i) × (i ≤ length g.public_keys)
unfolding get_index get_public_key
get_public_key-get_index g key i h = elim (Option-cases (position key g.public_keys)) [
  | inl e ↦ ground arith
  | inr (j, e) ↦ ground (arith, position-get_elem? key g.public_keys j)
]

first_place :
    (g : PublicKeyGroup) (key : Text) (i j : ℕ)
    → IsDistinct g.public_keys
    → get_elem? g.public_keys i ≡ some key
    → position key g.public_keys ≡ some j
    → j ≡ i
first_place g key i j d h e = d j i key (position-get_elem? key g.public_keys j e).0 h

pub get_elem-get_public_key :
    (g : PublicKeyGroup) (key : Text) (i : ℕ)
    → get_public_key g i ≡ ok key
    → (1 ≤ i) × (get_elem? g.public_keys (i - 1) ≡ some key)
unfolding get_public_key
get_elem-get_public_key g key i h = ground arith

pub index_of_position :
    (g : PublicKeyGroup) (key : Text) (j : ℕ)
    → position key g.public_keys ≡ some j
    → get_index g key ≡ some (j + 1)
unfolding get_index
index_of_position g key j e = rw (e, get_index)

get_index-get_public_key :
    (g : PublicKeyGroup) (key : Text) (i : ℕ)
    → IsDistinct g.public_keys
    → get_public_key g i ≡ ok key
    → get_index g key ≡ some i
get_index-get_public_key g key i d h =
    let at = get_elem-get_public_key g key i h in
    elim (Option-cases (position key g.public_keys)) [
      | inl e ↦ absurd (position_found key g.public_keys (i - 1) at.1 e)
      | inr (j, e) ↦
          index_of_position g key j e
          ∙ ap some (omega (arith, at.0, first_place g key (i - 1) j d at.1 e))
    ]

-- In a group of fewer than 65536 keys, the own index that `get_i` finds is the place of the own
-- key, from 1 to the number of keys.
pub get_i_lem :
    (g : PublicKeyGroup) (i : ℕ)
    → length g.public_keys < 65536
    → get_i g ≡ some i
    → (get_public_key g i ≡ ok g.own_public_key) × (1 ≤ i) × (i ≤ get_n g)
unfolding get_i
get_i_lem g i h e = elim (Option-cases (get_index g g.own_public_key)) [
  | inl no_index ↦ ground arith
  | inr (j, at) ↦ ground (arith, get_public_key-get_index g g.own_public_key j)
]

-- Where the keys of a group are distinct, a key is found at an index exactly when it stands there.
pub get_index_iff :
    (g : PublicKeyGroup) (key : Text) (i : ℕ)
    → IsDistinct g.public_keys
    → (get_index g key ≡ some i) ↔ (get_public_key g i ≡ ok key)
get_index_iff g key i d =
    (λ h. (get_public_key-get_index g key i h).0, get_index-get_public_key g key i d)
