-- ===== src/Group.antt =====
-- src/core/group.rs: `PublicKeyGroup`. `none` where the code panics.
pub mod Index
pub mod Id
pub mod Agreement
use mpc_server.Common.{
  ℕ, suc, ◌+◌, ◌-◌, ◌%◌, ◌^◌, Bool, true, false, Option, none, some, List, [], ◌∷◌, ◌++◌, Result,
  ok, err, ok_or, map_err, Text, text_eq, slice, length, get_elem?, ltb, ◌==◌, ◌||◌, if◌then◌else◌,
}
use mpc_server.Common.Fallible.{◌>>=◌}
use mpc_server.External.Crypto.{Crypto}
use mpc_server.Failure.{
  Failure, external, invalid_index, parse_public_key, decode_base64, decrypt as failed_decrypt,
  decode_utf8,
}

pub record PublicKeyGroup : Type 0 where
  pub group_id : Text
  pub t : ℕ
  pub public_keys : List Text
  pub own_public_key : Text

-- The loop of `new`: appends `pk[2..10]` for each key.
push_ids : Text → List Text → Option Text
push_ids group_id [] = some group_id
push_ids group_id (pk ∷ pks) = elim (slice pk 2 10) [
  | none ↦ none
  | some part ↦ push_ids (group_id ++ part) pks
]

-- `PublicKeyGroup::new`
unfoldable pub new : List Text → ℕ → Text → Option PublicKeyGroup
unfolding push_ids
new public_keys t own_public_key = elim (push_ids [] public_keys) [
  | none ↦ none
  | some group_id ↦ some (record {
    group_id = group_id;
    t = t;
    public_keys = public_keys;
    own_public_key = own_public_key;
  })
]

-- `get_group_id`
abbrev pub get_group_id : PublicKeyGroup → Text
get_group_id g = g.group_id

-- `get_public_key`; the index counts from 1. The `none` of the lookup is the panic of `[]`,
-- which the test excludes.
unfoldable pub get_public_key : PublicKeyGroup → ℕ → Result Failure Text
get_public_key g index =
    if index == 0 || ltb (length g.public_keys) index
    then err invalid_index
    else ok_or (get_elem? g.public_keys (index - 1)) invalid_index

-- `iter().position(|pk| *pk == key)`
pub position : Text → List Text → Option ℕ
position key [] = none
position key (pk ∷ pks) =
    if text_eq pk key
    then some 0
    else elim (position key pks) [ none ↦ none | some i ↦ some (suc i) ]

-- `get_index`
unfoldable pub get_index : PublicKeyGroup → Text → Option ℕ
unfolding position
get_index g public_key = elim (position public_key g.public_keys) [
  | none ↦ none
  | some i ↦ some (i + 1)
]

-- `as u16`
abbrev pub as_u16 : ℕ → ℕ
as_u16 n = n % 65536

-- `get_i`; it panics when the own key is not in the group.
unfoldable pub get_i : PublicKeyGroup → Option ℕ
unfolding get_index
get_i g = elim (get_index g g.own_public_key) [ none ↦ none | some i ↦ some (as_u16 i) ]

-- `get_t`
abbrev pub get_t : PublicKeyGroup → ℕ
get_t g = g.t

-- `get_n`
abbrev pub get_n : PublicKeyGroup → ℕ
get_n g = as_u16 (length g.public_keys)

-- `valid_msg`
unfoldable pub valid_msg : PublicKeyGroup → Text → Bool
unfolding get_index
valid_msg g sender_public_key = elim (get_index g sender_public_key) [
  | none ↦ false
  | some _ ↦ true
]

module _ ⦃crypto : Crypto⦄ where
  -- `SafeEncryptExt::encrypt` and `SafeDecryptExt::decrypt`
  unfoldable pub safe_encrypt : crypto.PublicKey → Text → Option Text
  safe_encrypt pk msg = crypto.ecies_encrypt (crypto.public_bytes pk) msg

  unfoldable pub safe_decrypt : crypto.SecretKey → Text → Option Text
  safe_decrypt sk msg = crypto.ecies_decrypt (crypto.secret_bytes sk) msg

  -- `PublicKeyGroup::encrypt`
  unfoldable pub encrypt : PublicKeyGroup → ℕ → Text → Result Failure Text
  unfolding safe_encrypt
  encrypt g index plaintext = do
    pk ← get_public_key g index
    key ← ok_or (crypto.hex_decode pk) external
    parsed ← ok_or (crypto.parse_public_key key) parse_public_key
    ciphertext ← ok_or (safe_encrypt parsed plaintext) external
    ok (crypto.base64_encode ciphertext)

  -- `PublicKeyGroup::decrypt`
  unfoldable pub decrypt : crypto.SecretKey → Text → Result Failure Text
  unfolding safe_decrypt
  decrypt sk text = do
    ciphertext ← ok_or (crypto.base64_decode text) decode_base64
    plaintext ← ok_or (safe_decrypt sk ciphertext) failed_decrypt
    if crypto.is_utf8 plaintext then ok plaintext else err decode_utf8
