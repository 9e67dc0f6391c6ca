-- ===== src/Examples/Instances.antt =====
-- Concrete functions for the libraries: a map for sled, and keys, hashes and ciphers without
-- secrecy. Each keeps the laws of what it stands for.
use mpc_server.Common.{
  ℕ, zero, suc, ◌≡◌, refl, ap, ◌∙◌, sym, Bool, true, false, List, [], ◌∷◌, ◌++◌, Option, none, some,
  ok, Text, bytes, text_eq, text_eq_refl, take, drop, length, Map, lookup, insert, lookup-insert,
  if◌then◌else◌, ◌==◌,
}
use mpc_server.Common.Fallible.{some-injective}
use mpc_server.Cipher.{RawValue, RawValueLaws}
use mpc_server.External.Crypto.{Crypto, CryptoLaws}
use mpc_server.External.Gg20.{Gg20}
use mpc_server.External.RoundBased.{Msg, StateMachine}
use mpc_server.External.Serde.{Serde, SerdeLaws}
use mpc_server.External.Sled.{Sled, SledLaws, is_some}
use mpc_server.Externals.{
  Externals, the_sled, the_crypto, the_gg20, the_raw, the_generic, the_sealed, the_groups,
  the_shares,
}
use mpc_server.Group.{PublicKeyGroup}
use mpc_server.Messages.{GenericProtocolMessage, Encrypted}
use mpc_server.Proto.{WireMessage, CheckResultResponse}
use mpc_server.Storage.ShareStore.{EncryptedStoredLocalShare}
use mpc_server.Examples.Codec.{coded, coded-SerdeLaws}

-- sled

abbrev write_if_absent : Map Text → Text → Option Text → Option Text → Map Text
write_if_absent db k none (some v) = insert k v db
write_if_absent db k none none = db
write_if_absent db k (some w) v = db

abbrev pub map_sled : Sled
map_sled = record {
  Db = Map Text;
  get = λ db k. some (lookup k db);
  contains_key = λ db k. some (is_some (lookup k db));
  insert = λ db k v. some (insert k v db);
  compare_and_swap = λ db k old new. some (write_if_absent db k (lookup k db) new);
}

some-if {ℓ} :
    {A : Type ℓ} (b : Bool) (x y : A) → some (if b then x else y) ≡ (if b then some x else some y)
some-if true x y = refl
some-if false x y = refl

pub map_sled_laws : SledLaws ⦃sled = map_sled⦄
map_sled_laws = record {
  get-insert = λ d d' k v e j.
      ap (λ m. some (lookup j m)) (sym (some-injective e))
      ∙ ap some (lookup-insert k j v d)
      ∙ some-if _ _ _;
  contains_key-get = λ d k o e. ap (λ p. some (is_some p)) (some-injective e);
  swap_absent = λ d d' k v free e j.
      ap (λ m. some (lookup j m))
        (sym (some-injective e) ∙ ap (λ o. write_if_absent d k o (some v)) (some-injective free))
      ∙ ap some (lookup-insert k j v d)
      ∙ some-if _ _ _;
  swap_present = λ d d' k v w taken e j.
      ap (λ m. some (lookup j m))
        (sym (some-injective e) ∙ ap (λ o. write_if_absent d k o (some v)) (some-injective taken));
}

-- the cryptography

abbrev zeros : ℕ → Text
zeros zero = []
zeros (suc n) = 0 ∷ zeros n

unfoldable pub drop_key : Text → Text → Text
drop_key k c = drop (length k) c

drop_key-append : (k m : Text) → drop_key k (k ++ m) ≡ m
unfolding drop_key
drop_key-append [] m = refl
drop_key-append (c ∷ k) m = drop_key-append k m

abbrev pub plain_crypto : Crypto
plain_crypto = record {
  SecretKey = Text;
  PublicKey = Text;
  Signature = Text;
  from_secret_key = λ sk. sk;
  secret_bytes = λ sk. sk;
  public_bytes = λ pk. pk;
  serialize_compressed = λ pk. pk;
  parse_public_key = λ t. some t;
  parse_secret_key = λ t. some t;
  signature_bytes = λ s. s;
  parse_signature = λ t. some t;
  sign = λ m sk. sk ++ m;
  verify = λ m s pk. text_eq s (pk ++ m);
  sha256 = λ t. take 32 (t ++ zeros 32);
  ecies_encrypt = λ k m. some (k ++ m);
  ecies_decrypt = λ k c. some (drop_key k c);
  hex_encode = λ t. t;
  hex_decode = λ t. some t;
  base64_encode = λ t. t;
  base64_decode = λ t. some t;
  is_utf8 = λ t. true;
}

pub plain_crypto_laws : CryptoLaws ⦃crypto = plain_crypto⦄
plain_crypto_laws = record {
  hex_round_trip = λ t. refl;
  base64_round_trip = λ t. refl;
  parse_compressed = λ pk. refl;
  parse_signature_bytes = λ s. refl;
  verify-sign = λ m sk. text_eq_refl (sk ++ m);
  ecies_round_trip = λ sk m c e.
      ap (λ t. some (drop_key sk t)) (sym (some-injective e)) ∙ ap some (drop_key-append sk m);
}

-- the formats

abbrev generic_fields : GenericProtocolMessage → List Text
generic_fields m = elim m.receiver [
  | none ↦ (m.sender ∷ []) ∷ m.body ∷ []
  | some i ↦ (m.sender ∷ []) ∷ m.body ∷ (i ∷ []) ∷ []
]

abbrev generic_of : List Text → Option GenericProtocolMessage
generic_of ((s ∷ []) ∷ b ∷ []) = some (record { sender = s; receiver = none; body = b })
generic_of ((s ∷ []) ∷ b ∷ (i ∷ []) ∷ []) =
    some (record { sender = s; receiver = some i; body = b })
generic_of _ = none

generic_of-fields : (m : GenericProtocolMessage) → generic_of (generic_fields m) ≡ some m
generic_of-fields m =
    elim m.receiver
      as (λ r.
        generic_of (generic_fields (record m { receiver = r }))
        ≡ some (record m { receiver = r })) [ none ↦ refl | some i ↦ refl ]

abbrev pub generic_serde : Serde GenericProtocolMessage
generic_serde = coded generic_fields generic_of

pub generic_laws : SerdeLaws GenericProtocolMessage ⦃serde = generic_serde⦄
generic_laws = coded-SerdeLaws generic_fields generic_of generic_of-fields

abbrev sealed_of : List Text → Option Encrypted
sealed_of (c ∷ []) = some (record { encrypted = c })
sealed_of _ = none

abbrev pub sealed_serde : Serde Encrypted
sealed_serde = coded (λ e. e.encrypted ∷ []) sealed_of

pub sealed_laws : SerdeLaws Encrypted ⦃serde = sealed_serde⦄
sealed_laws = coded-SerdeLaws (λ e. e.encrypted ∷ []) sealed_of (λ e. refl)

abbrev group_of : List Text → Option PublicKeyGroup
group_of (id ∷ (t ∷ []) ∷ own ∷ keys) =
    some (record { group_id = id; t = t; public_keys = keys; own_public_key = own })
group_of _ = none

abbrev group_fields : PublicKeyGroup → List Text
group_fields g = g.group_id ∷ (g.t ∷ []) ∷ g.own_public_key ∷ g.public_keys

abbrev pub groups_serde : Serde PublicKeyGroup
groups_serde = coded group_fields group_of

pub groups_laws : SerdeLaws PublicKeyGroup ⦃serde = groups_serde⦄
groups_laws = coded-SerdeLaws group_fields group_of (λ g. refl)

abbrev share_of : List Text → Option EncryptedStoredLocalShare
share_of (own ∷ c ∷ keys) =
    some (record { public_keys = keys; own_public_key = own; encrypted_share = c })
share_of _ = none

abbrev share_fields : EncryptedStoredLocalShare → List Text
share_fields e = e.own_public_key ∷ e.encrypted_share ∷ e.public_keys

abbrev pub shares_serde : Serde EncryptedStoredLocalShare
shares_serde = coded share_fields share_of

pub shares_laws : SerdeLaws EncryptedStoredLocalShare ⦃serde = shares_serde⦄
shares_laws = coded-SerdeLaws share_fields share_of (λ e. refl)

abbrev wire_of : List Text → Option WireMessage
wire_of (room ∷ payload ∷ key ∷ signature ∷ []) =
    some (record { room = room; payload = payload; sender_public_key = key; signature = signature })
wire_of _ = none

abbrev wire_fields : WireMessage → List Text
wire_fields m = m.room ∷ m.payload ∷ m.sender_public_key ∷ m.signature ∷ []

instance abbrev pub wire_serde : Serde WireMessage
wire_serde = coded wire_fields wire_of

pub wire_laws : SerdeLaws WireMessage ⦃serde = wire_serde⦄
wire_laws = coded-SerdeLaws wire_fields wire_of (λ m. refl)

abbrev response_of : List Text → Option CheckResultResponse
response_of (id ∷ result ∷ (type ∷ []) ∷ (status ∷ []) ∷ []) =
    some (record { request_id = id; result = result; request_type = type; request_status = status })
response_of _ = none

abbrev response_fields : CheckResultResponse → List Text
response_fields r = r.request_id ∷ r.result ∷ (r.request_type ∷ []) ∷ (r.request_status ∷ []) ∷ []

instance abbrev pub response_serde : Serde CheckResultResponse
response_serde = coded response_fields response_of

pub response_laws : SerdeLaws CheckResultResponse ⦃serde = response_serde⦄
response_laws = coded-SerdeLaws response_fields response_of (λ r. refl)

abbrev pub raw_value : RawValue
raw_value = record { from_string = λ t. some t }

pub raw_value_laws : RawValueLaws ⦃raw = raw_value⦄ ⦃sealed = sealed_serde⦄
raw_value_laws = record { from_string-write = λ e t written. refl }

-- the state machines

abbrev pub text_serde : Serde Text
text_serde = record { write = λ t. some t; read = λ t. some t }

pub text_laws : SerdeLaws Text ⦃serde = text_serde⦄
text_laws = record { read-write = λ a t e. sym e }

abbrev msg_of : List Text → Option (Msg Text)
msg_of ((s ∷ []) ∷ b ∷ []) = some (record { sender = s; receiver = none; body = b })
msg_of ((s ∷ []) ∷ b ∷ (i ∷ []) ∷ []) = some (record { sender = s; receiver = some i; body = b })
msg_of _ = none

abbrev msg_fields : Msg Text → List Text
msg_fields m = elim m.receiver [
  | none ↦ (m.sender ∷ []) ∷ m.body ∷ []
  | some i ↦ (m.sender ∷ []) ∷ m.body ∷ (i ∷ []) ∷ []
]

abbrev pub counting_machine : StateMachine ℕ Text ℕ Text
counting_machine = record {
  handle_incoming = λ n m. (ok tt, suc n);
  wants_to_proceed = λ n. false;
  proceed = λ n. (ok tt, n);
  message_queue = λ n. [];
  drained = λ n. n;
  is_finished = λ n. n == 9;
  pick_output = λ n. if n == 9 then (some (ok (bytes "k")), suc n) else (none, n);
  current_round = λ n. n;
  round_timeout = λ n. none;
}

abbrev joined : Text → List Text → Text
joined m [] = m
joined m (sig ∷ sigs) = joined (m ++ sig) sigs

-- Keys, stages and signatures are texts; a message is the text that its hex stands for.
abbrev pub text_gg20 : Gg20
text_gg20 = record {
  Keygen = ℕ;
  KeygenBody = Text;
  KeygenError = ℕ;
  LocalKey = Text;
  keygen_machine = counting_machine;
  keygen_msg = coded msg_fields msg_of;
  new_keygen = λ i t n. some i;
  keygen_out_of_order = λ e. e == 1;
  key_threshold = λ k. length k;
  key_public_bytes = λ k. k;
  local_key = text_serde;
  OfflineStage = ℕ;
  OfflineBody = Text;
  OfflineError = ℕ;
  CompletedOfflineStage = Text;
  offline_machine = counting_machine;
  offline_msg = coded msg_fields msg_of;
  new_offline = λ i s_l k. some i;
  offline_out_of_order = λ e. false;
  BigInt = Text;
  PartialSignature = Text;
  SignatureRecid = Text;
  SignManual = Text;
  partial_msg = coded msg_fields msg_of;
  from_hex = λ t. some t;
  new_sign_manual = λ m stage. some (m ++ stage, stage);
  complete = λ m sigs. some (joined m sigs);
  r_bytes = λ s. s;
  s_bytes = λ s. s;
  recid_bytes = λ s. [];
}

instance abbrev pub libraries : Externals
libraries = record {
  sled = map_sled;
  crypto = plain_crypto;
  gg20 = text_gg20;
  raw = raw_value;
  generic = generic_serde;
  sealed = sealed_serde;
  groups = groups_serde;
  shares = shares_serde;
}
