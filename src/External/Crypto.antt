-- ===== src/External/Crypto.antt =====
-- hex, base64, libsecp256k1, ecies and sha2.
use mpc_server.Common.{◌≡◌, Bool, true, Option, some, Text}

pub record Crypto : Type 1 where
  pub SecretKey : Type 0
  pub PublicKey : Type 0
  pub Signature : Type 0
  pub from_secret_key : SecretKey → PublicKey
  pub secret_bytes : SecretKey → Text
  pub public_bytes : PublicKey → Text
  pub serialize_compressed : PublicKey → Text
  pub parse_public_key : Text → Option PublicKey
  pub parse_secret_key : Text → Option SecretKey
  pub signature_bytes : Signature → Text
  pub parse_signature : Text → Option Signature
  -- `sign` and `verify`, on the 32 bytes of a `Message`
  pub sign : Text → SecretKey → Signature
  pub verify : Text → Signature → PublicKey → Bool
  pub sha256 : Text → Text
  -- ecies on serialised keys, at one draw of its randomness
  pub ecies_encrypt : Text → Text → Option Text
  pub ecies_decrypt : Text → Text → Option Text
  pub hex_encode : Text → Text
  pub hex_decode : Text → Option Text
  pub base64_encode : Text → Text
  pub base64_decode : Text → Option Text
  -- `str::from_utf8` succeeds
  pub is_utf8 : Text → Bool

-- Round trips that these libraries document.
pub record CryptoLaws ⦃crypto : Crypto⦄ : Type 0 where
  pub hex_round_trip : (t : Text) → crypto.hex_decode (crypto.hex_encode t) ≡ some t
  pub base64_round_trip : (t : Text) → crypto.base64_decode (crypto.base64_encode t) ≡ some t
  pub parse_compressed :
      (pk : crypto.PublicKey) → crypto.parse_public_key (crypto.serialize_compressed pk) ≡ some pk
  pub parse_signature_bytes :
      (s : crypto.Signature) → crypto.parse_signature (crypto.signature_bytes s) ≡ some s
  pub verify-sign :
      (m : Text) (sk : crypto.SecretKey)
      → crypto.verify m (crypto.sign m sk) (crypto.from_secret_key sk) ≡ true
  pub ecies_round_trip :
      (sk : crypto.SecretKey) (m c : Text)
      → crypto.ecies_encrypt (crypto.public_bytes (crypto.from_secret_key sk)) m ≡ some c
      → crypto.ecies_decrypt (crypto.secret_bytes sk) c ≡ some m
