-- ===== src/Transport/Verified.antt =====
-- What the incoming filters let through.
use mpc_server.Common.{
  ◌≡◌, ◌≢◌, ◌↔◌, refl, subst, true, List, [], ◌∷◌, some, Result, ok, err, Text, text_eq_iff, arith,
  All, Bool-cases, inl, inr, if◌then◌else◌,
}
use mpc_server.Common.Fallible.{ok_or_bind-elim, bind-elim}
use mpc_server.External.Crypto.{Crypto}
use mpc_server.External.Serde.{Serde}
use mpc_server.Failure.{
  Failure, external, deserialize_message, wrong_pub_key, failed_to_parse_pub_key, wrong_signature,
  verify_failed,
}
use mpc_server.Proto.{WireMessage}
use mpc_server.Transport.{take_non_owned, hashed, do_parse_signed, parse_signed, incoming}

module _ ⦃crypto : Crypto⦄ where
  -- The signature of the message is one of its payload by the key that it names as its sender's.
  pub record IsSigned (m : WireMessage) : Type 0 where
    pub key_bytes : Text
    pub key : crypto.PublicKey
    pub signature_bytes : Text
    pub signature : crypto.Signature
    pub hash : Text
    pub key_hex : crypto.hex_decode m.sender_public_key ≡ some key_bytes
    pub key_parses : crypto.parse_public_key key_bytes ≡ some key
    pub signature_hex : crypto.hex_decode m.signature ≡ some signature_bytes
    pub signature_parses : crypto.parse_signature signature_bytes ≡ some signature
    pub payload_hash : hashed m.payload ≡ ok hash
    pub verifies : crypto.verify hash signature key ≡ true

  module _ ⦃wire : Serde WireMessage⦄ where
    checked :
        (text : Text) (m signed : WireMessage) (hash kb sb : Text) (k : crypto.PublicKey)
        (sig : crypto.Signature)
        → wire.read text ≡ some signed
        → crypto.hex_decode signed.sender_public_key ≡ some kb
        → crypto.parse_public_key kb ≡ some k
        → crypto.hex_decode signed.signature ≡ some sb
        → crypto.parse_signature sb ≡ some sig
        → hashed signed.payload ≡ ok hash
        → (if crypto.verify hash sig k then ok signed else err verify_failed) ≡ ok m
        → (wire.read text ≡ some m) × IsSigned m
    checked text m signed hash kb sb k sig e1 e2 e3 e4 e5 e6 h =
        let v : crypto.verify hash sig k ≡ true = ground arith in
        let same : signed ≡ m = ground arith in
        subst (λ w. (wire.read text ≡ some w) × IsSigned w) same
          (
            e1,
            record {
              key_bytes = kb;
              key = k;
              signature_bytes = sb;
              signature = sig;
              hash = hash;
              key_hex = e2;
              key_parses = e3;
              signature_hex = e4;
              signature_parses = e5;
              payload_hash = e6;
              verifies = v;
            },
          )

    IsSigned-do_parse_signed :
        (text : Text) (m : WireMessage)
        → wire.read text ≡ some m
        → IsSigned m
        → do_parse_signed text ≡ ok m
    unfolding do_parse_signed
    IsSigned-do_parse_signed text m e h = rw (
      e, h.key_hex, h.key_parses, h.signature_hex, h.signature_parses, h.payload_hash, h.verifies,
    )

    do_parse_signed-IsSigned :
        (text : Text) (m : WireMessage)
        → do_parse_signed text ≡ ok m
        → (wire.read text ≡ some m) × IsSigned m
    unfolding do_parse_signed
    do_parse_signed-IsSigned text m h =
        ok_or_bind-elim (wire.read text) deserialize_message _ h λ signed e1 h1.
          ok_or_bind-elim (crypto.hex_decode signed.sender_public_key) wrong_pub_key _ h1
            λ kb e2 h2.
              ok_or_bind-elim (crypto.parse_public_key kb) failed_to_parse_pub_key _ h2 λ k e3 h3.
                ok_or_bind-elim (crypto.hex_decode signed.signature) wrong_signature _ h3
                  λ sb e4 h4. ok_or_bind-elim (crypto.parse_signature sb) external _ h4 λ sig e5 h5.
                    bind-elim (hashed signed.payload) _ h5
                      λ hash e6 h6. checked text m signed hash kb sb k sig e1 e2 e3 e4 e5 e6 h6

    -- A text is accepted as a message exactly when it reads as that message and the message's
    -- signature is one of its payload by its sender's key.
    pub do_parse_signed_iff :
        (text : Text) (m : WireMessage)
        → (do_parse_signed text ≡ ok m) ↔ ((wire.read text ≡ some m) × IsSigned m)
    do_parse_signed_iff text m =
        (do_parse_signed-IsSigned text m, λ h. IsSigned-do_parse_signed text m h.0 h.1)

    -- The signature does not cover the room: a signed message is as good for any other room.
    pub do_parse_signed-other_room :
        (text text' room : Text) (m : WireMessage)
        → do_parse_signed text ≡ ok m
        → wire.read text' ≡ some (record m { room = room })
        → do_parse_signed text' ≡ ok (record m { room = room })
    do_parse_signed-other_room text text' room m h e =
        let s = (do_parse_signed-IsSigned text m h).1 in
        IsSigned-do_parse_signed text' (record m { room = room }) e
          (record {
            key_bytes = s.key_bytes;
            key = s.key;
            signature_bytes = s.signature_bytes;
            signature = s.signature;
            hash = s.hash;
            key_hex = s.key_hex;
            key_parses = s.key_parses;
            signature_hex = s.signature_hex;
            signature_parses = s.signature_parses;
            payload_hash = s.payload_hash;
            verifies = s.verifies;
          })

    -- What may reach the coordinator: an error of verification, or a signed message of another party.
    abbrev pub IsAdmitted : Text → Result Failure WireMessage → Type 0
    IsAdmitted own (err e) = Unit
    IsAdmitted own (ok m) = IsSigned m × (m.sender_public_key ≢ own)

    parsed-IsAdmitted :
        (own text : Text) (r : Result Failure WireMessage)
        → do_parse_signed text ≡ r
        → take_non_owned own r ≡ true
        → IsAdmitted own r
    unfolding take_non_owned
    parsed-IsAdmitted own text (err e) h k = tt
    parsed-IsAdmitted own text (ok m) h k =
        ((do_parse_signed-IsSigned text m h).1, ground (arith, text_eq_iff m.sender_public_key own))

    -- Every message of the incoming stream is signed by its sender, who is another party.
    pub incoming-IsAdmitted :
        (own : Text) (texts : List (Result Failure Text))
        → All (IsAdmitted own) (incoming own texts)
    unfolding incoming parse_signed
    incoming-IsAdmitted own [] = tt
    incoming-IsAdmitted own (err e ∷ texts) = incoming-IsAdmitted own texts
    incoming-IsAdmitted own (ok text ∷ texts) =
        elim (Bool-cases (take_non_owned own (do_parse_signed text))) [
          | inl kept ↦
              rw (kept, incoming)
                (
                  parsed-IsAdmitted own text (do_parse_signed text) refl kept,
                  incoming-IsAdmitted own texts,
                )
          | inr dropped ↦ rw (dropped, incoming) (incoming-IsAdmitted own texts)
        ]
