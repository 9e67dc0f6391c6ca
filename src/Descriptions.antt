-- ===== src/Descriptions.antt =====
-- src/actors/msg_utils.rs: the descriptions of messages that the log has.
use mpc_server.Common.{
  ℕ, ◌≡◌, ap, ◌∙◌, List, [], ◌∷◌, ◌++◌, Option, none, some, Text, bytes, text_eq, if◌then◌else◌,
  ◌==◌,
}
use mpc_server.External.Crypto.{Crypto}
use mpc_server.External.Regex.{Regex, RegexLaws, IsWord}
use mpc_server.External.Serde.{Serde, SerdeLaws}
use mpc_server.Messages.{GenericProtocolMessage}

-- `MessageRound`
pub data MessageRound : Type 0 where
  kg1 kg2 kg3 kg4 s1 s2 s3 s4 s5 s6 s7 un : MessageRound

-- `MsgDescriptor`
pub record MsgDescriptor : Type 0 where
  pub sender : ℕ
  pub receiver : Option ℕ
  pub round : MessageRound
  pub hash : Text

-- The arms of the match on a round's name, in their order.
abbrev rounds : List (Text × MessageRound)
rounds =
    (bytes "Round1", kg1)
    ∷ (bytes "Round2", kg2)
    ∷ (bytes "Round3", kg3)
    ∷ (bytes "Round4", kg4)
    ∷ (bytes "M1", s1)
    ∷ (bytes "M2", s2)
    ∷ (bytes "M3", s3)
    ∷ (bytes "M4", s4)
    ∷ (bytes "M5", s5)
    ∷ (bytes "M6", s6)
    ∷ (bytes "scalar", s7)
    ∷ (bytes "curve", s7)
    ∷ []

arm : Text → List (Text × MessageRound) → MessageRound
arm name [] = un
arm name ((text, round) ∷ arms) = if text_eq name text then round else arm name arms

unfoldable pub round_of : Text → MessageRound
unfolding arm
round_of name = arm name rounds

-- `replace('\\', "")`: a backslash is 92.
unfoldable pub without_backslashes : Text → Text
without_backslashes [] = []
without_backslashes (c ∷ cs) =
    let rest = without_backslashes cs in if c == 92 then rest else c ∷ rest

module _ ⦃crypto : Crypto⦄ ⦃regex : Regex⦄ ⦃generic : Serde GenericProtocolMessage⦄
    ⦃descriptor : Serde MsgDescriptor⦄ where
  -- The description of a message whose round has a name; `none` is a panic of the `unwrap`.
  describe_round : Text → GenericProtocolMessage → Option Text → Option Text
  describe_round hash msg none = some []
  describe_round hash msg (some name) = descriptor.write (record {
    sender = msg.sender;
    receiver = msg.receiver;
    round = round_of name;
    hash = crypto.hex_encode hash;
  })

  describe_generic : Text → Option GenericProtocolMessage → Option Text
  unfolding describe_round
  describe_generic hash none = some []
  describe_generic hash (some msg) =
      describe_round hash msg (regex.captures (without_backslashes msg.body))

  -- `describe_message`
  unfoldable pub describe_message : Text → Option Text
  unfolding describe_generic
  describe_message msg = describe_generic (crypto.sha256 msg) (generic.read msg)

  -- The description of a message whose body starts with the quoted name of its round, if it can be
  -- written, reads back as the sender, the receiver, the round of that name and the hash of the
  -- message's text.
  describe_message-reads :
      RegexLaws
      → SerdeLaws MsgDescriptor
      → (msg text : Text) (m : GenericProtocolMessage) (c : ℕ) (word rest : Text)
      → generic.read msg ≡ some m
      → without_backslashes m.body ≡ 123 ∷ 34 ∷ ((c ∷ word) ++ (34 ∷ rest))
      → IsWord (c ∷ word)
      → describe_message msg ≡ some text
      → descriptor.read text
        ≡ some (record {
          sender = m.sender;
          receiver = m.receiver;
          round = round_of (c ∷ word);
          hash = crypto.hex_encode (crypto.sha256 msg);
        })
  unfolding describe_message
  describe_message-reads laws json msg text m c word rest reads body named h =
      let captured = ap regex.captures body ∙ laws.captures_word c word rest named in
      let described = rw (reads, captured) at h in json.read-write _ text described
