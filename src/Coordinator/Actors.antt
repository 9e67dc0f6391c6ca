-- ===== src/Coordinator/Actors.antt =====
-- Which actors a coordinator has started, knows and sends to, by its effects.
use mpc_server.Common.{ℕ, ◌<◌, ◌≡◌, Option, none, some, List, Text, Map, lookup, get_elem?}
use mpc_server.Externals.{Externals, the_gg20, the_sled, the_crypto}
use mpc_server.Coordinator.State.{
  Coordinator, Effect, starts_keygen, starts_offline, starts_signer, sends_keygen, sends_offline,
  sends_partial,
}

pub data Kind : Type 0 where
  keygen_player offline_player signer_actor : Kind

pub record Actor : Type 0 where
  pub kind : Kind
  pub address : ℕ
  pub room : Text

module _ ⦃x : Externals⦄ where
  -- The actor that an effect starts.
  abbrev pub origin : Effect → Option Actor
  origin (starts_keygen addr p) =
      some (record { kind = keygen_player; address = addr; room = p.room })
  origin (starts_offline addr p) =
      some (record { kind = offline_player; address = addr; room = p.room })
  origin (starts_signer addr s) =
      some (record { kind = signer_actor; address = addr; room = s.task.room })
  origin _ = none

  -- The actor that an effect is for: its room is the one of the message.
  abbrev pub target : Effect → Option Actor
  target (sends_keygen addr m) =
      some (record { kind = keygen_player; address = addr; room = m.room })
  target (sends_offline addr m) =
      some (record { kind = offline_player; address = addr; room = m.room })
  target (sends_partial addr m) =
      some (record { kind = signer_actor; address = addr; room = m.room })
  target _ = none

  -- The actor has been started, under its address and for its room.
  abbrev pub IsStarted : List Effect → Actor → Type 0
  IsStarted es a = (i : ℕ) × (e : Effect) × (get_elem? es i ≡ some e) × (origin e ≡ some a)

  -- Every actor that is registered in a map has been started, for the room it is registered under.
  abbrev pub AreStarted : List Effect → Kind → Map ℕ → Type 0
  AreStarted es k runners =
      (room : Text) (addr : ℕ)
      → lookup room runners ≡ some addr
      → IsStarted es (record { kind = k; address = addr; room = room })

  -- Every actor that is sent to has been started, for the room of what it is sent; no address is
  -- given twice, and all are below the next one.
  pub record IsLogged (es : List Effect) (next : ℕ) : Type 0 where
    pub sent :
        (i : ℕ) (e : Effect) (a : Actor)
        → get_elem? es i ≡ some e
        → target e ≡ some a
        → IsStarted es a
    pub below :
        (i : ℕ) (e : Effect) (a : Actor)
        → get_elem? es i ≡ some e
        → origin e ≡ some a
        → a.address < next
    pub unique :
        (i j : ℕ) (e f : Effect) (a b : Actor)
        → get_elem? es i ≡ some e
        → get_elem? es j ≡ some f
        → origin e ≡ some a
        → origin f ≡ some b
        → a.address ≡ b.address
        → i ≡ j

  pub record IsSound (s : Coordinator) : Type 0 where
    pub keygen : AreStarted s.effects keygen_player s.keygen_runners
    pub offline : AreStarted s.effects offline_player s.offline_state_runners
    pub signing : AreStarted s.effects signer_actor s.signers
    pub log : IsLogged s.effects s.started
