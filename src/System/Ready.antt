-- ===== src/System/Ready.antt =====
-- A server that takes part in a key generation.
use mpc_server.Common.{
  ℕ, suc, ◌≡◌, refl, sym, ap, ◌∙◌, some, none, ◌++◌, ok, Text, Outcome, panicked, failed, done,
  insert, lookup,
}
use mpc_server.Externals.{
  Externals, the_sled, the_crypto, the_gg20, the_raw, the_generic, the_sealed, the_groups,
}
use mpc_server.Failure.{Failure}
use mpc_server.Group
use mpc_server.Group.{
  PublicKeyGroup, get_index, get_i, get_t, get_n, get_public_key, get_group_id, as_u16,
}
use mpc_server.Proto.{KeygenRequest}
use mpc_server.Room.{make_room_id}
use mpc_server.Storage.GroupStore.{save_group}
use mpc_server.Transport.Clients.{own_pub_key}
use mpc_server.Coordinator.State.{Coordinator}
use mpc_server.Coordinator.Registration.{keygen_effects, three, insert-IsRegistered}
use mpc_server.Coordinator.Requests.{handle_keygen_request}

module _ ⦃x : Externals⦄ where
  abbrev state_or : Coordinator → Outcome Coordinator Failure (Unit {0}) → Coordinator
  state_or s panicked = s
  state_or s (failed _ t) = t
  state_or s (done _ t) = t

  -- What a server needs to take part in a key generation: a group can be made, with the server in
  -- it, the state machine takes the parameters, nothing is stored under the group's id, and the
  -- group is saved. The server goes by the public key of its secret key.
  pub record IsReady (req : KeygenRequest) (s : Coordinator) : Type 0 where
    pub group : PublicKeyGroup
    pub i : ℕ
    pub state : x.gg20.Keygen
    pub db' : x.sled.Db
    pub made : Group.new req.participant_public_keys (as_u16 req.threshold) s.pk_str ≡ some group
    pub own : get_i group ≡ some i
    pub machine : x.gg20.new_keygen i (get_t group) (get_n group) ≡ some state
    pub free : x.sled.get s.db (get_group_id group) ≡ some none
    pub saved : save_group s.db group ≡ ok db'
    pub identified : s.pk_str ≡ own_pub_key s.sk

  -- The room of its messages.
  abbrev pub room_of : (req : KeygenRequest) (s : Coordinator) → IsReady req s → Text
  room_of req s r = make_room_id req.request_id (get_group_id r.group)

  -- The server has started a player for the request, in a room and as one party, and the room leads
  -- to that player.
  abbrev pub HasPlayer : KeygenRequest → Coordinator → Coordinator → Text → ℕ → Type 0
  HasPlayer req s s' room i =
      (handle_keygen_request req s ≡ done tt s')
      × (state : x.gg20.Keygen) × (s'.effects
          ≡ s.effects ++ keygen_effects req s.started room i state)
      × (lookup room s'.keygen_runners ≡ some s.started)

  -- The server with its player.
  abbrev pub with_player : (req : KeygenRequest) (s : Coordinator) → IsReady req s → Coordinator
  with_player req s r = record s {
    effects = s.effects ++ keygen_effects req s.started (room_of req s r) r.i r.state;
    started = suc s.started;
    db = r.db';
    keygen_runners = insert (room_of req s r) s.started s.keygen_runners;
  }

  pub ready_lem :
      (req : KeygenRequest) (s : Coordinator) (r : IsReady req s)
      → handle_keygen_request req s ≡ done tt (with_player req s r)
  unfolding handle_keygen_request
  ready_lem req s r =
      rw (r.made, r.own, r.machine, r.saved, handle_keygen_request)
        (ap (λ es. done tt (record (with_player req s r) { effects = es })) (three s.effects _ _ _))

  pub ready-HasPlayer :
      (req : KeygenRequest) (s : Coordinator) (r : IsReady req s)
      → HasPlayer req s (with_player req s r) (room_of req s r) r.i
  ready-HasPlayer req s r = (
    ready_lem req s r,
    r.state,
    refl,
    (insert-IsRegistered (room_of req s r) s.started s.keygen_runners).0,
  )

  -- What is handled is the server with its player.
  pub handled_is :
      (req : KeygenRequest) (s s' : Coordinator) (r : IsReady req s)
      → handle_keygen_request req s ≡ done tt s'
      → with_player req s r ≡ s'
  handled_is req s s' r h = ap (state_or s) (sym (ready_lem req s r) ∙ h)
