-- ===== src/System/Twice.antt =====
-- One key generation that is asked for twice.
use mpc_server.Common.{
  ℕ, suc, ◌≡◌, ◌≢◌, inl, inr, refl, sym, ap, ◌∙◌, true, false, some, ok, List, ◌++◌, Text, lookup,
  done, Bool-cases, text_eq, text_eq_iff, arith,
}
use mathlib.Core.List.{append_assoc}
use mpc_server.Common.Fallible.{some-injective}
use mpc_server.Externals.{Externals, the_sled, the_crypto, the_gg20}
use mpc_server.Group
use mpc_server.Group.{PublicKeyGroup, get_i, get_t, get_n, get_group_id, as_u16}
use mpc_server.Proto.{KeygenRequest}
use mpc_server.Room.{make_room_id}
use mpc_server.Server.{MpcImp, keygen}
use mpc_server.Server.Duplicates.{keygen_twice}
use mpc_server.Coordinator.State.{Coordinator, Effect, new}
use mpc_server.Coordinator.Requests.{handle_keygen_request}
use mpc_server.Coordinator.Actors.{IsSound}
use mpc_server.Coordinator.Reach.{Reach, Reach-IsSound}
use mpc_server.Coordinator.Registration.{IsStarted, keygen_effects, handle_keygen_request-IsStarted}

module _ ⦃x : Externals⦄ where
  -- The address that is given next is under no room.
  fresh :
      (s : Coordinator) (room : Text) → IsSound s → lookup room s.keygen_runners ≢ some s.started
  fresh s room sound found =
      let (i, e, at, starts) = sound.keygen room s.started found in
      absurd (omega (arith, sound.log.below i e _ at starts))

  -- The second of two players that are started for one room one after the other, out of a sound
  -- state: no room leads to the first.
  first_is_lost :
      (s t u : Coordinator) (room other : Text) (es fs : List Effect)
      → IsSound s
      → IsStarted s t room s.keygen_runners t.keygen_runners es
      → IsStarted t u room t.keygen_runners u.keygen_runners fs
      → lookup other u.keygen_runners ≢ some s.started
  first_is_lost s t u room other es fs sound first second found =
      elim (Bool-cases (text_eq room other)) [
        | inl e ↦
            let same : room ≡ other = (text_eq_iff room other).0 e in
            let now : some t.started ≡ some s.started =
              sym second.registered.0 ∙ ap (λ r. lookup r u.keygen_runners) same ∙ found in
            absurd (omega (arith, first.counted, some-injective now))
        | inr e ↦
            let differ : room ≢ other = λ same. absurd (cc (e, (text_eq_iff room other).1 same)) in
            fresh s other sound (
              sym (first.registered.1 other differ)
              ∙ sym (second.registered.1 other differ)
              ∙ found)
      ]

  -- A key generation is called twice before its first response is saved, and its id has no result
  -- yet: both calls are accepted. When a coordinator, anywhere after its creation, handles the two
  -- requests, of a group that can be made, with this server in it and parameters that the state
  -- machine takes, it starts two players in one room. The room leads to the first one until the
  -- second request, and then to the second one, and no room leads to the first one any more.
  pub first_player_lost :
      (sk : x.crypto.SecretKey) (stored : x.sled.Db) (now : ℕ) (s : Coordinator)
      (req : KeygenRequest) (api : MpcImp) (group : PublicKeyGroup) (i : ℕ) (state : x.gg20.Keygen)
      (other : Text)
      → api.tx.is_open ≡ true
      → x.sled.contains_key api.results_db req.request_id ≡ some false
      → Reach (new sk stored now) s
      → Group.new req.participant_public_keys (as_u16 req.threshold) s.pk_str ≡ some group
      → get_i group ≡ some i
      → x.gg20.new_keygen i (get_t group) (get_n group) ≡ some state
      → let room = make_room_id req.request_id (get_group_id group) in
        ((keygen req api).0 ≡ ok req.request_id)
        × ((keygen req (keygen req api).1).0 ≡ ok req.request_id)
        × (t : Coordinator) × (handle_keygen_request req s ≡ done tt t)
        × (u : Coordinator) × (handle_keygen_request req t ≡ done tt u)
        × (u.effects
            ≡ s.effects
              ++ (keygen_effects req s.started room i state
                  ++ keygen_effects req (suc s.started) room i state))
        × (lookup room t.keygen_runners ≡ some s.started)
        × (lookup room u.keygen_runners ≡ some (suc s.started))
        × (lookup other u.keygen_runners ≢ some s.started)
  first_player_lost sk stored now s req api group i state other opened free reach made own machine =
      let (accepted, again, _) = keygen_twice req req api refl opened free in
      let (t, handled, first) =
        handle_keygen_request-IsStarted req s group i state made own machine in
      let (u, handled', second) =
        handle_keygen_request-IsStarted req t group i state
          (ap (Group.new req.participant_public_keys (as_u16 req.threshold)) first.kept ∙ made) own
          machine in
      let room = make_room_id req.request_id (get_group_id group) in
      (
        accepted,
        again,
        t,
        handled,
        u,
        handled',
        second.effects
            ∙ ap (λ es. es ++ keygen_effects req t.started room i state) first.effects
            ∙ append_assoc s.effects (keygen_effects req s.started room i state)
                (keygen_effects req t.started room i state)
            ∙ ap
                (λ a.
                  s.effects
                  ++ (keygen_effects req s.started room i state
                      ++ keygen_effects req a room i state))
                first.counted,
        first.registered.0,
        second.registered.0 ∙ ap some first.counted,
        first_is_lost s t u room other _ _ (Reach-IsSound sk stored now s reach) first second,
      )
