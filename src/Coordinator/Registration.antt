-- ===== src/Coordinator/Registration.antt =====
-- How a request starts its player and registers it under the room of the computation.
use mpc_server.Common.{
  ℕ, suc, ◌≡◌, ◌≢◌, refl, ap, ◌∙◌, some, List, [], ◌∷◌, ◌++◌, Result, ok, err, Text, text_eq_iff,
  text_eq_refl, lookup, insert, lookup-insert, if◌then◌else◌, Map, Outcome, done, Exec, arith,
}
use mathlib.Core.List.{append_assoc}
use mpc_server.Common.Handler.{continue}
use mpc_server.Externals.{Externals, the_sled, the_crypto, the_gg20, the_groups, the_shares}
use mpc_server.Failure.{Failure}
use mpc_server.Group
use mpc_server.Group.{PublicKeyGroup, get_i, get_t, get_n, get_group_id, as_u16}
use mpc_server.Player
use mpc_server.Prom.{requests_keygen_handled, requests_sign_handled}
use mpc_server.Proto.{KeygenRequest, SignRequest, RequestType, RequestStatus}
use mpc_server.Room.{make_room_id}
use mpc_server.Storage.GroupStore.{save_group}
use mpc_server.Storage.ShareStore.{StoredLocalShare, retrieve}
use mpc_server.Coordinator.State.{
  Coordinator, Effect, counts, responds, starts_keygen, starts_offline, keep_db,
}
use mpc_server.Coordinator.Requests.{
  handle_keygen_request, handle_sign_request, signing_indices, response,
}

-- The second map has the address under the room, and is as the first one elsewhere.
abbrev pub IsRegistered : Text → ℕ → Map ℕ → Map ℕ → Type 0
IsRegistered room addr runners runners' =
    (lookup room runners' ≡ some addr)
    × ((other : Text) → room ≢ other → lookup other runners' ≡ lookup other runners)

pub insert-IsRegistered :
    (room : Text) (addr : ℕ) (runners : Map ℕ)
    → IsRegistered room addr runners (insert room addr runners)
insert-IsRegistered room addr runners = (
  lookup-insert room room addr runners
      ∙ ap (λ b. if b then some addr else lookup room runners) (text_eq_refl room),
  λ other ne. lookup-insert room other addr runners ∙ ground (arith, text_eq_iff room other),
)

module _ ⦃x : Externals⦄ where
  keep_db-elim :
      {B : Type 0} (P : Outcome Coordinator Failure B → Type 0) (r : Result Failure x.sled.Db)
      (f : Unit {0} → Exec Coordinator Failure B) (s : Coordinator)
      → ((db : x.sled.Db) → P (f tt (record s { db = db })))
      → P (continue (keep_db r s) f)
  keep_db-elim P (ok db) f s k = k db
  keep_db-elim P (err e) f s k = k s.db

  -- One actor more, registered under the room, and these effects.
  pub record IsStarted (s s' : Coordinator) (room : Text) (runners runners' : Map ℕ)
      (es : List Effect) : Type 0 where
    pub registered : IsRegistered room s.started runners runners'
    pub counted : s'.started ≡ suc s.started
    pub effects : s'.effects ≡ s.effects ++ es
    pub kept : s'.pk_str ≡ s.pk_str

  -- The counter, the response and the new player of a key generation.
  abbrev pub keygen_effects : KeygenRequest → ℕ → Text → ℕ → x.gg20.Keygen → List Effect
  keygen_effects req addr room i state =
      counts requests_keygen_handled
      ∷ responds (response req.request_id [] RequestType.keygen RequestStatus.processing)
      ∷ starts_keygen addr (Player.new req room i state)
      ∷ []

  -- The same of a sign request.
  abbrev pub sign_effects : SignRequest → ℕ → Text → ℕ → List ℕ → x.gg20.OfflineStage → List Effect
  sign_effects req addr room index s_l state =
      counts requests_sign_handled
      ∷ responds (response req.request_id [] RequestType.sign RequestStatus.processing)
      ∷ starts_offline addr
          (Player.new (record { inner = req; room = room; i = index; s_l = s_l }) room index state)
      ∷ []

  pub three :
      (es : List Effect) (a b c : Effect)
      → ((es ++ (a ∷ [])) ++ (b ∷ [])) ++ (c ∷ []) ≡ es ++ (a ∷ b ∷ c ∷ [])
  three es a b c =
      append_assoc (es ++ (a ∷ [])) (b ∷ []) (c ∷ []) ∙ append_assoc es (a ∷ []) (b ∷ c ∷ [])

  -- A key generation of a group that can be made, with this server in it and parameters that the
  -- state machine takes, succeeds: the requester is told that it is being processed, one player is
  -- started in the state machine's first state, and messages of the room of the request and the
  -- group go to it, while those of other rooms go where they went.
  pub handle_keygen_request-IsStarted :
      (req : KeygenRequest) (s : Coordinator) (group : PublicKeyGroup) (i : ℕ)
      (state : x.gg20.Keygen)
      → Group.new req.participant_public_keys (as_u16 req.threshold) s.pk_str ≡ some group
      → get_i group ≡ some i
      → x.gg20.new_keygen i (get_t group) (get_n group) ≡ some state
      → let room = make_room_id req.request_id (get_group_id group) in
        (s' : Coordinator) × (handle_keygen_request req s ≡ done tt s')
        × IsStarted s s' room s.keygen_runners s'.keygen_runners
            (keygen_effects req s.started room i state)
  unfolding handle_keygen_request
  handle_keygen_request-IsStarted req s group i state made own machine =
      let room = make_room_id req.request_id (get_group_id group) in
      rw (made, own, machine, handle_keygen_request)
        (keep_db-elim
          (λ o.
            (s' : Coordinator) × (o ≡ done tt s')
            × IsStarted s s' room s.keygen_runners s'.keygen_runners
                (keygen_effects req s.started room i state))
          (save_group s.db group) _ _
          λ db. (
            _,
            refl,
            record {
              registered = insert-IsRegistered room s.started s.keygen_runners;
              counted = refl;
              effects = three s.effects _ _ _;
              kept = refl;
            },
          ))

  -- A sign request for a key of this server, whose participants are as many as the key needs, all
  -- in the group of the key, this server among them, with parameters that the state machine takes,
  -- succeeds: the requester is told that it is being processed, one player of the offline stage is
  -- started with the participants' indices in the group, and messages of the room of the request
  -- and the participants go to it, while those of other rooms go where they went.
  pub handle_sign_request-IsStarted :
      (req : SignRequest) (s : Coordinator) (share : StoredLocalShare x.gg20.LocalKey)
      (group subgroup : PublicKeyGroup) (s_l : List ℕ) (i index : ℕ) (state : x.gg20.OfflineStage)
      → retrieve s.db s.sk req.public_key ≡ ok share
      → Group.new share.public_keys (x.gg20.key_threshold share.share) s.pk_str ≡ some group
      → Group.new req.participant_public_keys (x.gg20.key_threshold share.share) s.pk_str
        ≡ some subgroup
      → signing_indices group (x.gg20.key_threshold share.share) req.participant_public_keys
        ≡ ok s_l
      → get_i group ≡ some i
      → get_i subgroup ≡ some index
      → x.gg20.new_offline index s_l share.share ≡ some state
      → let room = make_room_id req.request_id (get_group_id subgroup) in
        (s' : Coordinator) × (handle_sign_request req s ≡ done tt s')
        × IsStarted s s' room s.offline_state_runners s'.offline_state_runners
            (sign_effects req s.started room index s_l state)
  unfolding handle_sign_request
  handle_sign_request-IsStarted req s share group subgroup s_l i index state found made submade
        indices own subown machine =
      let room = make_room_id req.request_id (get_group_id subgroup) in
      rw (found, made, submade, handle_sign_request)
        (keep_db-elim
          (λ o.
            (s' : Coordinator) × (o ≡ done tt s')
            × IsStarted s s' room s.offline_state_runners s'.offline_state_runners
                (sign_effects req s.started room index s_l state))
          (save_group s.db subgroup) _ _
          λ db.
            rw (indices, own, subown, machine)
              (
                _,
                refl,
                record {
                  registered = insert-IsRegistered room s.started s.offline_state_runners;
                  counted = refl;
                  effects = three s.effects _ _ _;
                  kept = refl;
                },
              ))
