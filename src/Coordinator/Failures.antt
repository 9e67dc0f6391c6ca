-- ===== src/Coordinator/Failures.antt =====
-- What a sign request that fails has told the requester.
use mpc_server.Common.{
  ℕ, ◌≡◌, refl, ap, ◌∙◌, ◌⊎◌, inl, inr, Option, none, some, List, [], ◌∷◌, ◌++◌, Result, ok, err,
  ok_or, map_err, Text, Outcome, panicked, failed, done, Exec, arith,
}
use mpc_server.Common.Handler.{continue, lift, or_panic}
use mpc_server.Externals.{Externals, the_sled, the_crypto, the_gg20, the_groups, the_shares}
use mpc_server.Failure.{
  Failure, retrieve_local_share, find_index_of_participants, create_state_machine,
}
use mpc_server.Group
use mpc_server.Group.{PublicKeyGroup, get_i, get_index}
use mpc_server.Storage.GroupStore.{save_group}
use mpc_server.Storage.ShareStore.{StoredLocalShare, retrieve}
use mpc_server.Prom.{requests_sign_handled}
use mpc_server.Proto.{SignRequest, RequestType, RequestStatus}
use mpc_server.Coordinator.State.{Coordinator, after_effect, counts, responds, keep_db}
use mpc_server.Coordinator.Requests.{handle_sign_request, signing_indices, response}

own_key-new :
    (pks : List Text) (t : ℕ) (own : Text) (g : PublicKeyGroup)
    → Group.new pks t own ≡ some g
    → g.own_public_key ≡ own
unfolding Group.new
own_key-new pks t own g h = ground arith

get_i_of_index : (g : PublicKeyGroup) → get_index g g.own_public_key ≡ none → get_i g ≡ none
unfolding get_i
get_i_of_index g e = rw (e, get_i) refl

get_i_missing :
    (pks : List Text) (t : ℕ) (own : Text) (g : PublicKeyGroup)
    → Group.new pks t own ≡ some g
    → get_index g own ≡ none
    → get_i g ≡ none
get_i_missing pks t own g h absent =
    get_i_of_index g (ap (get_index g) (own_key-new pks t own g h) ∙ absent)

module _ ⦃x : Externals⦄ where
  -- The predicate holds of the coordinator that a failure leaves behind.
  abbrev pub OnFailure :
      {A : Type 0} → (Coordinator → Type 0) → Outcome Coordinator Failure A → Type 0
  OnFailure P panicked = Unit
  OnFailure P (failed e s) = P s
  OnFailure P (done a s) = Unit

  lift-OnFailure :
      {A B : Type 0} (P : Coordinator → Type 0) (r : Result Failure A)
      (f : A → Exec Coordinator Failure B) (s : Coordinator)
      → P s
      → ((a : A) → OnFailure P (f a s))
      → OnFailure P (continue (lift r s) f)
  lift-OnFailure P (ok a) f s h k = k a
  lift-OnFailure P (err e) f s h k = h

  or_panic-OnFailure :
      {A B : Type 0} (P : Coordinator → Type 0) (o : Option A) (f : A → Exec Coordinator Failure B)
      (s : Coordinator)
      → ((a : A) → OnFailure P (f a s))
      → OnFailure P (continue (or_panic o s) f)
  or_panic-OnFailure P none f s k = tt
  or_panic-OnFailure P (some a) f s k = k a

  keep_db-OnFailure :
      {B : Type 0} (P : Coordinator → Type 0) (r : Result Failure x.sled.Db)
      (f : Unit {0} → Exec Coordinator Failure B) (s : Coordinator)
      → ((db : x.sled.Db) → OnFailure P (f tt (record s { db = db })))
      → OnFailure P (continue (keep_db r s) f)
  keep_db-OnFailure P (ok db) f s k = k db
  keep_db-OnFailure P (err e) f s k = k s.db

  -- A counter, and at most the response that the request is being processed.
  abbrev pub IsSilent : SignRequest → Coordinator → Coordinator → Type 0
  IsSilent req s s' =
      (s'.effects ≡ s.effects ++ (counts requests_sign_handled ∷ []))
      ⊎ (s'.effects
          ≡ (s.effects ++ (counts requests_sign_handled ∷ []))
            ++ (responds (response req.request_id [] RequestType.sign RequestStatus.processing)
                ∷ []))

  -- A sign request that fails, for whatever reason, has sent the requester no response, or only
  -- the one that it is being processed.
  pub handle_sign_request-IsSilent :
      (req : SignRequest) (s : Coordinator) → OnFailure (IsSilent req s) (handle_sign_request req s)
  unfolding handle_sign_request
  handle_sign_request-IsSilent req s =
      let quiet = IsSilent req s in
      let begun = after_effect (counts requests_sign_handled) s in
      let processing =
        responds (response req.request_id [] RequestType.sign RequestStatus.processing) in
      lift-OnFailure quiet (map_err (retrieve s.db s.sk req.public_key) retrieve_local_share) _
        begun (inl refl)
        λ share.
          let t = x.gg20.key_threshold share.share in
          or_panic-OnFailure quiet (Group.new share.public_keys t s.pk_str) _ begun λ group.
            or_panic-OnFailure quiet (Group.new req.participant_public_keys t s.pk_str) _ begun
              λ subgroup. keep_db-OnFailure quiet (save_group s.db subgroup) _ begun λ db.
                let saved = record begun { db = db } in
                lift-OnFailure quiet
                  (map_err (signing_indices group t req.participant_public_keys)
                    find_index_of_participants)
                  _ saved (inl refl)
                  λ s_l.
                    let told = after_effect processing saved in
                    or_panic-OnFailure quiet (get_i group) _ told λ i.
                      or_panic-OnFailure quiet (get_i subgroup) _ told λ index.
                        lift-OnFailure quiet
                          (ok_or (x.gg20.new_offline index s_l share.share) create_state_machine) _
                          told (inr refl) λ state. tt

  keep_db-panics :
      {B : Type 0} (r : Result Failure x.sled.Db) (f : Unit {0} → Exec Coordinator Failure B)
      (s : Coordinator)
      → ((db : x.sled.Db) → f tt (record s { db = db }) ≡ panicked)
      → continue (keep_db r s) f ≡ panicked
  keep_db-panics (ok db) f s k = k db
  keep_db-panics (err e) f s k = k s.db

  or_panic-panics :
      {A B : Type 0} (o : Option A) (f : A → Exec Coordinator Failure B) (s : Coordinator)
      → ((a : A) → f a s ≡ panicked)
      → continue (or_panic o s) f ≡ panicked
  or_panic-panics none f s k = refl
  or_panic-panics (some a) f s k = k a

  -- A sign request whose participants are as many as the key needs and all in its group, but this
  -- server is none of them: the coordinator panics.
  pub handle_sign_request-panics :
      (req : SignRequest) (s : Coordinator) (share : StoredLocalShare x.gg20.LocalKey)
      (group subgroup : PublicKeyGroup) (s_l : List ℕ)
      → retrieve s.db s.sk req.public_key ≡ ok share
      → Group.new share.public_keys (x.gg20.key_threshold share.share) s.pk_str ≡ some group
      → Group.new req.participant_public_keys (x.gg20.key_threshold share.share) s.pk_str
        ≡ some subgroup
      → signing_indices group (x.gg20.key_threshold share.share) req.participant_public_keys
        ≡ ok s_l
      → get_index subgroup s.pk_str ≡ none
      → handle_sign_request req s ≡ panicked
  unfolding handle_sign_request
  handle_sign_request-panics req s share group subgroup s_l found made submade indices absent =
      rw (found, made, submade, handle_sign_request)
        (keep_db-panics (save_group s.db subgroup) _ _ λ db. rw indices (
          or_panic-panics (get_i group) _ _
            λ i. rw (get_i_missing _ _ s.pk_str subgroup submade absent) refl))
