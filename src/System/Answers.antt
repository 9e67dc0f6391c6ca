-- ===== src/System/Answers.antt =====
-- A request on its way through the whole server, up to what `check_result` returns in the end.
use mpc_server.Common.{
  ◌≡◌, ◌⊎◌, inl, inr, refl, sym, ap, ◌∙◌, subst, true, false, some, List, [], ◌∷◌, ◌++◌, ok, ok_or,
  text_eq_refl, Outcome, panicked, failed, done, suc, if◌then◌else◌,
}
use mpc_server.Common.Fallible.{some-injective}
use mpc_server.Common.Handler.{continue, caught, pure}
use mpc_server.Externals.{Externals, the_sled, the_crypto, the_gg20, the_groups}
use mpc_server.External.Serde.{Serde, SerdeLaws}
use mpc_server.External.Sled.{SledLaws}
use mpc_server.Failure.{Failure, create_state_machine}
use mpc_server.Group
use mpc_server.Group.{get_i, get_t, get_n, get_group_id, as_u16}
use mpc_server.Player
use mpc_server.Prom.{
  Counter, requests_keygen_handled, requests_keygen_received, requests_sign_received,
}
use mpc_server.Proto.{KeygenRequest, SignRequest, CheckResultResponse, RequestType, RequestStatus}
use mpc_server.Room.{make_room_id}
use mpc_server.Server.{received, keygen, sign, check_result, save_result, or_kept}
use mpc_server.Server.Results.{IsReliable, save_result_lem}
use mpc_server.Storage.GroupStore.{save_group}
use mpc_server.Coordinator.State.{Coordinator, after_effect, counts, responds, starts_keygen}
use mpc_server.Coordinator.Requests.{handle_keygen_request, handle_sign_request, response}
use mpc_server.Coordinator.Dispatch.{handle_coordinator_message}
use mpc_server.Coordinator.Failures.{OnFailure, IsSilent, handle_sign_request-IsSilent}
use mpc_server.Coordinator.Preserves.{OnAny, lift-OnAny, or_panic-OnAny, keep_db-OnAny}
use mpc_server.System.{
  System, handle, receive_request, sent, send_all, leave, after_message, take_message, save_from,
  save_response, call_keygen, call_sign,
}

module _ ⦃x : Externals⦄ ⦃serde : Serde CheckResultResponse⦄ where
  -- A server that has nothing to do: its channels are open, and they and the mailbox are empty.
  abbrev pub idle : x.sled.Db → Coordinator → List Counter → System
  idle db c counted = record {
    api = record {
      tx = record { is_open = true; queue = [] };
      tx_res = record { is_open = true; queue = [] };
      results_db = db;
    };
    coordinator = c;
    mailbox = [];
    is_running = true;
    counted = counted;
  }

  -- The same with one response on its way.
  abbrev waiting : CheckResultResponse → x.sled.Db → Coordinator → List Counter → System
  waiting r db c counted =
      let s = idle db c counted in
      record s { api = record s.api { tx_res = record { is_open = true; queue = r ∷ [] } } }

  -- The coordinator without what has left it already.
  abbrev pub with_no_effects : Coordinator → Coordinator
  with_no_effects c = record c { effects = [] }

  -- The coordinator and then the saving of results run until there is nothing to do.
  abbrev pub saved_twice : System → System
  saved_twice u = save_response (save_response u)

  abbrev keygen_processing : KeygenRequest → CheckResultResponse
  keygen_processing req = response req.request_id [] RequestType.keygen RequestStatus.processing

  abbrev sign_processing : SignRequest → CheckResultResponse
  sign_processing req = response req.request_id [] RequestType.sign RequestStatus.processing

  -- Nothing is in the channels or in the mailbox.
  abbrev pub IsAtRest : System → Type 0
  IsAtRest u = (u.api.tx.queue ≡ []) × (u.api.tx_res.queue ≡ []) × (u.mailbox ≡ [])

  abbrev pub IsTold : List CheckResultResponse → Coordinator → Type 0
  IsTold rs c = sent c.effects ≡ rs

  handle_keygen_request-IsTold :
      (req : KeygenRequest) (c : Coordinator)
      → OnAny (IsTold (keygen_processing req ∷ [])) (handle_keygen_request req (with_no_effects c))
  unfolding handle_keygen_request
  handle_keygen_request-IsTold req c =
      let told = IsTold (keygen_processing req ∷ []) in
      let s =
        after_effect (responds (keygen_processing req))
          (after_effect (counts requests_keygen_handled) (with_no_effects c)) in
      or_panic-OnAny told (Group.new req.participant_public_keys (as_u16 req.threshold) c.pk_str) _
        s
        λ group. or_panic-OnAny told (get_i group) _ s λ i.
          lift-OnAny told
            (ok_or (x.gg20.new_keygen i (get_t group) (get_n group)) create_state_machine) _ s refl
            λ state.
              keep_db-OnAny told (save_group c.db group) _
                (after_effect
                  (starts_keygen s.started
                    (Player.new req (make_room_id req.request_id (get_group_id group)) i state))
                  (record s { started = suc s.started }))
                λ db. refl

  -- After a request whose error is thrown away, the responses are in the channel.
  after_told :
      (rs : List CheckResultResponse) (t u : System) (o : Outcome Coordinator Failure (Unit {0}))
      → OnAny (IsTold rs) o
      → after_message t (continue (caught {F = Failure} o) (λ _. pure tt)) ≡ some u
      → (u.api.tx_res ≡ send_all rs t.api.tx_res) × (u.api.results_db ≡ t.api.results_db)
  after_told rs t u panicked h e = absurd (cc e)
  after_told rs t u (failed f c) h e =
      let same = sym (some-injective e) in
      (
        ap (λ v. v.api.tx_res) same ∙ ap (λ l. send_all l t.api.tx_res) h,
        ap (λ v. v.api.results_db) same,
      )
  after_told rs t u (done a c) h e =
      let same = sym (some-injective e) in
      (
        ap (λ v. v.api.tx_res) same ∙ ap (λ l. send_all l t.api.tx_res) h,
        ap (λ v. v.api.results_db) same,
      )

  -- What two turns of the loop that saves do to two responses, and to one.
  pub saved_two :
      (u : System) (a b : CheckResultResponse)
      → u.api.tx_res.queue ≡ a ∷ b ∷ []
      → saved_twice u ≡ record u {
        api = record u.api {
          tx_res = record u.api.tx_res { queue = [] };
          results_db =
              or_kept
                (or_kept u.api.results_db (save_result u.api.results_db a))
                (save_result (or_kept u.api.results_db (save_result u.api.results_db a)) b);
        };
      }
  unfolding save_response
  saved_two u a b e = ap (λ q. save_response (save_from q u)) e

  saved_one :
      (u : System) (a : CheckResultResponse)
      → u.api.tx_res.queue ≡ a ∷ []
      → saved_twice u ≡ record u {
        api = record u.api {
          tx_res = record u.api.tx_res { queue = [] };
          results_db = or_kept u.api.results_db (save_result u.api.results_db a);
        };
      }
  unfolding save_response
  saved_one u a e = ap (λ q. save_response (save_from q u)) e

  module _ (stored : SledLaws) (json : SerdeLaws CheckResultResponse) where
    pub check_saved :
        IsReliable stored json
        → (db : x.sled.Db) (r : CheckResultResponse)
        → check_result r.request_id (or_kept db (save_result db r)) ≡ ok r
    check_saved reliable db r =
        save_result_lem stored json reliable db r r.request_id
        ∙ ap (λ b. if b then ok r else check_result r.request_id db) (text_eq_refl r.request_id)

    -- Of a server that has nothing to do, whose disk takes every write: a key generation with an
    -- id that has no result is accepted, and once the coordinator has handled it without a panic,
    -- whether it could start or not, and the results have been saved, a check of the id says that
    -- it is being processed.
    pub keygen_answered :
        IsReliable stored json
        → (req : KeygenRequest) (db : x.sled.Db) (c : Coordinator) (counted : List Counter)
          (u : System)
        → x.sled.contains_key db req.request_id ≡ some false
        → take_message (receive_request (call_keygen req (idle db c counted)).1) ≡ some u
        → ((call_keygen req (idle db c counted)).0 ≡ ok req.request_id)
          × (check_result req.request_id (saved_twice u).api.results_db
              ≡ ok (keygen_processing req))
    unfolding call_keygen receive_request take_message handle keygen handle_coordinator_message
    keygen_answered reliable req db c counted u free h =
        let (at, kept) =
          after_told (keygen_processing req ∷ [])
            (waiting (received req.request_id RequestType.keygen) db c
              (counted ++ (requests_keygen_received ∷ [])))
            u _ (handle_keygen_request-IsTold req c) (rw free at h) in
        (
          rw free refl,
          ap (λ v. check_result req.request_id v.api.results_db)
                (saved_two u (received req.request_id RequestType.keygen) (keygen_processing req)
                  (ap (λ ch. ch.queue) at))
              ∙ check_saved reliable _ (keygen_processing req),
        )

    abbrev pub IsUnanswered : SignRequest → System → Type 0
    IsUnanswered req u =
        IsAtRest u
        × ((check_result req.request_id u.api.results_db
              ≡ ok (received req.request_id RequestType.sign))
            ⊎ (check_result req.request_id u.api.results_db ≡ ok (sign_processing req)))

    silent_rest :
        IsReliable stored json
        → (req : SignRequest) (db : x.sled.Db) (c d : Coordinator) (counted : List Counter)
        → IsSilent req (with_no_effects c) d
        → IsUnanswered req (
            saved_twice (leave (waiting (received req.request_id RequestType.sign) db c counted) d))
    silent_rest reliable req db c d counted (inl e) =
        let first = received req.request_id RequestType.sign in
        let t = waiting first db c counted in
        rw (saved_one (leave t d) first (ap (λ es. (send_all (sent es) t.api.tx_res).queue) e))
          ((refl, refl, refl), inl (check_saved reliable db first))
    silent_rest reliable req db c d counted (inr e) =
        let first = received req.request_id RequestType.sign in
        let t = waiting first db c counted in
        rw
          (saved_two (leave t d) first (sign_processing req)
            (ap (λ es. (send_all (sent es) t.api.tx_res).queue) e))
          ((refl, refl, refl), inr (check_saved reliable _ (sign_processing req)))

    -- Of a server that has nothing to do, whose disk takes every write: a sign request with a hash
    -- and with an id that has no result, which the coordinator then fails to start, is accepted,
    -- and after the results have been saved there is nothing more to do, and a check of its id
    -- says that it has been received, or that it is being processed, and never that it failed.
    pub failed_sign-IsUnanswered :
        IsReliable stored json
        → (req : SignRequest) (db : x.sled.Db) (c d : Coordinator) (counted : List Counter)
          (hash : x.gg20.BigInt) (f : Failure)
        → x.sled.contains_key db req.request_id ≡ some false
        → x.gg20.from_hex req.hash ≡ some hash
        → handle_sign_request req (with_no_effects c) ≡ failed f d
        → ((call_sign req (idle db c counted)).0 ≡ ok req.request_id)
          × (u : System) × (take_message (receive_request (call_sign req (idle db c counted)).1)
              ≡ some u)
          × IsUnanswered req (saved_twice u)
    unfolding call_sign receive_request take_message handle sign handle_coordinator_message
    failed_sign-IsUnanswered reliable req db c d counted hash f free is_hex fails =
        let first = received req.request_id RequestType.sign in
        let t = waiting first db c (counted ++ (requests_sign_received ∷ [])) in
        (
          rw (free, is_hex) refl,
          leave t d,
          rw (free, is_hex, fails) refl,
          silent_rest reliable req db c d (counted ++ (requests_sign_received ∷ [])) (
              subst (OnFailure (IsSilent req (with_no_effects c))) fails
                (handle_sign_request-IsSilent req (with_no_effects c))),
        )
