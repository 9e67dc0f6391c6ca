-- ===== src/System/Keys.antt =====
-- A joint key, from the player to what `check_result` returns.
use mathlib.Core.List.{Memᴰ}
use mathlib.Core.List.Memᴰ
use mathlib.Core.List.Memᴰ.{head, tail}
use mpc_server.Common.{ℕ, ◌≡◌, sym, ap, ◌∙◌, subst, some, List, [], ◌∷◌, ok, done, Text, All}
use mpc_server.External.Serde.{Serde, SerdeLaws}
use mpc_server.External.Sled.{SledLaws}
use mpc_server.Externals.{Externals, the_sled, the_crypto, the_gg20}
use mpc_server.Failure.{Failure}
use mpc_server.Group
use mpc_server.Group.{PublicKeyGroup, as_u16}
use mpc_server.Messages.{ProtocolOutput}
use mpc_server.Player
use mpc_server.Player.{Sent, result}
use mpc_server.Player.Preserves.{Event, run}
use mpc_server.Player.Trace.{IsLabelled, run-IsLater}
use mpc_server.Prom.{Counter}
use mpc_server.Proto.{KeygenRequest, CheckResultResponse, RequestType, RequestStatus}
use mpc_server.Server.{check_result}
use mpc_server.Server.Results.{IsReliable}
use mpc_server.Storage.ShareStore.{sum_pk}
use mpc_server.Coordinator.State.{Coordinator}
use mpc_server.Coordinator.Requests.{response}
use mpc_server.Coordinator.Outputs.{handle_keygen_output}
use mpc_server.Coordinator.Completion.{handle_keygen_output_lem}
use mpc_server.System.{leave, save_response, save_from, sent, send_all}
use mpc_server.System.Answers.{idle, with_no_effects, check_saved}

All-Mem : {A : Type 0} (P : A → Type 0) {a : A} (xs : List A) → Memᴰ a xs → All P xs → P a
All-Mem P [] i h = absurd (Memᴰ.not-nil i)
All-Mem P (x ∷ xs) (head e) h = subst P (sym e) h.0
All-Mem P (x ∷ xs) (tail i) h = All-Mem P xs i h.1

module _ ⦃x : Externals⦄ ⦃serde : Serde CheckResultResponse⦄ where
  open x.gg20 use {Keygen, KeygenBody, LocalKey, keygen_machine, keygen_msg}

  -- What the player of a key generation has sent after some messages and timers.
  abbrev pub sent_by :
      KeygenRequest
      → Text
      → ℕ
      → Keygen
      → List (Event KeygenBody)
      → List (Sent KeygenRequest KeygenBody x.gg20.KeygenError LocalKey)
  sent_by req room i state es =
      (run keygen_machine keygen_msg.write es (Player.new req room i state)).sent

  -- A result that it sends is one of its request.
  result_of_request :
      (req : KeygenRequest) (room : Text) (i : ℕ) (state : Keygen) (es : List (Event KeygenBody))
      (o : ProtocolOutput KeygenRequest LocalKey)
      → Memᴰ (result o) (sent_by req room i state es)
      → o.input ≡ req
  unfolding Player.new
  result_of_request req room i state es o among =
      let later = run-IsLater keygen_machine keygen_msg.write es (Player.new req room i state) in
      All-Mem (IsLabelled room req) later.more (subst (Memᴰ (result o)) later.sent among)
        later.labelled

  abbrev key_done : KeygenRequest → LocalKey → CheckResultResponse
  key_done req key = response req.request_id (sum_pk key) RequestType.keygen RequestStatus.done

  -- The player of a key generation is given any messages and timers, and sends a result. Then a
  -- coordinator that can make the group of the request handles that result, and on a disk that
  -- takes every response, with no other response on its way, a check of the id of the request
  -- returns the joint key of that result, done.
  pub key_answered :
      (stored : SledLaws) (json : SerdeLaws CheckResultResponse)
      → IsReliable stored json
      → (req : KeygenRequest) (room : Text) (i : ℕ) (state : Keygen) (es : List (Event KeygenBody))
        (o : ProtocolOutput KeygenRequest LocalKey) (group : PublicKeyGroup) (db : x.sled.Db)
        (c : Coordinator) (counted : List Counter)
      → Memᴰ (result o) (sent_by req room i state es)
      → Group.new req.participant_public_keys (as_u16 req.threshold) c.pk_str ≡ some group
      → (c' : Coordinator) × (handle_keygen_output {E = Failure} o (with_no_effects c) ≡ done tt c')
        × (check_result req.request_id (save_response (leave (idle db c counted) c')).api.results_db
            ≡ ok (key_done req o.output))
  unfolding save_response
  key_answered stored json reliable req room i state es o group db c counted among made =
      let of_req = result_of_request req room i state es o among in
      let (c', handled, _, _, effects) =
        handle_keygen_output_lem {E = Failure} o (with_no_effects c) group (
          ap
            (λ (r : KeygenRequest).
              Group.new r.participant_public_keys (as_u16 r.threshold) c.pk_str)
            of_req
          ∙ made) in
      let queued : sent c'.effects ≡ key_done req o.output ∷ [] =
        ap sent effects ∙ ap (λ (r : KeygenRequest). key_done r o.output ∷ []) of_req in
      let u = leave (idle db c counted) c' in
      (
        c',
        handled,
        ap (λ q. check_result req.request_id (save_from q u).api.results_db)
              (ap (λ rs. (send_all rs (idle db c counted).api.tx_res).queue) queued)
            ∙ check_saved stored json reliable db (key_done req o.output),
      )
