-- ===== src/System/Order.antt =====
-- Requests on their way from the API to the coordinator.
use mpc_server.Common.{
  ◌≡◌, refl, sym, ap, ◌∙◌, ◌⊎◌, true, false, some, List, [], ◌∷◌, ◌++◌, Outcome, panicked, failed,
  done, Bool-cases, Option-cases, inl, inr,
}
use mathlib.Core.List.{append_assoc, append-nil}
use mpc_server.Common.Fallible.{some-injective}
use mpc_server.Externals.{Externals, the_sled, the_gg20, the_crypto}
use mpc_server.External.Serde.{Serde}
use mpc_server.Failure.{Failure}
use mpc_server.Messages.{CoordinatorMessage}
use mpc_server.Proto.{Request, KeygenRequest, SignRequest, CheckResultResponse}
use mpc_server.Server.{MpcImp, keygen, sign, or_false}
use mpc_server.Coordinator.State.{Coordinator}
use mpc_server.System.{
  System, handle, do_send, stop, receive_from, receive_request, after_message, take_from,
  take_message, save_from, save_response, call_keygen, call_sign,
}
use mpc_server.System.Runs.{
  requests_of, requests_of-append, requests_of-handle, requests_of_cons, accepted, pending, Run,
  here, calls_keygen, calls_sign, receives, told, takes, saves, works, stops,
}

module _ ⦃x : Externals⦄ ⦃serde : Serde CheckResultResponse⦄ where
  keygen_queue :
      (r : KeygenRequest) (s : MpcImp)
      → (keygen r s).1.tx.queue ≡ s.tx.queue ++ accepted (Request.keygen r) (keygen r s).0
  unfolding keygen
  keygen_queue r s = elim (Bool-cases (or_false (x.sled.contains_key s.results_db r.request_id))) [
    | inl there ↦ rw there (sym (append-nil s.tx.queue))
    | inr free ↦ elim (Bool-cases s.tx.is_open) [
      | inl opened ↦ rw (free, opened) refl
      | inr closed ↦ rw (free, closed) (sym (append-nil s.tx.queue))
    ]
  ]

  sign_queue :
      (r : SignRequest) (s : MpcImp)
      → (sign r s).1.tx.queue ≡ s.tx.queue ++ accepted (Request.sign r) (sign r s).0
  unfolding sign
  sign_queue r s = elim (Bool-cases (or_false (x.sled.contains_key s.results_db r.request_id))) [
    | inl there ↦ rw there (sym (append-nil s.tx.queue))
    | inr free ↦ elim (Option-cases (x.gg20.from_hex r.hash)) [
      | inl no_hash ↦ rw (free, no_hash) (sym (append-nil s.tx.queue))
      | inr (hash, is_hex) ↦ elim (Bool-cases s.tx.is_open) [
        | inl opened ↦ rw (free, is_hex, opened) refl
        | inr closed ↦ rw (free, is_hex, closed) (sym (append-nil s.tx.queue))
      ]
    ]
  ]

  called :
      (ins outs before queue queue' acc : List Request)
      → ins ≡ outs ++ (before ++ queue)
      → queue' ≡ queue ++ acc
      → ins ++ acc ≡ outs ++ (before ++ queue')
  called ins outs before queue queue' acc ih e =
      ap (λ l. l ++ acc) ih
      ∙ append_assoc outs (before ++ queue) acc
      ∙ ap (λ l. outs ++ l) (append_assoc before queue acc ∙ ap (λ l. before ++ l) (sym e))

  -- What has become of the requests that were accepted: as long as the coordinator runs, they have
  -- been handled or wait; when it has stopped, some are lost after those that were handled.
  abbrev pub IsAccounted : List Request → List Request → System → Type 0
  IsAccounted ins outs t =
      ((t.is_running ≡ true) × (ins ≡ outs ++ pending t))
      ⊎ ((t.is_running ≡ false)
          × (t.mailbox ≡ [])
          × (lost : List Request) × (ins ≡ outs ++ (lost ++ t.api.tx.queue)))

  pub received_running :
      (queue : List Request) (t : System) → (receive_from queue t).is_running ≡ t.is_running
  received_running [] t = refl
  received_running (r ∷ rest) t = refl

  received_pending :
      (queue : List Request) (t : System)
      → t.is_running ≡ true
      → t.api.tx.queue ≡ queue
      → pending (receive_from queue t) ≡ pending t
  received_pending [] t on e = refl
  received_pending (r ∷ rest) t on e =
      ap (λ b. requests_of (do_send b (handle r).1 t.mailbox) ++ rest) on
      ∙ ap (λ l. l ++ rest)
          (requests_of-append t.mailbox ((handle r).1 ∷ [])
            ∙ ap (λ l. requests_of t.mailbox ++ l) (requests_of-handle r))
      ∙ append_assoc (requests_of t.mailbox) (r ∷ []) rest
      ∙ ap (λ l. requests_of t.mailbox ++ l) (sym e)

  -- A turn of the loop when the coordinator has stopped loses a request, where there is one.
  received_stopped :
      (queue ins outs lost : List Request) (t : System)
      → t.is_running ≡ false
      → t.mailbox ≡ []
      → t.api.tx.queue ≡ queue
      → ins ≡ outs ++ (lost ++ queue)
      → IsAccounted ins outs (receive_from queue t)
  received_stopped [] ins outs lost t off empty e ih =
      inr (off, empty, lost, ih ∙ ap (λ l. outs ++ (lost ++ l)) (sym e))
  received_stopped (r ∷ rest) ins outs lost t off empty e ih = inr (
    off,
    ap (λ b. do_send b (handle r).1 t.mailbox) off ∙ empty,
    lost ++ (r ∷ []),
    ih ∙ ap (λ l. outs ++ l) (sym (append_assoc lost (r ∷ []) rest)),
  )

  receive-IsAccounted :
      (ins outs : List Request) (t : System)
      → IsAccounted ins outs t
      → IsAccounted ins outs (receive_request t)
  unfolding receive_request
  receive-IsAccounted ins outs t (inl (on, ih)) = inl (
    received_running t.api.tx.queue t ∙ on,
    ih ∙ ap (λ l. outs ++ l) (sym (received_pending t.api.tx.queue t on refl)),
  )
  receive-IsAccounted ins outs t (inr (off, empty, lost, ih)) =
      received_stopped t.api.tx.queue ins outs lost t off empty refl ih

  tell-IsAccounted :
      (ins outs : List Request) (t : System) (m : CoordinatorMessage)
      → requests_of (m ∷ []) ≡ []
      → IsAccounted ins outs t
      → IsAccounted ins outs (record t { mailbox = do_send t.is_running m t.mailbox })
  tell-IsAccounted ins outs t m other (inl (on, ih)) = inl (
    on,
    ih
        ∙ ap (λ l. outs ++ (l ++ t.api.tx.queue))
            (sym (
              ap (λ b. requests_of (do_send b m t.mailbox)) on
              ∙ requests_of-append t.mailbox (m ∷ [])
              ∙ ap (λ l. requests_of t.mailbox ++ l) other
              ∙ append-nil (requests_of t.mailbox))),
  )
  tell-IsAccounted ins outs t m other (inr (off, empty, lost, ih)) =
      inr (off, ap (λ b. do_send b m t.mailbox) off ∙ empty, lost, ih)

  stop-IsAccounted :
      (ins outs : List Request) (t : System) (responses : List CheckResultResponse)
      → IsAccounted ins outs t
      → IsAccounted ins outs (stop responses t)
  unfolding stop
  stop-IsAccounted ins outs t responses (inl (on, ih)) = inr (refl, refl, requests_of t.mailbox, ih)
  stop-IsAccounted ins outs t responses (inr (off, empty, lost, ih)) = inr (refl, refl, lost, ih)

  -- A call of the API, by what it adds to the queue.
  call-IsAccounted :
      (ins outs acc : List Request) (t t' : System)
      → t'.is_running ≡ t.is_running
      → t'.mailbox ≡ t.mailbox
      → t'.api.tx.queue ≡ t.api.tx.queue ++ acc
      → IsAccounted ins outs t
      → IsAccounted (ins ++ acc) outs t'
  call-IsAccounted ins outs acc t t' same kept e (inl (on, ih)) = inl (
    same ∙ on,
    called ins outs (requests_of t.mailbox) t.api.tx.queue t'.api.tx.queue acc ih e
        ∙ ap (λ ms. outs ++ (requests_of ms ++ t'.api.tx.queue)) (sym kept),
  )
  call-IsAccounted ins outs acc t t' same kept e (inr (off, empty, lost, ih)) =
      inr (same ∙ off, kept ∙ empty, lost, called ins outs lost t.api.tx.queue _ acc ih e)

  save-IsAccounted :
      (queue : List CheckResultResponse) (ins outs : List Request) (t : System)
      → IsAccounted ins outs t
      → IsAccounted ins outs (save_from queue t)
  save-IsAccounted [] ins outs t h = h
  save-IsAccounted (r ∷ rest) ins outs t h = h

  pub after_message-kept :
      (t u : System) (o : Outcome Coordinator Failure (Unit {0}))
      → after_message t o ≡ some u
      → (pending u ≡ pending t) × (u.is_running ≡ t.is_running)
  after_message-kept t u panicked e = absurd (cc e)
  after_message-kept t u (failed f c) e =
      (ap pending (sym (some-injective e)), ap (λ v. v.is_running) (sym (some-injective e)))
  after_message-kept t u (done a c) e =
      (ap pending (sym (some-injective e)), ap (λ v. v.is_running) (sym (some-injective e)))

  take-IsAccounted :
      (ms : List CoordinatorMessage) (m : CoordinatorMessage) (rest : List CoordinatorMessage)
      (ins outs : List Request) (t u : System)
      → t.mailbox ≡ ms
      → ms ≡ m ∷ rest
      → take_from ms t ≡ some u
      → IsAccounted ins outs t
      → IsAccounted ins (outs ++ requests_of (m ∷ [])) u
  take-IsAccounted ms m rest ins outs t u at e h (inl (on, ih)) =
      let (kept, same) = after_message-kept (record t { mailbox = rest }) u _ (rw e at h) in
      inl (
        same ∙ on,
        ih
            ∙ ap (λ l. outs ++ l)
                (ap (λ l. requests_of l ++ t.api.tx.queue) (at ∙ e)
                  ∙ ap (λ l. l ++ t.api.tx.queue) (requests_of_cons m rest)
                  ∙ append_assoc (requests_of (m ∷ [])) (requests_of rest) t.api.tx.queue
                  ∙ ap (λ l. requests_of (m ∷ []) ++ l) (sym kept))
            ∙ sym (append_assoc outs (requests_of (m ∷ [])) (pending u)),
      )
  take-IsAccounted ms m rest ins outs t u at e h (inr (off, empty, lost, ih)) =
      absurd (cc (sym empty ∙ at ∙ e))

  -- Of a server that begins with its coordinator running and no request in its queue or in the
  -- coordinator's mailbox: as long as the coordinator has stopped neither by a panic nor at the end
  -- of its stream, the requests whose calls were accepted are, in the order of the calls, those that
  -- the coordinator has handled and then those that wait for it; none is lost, changed, handled
  -- twice or overtaken, and no other request is handled. Once it has stopped, its mailbox is empty,
  -- and the requests whose calls were accepted are those that it had handled, then some that are
  -- lost, and then those that are still in the queue.
  pub requests_in_order :
      (s t : System) (ins outs : List Request)
      → s.is_running ≡ true
      → pending s ≡ []
      → Run s ins outs t
      → IsAccounted ins outs t
  unfolding take_message save_response call_keygen call_sign
  requests_in_order s t ins outs on e here = inl (on, sym e)
  requests_in_order s t ins outs on e (calls_keygen {ins = calls} {t = u} run r) =
      call-IsAccounted calls outs (accepted (Request.keygen r) (keygen r u.api).0) u t refl refl
        (keygen_queue r u.api) (requests_in_order s u calls outs on e run)
  requests_in_order s t ins outs on e (calls_sign {ins = calls} {t = u} run r) =
      call-IsAccounted calls outs (accepted (Request.sign r) (sign r u.api).0) u t refl refl
        (sign_queue r u.api) (requests_in_order s u calls outs on e run)
  requests_in_order s t ins outs on e (receives {t = u} run) =
      receive-IsAccounted ins outs u (requests_in_order s u ins outs on e run)
  requests_in_order s t ins outs on e (told {t = u} run m other) =
      tell-IsAccounted ins outs u m other (requests_in_order s u ins outs on e run)
  requests_in_order s t ins outs on e (takes {outs = before} {t = u} run m rest at h) =
      take-IsAccounted u.mailbox m rest ins before u t refl at h
        (requests_in_order s u ins before on e run)
  requests_in_order s t ins outs on e (saves {t = u} run) =
      save-IsAccounted u.api.tx_res.queue ins outs u (requests_in_order s u ins outs on e run)
  requests_in_order s t ins outs on e (works {t = u} run c) =
      requests_in_order s u ins outs on e run
  requests_in_order s t ins outs on e (stops {t = u} run responses) =
      stop-IsAccounted ins outs u responses (requests_in_order s u ins outs on e run)
