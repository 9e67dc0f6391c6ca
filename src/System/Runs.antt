-- ===== src/System/Runs.antt =====
-- What may happen to a server between the calls of its API and its coordinator.
use mpc_server.Common.{◌≡◌, refl, ap, some, List, [], ◌∷◌, ◌++◌, Result, ok, err, Text}
use mpc_server.Externals.{Externals, the_sled, the_gg20, the_crypto}
use mpc_server.External.Serde.{Serde}
use mpc_server.Messages.{CoordinatorMessage, keygen_request, sign_request}
use mpc_server.Proto.{Request, KeygenRequest, SignRequest, CheckResultResponse}
use mpc_server.Server.{Status}
use mpc_server.Coordinator.State.{Coordinator}
use mpc_server.System.{
  leave, System, handle, do_send, stop, receive_request, take_message, save_response, call_keygen,
  call_sign,
}

-- The requests among the messages of a mailbox.
abbrev pub requests_of : List CoordinatorMessage → List Request
requests_of [] = []
requests_of (keygen_request r ∷ ms) = Request.keygen r ∷ requests_of ms
requests_of (sign_request r ∷ ms) = Request.sign r ∷ requests_of ms
requests_of (_ ∷ ms) = requests_of ms

pub requests_of-append :
    (ms ns : List CoordinatorMessage) → requests_of (ms ++ ns) ≡ requests_of ms ++ requests_of ns
requests_of-append [] ns = refl
requests_of-append (keygen_request r ∷ ms) ns =
    ap (λ l. Request.keygen r ∷ l) (requests_of-append ms ns)
requests_of-append (sign_request r ∷ ms) ns =
    ap (λ l. Request.sign r ∷ l) (requests_of-append ms ns)
requests_of-append (CoordinatorMessage.incoming _ ∷ ms) ns = requests_of-append ms ns
requests_of-append (CoordinatorMessage.retry _ ∷ ms) ns = requests_of-append ms ns
requests_of-append (CoordinatorMessage.outgoing _ ∷ ms) ns = requests_of-append ms ns

pub requests_of-handle : (r : Request) → requests_of ((handle r).1 ∷ []) ≡ r ∷ []
unfolding handle
requests_of-handle (Request.keygen r) = refl
requests_of-handle (Request.sign r) = refl

pub requests_of_cons :
    (m : CoordinatorMessage) (ms : List CoordinatorMessage)
    → requests_of (m ∷ ms) ≡ requests_of (m ∷ []) ++ requests_of ms
requests_of_cons m ms = requests_of-append (m ∷ []) ms

-- The request, if its call was answered with its id.
abbrev pub accepted : Request → Result Status Text → List Request
accepted r (ok _) = r ∷ []
accepted r (err _) = []

module _ ⦃x : Externals⦄ ⦃serde : Serde CheckResultResponse⦄ where
  -- What may happen to a server, with the requests whose calls were accepted on the way, and those
  -- that the coordinator has handled: calls of the API, turns of the two loops, other messages for
  -- the coordinator, its handling of a message, whatever its stream and its actors make of it, and its end by a
  -- panic or with its stream.
  pub data Run (s : System) : List Request → List Request → System → Type 0 where
    here : Run s [] [] s
    calls_keygen :
        {ins outs : List Request} {t : System}
        → Run s ins outs t
        → (r : KeygenRequest)
        → Run s (ins ++ accepted (Request.keygen r) (call_keygen r t).0) outs (call_keygen r t).1
    calls_sign :
        {ins outs : List Request} {t : System}
        → Run s ins outs t
        → (r : SignRequest)
        → Run s (ins ++ accepted (Request.sign r) (call_sign r t).0) outs (call_sign r t).1
    receives :
        {ins outs : List Request} {t : System}
        → Run s ins outs t
        → Run s ins outs (receive_request t)
    told :
        {ins outs : List Request} {t : System}
        → Run s ins outs t
        → (m : CoordinatorMessage) → requests_of (m ∷ []) ≡ []
        → Run s ins outs (record t { mailbox = do_send t.is_running m t.mailbox })
    takes :
        {ins outs : List Request} {t u : System}
        → Run s ins outs t
        → (m : CoordinatorMessage) (rest : List CoordinatorMessage) → t.mailbox ≡ m ∷ rest
        → take_message t ≡ some u
        → Run s ins (outs ++ requests_of (m ∷ [])) u
    saves :
        {ins outs : List Request} {t : System} → Run s ins outs t → Run s ins outs (save_response t)
    works :
        {ins outs : List Request} {t : System}
        → Run s ins outs t
        → (c : Coordinator) → Run s ins outs (leave t c)
    stops :
        {ins outs : List Request} {t : System}
        → Run s ins outs t
        → (responses : List CheckResultResponse) → Run s ins outs (stop responses t)

  -- The requests that wait in the mailbox and in the queue.
  abbrev pub pending : System → List Request
  pending t = requests_of t.mailbox ++ t.api.tx.queue
