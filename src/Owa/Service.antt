-- ===== src/Owa/Service.antt =====
-- One action of the OWA service, in internal/transport/owa/transport.go: executeService and
-- executeRawService, which try a second time with a new login after an authentication failure.
use outlook_agent.Prelude.{
  Bool, Option, Result, String, [], err, false, if◌then◌else◌, ltb, none, not, ok, some, true, ◌&&◌,
  ◌++ˢ◌, ◌++◌, ◌∷◌,
}
use outlook_agent.Value.{Fields}
use outlook_agent.Server.{ActionResponse}
use outlook_agent.Owa.{Host, Reply, State, is_auth_failure, looks_like_json}
use outlook_agent.Owa.Session.{invalidate_session, login}

abbrev pub failure : String → Option Fields → ActionResponse
failure message fields = record { ok = false; fields = fields; error = message }

module _ (h : Host) where
  abbrev pub http_error : Reply → String
  http_error reply = "owa service returned HTTP " ++ˢ h.decimal reply.status

  abbrev pub is_success : Reply → Bool
  is_success reply = not (ltb reply.status 200) && ltb reply.status 300

  abbrev pub decoded : Reply → Result String Fields → ActionResponse × Bool
  decoded reply (err message) = (failure message none, is_auth_failure reply)
  decoded reply (ok fields) =
      if is_success reply
      then (record { ok = true; fields = some fields; error = "" }, false)
      else (failure (http_error reply) (some fields), is_auth_failure reply)

  -- what executeServiceOnce makes of a reply; `true` is an authentication failure
  unfoldable pub service_answer : Reply → ActionResponse × Bool
  unfolding is_auth_failure looks_like_json
  service_answer reply =
      if is_auth_failure reply && not (looks_like_json reply)
      then (failure (http_error reply) none, true)
      else decoded reply (h.decode reply.body)

  -- what executeRawServiceOnce makes of a reply
  unfoldable pub raw_answer : Reply → ActionResponse × Bool
  unfolding is_auth_failure
  raw_answer reply =
      if is_success reply
      then (record { ok = true; fields = some (h.envelope reply); error = "" }, false)
      else (failure (http_error reply) (some (h.envelope reply)), is_auth_failure reply)

  module _ (answer : Reply → ActionResponse × Bool) where
    abbrev pub answered : Result String Reply → ActionResponse × Bool
    answered (err message) = (failure message none, false)
    answered (ok reply) = answer reply

    abbrev pub sent_with : Result String h.Session × State h → (ActionResponse × Bool) × State h
    sent_with (err message, s) = ((failure message none, false), s)
    sent_with (ok session, s) =
        let (result, world) = h.send session s.world in
        (answered result, record s { world = world; sent = s.sent ++ session ∷ [] })

    -- executeServiceOnce, or executeRawServiceOnce
    unfoldable pub execute_once : State h → (ActionResponse × Bool) × State h
    unfolding login
    execute_once s = sent_with (login h s)

    abbrev pub first_of : (ActionResponse × Bool) × State h → ActionResponse × State h
    first_of ((response, failed), s) = (response, s)

    abbrev pub again : (ActionResponse × Bool) × State h → ActionResponse × State h
    again ((response, false), s) = (response, s)
    again ((response, true), s) = first_of (execute_once (invalidate_session h s))

    unfoldable pub execute : State h → ActionResponse × State h
    unfolding execute_once invalidate_session
    execute s = again (execute_once s)

  -- executeService
  unfoldable pub execute_service : State h → ActionResponse × State h
  unfolding execute service_answer
  execute_service s = execute service_answer s

  -- executeRawService
  unfoldable pub execute_raw_service : State h → ActionResponse × State h
  unfolding execute raw_answer
  execute_raw_service s = execute raw_answer s
