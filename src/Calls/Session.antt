-- ===== src/Calls/Session.antt =====
-- internal/calls/session.go, the outbound side of a signaling connection: the writes and the gate
-- that holds frames back while a join is in flight. `transport` is the connection: the error that
-- encoding or writing a frame meets, if any. A frame that was written is appended to `wire`.
pub mod Gate
use combox_backend.Prelude.{
  ℕ, String, Bool, true, false, if◌then◌else◌, ltb, Option, none, some, List, [], ◌∷◌, ◌++◌, length,
}
use combox_backend.Calls.Errors.{GoError, new_error}
use combox_backend.Calls.Protocol.{Envelope, error_frame}

pub record Session : Type 0 where
  pub room : Option ℕ
  pub closed : Bool
  pub gated : Bool
  pub queued : List Envelope
  pub wire : List Envelope

abbrev pub max_queued_frames : ℕ
max_queued_frames = 128

abbrev pub err_session_closed : GoError
err_session_closed = new_error "session_closed" "signaling connection is closed"

unfoldable pub new_session : Session
new_session = record { room = none; closed = false; gated = false; queued = []; wire = [] }

written : Session → Envelope → Option GoError → Session × Option GoError
written s env (some e) = (s, some e)
written s env none = (record s { wire = s.wire ++ env ∷ [] }, none)

-- `beginGate`
unfoldable pub begin_gate : Session → Session
begin_gate s = record s { gated = true; queued = [] }

-- `dropGate`
unfoldable pub drop_gate : Session → Session
drop_gate s = record s { gated = false; queued = [] }

-- A frame behind the gate: past the limit it is dropped.
unfoldable pub enqueue : Session → Envelope → Session
enqueue s env =
    if ltb (length s.queued) max_queued_frames
    then record s { queued = s.queued ++ env ∷ [] }
    else s

-- An error ends a sequence of writes.
stop_on : Session × Option GoError → Session × Option GoError → Session × Option GoError
stop_on (s, some e) rest = (s, some e)
stop_on (s, none) rest = rest

module _ (transport : Envelope → Option GoError) where
  -- `writeFrame`
  unfoldable pub write_frame : Session → Envelope → Session × Option GoError
  unfolding written
  write_frame s env =
      if s.closed then (s, some err_session_closed) else written s env (transport env)

  -- `Send`
  unfoldable pub send : Session → Envelope → Session × Option GoError
  unfolding enqueue write_frame
  send s env = if s.gated then (enqueue s env, none) else write_frame s env

  -- The writes of `endGate`: the first error ends them.
  flush : Session → List Envelope → Session × Option GoError
  unfolding write_frame stop_on
  flush s [] = (s, none)
  flush s (env ∷ envs) =
      let rest = flush (write_frame s env).0 envs in stop_on (write_frame s env) rest

  -- `endGate`
  unfoldable pub end_gate : Session → Session × Option GoError
  unfolding flush
  end_gate s = flush (record s { gated = false; queued = [] }) s.queued

  -- `fail`
  unfoldable pub fail : Session → String → GoError → Session
  unfolding send error_frame
  fail s req_id e = (send s (error_frame req_id e)).0

  -- Frames that other parts of the process send, one after the other.
  unfoldable pub send_each : Session → List Envelope → Session
  unfolding send
  send_each s [] = s
  send_each s (env ∷ envs) = send_each (send s env).0 envs
