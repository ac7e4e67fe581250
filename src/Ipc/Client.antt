-- ===== src/Ipc/Client.antt =====
-- IpcClientBase of core/src/overlay. What Windows answers to each call is an input, and each call is
-- kept in a trace, the newest first. The callbacks for derived classes and the texts of the errors
-- are left out: a failure names the exception.
pub mod Verified
pub mod History
use open_vr_pair_driver.Base.{
  ℕ, suc, ◌+◌, Bool, true, false, not, List, [], ◌∷◌, ltb, ◌==◌, ◌&&◌, ◌||◌, if◌then◌else◌,
}

pub record Request : Type 0 where
  pub kind : ℕ
  pub content : List ℕ

-- `version` is `protocol.version`, whatever the union holds.
pub record Response : Type 0 where
  pub kind : ℕ
  pub version : ℕ
  pub content : List ℕ

abbrev pub request_handshake : ℕ
request_handshake = 1

abbrev pub response_handshake : ℕ
response_handshake = 1

abbrev pub handshake : Request
handshake = record { kind = request_handshake; content = [] }

pub data WriteAnswer : Type 0 where
  wrote : ℕ → WriteAnswer
  write_error : ℕ → WriteAnswer

-- `more_data e` is ERROR_MORE_DATA, after which the loop that drains the message ends with the error
-- `e`, 0 if it ends with success.
pub data ReadAnswer : Type 0 where
  read : ℕ → Response → ReadAnswer
  more_data : ℕ → ReadAnswer
  read_error : ℕ → ReadAnswer

-- The calls of Windows, also an open that failed with an error, and that a pipe is closed.
pub data Call : Type 0 where
  opened : Call
  refused : ℕ → Call
  written : Request → Call
  received : Response → Call
  closed : Call

-- What Windows answers after a trace: an error, 0 if there is none, or the answer.
pub record Windows : Type 0 where
  pub open_error : List Call → ℕ
  pub mode_error : List Call → ℕ
  pub write_answer : List Call → WriteAnswer
  pub read_answer : List Call → ReadAnswer
  pub request_size : ℕ
  pub response_size : ℕ
  pub protocol_version : ℕ

pub data MismatchState : Type 0 where
  matching : MismatchState
  overlay_newer : MismatchState
  driver_newer : MismatchState

pub record Client : Type 0 where
  pub connected : Bool
  -- `pipeName_` is not empty.
  pub named : Bool
  pub connection_generation : ℕ
  pub reconnecting : Bool
  pub mismatch_state : MismatchState
  pub driver_version : ℕ
  pub trace : List Call

pub data Failure : Type 0 where
  not_connected : Failure
  unavailable : ℕ → Failure
  mode_failed : ℕ → Failure
  version_mismatch : ℕ → Failure
  reconnect_failed : Failure
  write_failed : ℕ → Failure
  write_truncated : Failure
  read_failed : ℕ → Failure
  oversized : Failure
  size_mismatch : Failure

-- A result, a BrokenPipeException with its code, or another exception.
pub data Outcome : Type 0 where
  returns : Response → Outcome
  breaks : ℕ → Outcome
  throws : Failure → Outcome

abbrev pub is_broken_pipe_error : ℕ → Bool
is_broken_pipe_error code = code == 109 || (code == 233 || code == 232)

-- `Close`.
unfoldable pub close : Client → Client
close c = if c.connected then record c { connected = false; trace = closed ∷ c.trace } else c

-- An error of a pipe, which is closed.
abbrev pub pipe_error : ℕ → (ℕ → Failure) → Outcome
pipe_error err failure = if is_broken_pipe_error err then breaks err else throws (failure err)

module _ (os : Windows) where
  -- `Send`, then what follows it if it does not throw.
  unfoldable pub send : Client → Request → (Client → Client × Outcome) → Client × Outcome
  send c request next =
      if c.connected
      then elim (os.write_answer c.trace) [
        | wrote n ↦
            let sent = record c { trace = written request ∷ c.trace } in
            if n == os.request_size then next sent else (close sent, throws write_truncated)
        | write_error err ↦ (close c, pipe_error err write_failed)
      ]
      else (c, throws not_connected)

  unfoldable pub receive : Client → Client × Outcome
  receive c =
      if c.connected
      then elim (os.read_answer c.trace) [
        | read n response ↦
            if n == os.response_size
            then (record c { trace = received response ∷ c.trace }, returns response)
            else (close c, throws size_mismatch)
        | more_data err ↦
            if is_broken_pipe_error err then (close c, breaks err) else (c, throws oversized)
        | read_error err ↦ (close c, pipe_error err read_failed)
      ]
      else (c, throws not_connected)

  abbrev pub exchange : Client → Request → Client × Outcome
  exchange c request = send c request receive

  -- The end of `Connect`, after the handshake: it returns, `throws`, or passes an exception on.
  unfoldable pub check_handshake : Client → Outcome → Client × Outcome
  check_handshake c (returns response) =
      if response.kind == response_handshake && response.version == os.protocol_version
      then (
        record c { mismatch_state = matching; connection_generation = c.connection_generation + 1 },
        returns response,
      )
      else let state =
          if ltb response.version os.protocol_version then overlay_newer else driver_newer in
        (
          close (record c { driver_version = response.version; mismatch_state = state }),
          throws (version_mismatch response.version),
        )
  check_handshake c (breaks err) = (c, breaks err)
  check_handshake c (throws failure) = (c, throws failure)

  -- `Connect`, to the pipe of the client, with its call of SendBlocking as the parameter `ask`. The
  -- result of a success is the answer to the handshake.
  unfoldable pub connect_with : (Client → Request → Client × Outcome) → Client → Client × Outcome
  connect_with ask c =
      let start = close c in
      let failure = os.open_error start.trace in
      let c1 = record start { connected = true; trace = opened ∷ start.trace } in
      let mode = os.mode_error c1.trace in
      let shake : Client × Outcome → Client × Outcome = λ r. check_handshake r.0 r.1 in
      if failure == 0
      then if mode == 0 then shake (ask c1 handshake) else (close c1, throws (mode_failed mode))
      else (record start { trace = refused failure ∷ start.trace }, throws (unavailable failure))

  -- SendBlocking on an open pipe, with its call of Connect as the parameter `reconnect`.
  unfoldable pub send_open : (Client → Client × Outcome) → Client → Request → Client × Outcome
  send_open reconnect c request =
      let (c1, outcome) = exchange c request in
      let again : Client × Outcome → Client × Outcome = λ r. elim r.1 [
        | returns response ↦ exchange (record r.0 { reconnecting = false }) request
        | breaks err ↦ (record r.0 { reconnecting = false }, throws reconnect_failed)
        | throws failure ↦ (record r.0 { reconnecting = false }, throws reconnect_failed)
      ] in
      elim outcome [
        | returns response ↦ (c1, returns response)
        | throws failure ↦ (c1, throws failure)
        | breaks err ↦
            if c1.reconnecting || not c1.named
            then (c1, breaks err)
            else again (reconnect (record (close c1) { reconnecting = true }))
      ]

  -- While `reconnecting` is set, SendBlocking does not connect again, so the recursion of Connect and
  -- SendBlocking ends with `exchange`.
  abbrev pub reconnect : Client → Client × Outcome
  reconnect c = connect_with exchange c

  unfoldable pub connect : Client → Client × Outcome
  connect c = connect_with (send_open reconnect) (record c { named = true })

  unfoldable pub send_blocking : Client → Request → Client × Outcome
  send_blocking c request =
      let after : Client × Outcome → Client × Outcome = λ r. elim r.1 [
        | returns response ↦ send_open reconnect r.0 request
        | breaks err ↦ (r.0, breaks err)
        | throws failure ↦ (r.0, throws failure)
      ] in
      if c.connected
      then send_open reconnect c request
      else if c.named
      then after (connect c)
      else (c, throws not_connected)
