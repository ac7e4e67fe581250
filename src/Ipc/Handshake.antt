-- ===== src/Ipc/Handshake.antt =====
-- The client and the driver together: what Connect makes of the driver's answer.
use open_vr_pair_driver.Base.{
  ℕ, ◌≡◌, refl, ap, sym, ◌∙◌, true, List, ◌∷◌, ltb, ◌==◌, if◌then◌else◌, inl, inr, Bool-cases,
  if_true, arith, ==_refl,
}
use open_vr_pair_driver.Ipc.Client.{
  Request, Response, handshake, Windows, Call, written, wrote, read, Client, Outcome, returns,
  throws, matching, overlay_newer, driver_newer, version_mismatch, response_handshake, close,
  connect, connect_with, check_handshake, send_open, reconnect, send, receive, exchange, opened,
  received,
}
use open_vr_pair_driver.Ipc.Server.{DriverModule, answer_request, handle_ipc_request}

-- A pipe that works, to a driver of the version `version`: each read gets the driver's answer to the
-- request written last, which is computed on some state of its modules.
pub record Reaches {S : Type 0} (os : Windows) (version mask : ℕ) (modules : List (DriverModule S))
    : Type 0 where
  pub opens : (t : List Call) → os.open_error t ≡ 0
  pub sets_mode : (t : List Call) → os.mode_error t ≡ 0
  pub writes : (t : List Call) → os.write_answer t ≡ wrote os.request_size
  pub state : List Call → S
  pub left : List Call → Response
  pub reads :
      (t : List Call) (request : Request)
      → os.read_answer (written request ∷ t)
        ≡ read os.response_size (answer_request version modules mask (state t) request (left t)).1

module _ {S : Type 0} (os : Windows) (version mask : ℕ) (modules : List (DriverModule S))
    (pipe : Reaches os version mask modules) where
  exchange_works :
      (c : Client) (request : Request)
      → c.connected ≡ true
      → exchange os c request ≡ (
        record c {
          trace =
              received
                (answer_request version modules mask
                  (pipe.state c.trace)
                  request
                  (pipe.left c.trace)).1
              ∷ written request
              ∷ c.trace;
        },
        returns
            (answer_request version modules mask
              (pipe.state c.trace)
              request
              (pipe.left c.trace)).1,
      )
  unfolding send receive
  exchange_works c request on =
      if_true _ on
      ∙ rw (pipe.writes c.trace, ==_refl os.request_size)
          (if_true _ on ∙ rw (pipe.reads c.trace request, ==_refl os.response_size) refl)

  -- The driver answers the handshake with its version, on every pipe and whatever its modules do.
  handshake_answer :
      (s : S) (r : Response)
      → (answer_request version modules mask s handshake r).1
        ≡ record r { kind = response_handshake; version = version }
  unfolding answer_request handle_ipc_request
  handshake_answer s r = refl

  send_open_works :
      (c : Client)
      → c.connected ≡ true
      → send_open os (reconnect os) c handshake ≡ exchange os c handshake
  send_open_works c on = kept ∙ ap (λ o. ((exchange os c handshake).0, o)) (sym ends)
    where
      greeted_with : Response
      greeted_with =
          (answer_request version modules mask (pipe.state c.trace) handshake (pipe.left c.trace)).1

      ends : (exchange os c handshake).1 ≡ returns greeted_with
      ends = ap (λ (r : Client × Outcome). r.1) (exchange_works c handshake on)

      kept :
          send_open os (reconnect os) c handshake
          ≡ ((exchange os c handshake).0, returns greeted_with)
      kept = unfold send_open in rw (send_open, ends) refl

  -- The client when the pipe has just been opened.
  abbrev opened_client : Client → Client
  opened_client c =
      let start = close (record c { named = true }) in
      record start { connected = true; trace = opened ∷ start.trace }

  connect_works :
      (c : Client)
      → connect os c
        ≡ check_handshake os
            (exchange os (opened_client c) handshake).0
            (exchange os (opened_client c) handshake).1
  unfolding connect connect_with
  connect_works c =
      let start = close (record c { named = true }) in
      let open_ : (os.open_error start.trace == 0) ≡ true =
        ground (arith, pipe.opens start.trace) in
      let mode : (os.mode_error (opened ∷ start.trace) == 0) ≡ true =
        ground (arith, pipe.sets_mode (opened ∷ start.trace)) in
      if_true {b = os.open_error start.trace == 0} _ open_
      ∙ (if_true {b = os.mode_error (opened ∷ start.trace) == 0} _ mode
          ∙ ap (λ (r : Client × Outcome). check_handshake os r.0 r.1)
              (send_open_works (opened_client c) refl))

  -- The answer that the client reads.
  abbrev pub greeting : Client → Response
  greeting c = record (pipe.left (opened_client c).trace) {
    kind = response_handshake;
    version = version;
  }

  abbrev greeted : Client → Client
  greeted c = record (opened_client c) {
    trace = received (greeting c) ∷ written handshake ∷ (opened_client c).trace;
  }

  connect_checked :
      (c : Client) → connect os c ≡ check_handshake os (greeted c) (returns (greeting c))
  connect_checked c =
      connect_works c
      ∙ (ap (λ (r : Client × Outcome). check_handshake os r.0 r.1)
            (exchange_works (opened_client c) handshake refl)
          ∙ ap
              (λ g.
                check_handshake os
                  (record (opened_client c) {
                    trace = received g ∷ written handshake ∷ (opened_client c).trace;
                  })
                  (returns g))
              (handshake_answer (pipe.state (opened_client c).trace)
                (pipe.left (opened_client c).trace)))

  -- Connecting over a working pipe to a driver succeeds exactly if the driver has the version of the
  -- client, whatever the driver's modules and the feature of the pipe. Otherwise it throws with the
  -- driver's version, says which side is newer, and leaves the pipe closed.
  pub connect-answer :
      (c : Client)
      → let r = connect os c in
        (r.1 ≡ (
          if version == os.protocol_version
          then returns (greeting c)
          else throws (version_mismatch version)))
        × (r.0.connected ≡ (version == os.protocol_version))
        × (r.0.mismatch_state ≡ (
            if version == os.protocol_version
            then matching
            else if ltb version os.protocol_version
            then overlay_newer
            else driver_newer))
  unfolding check_handshake close
  connect-answer c = elim (Bool-cases (version == os.protocol_version)) [
    | inl same ↦ rw (connect_checked c, same) (refl, refl, refl)
    | inr other ↦ rw (connect_checked c, other) (refl, refl, refl)
  ]
