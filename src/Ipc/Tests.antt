-- ===== src/Ipc/Tests.antt =====
-- A client whose first open fails and whose first request breaks.
use open_vr_pair_driver.Base.{
  ℕ, ◌≡◌, ◌≢◌, refl, true, false, List, [], ◌∷◌, length, ltb, ◌+◌, ◌==◌, if◌then◌else◌, arith,
}
use open_vr_pair_driver.Ipc.Server.{DriverModule, PipeRound, answer_request, serve, completed_write}
use open_vr_pair_driver.Ipc.Server.Session.{answers, serve-answers}
use open_vr_pair_driver.Ipc.Handshake.{Reaches, greeting, connect-answer}
use open_vr_pair_driver.Ipc.Client.{
  ReadAnswer, opened, refused, closed, received, written, handshake, version_mismatch, matching,
  overlay_newer, driver_newer, Response, Windows, Call, wrote, write_error, read, more_data,
  returns, throws, send_blocking, connect, connect_with, check_handshake, send_open, send, receive,
  oversized, is_broken_pipe_error,
}
use open_vr_pair_driver.Ipc.Client.Verified.{AreShaken}
use open_vr_pair_driver.Ipc.Client.History.{
  Op, connects, sends, closes, new_client, client_after, client_after-AreShaken,
  send_blocking_closed,
}

-- A driver of version 18 whose pipe cannot be opened at first, and that breaks a later write.
abbrev flaky : Windows
flaky = record {
  open_error = λ t. if length t == 0 then 2 else 0;
  mode_error = λ t. 0;
  write_answer = λ t. if length t == 4 then write_error 232 else wrote 100;
  read_answer = λ t. read 50 (record { kind = 1; version = 18; content = [] });
  request_size = 100;
  response_size = 50;
  protocol_version = 18;
}

flaky_fits :
    (t : List Call) (err : ℕ)
    → flaky.read_answer t ≡ more_data err
    → is_broken_pipe_error err ≡ true
flaky_fits t err h = absurd (ground (arith, h))

abbrev calls : List Op
calls = connects ∷ connects ∷ sends (record { kind = 2; content = 7 ∷ [] }) ∷ closes ∷ []

client_after-AreShaken_example : AreShaken flaky (client_after flaky new_client calls).trace
client_after-AreShaken_example = client_after-AreShaken flaky flaky_fits calls

send_blocking_closed_example :
    let r =
      send_blocking flaky
        (client_after flaky new_client calls)
        (record { kind = 3; content = [] }) in
    (r.0.reconnecting ≡ false)
    × (((response : Response) → r.1 ≢ returns response) → r.0.connected ≡ false)
send_blocking_closed_example =
    send_blocking_closed flaky flaky_fits calls (record { kind = 3; content = [] })

-- A driver whose handshake is too long for the client: Connect throws, and leaves the pipe open.
abbrev long_winded : Windows
long_winded = record {
  open_error = λ t. 0;
  mode_error = λ t. 0;
  write_answer = λ t. wrote 100;
  read_answer = λ t. more_data 0;
  request_size = 100;
  response_size = 50;
  protocol_version = 18;
}

left_open :
    ((connect long_winded new_client).1 ≡ throws oversized)
    × ((connect long_winded new_client).0.connected ≡ true)
unfolding connect connect_with check_handshake send_open send receive
left_open = (refl, refl)

-- A module of one feature that counts its requests.
abbrev counter : DriverModule ℕ
counter = record {
  feature_mask = 2;
  init = λ s. (s, true);
  handle_request =
      λ s request response. (s + 1, (record response { kind = 2; content = s ∷ [] }, true));
}

abbrev no_response : Response
no_response = record { kind = 0; version = 0; content = [] }

abbrev round : ℕ → ℕ → PipeRound
round bytes kind = record {
  read_error = 0;
  bytes_read = bytes;
  request = record { kind = kind; content = [] };
  write_started = true;
  write_error = 0;
  bytes_written = 50;
  read_started = true;
}

serve-answers_example :
    let a =
      answers 18
        (counter ∷ [])
        2
        5
        no_response
        (handshake ∷ record { kind = 6; content = [] } ∷ []) in
    serve 18 100 50 (counter ∷ []) 2 5 no_response (round 100 1 ∷ round 100 6 ∷ round 40 6 ∷ [])
    ≡ (a.0, (a.1, false))
unfolding completed_write
serve-answers_example =
    serve-answers 18 100 50 (counter ∷ []) 2 5 no_response (round 100 1 ∷ round 100 6 ∷ [])
      (round 40 6) [] (refl, refl, refl, (refl, refl, refl, tt)) refl

abbrev answer_last : List Call → ReadAnswer
answer_last [] = more_data 109
answer_last (opened ∷ t) = more_data 109
answer_last (closed ∷ t) = more_data 109
answer_last (refused err ∷ t) = more_data 109
answer_last (received r ∷ t) = more_data 109
answer_last (written request ∷ t) =
    read 50 (answer_request 17 (counter ∷ []) 2 5 request no_response).1

-- A driver of version 17 behind a pipe that works.
abbrev old_driver : Windows
old_driver = record {
  open_error = λ t. 0;
  mode_error = λ t. 0;
  write_answer = λ t. wrote 100;
  read_answer = answer_last;
  request_size = 100;
  response_size = 50;
  protocol_version = 18;
}

old_driver-Reaches : Reaches old_driver 17 2 (counter ∷ [])
old_driver-Reaches = record {
  opens = λ t. refl;
  sets_mode = λ t. refl;
  writes = λ t. refl;
  state = λ t. 5;
  left = λ t. no_response;
  reads = λ t request. refl;
}

connect-answer_example :
    let r = connect old_driver new_client in
    (r.1 ≡ (
      if 17 == 18
      then returns (greeting old_driver 17 2 (counter ∷ []) old_driver-Reaches new_client)
      else throws (version_mismatch 17)))
    × (r.0.connected ≡ (17 == 18))
    × (r.0.mismatch_state
        ≡ (if 17 == 18 then matching else if ltb 17 18 then overlay_newer else driver_newer))
connect-answer_example = connect-answer old_driver 17 2 (counter ∷ []) old_driver-Reaches new_client
