-- ===== src/Ipc/Client/Verified.antt =====
-- What is sent over a pipe, and how a call leaves it.
use open_vr_pair_driver.Base.{
  ℕ, ◌+◌, ◌≡◌, ◌≢◌, ◌⊎◌, refl, ap, sym, ◌∙◌, subst, Bool, true, false, List, [], ◌∷◌, ltb, ◌==◌,
  ◌&&◌, ◌||◌, if◌then◌else◌, inl, inr, Bool-cases, if_true, if_false, arith,
}
use open_vr_pair_driver.Ipc.Client.{
  Request, Response, request_handshake, response_handshake, handshake, WriteAnswer, wrote,
  write_error, ReadAnswer, read, more_data, read_error, Call, opened, refused, written, received,
  closed, Windows, matching, Client, Outcome, returns, breaks, throws, is_broken_pipe_error, close,
  pipe_error, send, receive, exchange, check_handshake, connect_with, Failure, version_mismatch,
  mode_failed, size_mismatch, not_connected, overlay_newer, driver_newer, read_failed, write_failed,
  write_truncated,
}

module _ (os : Windows) where
  abbrev pub matches : Response → Bool
  matches r = r.kind == response_handshake && r.version == os.protocol_version

  -- Since the pipe was opened, it has answered a handshake with the version of the client.
  abbrev pub shaken : List Call → Bool
  shaken [] = false
  shaken (opened ∷ t) = false
  shaken (refused err ∷ t) = false
  shaken (closed ∷ t) = false
  shaken (written r ∷ t) = shaken t
  shaken (received r ∷ t) = matches r || shaken t

  -- Each request but a handshake was written after such an answer.
  abbrev pub AreShaken : List Call → Type 0
  AreShaken [] = Unit {0}
  AreShaken (opened ∷ t) = AreShaken t
  AreShaken (refused err ∷ t) = AreShaken t
  AreShaken (closed ∷ t) = AreShaken t
  AreShaken (written r ∷ t) =
      ((r.kind == request_handshake) ≡ false → shaken t ≡ true) × AreShaken t
  AreShaken (received r ∷ t) = AreShaken t

  -- No response is longer than the client's buffer.
  abbrev pub Fits : Type 0
  Fits =
      (t : List Call) (err : ℕ) → os.read_answer t ≡ more_data err → is_broken_pipe_error err ≡ true

  abbrev response_of : Outcome → Response
  response_of (returns r) = r
  response_of (breaks err) = record { kind = 0; version = 0; content = [] }
  response_of (throws failure) = record { kind = 0; version = 0; content = [] }

  -- How a call leaves the client `c`.
  pub record Sound (c : Client) (r : Client × Outcome) : Type 0 where
    pub safe : AreShaken r.0.trace
    pub shut : ((response : Response) → r.1 ≢ returns response) → r.0.connected ≡ false
    pub name : r.0.named ≡ c.named
    pub flag : r.0.reconnecting ≡ c.reconnecting
    pub verified :
        (response : Response)
        → r.1 ≡ returns response
        → (shaken c.trace ≡ true) ⊎ (matches response ≡ true)
        → shaken r.0.trace ≡ true

  close-cases :
      (c : Client)
      → (close c ≡ record c { connected = false; trace = closed ∷ c.trace })
        ⊎ ((close c ≡ c) × (c.connected ≡ false))
  unfolding close
  close-cases c = elim (Bool-cases c.connected) [
    | inl on ↦ inl (rw on refl)
    | inr off ↦ inr (rw off refl, off)
  ]

  -- A call that closes the pipe and does not return.
  closed-Sound :
      (c c' : Client) (o : Outcome)
      → AreShaken c'.trace
      → c'.named ≡ c.named
      → c'.reconnecting ≡ c.reconnecting
      → ((response : Response) → o ≢ returns response)
      → Sound c (close c', o)
  closed-Sound c c' o safe name flag fails = elim (close-cases c') [
    | inl e ↦ rw e (record {
      safe = safe;
      shut = λ h. refl;
      name = name;
      flag = flag;
      verified = λ response same. absurd (fails response same);
    })
    | inr (e, off) ↦ rw e (record {
      safe = safe;
      shut = λ h. off;
      name = name;
      flag = flag;
      verified = λ response same. absurd (fails response same);
    })
  ]

  pipe_error-fails :
      (err : ℕ) (failure : ℕ → Failure) (response : Response)
      → pipe_error err failure ≢ returns response
  pipe_error-fails err failure response h = elim (Bool-cases (is_broken_pipe_error err)) [
    | inl b ↦ ground (arith, h, b)
    | inr b ↦ ground (arith, h, b)
  ]

  receive-Sound :
      (c : Client) → Fits → AreShaken c.trace → c.connected ≡ true → Sound c (receive os c)
  unfolding receive
  receive-Sound c fits safe on = from (os.read_answer c.trace) refl
    where
      seen :
          (response r : Response)
          → response ≡ r
          → (shaken c.trace ≡ true) ⊎ (matches r ≡ true)
          → shaken (received response ∷ c.trace) ≡ true
      seen response r same (inl before) = ground (arith, before)
      seen response r same (inr now) = rw (ap matches same, now) refl

      from : (a : ReadAnswer) → os.read_answer c.trace ≡ a → Sound c (receive os c)
      from (read n response) e = elim (Bool-cases (n == os.response_size)) [
        | inl whole ↦
            subst (Sound c)
              {x = (record c { trace = received response ∷ c.trace }, returns response)}
              (sym (if_true (c, throws not_connected) on ∙ rw (e, whole) refl))
              (record {
                safe = safe;
                shut = λ h. absurd (h response refl);
                name = refl;
                flag = refl;
                verified = λ r same known. seen response r (ap response_of same) known;
              })
        | inr short ↦
            subst (Sound c) {x = (close c, throws size_mismatch)}
              (sym (if_true (c, throws not_connected) on ∙ rw (e, short) refl))
              (closed-Sound c c (throws size_mismatch) safe refl refl (λ r h. ground (arith, h)))
      ]
      from (more_data err) e =
          subst (Sound c) {x = (close c, breaks err)}
            (sym (if_true (c, throws not_connected) on ∙ rw (e, fits c.trace err e) refl))
            (closed-Sound c c (breaks err) safe refl refl (λ r h. ground (arith, h)))
      from (read_error err) e =
          subst (Sound c) {x = (close c, pipe_error err read_failed)}
            (sym (if_true (c, throws not_connected) on ∙ rw e refl))
            (closed-Sound c c (pipe_error err read_failed) safe refl refl
              (pipe_error-fails err read_failed))

  -- A request that is no handshake needs a pipe that has answered one.
  abbrev pub MayWrite : Client → Request → Type 0
  MayWrite c request = (request.kind == request_handshake) ≡ false → shaken c.trace ≡ true

  after_write :
      (c : Client) (request : Request) (r : Client × Outcome)
      → Sound (record c { trace = written request ∷ c.trace }) r
      → Sound c r
  after_write c request r s = record {
    safe = s.safe;
    shut = s.shut;
    name = s.name;
    flag = s.flag;
    verified = s.verified;
  }

  exchange_open :
      (c : Client) (request : Request)
      → Fits
      → AreShaken c.trace
      → MayWrite c request
      → c.connected ≡ true
      → Sound c (exchange os c request)
  unfolding send
  exchange_open c request fits safe may on = from (os.write_answer c.trace) refl
    where
      sent : Client
      sent = record c { trace = written request ∷ c.trace }

      from : (a : WriteAnswer) → os.write_answer c.trace ≡ a → Sound c (exchange os c request)
      from (wrote n) e = elim (Bool-cases (n == os.request_size)) [
        | inl whole ↦
            subst (Sound c) {x = receive os sent}
              (sym (if_true (c, throws not_connected) on ∙ rw (e, whole) refl))
              (after_write c request (receive os sent) (receive-Sound sent fits (may, safe) on))
        | inr short ↦
            subst (Sound c) {x = (close sent, throws write_truncated)}
              (sym (if_true (c, throws not_connected) on ∙ rw (e, short) refl))
              (closed-Sound c sent (throws write_truncated) (may, safe) refl refl
                (λ r h. ground (arith, h)))
      ]
      from (write_error err) e =
          subst (Sound c) {x = (close c, pipe_error err write_failed)}
            (sym (if_true (c, throws not_connected) on ∙ rw e refl))
            (closed-Sound c c (pipe_error err write_failed) safe refl refl
              (pipe_error-fails err write_failed))

  pub exchange-Sound :
      (c : Client) (request : Request)
      → Fits
      → AreShaken c.trace
      → MayWrite c request
      → Sound c (exchange os c request)
  unfolding send
  exchange-Sound c request fits safe may = elim (Bool-cases c.connected) [
    | inl on ↦ exchange_open c request fits safe may on
    | inr off ↦ subst (Sound c) {x = (c, throws not_connected)} (sym (if_false _ off)) (record {
      safe = safe;
      shut = λ h. off;
      name = refl;
      flag = refl;
      verified = λ response same. absurd (ground (arith, same));
    })
  ]

  -- How Connect leaves the client: when it returns, the pipe has answered the handshake.
  pub record Linked (c : Client) (r : Client × Outcome) : Type 0 where
    pub safe : AreShaken r.0.trace
    pub shut : ((response : Response) → r.1 ≢ returns response) → r.0.connected ≡ false
    pub name : r.0.named ≡ c.named
    pub flag : r.0.reconnecting ≡ c.reconnecting
    pub linked : (response : Response) → r.1 ≡ returns response → shaken r.0.trace ≡ true

  closed-Linked :
      (c c' : Client) (o : Outcome)
      → AreShaken c'.trace
      → c'.named ≡ c.named
      → c'.reconnecting ≡ c.reconnecting
      → ((response : Response) → o ≢ returns response)
      → Linked c (close c', o)
  closed-Linked c c' o safe name flag fails =
      let s = closed-Sound c c' o safe name flag fails in
      record {
        safe = s.safe;
        shut = s.shut;
        name = s.name;
        flag = s.flag;
        linked = λ response same. absurd (fails response same);
      }

  check_handshake-Linked :
      (c c1 : Client) (r : Client × Outcome)
      → Sound c1 r
      → c1.named ≡ c.named
      → c1.reconnecting ≡ c.reconnecting
      → Linked c (check_handshake os r.0 r.1)
  unfolding check_handshake
  check_handshake-Linked c c1 (c2, o) s name flag = from o refl
    where
      passed :
          (o' : Outcome)
          → o ≡ o'
          → ((response : Response) → o' ≢ returns response)
          → Linked c (c2, o')
      passed o' e fails = record {
        safe = s.safe;
        shut = λ h. s.shut (λ response same. fails response (sym e ∙ same));
        name = s.name ∙ name;
        flag = s.flag ∙ flag;
        linked = λ response same. absurd (fails response same);
      }

      from : (o' : Outcome) → o ≡ o' → Linked c (check_handshake os c2 o)
      from (returns response) e = elim (Bool-cases (matches response)) [
        | inl ok ↦
            (subst (Linked c)
              {x = (
                record c2 {
                  mismatch_state = matching;
                  connection_generation = c2.connection_generation + 1;
                },
                returns response,
              )}
              (sym (rw e (if_true _ ok)))
              (record {
                safe = s.safe;
                shut = λ h. absurd (h response refl);
                name = s.name ∙ name;
                flag = s.flag ∙ flag;
                linked = λ r same. s.verified response e (inr ok);
              }))
        | inr wrong ↦
            (let c3 = record c2 {
              driver_version = response.version;
              mismatch_state =
                  if ltb response.version os.protocol_version then overlay_newer else driver_newer;
            } in
              subst (Linked c) {x = (close c3, throws (version_mismatch response.version))}
                (sym (rw e (if_false _ wrong)))
                (closed-Linked c c3 (throws (version_mismatch response.version)) s.safe
                  (s.name ∙ name) (s.flag ∙ flag) (λ r h. ground (arith, h))))
      ]
      from (breaks err) e =
          subst (Linked c) {x = (c2, breaks err)} (sym (rw e refl))
            (passed (breaks err) e (λ r h. ground (arith, h)))
      from (throws failure) e =
          subst (Linked c) {x = (c2, throws failure)} (sym (rw e refl))
            (passed (throws failure) e (λ r h. ground (arith, h)))

  -- What Connect needs of the call that sends the handshake.
  abbrev pub Asks : (Client → Request → Client × Outcome) → Type 0
  Asks ask = (c : Client) → AreShaken c.trace → c.connected ≡ true → Sound c (ask c handshake)

  pub close-keeps :
      (c : Client)
      → ((close c).named ≡ c.named)
        × ((close c).reconnecting ≡ c.reconnecting)
        × ((close c).connected ≡ false)
        × (AreShaken c.trace → AreShaken (close c).trace)
  close-keeps c = elim (close-cases c) [
    | inl e ↦ rw e (refl, refl, refl, λ safe. safe)
    | inr (e, off) ↦ rw e (refl, refl, off, λ safe. safe)
  ]

  pub connect_with-Linked :
      (ask : Client → Request → Client × Outcome) (c : Client)
      → Asks ask
      → AreShaken c.trace
      → Linked c (connect_with os ask c)
  unfolding connect_with
  connect_with-Linked ask c asks safe = elim (Bool-cases (os.open_error (close c).trace == 0)) [
    | inl opens ↦
        subst (Linked c) (sym (if_true _ opens)) (elim (Bool-cases (os.mode_error c1.trace == 0)) [
          | inl good ↦
              subst (Linked c) (sym (if_true _ good))
                (check_handshake-Linked c c1 (ask c1 handshake) (asks c1 safe_start refl) name flag)
          | inr bad ↦ subst (Linked c) (sym (if_false _ bad)) (
              closed-Linked c c1 (throws (mode_failed (os.mode_error c1.trace))) safe_start name
                flag (λ r h. ground (arith, h)))
        ])
    | inr off_line ↦ subst (Linked c) (sym (if_false _ off_line)) (record {
      safe = safe_start;
      shut = λ h. off;
      name = name;
      flag = flag;
      linked = λ r same. absurd (ground (arith, same));
    })
  ]
    where
      c1 : Client
      c1 = record (close c) { connected = true; trace = opened ∷ (close c).trace }

      name : (close c).named ≡ c.named
      name = let (name, flag, off, safe) = close-keeps c in name

      flag : (close c).reconnecting ≡ c.reconnecting
      flag = let (name, flag, off, safe) = close-keeps c in flag

      off : (close c).connected ≡ false
      off = let (name, flag, off, safe) = close-keeps c in off

      safe_start : AreShaken (close c).trace
      safe_start = let (name, flag, off, keeps) = close-keeps c in keeps safe
