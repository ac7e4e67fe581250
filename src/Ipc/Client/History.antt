-- ===== src/Ipc/Client/History.antt =====
-- Every history of calls of Connect, SendBlocking and Close.
use open_vr_pair_driver.Base.{
  ◌≡◌, ◌≢◌, refl, sym, ◌∙◌, subst, true, false, not, List, [], ◌∷◌, ◌||◌, inl, inr, Bool-cases,
  if_true, if_false, arith,
}
use open_vr_pair_driver.Ipc.Client.{
  Request, Response, handshake, Windows, matching, Client, Outcome, returns, breaks, throws, close,
  exchange, send_open, reconnect, connect, send_blocking, reconnect_failed,
}
use open_vr_pair_driver.Ipc.Client.Verified.{
  Fits, AreShaken, shaken, Sound, Linked, Asks, MayWrite, exchange-Sound, connect_with-Linked,
  close-keeps,
}

module _ (os : Windows) (fits : Fits os) where
  Reconnects : (Client → Client × Outcome) → Type 0
  Reconnects re = (c : Client) → AreShaken os c.trace → Linked os c (re c)

  send_open-Sound :
      (re : Client → Client × Outcome) (c : Client) (request : Request)
      → Reconnects re
      → AreShaken os c.trace
      → MayWrite os c request
      → Sound os c (send_open os re c request)
  unfolding send_open Reconnects
  send_open-Sound re c request linked safe may = from (exchange os c request).1 refl
    where
      s : Sound os c (exchange os c request)
      s = exchange-Sound os c request fits safe may

      c1 : Client
      c1 = (exchange os c request).0

      same_outcome : (o : Outcome) → (exchange os c request).1 ≡ o → Sound os c (c1, o)
      same_outcome o e = subst (λ o'. Sound os c (c1, o')) e s

      c2 : Client
      c2 = record (close c1) { reconnecting = true }

      relinked : Linked os c2 (re c2)
      relinked = let (name, flag, off, keeps) = close-keeps os c1 in linked c2 (keeps s.safe)

      c3 : Client
      c3 = record (re c2).0 { reconnecting = false }

      named : c3.named ≡ c.named
      named = let (name, flag, off, keeps) = close-keeps os c1 in relinked.name ∙ (name ∙ s.name)

      gives_up :
          ((response : Response) → (re c2).1 ≢ returns response)
          → c1.reconnecting ≡ false
          → Sound os c (c3, throws reconnect_failed)
      gives_up fails free = record {
        safe = relinked.safe;
        shut = λ h. relinked.shut fails;
        name = named;
        flag = sym free ∙ s.flag;
        verified = λ response same. absurd (ground (arith, same));
      }

      second :
          (o : Outcome)
          → (re c2).1 ≡ o
          → c1.reconnecting ≡ false
          → Sound os c (elim (re c2).1 [
            | returns response ↦ exchange os c3 request
            | breaks err ↦ (c3, throws reconnect_failed)
            | throws failure ↦ (c3, throws reconnect_failed)
          ])
      second (returns response) e free =
          let fresh = relinked.linked response e in
          let s2 = exchange-Sound os c3 request fits relinked.safe (λ h. fresh) in
          subst (Sound os c) {x = exchange os c3 request} (sym (rw e refl)) (record {
            safe = s2.safe;
            shut = s2.shut;
            name = s2.name ∙ named;
            flag = s2.flag ∙ (sym free ∙ s.flag);
            verified = λ r same known. s2.verified r same (inl fresh);
          })
      second (breaks err) e free =
          subst (Sound os c) (sym (rw e refl))
            (gives_up (λ r same. ground (arith, sym e ∙ same)) free)
      second (throws failure) e free =
          subst (Sound os c) (sym (rw e refl))
            (gives_up (λ r same. ground (arith, sym e ∙ same)) free)

      from : (o : Outcome) → (exchange os c request).1 ≡ o → Sound os c (send_open os re c request)
      from (returns response) e =
          subst (Sound os c) (sym (rw (send_open, e) refl)) (same_outcome (returns response) e)
      from (throws failure) e =
          subst (Sound os c) (sym (rw (send_open, e) refl)) (same_outcome (throws failure) e)
      from (breaks err) e = elim (Bool-cases (c1.reconnecting || not c1.named)) [
        | inl last ↦
            subst (Sound os c) (sym (rw (send_open, e) (if_true _ last)))
              (same_outcome (breaks err) e)
        | inr retry ↦
            subst (Sound os c) (sym (rw (send_open, e) (if_false _ retry)))
              (second (re c2).1 refl (ground (arith, retry)))
      ]

  exchange-Asks : Asks os (exchange os)
  exchange-Asks c safe on =
      exchange-Sound os c handshake fits safe (λ h. absurd (ground (arith, h)))

  reconnect-Linked : Reconnects (reconnect os)
  unfolding Reconnects
  reconnect-Linked c safe = connect_with-Linked os (exchange os) c exchange-Asks safe

  send_open-Asks : Asks os (send_open os (reconnect os))
  send_open-Asks c safe on =
      send_open-Sound (reconnect os) c handshake reconnect-Linked safe
        (λ h. absurd (ground (arith, h)))

  connect-Linked :
      (c : Client) → AreShaken os c.trace → Linked os (record c { named = true }) (connect os c)
  unfolding connect
  connect-Linked c safe =
      connect_with-Linked os (send_open os (reconnect os)) (record c { named = true })
        send_open-Asks safe

  -- Between two calls, an open pipe has answered the handshake.
  pub record IsSettled (c : Client) : Type 0 where
    pub safe : AreShaken os c.trace
    pub free : c.reconnecting ≡ false
    pub known : c.connected ≡ true → shaken os c.trace ≡ true

  -- How a call leaves the client: it returns, or the pipe is closed.
  pub record Settles (r : Client × Outcome) : Type 0 where
    pub settled : IsSettled r.0
    pub shut : ((response : Response) → r.1 ≢ returns response) → r.0.connected ≡ false

  settles :
      (r : Client × Outcome)
      → AreShaken os r.0.trace
      → r.0.reconnecting ≡ false
      → (((response : Response) → r.1 ≢ returns response) → r.0.connected ≡ false)
      → ((response : Response) → r.1 ≡ returns response → shaken os r.0.trace ≡ true)
      → Settles r
  settles (c, o) safe free shut linked = from o refl
    where
      ends : ((c.connected ≡ true) → shaken os c.trace ≡ true) → Settles (c, o)
      ends known = record {
        settled = record { safe = safe; free = free; known = known };
        shut = shut;
      }

      off :
          (o' : Outcome) → o ≡ o' → ((response : Response) → o' ≢ returns response) → Settles (c, o)
      off o' e fails =
          ends (λ on.
            absurd (ground (arith, on, shut (λ response same. fails response (sym e ∙ same)))))

      from : (o' : Outcome) → o ≡ o' → Settles (c, o)
      from (returns response) e = ends (λ on. linked response e)
      from (breaks err) e = off (breaks err) e (λ r h. ground (arith, h))
      from (throws failure) e = off (throws failure) e (λ r h. ground (arith, h))

  connect-Settles : (c : Client) → IsSettled c → Settles (connect os c)
  connect-Settles c good =
      let l = connect-Linked c good.safe in
      settles (connect os c) l.safe (l.flag ∙ good.free) l.shut l.linked

  send_open-Settles :
      (c : Client) (request : Request)
      → IsSettled c
      → shaken os c.trace ≡ true
      → Settles (send_open os (reconnect os) c request)
  send_open-Settles c request good seen =
      let s = send_open-Sound (reconnect os) c request reconnect-Linked good.safe (λ h. seen) in
      settles (send_open os (reconnect os) c request) s.safe (s.flag ∙ good.free) s.shut
        (λ response same. s.verified response same (inl seen))

  send_blocking-Settles :
      (c : Client) (request : Request) → IsSettled c → Settles (send_blocking os c request)
  unfolding send_blocking
  send_blocking-Settles c request good = elim (Bool-cases c.connected) [
    | inl on ↦ subst Settles (sym (if_true _ on)) (send_open-Settles c request good (good.known on))
    | inr off ↦ subst Settles (sym (if_false _ off)) (elim (Bool-cases c.named) [
      | inl named ↦ subst Settles (sym (if_true _ named)) (after (connect os c).1 refl)
      | inr unnamed ↦
          subst Settles (sym (if_false _ unnamed)) (record { settled = good; shut = λ h. off })
    ])
  ]
    where
      l : Settles (connect os c)
      l = connect-Settles c good

      after :
          (o : Outcome)
          → (connect os c).1 ≡ o
          → Settles (elim (connect os c).1 [
            | returns response ↦ send_open os (reconnect os) (connect os c).0 request
            | breaks err ↦ ((connect os c).0, breaks err)
            | throws failure ↦ ((connect os c).0, throws failure)
          ])
      after (returns response) e = subst Settles (sym (rw e refl)) (
          send_open-Settles (connect os c).0 request l.settled
            ((connect-Linked c good.safe).linked response e))
      after (breaks err) e =
          subst Settles (sym (rw e refl)) (subst (λ o. Settles ((connect os c).0, o)) e l)
      after (throws failure) e =
          subst Settles (sym (rw e refl)) (subst (λ o. Settles ((connect os c).0, o)) e l)

pub data Op : Type 0 where
  connects : Op
  sends : Request → Op
  closes : Op

abbrev pub new_client : Client
new_client = record {
  connected = false;
  named = false;
  connection_generation = 0;
  reconnecting = false;
  mismatch_state = matching;
  driver_version = 0;
  trace = [];
}

abbrev pub client_after : Windows → Client → List Op → Client
client_after os c [] = c
client_after os c (connects ∷ ops) = client_after os (connect os c).0 ops
client_after os c (sends request ∷ ops) = client_after os (send_blocking os c request).0 ops
client_after os c (closes ∷ ops) = client_after os (close c) ops

close-IsSettled :
    (os : Windows) (fits : Fits os) (c : Client) → IsSettled os fits c → IsSettled os fits (close c)
close-IsSettled os fits c good =
    let (name, flag, off, keeps) = close-keeps os c in
    record {
      safe = keeps good.safe;
      free = flag ∙ good.free;
      known = λ on. absurd (ground (arith, on, off));
    }

history-IsSettled :
    (os : Windows) (fits : Fits os) (c : Client) (ops : List Op)
    → IsSettled os fits c
    → IsSettled os fits (client_after os c ops)
history-IsSettled os fits c [] good = good
history-IsSettled os fits c (connects ∷ ops) good =
    history-IsSettled os fits (connect os c).0 ops (connect-Settles os fits c good).settled
history-IsSettled os fits c (sends request ∷ ops) good =
    history-IsSettled os fits (send_blocking os c request).0 ops
      (send_blocking-Settles os fits c request good).settled
history-IsSettled os fits c (closes ∷ ops) good =
    history-IsSettled os fits (close c) ops (close-IsSettled os fits c good)

new-IsSettled : (os : Windows) (fits : Fits os) → IsSettled os fits new_client
new-IsSettled os fits = record { safe = tt; free = refl; known = λ on. absurd (ground (arith, on)) }

-- As long as no response is longer than the client's buffer, every request that the client ever
-- writes, but the handshake itself, is written to a pipe that has answered the handshake with the
-- version of the client since it was opened: whatever Windows and the driver answer, and however
-- calls of Connect, SendBlocking and Close follow each other.
pub client_after-AreShaken :
    (os : Windows) (fits : Fits os) (ops : List Op)
    → AreShaken os (client_after os new_client ops).trace
client_after-AreShaken os fits ops =
    (history-IsSettled os fits new_client ops (new-IsSettled os fits)).safe

-- After every history of calls, as long as no response is longer than the client's buffer,
-- SendBlocking ends the reconnection it may have begun, and it returns a response or leaves the pipe
-- closed.
pub send_blocking_closed :
    (os : Windows) (fits : Fits os) (ops : List Op) (request : Request)
    → let r = send_blocking os (client_after os new_client ops) request in
      (r.0.reconnecting ≡ false)
      × (((response : Response) → r.1 ≢ returns response) → r.0.connected ≡ false)
send_blocking_closed os fits ops request =
    let s =
      send_blocking-Settles os fits (client_after os new_client ops) request
        (history-IsSettled os fits new_client ops (new-IsSettled os fits)) in
    (s.settled.free, s.shut)
