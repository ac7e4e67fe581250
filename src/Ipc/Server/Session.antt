-- ===== src/Ipc/Server/Session.antt =====
-- What a client of a pipe gets over a whole session.
use open_vr_pair_driver.Base.{
  ℕ, ◌≡◌, refl, ap, ◌∙◌, Bool, true, false, List, [], ◌∷◌, ◌++◌, map, ◌==◌, ◌&&◌, if_true, if_false,
}
use open_vr_pair_driver.Ipc.Client.{Request, Response}
use open_vr_pair_driver.Ipc.Server.{
  DriverModule, PipeRound, answer_request, completed_read, completed_write, serve,
}

-- The answers to requests one after the other, each on the state that the one before left.
abbrev pub answers :
    {S : Type 0} → ℕ → List (DriverModule S) → ℕ → S → Response → List Request → S × List Response
answers version modules mask s response [] = (s, [])
answers version modules mask s response (r ∷ rs) =
    let (s', response') = answer_request version modules mask s r response in
    let (s2, rest) = answers version modules mask s' response' rs in (s2, response' ∷ rest)

-- The request was read whole.
abbrev pub read_whole : ℕ → PipeRound → Bool
read_whole request_size r = r.read_error == 0 && r.bytes_read == request_size

-- Request and response went through whole, and the next read has started.
abbrev pub AreWhole : ℕ → ℕ → List PipeRound → Type 0
AreWhole request_size response_size [] = Unit {0}
AreWhole request_size response_size (r ∷ rs) =
    (read_whole request_size r ≡ true)
    × (r.write_started ≡ true)
    × (completed_write response_size r ≡ true)
    × AreWhole request_size response_size rs

module _ {S : Type 0} (version request_size response_size : ℕ) (modules : List (DriverModule S))
    (mask : ℕ) where
  whole_read :
      (s : S) (response : Response) (r : PipeRound)
      → read_whole request_size r ≡ true
      → r.write_started ≡ true
      → completed_read version request_size response_size modules mask s response r ≡ (
        (answer_request version modules mask s r.request response).0,
        ((answer_request version modules mask s r.request response).1, true),
      )
  unfolding completed_read
  whole_read s response r whole starts = if_true _ whole ∙ rw starts refl

  short_read :
      (s : S) (response : Response) (r : PipeRound)
      → read_whole request_size r ≡ false
      → completed_read version request_size response_size modules mask s response r
        ≡ (s, (response, false))
  unfolding completed_read
  short_read s response r short = if_false _ short

  -- Over a session in which requests are read whole and answered, until one is not read whole, the
  -- client gets exactly the answers to its requests in their order, each computed on the state that
  -- the one before left. The request that was not read whole closes the pipe and never reaches a
  -- module, and nothing after it is handled.
  pub serve-answers :
      (s : S) (response : Response) (rounds : List PipeRound) (bad : PipeRound)
      (later : List PipeRound)
      → AreWhole request_size response_size rounds
      → read_whole request_size bad ≡ false
      → let a = answers version modules mask s response (map (λ r. r.request) rounds) in
        serve version request_size response_size modules mask s response (rounds ++ bad ∷ later)
        ≡ (a.0, (a.1, false))
  unfolding serve
  serve-answers s response [] bad later whole short = rw (short_read s response bad short) refl
  serve-answers s response (r ∷ rounds) bad later (read_, starts, ends, whole) short =
      let s' = (answer_request version modules mask s r.request response).0 in
      let response' = (answer_request version modules mask s r.request response).1 in
      rw (whole_read s response r read_ starts, ends)
        (ap (λ (x : S × (List Response × Bool)). (x.0, (response' ∷ x.1.0, x.1.1)))
          (serve-answers s' response' rounds bad later whole short))
