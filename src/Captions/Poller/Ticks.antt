-- ===== src/Captions/Poller/Ticks.antt =====
-- What a tick does, on every branch.
use open_vr_pair_driver.Base.{
  ℕ, ◌-◌, ◌≡◌, Bool, true, false, not, Option, none, some, ltb, ◌==◌, if◌then◌else◌,
}
use open_vr_pair_driver.Captions.Poller.{Poller}

module _ (Fields : Type 0) where
  -- Whether a tick reads the file.
  abbrev pub reads : Poller Fields → ℕ → ℕ → Bool
  reads p now mtime =
      if ltb (now - p.last_read_attempt) 500
      then false
      else if not p.has_path
      then false
      else if mtime == 0
      then false
      else if mtime == p.last_observed_mtime
      then false
      else true

  -- What becomes of the status, from `p` to `q`.
  pub data Outcome (p q : Poller Fields) (now mtime : ℕ) (parsed : Option Fields) : Type 0 where
    no_path :
        p.has_path ≡ false
        → ltb (now - p.last_read_attempt) 500 ≡ false
        → q ≡ record p { last_read_attempt = now }
        → Outcome p q now mtime parsed
    waits :
        reads p now mtime ≡ false
        → q.snapshot.fields ≡ p.snapshot.fields
        → q.snapshot.valid ≡ p.snapshot.valid
        → q.last_successful_read ≡ p.last_successful_read
        → q.last_observed_mtime ≡ p.last_observed_mtime
        → (p.snapshot.valid ≡ true → q.snapshot.stale ≡ ltb 10000 (now - p.last_successful_read))
        → Outcome p q now mtime parsed
    takes :
        (f : Fields)
        → reads p now mtime ≡ true
        → parsed ≡ some f
        → q.snapshot.fields ≡ some f
        → q.snapshot.valid ≡ true
        → q.last_successful_read ≡ now
        → q.last_observed_mtime ≡ mtime
        → q.snapshot.stale ≡ false
        → Outcome p q now mtime parsed
    unreadable :
        reads p now mtime ≡ true
        → parsed ≡ none
        → q.snapshot.fields ≡ p.snapshot.fields
        → q.snapshot.valid ≡ p.snapshot.valid
        → (p.snapshot.valid ≡ true
            → (q.snapshot.stale ≡ false)
              × (q.last_successful_read ≡ now)
              × (q.last_observed_mtime ≡ mtime))
        → (p.snapshot.valid ≡ false
            → (q.last_successful_read ≡ p.last_successful_read)
              × (q.last_observed_mtime ≡ p.last_observed_mtime))
        → Outcome p q now mtime parsed

  -- The status is kept, and aged.
  record Keeps (p : Poller Fields) (now : ℕ) (x : Poller Fields) : Type 0 where
    fields : x.snapshot.fields ≡ p.snapshot.fields
    valid : x.snapshot.valid ≡ p.snapshot.valid
    read : x.last_successful_read ≡ p.last_successful_read
    observed : x.last_observed_mtime ≡ p.last_observed_mtime
    stale : p.snapshot.valid ≡ true → x.snapshot.stale ≡ ltb 10000 (now - p.last_successful_read)

  module _ (p : Poller Fields) (now mtime : ℕ) (parsed : Option Fields) where
    abbrev early : Bool
    early = ltb (now - p.last_read_attempt) 500

    abbrev q : Poller Fields
    q = record p { last_read_attempt = now }

    abbrev Goal : Poller Fields → Type 0
    Goal x = Outcome p x now mtime parsed

  -- What a tick leaves, from `p` to `q`.
  pub record Ticked (p q : Poller Fields) (now mtime : ℕ) (parsed : Option Fields) : Type 0 where
    pub attempt :
        q.last_read_attempt
        ≡ (if ltb (now - p.last_read_attempt) 500 then p.last_read_attempt else now)
    pub path : q.has_path ≡ p.has_path
    pub host :
        (q.snapshot.host_halted ≡ p.snapshot.host_halted)
        × (q.snapshot.last_exit_code ≡ p.snapshot.last_exit_code)
        × (q.snapshot.last_exit_description ≡ p.snapshot.last_exit_description)
    pub outcome : Outcome p q now mtime parsed
