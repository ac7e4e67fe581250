-- ===== src/Captions/Poller.antt =====
-- HostStatusPoller of modules/captions/src/overlay: the overlay's view of the status file of the
-- captions host. The time is in milliseconds of the steady clock and does not go back. What the
-- reader of JSON takes from a file is a parameter `Fields`, none where it fails.
pub mod Ticks
use open_vr_pair_driver.Base.{
  ℕ, ◌+◌, ◌-◌, Bool, true, false, Option, none, some, List, ltb, ◌==◌, if◌then◌else◌,
}

-- kStaleAfter and kReadInterval.
abbrev pub stale_after : ℕ
stale_after = 10000

abbrev pub read_interval : ℕ
read_interval = 500

module _ (Fields : Type 0) where
  -- HostStatusSnapshot; `fields` is what is read from the file, none before the first time.
  pub record Snapshot : Type 0 where
    pub valid : Bool
    pub stale : Bool
    pub host_halted : Bool
    pub last_exit_code : ℕ
    pub last_exit_description : List ℕ
    pub fields : Option Fields

  pub record Poller : Type 0 where
    pub has_path : Bool
    pub last_read_attempt : ℕ
    pub last_successful_read : ℕ
    pub last_observed_mtime : ℕ
    pub snapshot : Snapshot

  -- `stale` for the time since the last read that counted.
  unfoldable pub with_age : Poller → ℕ → Poller
  with_age p now = record p {
    snapshot = record p.snapshot { stale = ltb stale_after (now - p.last_successful_read) };
  }

  unfoldable pub age_if_valid : Poller → ℕ → Poller
  age_if_valid p now = if p.snapshot.valid then with_age p now else p

  -- `ReadFile`.
  unfoldable pub read_file : Poller → Option Fields → Poller
  read_file p parsed = elim parsed [
    | none ↦ p
    | some f ↦ record p {
      snapshot = record {
        valid = true;
        stale = false;
        host_halted = p.snapshot.host_halted;
        last_exit_code = p.snapshot.last_exit_code;
        last_exit_description = p.snapshot.last_exit_description;
        fields = some f;
      };
    }
  ]

  -- What follows a read.
  unfoldable pub accept : Poller → ℕ → ℕ → Poller
  accept p now mtime =
      if p.snapshot.valid
      then record p {
        last_observed_mtime = mtime;
        last_successful_read = now;
        snapshot = record p.snapshot { stale = false };
      }
      else p

  -- `mtime` is the time of the file's last change, 0 where there is none.
  unfoldable pub tick : Poller → ℕ → ℕ → Option Fields → Poller
  tick p now mtime parsed =
      let q : Poller = record p { last_read_attempt = now } in
      if ltb (now - p.last_read_attempt) read_interval
      then age_if_valid p now
      else if p.has_path
      then if mtime == 0
        then age_if_valid q now
        else if mtime == p.last_observed_mtime
        then with_age q now
        else accept (read_file q parsed) now mtime
      else q

  unfoldable pub set_supervisor_status : Poller → Bool → ℕ → List ℕ → Poller
  set_supervisor_status p halted code description = record p {
    snapshot = record p.snapshot {
      host_halted = halted;
      last_exit_code = code;
      last_exit_description = description;
    };
  }
