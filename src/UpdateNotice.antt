-- ===== src/UpdateNotice.antt =====
-- core/src/overlay/UpdateNotice.cpp: the check for a newer release. The network, the JSON reader and
-- `strtol` are parameters.
pub mod Order
pub mod Check
mod Tests
use open_vr_pair_driver.Base.{
  ℕ, zero, suc, ◌+◌, Bool, true, false, not, Option, none, some, List, [], ◌∷◌, ◌++◌, ltb, ◌==◌,
  ◌&&◌, ◌||◌, if◌then◌else◌, codes, contains, ◌>>=◌,
}

-- `erase(0, 1)` of a leading 'v'.
unfoldable pub drop_v : List ℕ → List ℕ
drop_v [] = []
drop_v (c ∷ s) = if c == b'v' then s else c ∷ s

-- `resize(find('-'))`.
unfoldable pub before_dash : List ℕ → List ℕ
before_dash [] = []
before_dash (c ∷ s) = if c == b'-' then [] else c ∷ before_dash s

-- What stands behind a number: a dot, which is skipped, the end, or anything else (`none`).
abbrev behind_number : List ℕ → Option (List ℕ)
behind_number [] = some []
behind_number (c ∷ s) = if c == b'.' then some s else none

-- The loop that compares two stamps.
unfoldable pub newer : List ℕ → List ℕ → Bool
newer [] l = false
newer (x ∷ r) [] = false
newer (x ∷ r) (y ∷ l) = if ltb y x then true else if ltb x y then false else newer r l

-- `strtol` of a text without '-': the number and what stands behind it, or `none` where no
-- conversion is done.
module _ (strtol : List ℕ → Option (ℕ × List ℕ)) where
  -- The loop, which has `n` numbers left to read.
  unfoldable pub parse_numbers : ℕ → List ℕ → Option (List ℕ)
  parse_numbers zero p = some []
  parse_numbers (suc n) [] = none
  parse_numbers (suc n) (c ∷ p) = do
    (v, end) ← strtol (c ∷ p)
    rest ← behind_number end
    vs ← parse_numbers n rest
    some (v ∷ vs)

  unfoldable pub parse_stamp : List ℕ → Option (List ℕ)
  parse_stamp raw = parse_numbers 4 (before_dash (drop_v raw))

  unfoldable pub is_remote_newer : List ℕ → List ℕ → Bool
  is_remote_newer remote local = elim (parse_stamp remote) [
    | none ↦ false
    | some r ↦ elim (parse_stamp local) [ none ↦ false | some l ↦ newer r l ]
  ]

pub record UpdateNoticeState : Type 0 where
  pub available : Bool
  pub check_complete : Bool
  pub latest_tag : List ℕ
  pub latest_version : List ℕ
  pub release_url : List ℕ
  pub error_message : List ℕ

-- A default-constructed state.
abbrev pub no_notice : UpdateNoticeState
no_notice = record {
  available = false;
  check_complete = false;
  latest_tag = [];
  latest_version = [];
  release_url = [];
  error_message = [];
}

-- `UpdateNoticeSingleton`, without its thread.
pub record Instance : Type 0 where
  pub in_flight : Bool
  pub state : UpdateNoticeState

-- What RunCheck is given: the body and the error of HttpGet, and what the JSON reader makes of the
-- body: an error, or the texts at its keys.
pub data Json : Type 0 where
  parse_error : List ℕ → Json
  object : (List ℕ → List ℕ) → Json

pub record Answer : Type 0 where
  pub body : List ℕ
  pub error : List ℕ
  pub json : Json

abbrev empty : List ℕ → Bool
empty [] = true
empty (_ ∷ _) = false

unfoldable pub is_local_dev_build : List ℕ → Bool
is_local_dev_build version = contains (codes "-") version

unfoldable pub failed : List ℕ → UpdateNoticeState
failed message = record no_notice { check_complete = true; error_message = message }

module _ (strtol : List ℕ → Option (ℕ × List ℕ)) (version : List ℕ) where
  -- The state that a body with the given texts leads to.
  unfoldable pub notice_of : (List ℕ → List ℕ) → UpdateNoticeState
  notice_of string_at =
      let tag = string_at (codes "tag_name") in
      let url = string_at (codes "html_url") in
      if empty tag
      then record no_notice {
        check_complete = true;
        release_url = url;
        error_message = codes "GitHub response missing tag_name";
      }
      else record no_notice {
        check_complete = true;
        latest_tag = tag;
        latest_version = drop_v tag;
        release_url = url;
        available = is_remote_newer strtol tag version;
      }

  unfoldable pub check_answer : Answer → UpdateNoticeState
  check_answer a =
      if empty a.body
      then failed (if empty a.error then codes "empty response" else a.error)
      else elim a.json [
        | parse_error e ↦ failed (codes "JSON parse failed: " ++ e)
        | object string_at ↦ notice_of string_at
      ]

  unfoldable pub run_check : Instance → Answer → Instance
  run_check inst a = record {
    in_flight = false;
    state =
        if is_local_dev_build version
        then record no_notice { check_complete = true }
        else check_answer a;
  }

-- Whether StartUpdateCheck starts the worker.
unfoldable pub start_update_check : Instance → Instance × Bool
start_update_check inst =
    if inst.in_flight then (inst, false) else (record inst { in_flight = true }, true)
