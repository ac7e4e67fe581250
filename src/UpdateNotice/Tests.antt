-- ===== src/UpdateNotice/Tests.antt =====
-- Tags whose numbers have one digit, which `digit` reads.
use open_vr_pair_driver.Base.{
  ℕ, ◌-◌, ◌≡◌, refl, true, Option, none, some, List, [], ◌∷◌, leb, ◌&&◌, if◌then◌else◌, codes,
}
use open_vr_pair_driver.UpdateNotice.{
  is_remote_newer, parse_stamp, parse_numbers, newer, before_dash, drop_v, Instance, no_notice,
  object, Answer, is_local_dev_build, run_check, check_answer, notice_of, failed,
}

abbrev digit : List ℕ → Option (ℕ × List ℕ)
digit [] = none
digit (c ∷ s) = if leb b'0' c && leb c b'9' then some (c - b'0', s) else none

newer_first : is_remote_newer digit (codes "v1.3.0.0") (codes "1.2.9.9") ≡ true
unfolding is_remote_newer parse_stamp parse_numbers newer before_dash drop_v
newer_first = refl

newer_second : is_remote_newer digit (codes "1.2.9.9") (codes "1.2.9.8-dev") ≡ true
unfolding is_remote_newer parse_stamp parse_numbers newer before_dash drop_v
newer_second = refl

abbrev before : Instance
before = record { in_flight = true; state = no_notice }

abbrev answer : Answer
answer = record { body = codes "x"; error = []; json = object (λ _. codes "v1.3.0.0") }

announced : (run_check digit (codes "1.2.9.9") before answer).state.available ≡ true
unfolding run_check is_local_dev_build check_answer notice_of failed is_remote_newer parse_stamp
    parse_numbers newer before_dash drop_v
announced = refl
