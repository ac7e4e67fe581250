-- ===== src/UpdateNotice/Check.antt =====
-- What a check leaves for the user interface.
use open_vr_pair_driver.Base.{ℕ, ◌≡◌, ◌≢◌, true, false, Option, List, [], refl, arith}
use open_vr_pair_driver.UpdateNotice.{
  drop_v, is_remote_newer, Instance, Answer, is_local_dev_build, failed, notice_of, check_answer,
  run_check, start_update_check,
}

-- A check always completes and lets the next one start, whatever the network answers.
pub run_check_completes :
    (strtol : List ℕ → Option (ℕ × List ℕ)) (version : List ℕ) (inst : Instance) (a : Answer)
    → let after = run_check strtol version inst a in
      (after.state.check_complete ≡ true) × ((start_update_check after).1 ≡ true)
unfolding run_check check_answer notice_of failed start_update_check
run_check_completes strtol version inst a = (ground arith, refl)

-- A check announces a release only if the program is no development build and the release's tag is
-- newer than the program; it then has the tag, the version without its 'v', and no error.
pub run_check_available :
    (strtol : List ℕ → Option (ℕ × List ℕ)) (version : List ℕ) (inst : Instance) (a : Answer)
    → (run_check strtol version inst a).state.available ≡ true
    → let s = (run_check strtol version inst a).state in
      (is_local_dev_build version ≡ false)
      × (is_remote_newer strtol s.latest_tag version ≡ true)
      × (s.latest_tag ≢ [])
      × (s.latest_version ≡ drop_v s.latest_tag)
      × (s.error_message ≡ [])
unfolding run_check check_answer notice_of failed
run_check_available strtol version inst a h = ground (arith, h)
