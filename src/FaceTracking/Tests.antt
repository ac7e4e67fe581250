-- ===== src/FaceTracking/Tests.antt =====
-- A frame whose expressions are translated, and a worker with a wedged host.
use open_vr_pair_driver.Base.{
  ℕ, ◌≡◌, refl, true, false, Option, none, some, [], ◌∷◌, get_or, replicate, leb, if◌then◌else◌,
  arith,
}
use open_vr_pair_driver.Shmem.FaceFrames.{
  FrameData, host_state_publishing, host_state_field, host_heartbeat_qpc,
}
use open_vr_pair_driver.FaceTracking.Shapes.{
  Floats, FrameBody, translate_wire_body, upstream_shape_count,
}
use open_vr_pair_driver.FaceTracking.Shapes.Remap.{expected}
use open_vr_pair_driver.FaceTracking.Shapes.Names.{
  shape_named_for, named_from, upstream_names, our_names, name_here, aliases,
  translate_wire_body-expected,
}
use open_vr_pair_driver.FaceTracking.Worker.{
  new_worker, worker_turn, heartbeat_age_ms, is_wedged, restart_allowed, wedge_threshold_ms,
  restarted,
}
use open_vr_pair_driver.FaceTracking.Worker.Restarts.{turns, log, AreSpaced, restarts_spaced}

-- Hundredths, with no value for NaN.
abbrev hundredths : Floats
hundredths = record {
  Float = Option ℕ;
  zero_float = some 0;
  is_nan = λ v. elim v [ none ↦ true | some x ↦ false ];
  is_inf = λ v. false;
  clamp = λ v. elim v [ none ↦ none | some x ↦ some (if leb 100 x then 100 else x) ];
}

abbrev smile : FrameBody hundredths
smile = record {
  qpc_sample_time = 1;
  source_module_uuid_hash = 2;
  eye_origin_l = [];
  eye_origin_r = [];
  eye_gaze_l = [];
  eye_gaze_r = [];
  eye_openness_l = some 90;
  eye_openness_r = some 90;
  pupil_dilation_l = none;
  pupil_dilation_r = none;
  eye_confidence_l = some 100;
  eye_confidence_r = some 100;
  expressions = replicate upstream_shape_count (some 40);
  flags = 3;
  head_yaw = some 0;
  head_pitch = some 0;
  head_roll = some 0;
  head_pos_x = some 0;
  head_pos_y = some 0;
  head_pos_z = some 0;
  head_flags = 0;
}

-- MouthSmileRight comes from MouthCornerPullRight.
translate_wire_body-expected_example :
    get_or (translate_wire_body hundredths smile).expressions 46 (some 0)
    ≡ expected hundredths (shape_named_for 46) smile.expressions (some 0)
translate_wire_body-expected_example =
    translate_wire_body-expected hundredths smile 46 (omega arith)

smile_source : shape_named_for 46 ≡ some 56
unfolding shape_named_for named_from upstream_names our_names name_here aliases
smile_source = refl

abbrev stuck : Option FrameData
stuck = some (record {
  host_state = host_state_publishing;
  host_heartbeat_qpc = 1000;
  publish_index = 0;
  slots = [];
})

restarts_spaced_example :
    AreSpaced none (log new_worker stuck 1000 (turns 9000 5 ∷ turns 9500 6 ∷ []))
restarts_spaced_example = restarts_spaced stuck 1000 (turns 9000 5 ∷ turns 9500 6 ∷ [])

stuck_restarted : (worker_turn new_worker stuck 1000 9000 5).1.1 ≡ restarted
unfolding worker_turn is_wedged host_state_field heartbeat_age_ms host_heartbeat_qpc
    wedge_threshold_ms restart_allowed
stuck_restarted = refl
