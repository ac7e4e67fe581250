-- ===== src/FaceTracking/Shapes.antt =====
-- UpstreamShapeMap.h and TranslateWireBody of FaceFrameReader.cpp. A float is a value of a type that
-- is a parameter, with the tests and the clamp that the code uses.
pub mod Remap
pub mod Names
use open_vr_pair_driver.Base.{
  ℕ, zero, suc, Bool, true, false, Option, none, some, List, [], ◌∷◌, get_or, set, replicate, leb,
  ◌||◌, if◌then◌else◌,
}

abbrev pub upstream_shape_count : ℕ
upstream_shape_count = 88

abbrev pub expression_count : ℕ
expression_count = 63

-- An entry of -1 is `none`.
abbrev pub upstream_to_ours : List (Option ℕ)
upstream_to_ours =
    some 11
    ∷ some 10
    ∷ some 9
    ∷ some 8
    ∷ some 19
    ∷ some 18
    ∷ some 13
    ∷ some 12
    ∷ some 15
    ∷ some 14
    ∷ some 17
    ∷ some 16
    ∷ none
    ∷ none
    ∷ none
    ∷ none
    ∷ none
    ∷ none
    ∷ some 21
    ∷ some 20
    ∷ some 23
    ∷ some 22
    ∷ some 26
    ∷ some 29
    ∷ some 28
    ∷ some 27
    ∷ none
    ∷ none
    ∷ none
    ∷ some 40
    ∷ some 31
    ∷ some 30
    ∷ some 33
    ∷ some 32
    ∷ none
    ∷ none
    ∷ some 35
    ∷ some 34
    ∷ some 37
    ∷ some 36
    ∷ some 39
    ∷ some 38
    ∷ none
    ∷ none
    ∷ none
    ∷ none
    ∷ none
    ∷ none
    ∷ some 25
    ∷ some 24
    ∷ none
    ∷ none
    ∷ some 42
    ∷ some 41
    ∷ some 44
    ∷ some 43
    ∷ some 46
    ∷ some 45
    ∷ none
    ∷ none
    ∷ some 48
    ∷ some 47
    ∷ some 50
    ∷ some 49
    ∷ some 52
    ∷ some 51
    ∷ some 53
    ∷ some 54
    ∷ some 56
    ∷ some 55
    ∷ some 58
    ∷ some 57
    ∷ some 59
    ∷ some 60
    ∷ some 61
    ∷ none
    ∷ some 62
    ∷ none
    ∷ none
    ∷ none
    ∷ none
    ∷ none
    ∷ none
    ∷ none
    ∷ none
    ∷ none
    ∷ none
    ∷ none
    ∷ []

pub record Floats : Type 1 where
  pub Float : Type 0
  pub zero_float : Float
  pub is_nan : Float → Bool
  pub is_inf : Float → Bool
  -- `std::clamp` to the range from 0 to 1.
  pub clamp : Float → Float

module _ (fl : Floats) where
  -- What the body of the loop writes for a shape that has the place `o`.
  unfoldable pub store : fl.Float → ℕ → List fl.Float → List fl.Float
  store v o dst =
      if leb expression_count o
      then dst
      else if fl.is_nan v || fl.is_inf v
      then dst
      else set dst o (fl.clamp v)

  -- The rounds of the loop from the shape `u` on, whose entries of the table are `table`.
  unfoldable pub remap_from : List (Option ℕ) → ℕ → List fl.Float → List fl.Float → List fl.Float
  remap_from [] u src dst = dst
  remap_from (none ∷ table) u src dst = remap_from table (suc u) src dst
  remap_from (some o ∷ table) u src dst =
      remap_from table (suc u) src (store (get_or src u fl.zero_float) o dst)

  unfoldable pub remap_upstream_shapes : List fl.Float → List fl.Float → List fl.Float
  remap_upstream_shapes src dst = remap_from upstream_to_ours 0 src dst

  -- FaceTrackingFrameBody, and FaceTrackingFrameBodyWire, which has as many expressions as upstream.
  pub record FrameBody : Type 0 where
    pub qpc_sample_time : ℕ
    pub source_module_uuid_hash : ℕ
    pub eye_origin_l : List fl.Float
    pub eye_origin_r : List fl.Float
    pub eye_gaze_l : List fl.Float
    pub eye_gaze_r : List fl.Float
    pub eye_openness_l : fl.Float
    pub eye_openness_r : fl.Float
    pub pupil_dilation_l : fl.Float
    pub pupil_dilation_r : fl.Float
    pub eye_confidence_l : fl.Float
    pub eye_confidence_r : fl.Float
    pub expressions : List fl.Float
    pub flags : ℕ
    pub head_yaw : fl.Float
    pub head_pitch : fl.Float
    pub head_roll : fl.Float
    pub head_pos_x : fl.Float
    pub head_pos_y : fl.Float
    pub head_pos_z : fl.Float
    pub head_flags : ℕ

  unfoldable pub translate_wire_body : FrameBody → FrameBody
  translate_wire_body wire = record wire {
    expressions = remap_upstream_shapes wire.expressions (replicate expression_count fl.zero_float);
  }
