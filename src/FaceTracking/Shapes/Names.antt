-- ===== src/FaceTracking/Shapes/Names.antt =====
-- The names of the shapes, and which upstream shape is named for each of the expressions: the enums
-- UnifiedExpressions of OpenVRPair.FaceTracking.UpstreamRuntime and UnifiedExpression of
-- OpenVRPair.FaceTracking.ModuleSdk, both in modules/facetracking/src/host, in the order of their
-- values, and the five aliases that UpstreamShapeMap.h lists.
use open_vr_pair_driver.Base.{
  ℕ, zero, suc, ◌<◌, ◌≡◌, refl, ap, ◌∙◌, subst, inl, inr, Bool, Bool-cases, true, false, Option,
  none, some, List, [], ◌∷◌, get_or, ◌==◌, ◌&&◌, if◌then◌else◌, arith, codes, same_codes, find,
}
use open_vr_pair_driver.FaceTracking.Shapes.{
  Floats, FrameBody, translate_wire_body, upstream_to_ours, expression_count,
}
use open_vr_pair_driver.FaceTracking.Shapes.Remap.{source_of, expected, remap_expected}

-- The names of the upstream shapes.
unfoldable pub upstream_names : List (List ℕ)
upstream_names =
    codes "EyeSquintRight"
    ∷ codes "EyeSquintLeft"
    ∷ codes "EyeWideRight"
    ∷ codes "EyeWideLeft"
    ∷ codes "BrowPinchRight"
    ∷ codes "BrowPinchLeft"
    ∷ codes "BrowLowererRight"
    ∷ codes "BrowLowererLeft"
    ∷ codes "BrowInnerUpRight"
    ∷ codes "BrowInnerUpLeft"
    ∷ codes "BrowOuterUpRight"
    ∷ codes "BrowOuterUpLeft"
    ∷ codes "NasalDilationRight"
    ∷ codes "NasalDilationLeft"
    ∷ codes "NasalConstrictRight"
    ∷ codes "NasalConstrictLeft"
    ∷ codes "CheekSquintRight"
    ∷ codes "CheekSquintLeft"
    ∷ codes "CheekPuffRight"
    ∷ codes "CheekPuffLeft"
    ∷ codes "CheekSuckRight"
    ∷ codes "CheekSuckLeft"
    ∷ codes "JawOpen"
    ∷ codes "JawRight"
    ∷ codes "JawLeft"
    ∷ codes "JawForward"
    ∷ codes "JawBackward"
    ∷ codes "JawClench"
    ∷ codes "JawMandibleRaise"
    ∷ codes "MouthClosed"
    ∷ codes "LipSuckUpperRight"
    ∷ codes "LipSuckUpperLeft"
    ∷ codes "LipSuckLowerRight"
    ∷ codes "LipSuckLowerLeft"
    ∷ codes "LipSuckCornerRight"
    ∷ codes "LipSuckCornerLeft"
    ∷ codes "LipFunnelUpperRight"
    ∷ codes "LipFunnelUpperLeft"
    ∷ codes "LipFunnelLowerRight"
    ∷ codes "LipFunnelLowerLeft"
    ∷ codes "LipPuckerUpperRight"
    ∷ codes "LipPuckerUpperLeft"
    ∷ codes "LipPuckerLowerRight"
    ∷ codes "LipPuckerLowerLeft"
    ∷ codes "MouthUpperUpRight"
    ∷ codes "MouthUpperUpLeft"
    ∷ codes "MouthUpperDeepenRight"
    ∷ codes "MouthUpperDeepenLeft"
    ∷ codes "NoseSneerRight"
    ∷ codes "NoseSneerLeft"
    ∷ codes "MouthLowerDownRight"
    ∷ codes "MouthLowerDownLeft"
    ∷ codes "MouthUpperRight"
    ∷ codes "MouthUpperLeft"
    ∷ codes "MouthLowerRight"
    ∷ codes "MouthLowerLeft"
    ∷ codes "MouthCornerPullRight"
    ∷ codes "MouthCornerPullLeft"
    ∷ codes "MouthCornerSlantRight"
    ∷ codes "MouthCornerSlantLeft"
    ∷ codes "MouthFrownRight"
    ∷ codes "MouthFrownLeft"
    ∷ codes "MouthStretchRight"
    ∷ codes "MouthStretchLeft"
    ∷ codes "MouthDimpleRight"
    ∷ codes "MouthDimpleLeft"
    ∷ codes "MouthRaiserUpper"
    ∷ codes "MouthRaiserLower"
    ∷ codes "MouthPressRight"
    ∷ codes "MouthPressLeft"
    ∷ codes "MouthTightenerRight"
    ∷ codes "MouthTightenerLeft"
    ∷ codes "TongueOut"
    ∷ codes "TongueUp"
    ∷ codes "TongueDown"
    ∷ codes "TongueRight"
    ∷ codes "TongueLeft"
    ∷ codes "TongueRoll"
    ∷ codes "TongueBendDown"
    ∷ codes "TongueCurlUp"
    ∷ codes "TongueSquish"
    ∷ codes "TongueFlat"
    ∷ codes "TongueTwistRight"
    ∷ codes "TongueTwistLeft"
    ∷ codes "SoftPalateClose"
    ∷ codes "ThroatSwallow"
    ∷ codes "NeckFlexRight"
    ∷ codes "NeckFlexLeft"
    ∷ []

-- The names of the expressions of this repository.
unfoldable pub our_names : List (List ℕ)
our_names =
    codes "EyeLookOutLeft"
    ∷ codes "EyeLookInLeft"
    ∷ codes "EyeLookUpLeft"
    ∷ codes "EyeLookDownLeft"
    ∷ codes "EyeLookOutRight"
    ∷ codes "EyeLookInRight"
    ∷ codes "EyeLookUpRight"
    ∷ codes "EyeLookDownRight"
    ∷ codes "EyeWideLeft"
    ∷ codes "EyeWideRight"
    ∷ codes "EyeSquintLeft"
    ∷ codes "EyeSquintRight"
    ∷ codes "BrowLowererLeft"
    ∷ codes "BrowLowererRight"
    ∷ codes "BrowInnerUpLeft"
    ∷ codes "BrowInnerUpRight"
    ∷ codes "BrowOuterUpLeft"
    ∷ codes "BrowOuterUpRight"
    ∷ codes "BrowPinchLeft"
    ∷ codes "BrowPinchRight"
    ∷ codes "CheekPuffLeft"
    ∷ codes "CheekPuffRight"
    ∷ codes "CheekSuckLeft"
    ∷ codes "CheekSuckRight"
    ∷ codes "NoseSneerLeft"
    ∷ codes "NoseSneerRight"
    ∷ codes "JawOpen"
    ∷ codes "JawForward"
    ∷ codes "JawLeft"
    ∷ codes "JawRight"
    ∷ codes "LipSuckUpperLeft"
    ∷ codes "LipSuckUpperRight"
    ∷ codes "LipSuckLowerLeft"
    ∷ codes "LipSuckLowerRight"
    ∷ codes "LipFunnelUpperLeft"
    ∷ codes "LipFunnelUpperRight"
    ∷ codes "LipFunnelLowerLeft"
    ∷ codes "LipFunnelLowerRight"
    ∷ codes "LipPuckerUpperLeft"
    ∷ codes "LipPuckerUpperRight"
    ∷ codes "MouthClose"
    ∷ codes "MouthUpperLeft"
    ∷ codes "MouthUpperRight"
    ∷ codes "MouthLowerLeft"
    ∷ codes "MouthLowerRight"
    ∷ codes "MouthSmileLeft"
    ∷ codes "MouthSmileRight"
    ∷ codes "MouthSadLeft"
    ∷ codes "MouthSadRight"
    ∷ codes "MouthStretchLeft"
    ∷ codes "MouthStretchRight"
    ∷ codes "MouthDimpleLeft"
    ∷ codes "MouthDimpleRight"
    ∷ codes "MouthRaiserUpper"
    ∷ codes "MouthRaiserLower"
    ∷ codes "MouthPressLeft"
    ∷ codes "MouthPressRight"
    ∷ codes "MouthTightenerLeft"
    ∷ codes "MouthTightenerRight"
    ∷ codes "TongueOut"
    ∷ codes "TongueUp"
    ∷ codes "TongueDown"
    ∷ codes "TongueLeft"
    ∷ []

-- The upstream shapes whose name here is another one.
unfoldable pub aliases : List (List ℕ × List ℕ)
aliases =
    (codes "MouthClosed", codes "MouthClose")
    ∷ (codes "MouthCornerPullRight", codes "MouthSmileRight")
    ∷ (codes "MouthCornerPullLeft", codes "MouthSmileLeft")
    ∷ (codes "MouthFrownRight", codes "MouthSadRight")
    ∷ (codes "MouthFrownLeft", codes "MouthSadLeft")
    ∷ []

unfoldable pub name_here : List ℕ → List ℕ
name_here name = elim (find same_codes name aliases) [ none ↦ name | some other ↦ other ]

-- The number of the first shape, from `u` on, that is called `name` here.
unfoldable pub named_from : List (List ℕ) → ℕ → List ℕ → Option ℕ
named_from [] u name = none
named_from (n ∷ names) u name =
    let rest = named_from names (suc u) name in
    if same_codes (name_here n) name then some u else rest

-- The upstream shape that is named for the expression `o`.
unfoldable pub shape_named_for : ℕ → Option ℕ
shape_named_for o = named_from upstream_names 0 (get_or our_names o [])

abbrev same_shape : Option ℕ → Option ℕ → Bool
same_shape none none = true
same_shape none (some v) = false
same_shape (some u) none = false
same_shape (some u) (some v) = u == v

same_shape-≡ : (a b : Option ℕ) → same_shape a b ≡ true → a ≡ b
same_shape-≡ none none h = refl
same_shape-≡ none (some v) h = ground (arith, h)
same_shape-≡ (some u) none h = ground (arith, h)
same_shape-≡ (some u) (some v) h = ap some (ground (arith, h))

-- Two functions agree below `n`.
abbrev agrees : (ℕ → Option ℕ) → (ℕ → Option ℕ) → ℕ → Bool
agrees f g zero = true
agrees f g (suc n) = agrees f g n && same_shape (f n) (g n)

agrees_below : (f g : ℕ → Option ℕ) (n o : ℕ) → agrees f g n ≡ true → o < n → f o ≡ g o
agrees_below f g zero o h small = absurd (omega (arith, small))
agrees_below f g (suc n) o h small = elim (Bool-cases (o == n)) [
  | inl e ↦
      let last : f n ≡ g n = same_shape-≡ (f n) (g n) (ground (arith, h)) in
      subst (λ k. f k ≡ g k) {x = n} (ground (arith, e)) last
  | inr ne ↦ agrees_below f g n o (ground (arith, h)) (ground (arith, ne, small))
]

-- The table of upstream shapes agrees with the names.
table_named : agrees (λ o. source_of upstream_to_ours 0 o) shape_named_for expression_count ≡ true
unfolding shape_named_for named_from upstream_names our_names name_here aliases
table_named = refl

-- An expression of the translated frame is the clamped value of the first upstream shape whose name
-- is the expression's, or has it as its alias, and zero if no shape is named for it or if that value
-- is not finite.
pub translate_wire_body-expected :
    (fl : Floats) (wire : FrameBody fl) (o : ℕ)
    → o < expression_count
    → get_or (translate_wire_body fl wire).expressions o fl.zero_float
      ≡ expected fl (shape_named_for o) wire.expressions fl.zero_float
translate_wire_body-expected fl wire o small =
    remap_expected fl wire o small
    ∙ ap (λ u. expected fl u wire.expressions fl.zero_float)
        (agrees_below (λ o'. source_of upstream_to_ours 0 o') shape_named_for expression_count o
          table_named small)
