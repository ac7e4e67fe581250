-- ===== src/UpdateNotice/Order.antt =====
-- Stamps are ordered by their numbers, from left to right.
use open_vr_pair_driver.Base.{
  ℕ, ◌≡◌, Bool, true, false, Option, none, some, List, [], ◌∷◌, refl, arith,
}
use open_vr_pair_driver.UpdateNotice.{parse_stamp, newer, is_remote_newer}

newer_irrefl : (a : List ℕ) → newer a a ≡ false
unfolding newer
newer_irrefl [] = refl
newer_irrefl (x ∷ a) = ground (arith, newer_irrefl a)

newer_trans : (a b c : List ℕ) → newer a b ≡ true → newer b c ≡ true → newer a c ≡ true
unfolding newer
newer_trans [] b c h k = ground (arith, h)
newer_trans (x ∷ a) [] c h k = ground (arith, h)
newer_trans (x ∷ a) (y ∷ b) [] h k = ground (arith, k)
newer_trans (x ∷ a) (y ∷ b) (z ∷ c) h k = ground (arith, h, k, newer_trans a b c)

-- Whatever `strtol` does, no tag is newer than itself.
pub is_remote_newer_irrefl :
    (strtol : List ℕ → Option (ℕ × List ℕ)) (a : List ℕ) → is_remote_newer strtol a a ≡ false
unfolding is_remote_newer
is_remote_newer_irrefl strtol a = same (parse_stamp strtol a)
  where
    test : Option (List ℕ) → Option (List ℕ) → Bool
    test p q = elim p [ none ↦ false | some r ↦ elim q [ none ↦ false | some l ↦ newer r l ] ]

    same : (p : Option (List ℕ)) → test p p ≡ false
    same none = refl
    same (some r) = newer_irrefl r

-- Whatever `strtol` does, a tag that is newer than one that is newer than a third is newer than the
-- third.
pub is_remote_newer_trans :
    (strtol : List ℕ → Option (ℕ × List ℕ)) (a b c : List ℕ)
    → is_remote_newer strtol a b ≡ true
    → is_remote_newer strtol b c ≡ true
    → is_remote_newer strtol a c ≡ true
unfolding is_remote_newer
is_remote_newer_trans strtol a b c =
    from (parse_stamp strtol a) (parse_stamp strtol b) (parse_stamp strtol c)
  where
    test : Option (List ℕ) → Option (List ℕ) → Bool
    test p q = elim p [ none ↦ false | some r ↦ elim q [ none ↦ false | some l ↦ newer r l ] ]

    from : (p q r : Option (List ℕ)) → test p q ≡ true → test q r ≡ true → test p r ≡ true
    from none q r h k = ground (arith, h)
    from (some x) none r h k = ground (arith, h)
    from (some x) (some y) none h k = ground (arith, k)
    from (some x) (some y) (some z) h k = newer_trans x y z h k
