-- ===== src/Base/Maps.antt =====
-- A map whose order does not matter, `std::unordered_map`, as the list of its pairs.
use Prim.Native.Nat.{ℕ}
use mathlib.Core.List.{List, [], ◌∷◌}
use mathlib.Core.Option.{Option, none, some}
use mathlib.Core.Bool.{Bool, true, false}
use mathlib.Core.Path.{◌≡◌, refl, sym, ◌∙◌}
use mathlib.Core.Logic.{inl, inr}
use open_vr_pair_driver.Base.Tests.{if◌then◌else◌, Bool-cases, if_true, if_false, ◌==◌, ==_refl}
use native.Mathlib.Omega.{arith}

module _ {ℓ κ} {K : Type ℓ} {V : Type κ} (same : K → K → Bool) where
  abbrev pub find : K → List (K × V) → Option V
  find k [] = none
  find k ((j, v) ∷ m) = if same j k then some v else find k m

  abbrev pub erase : K → List (K × V) → List (K × V)
  erase k [] = []
  erase k ((j, v) ∷ m) = let rest = erase k m in if same j k then rest else (j, v) ∷ rest

  -- `m[k] = v`.
  abbrev pub put : K → V → List (K × V) → List (K × V)
  put k v m = (k, v) ∷ erase k m

-- A test of keys that answers true exactly for equal ones.
pub record IsKeyTest {ℓ} {K : Type ℓ} (same : K → K → Bool) : Type ℓ where
  pub sound : (j k : K) → same j k ≡ true → j ≡ k
  pub same_self : (k : K) → same k k ≡ true

pub ==_IsKeyTest : IsKeyTest (λ (i j : ℕ). i == j)
==_IsKeyTest = record { sound = λ j k h. ground (arith, h); same_self = λ k. ==_refl k }

module _ {ℓ κ} {K : Type ℓ} {V : Type κ} (same : K → K → Bool) (key : IsKeyTest same) where
  pub find-erase_self : (k : K) (m : List (K × V)) → find same k (erase same k m) ≡ none
  find-erase_self k [] = refl
  find-erase_self k ((j, v) ∷ m) = elim (Bool-cases (same j k)) [
    | inl e ↦ rw (e, erase) (find-erase_self k m)
    | inr e ↦ rw (e, erase) (rw (e, find) (find-erase_self k m))
  ]

  pub find-erase_ne :
      (j k : K) (m : List (K × V)) → same j k ≡ false → find same k (erase same j m) ≡ find same k m
  find-erase_ne j k [] h = refl
  find-erase_ne j k ((i, v) ∷ m) h = elim (Bool-cases (same i j)) [
    | inl e ↦
        let other : same i k ≡ false = rw (key.sound i j e) h in
        rw (e, erase) (rw (other, find) (find-erase_ne j k m h))
    | inr e ↦ elim (Bool-cases (same i k)) [
      | inl f ↦ rw (e, erase) (rw (f, find) refl)
      | inr f ↦ rw (e, erase) (rw (f, find) (find-erase_ne j k m h))
    ]
  ]

  pub find-put_self : (k : K) (v : V) (m : List (K × V)) → find same k (put same k v m) ≡ some v
  find-put_self k v m = if_true {b = same k k} _ (key.same_self k)

  pub find-put_ne :
      (j k : K) (v : V) (m : List (K × V))
      → same j k ≡ false
      → find same k (put same j v m) ≡ find same k m
  find-put_ne j k v m h = if_false {b = same j k} _ h ∙ find-erase_ne j k m h

  -- Putting and erasing, for any key.
  pub find-put :
      (j k : K) (v : V) (m : List (K × V))
      → find same k (put same j v m) ≡ (if same j k then some v else find same k m)
  find-put j k v m = elim (Bool-cases (same j k)) [
    | inl e ↦ if_true {b = same j k} _ e ∙ sym (if_true {b = same j k} _ e)
    | inr e ↦ find-put_ne j k v m e ∙ sym (if_false {b = same j k} _ e)
  ]

  pub find-erase :
      (j k : K) (m : List (K × V))
      → find same k (erase same j m) ≡ (if same j k then none else find same k m)
  find-erase j k m = elim (Bool-cases (same j k)) [
    | inl e ↦ rw (key.sound j k e) (find-erase_self k m) ∙ sym (if_true {b = same j k} _ e)
    | inr e ↦ find-erase_ne j k m e ∙ sym (if_false {b = same j k} _ e)
  ]
