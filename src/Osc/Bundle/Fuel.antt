-- ===== src/Osc/Bundle/Fuel.antt =====
-- The fuel of OscDispatch suffices: more of it changes nothing.
use open_vr_pair_driver.Base.{
  ℕ, zero, suc, ◌+◌, ◌^◌, ◌≤◌, ◌<◌, ◌≡◌, refl, ap, ap₂, inl, inr, List, ◌++◌, length, take, drop,
  arith, length-drop, length-take, Bool-cases, ltb, leb, add_size, [], if◌then◌else◌,
}
use open_vr_pair_driver.Osc.Reader.{reader, read_int32}
use open_vr_pair_driver.Osc.Bundle.{
  Call, starts_with, bundle_prefix, dispatch_elements, dispatch, osc_dispatch,
}

-- An element's length has 32 bits.
read_int32-lt : (bytes : List ℕ) → (read_int32 (reader bytes)).0 < 2 ^ 32
unfolding read_int32
read_int32-lt bytes = ground arith

-- The position after an element that starts inside of the bundle, with no wrap.
next_lem :
    (bytes : List ℕ) (pos size : ℕ)
    → size < 2 ^ 62
    → pos ≤ size
    → add_size (add_size pos 4) (read_int32 (reader bytes)).0
      ≡ pos + 4 + (read_int32 (reader bytes)).0
next_lem bytes pos size small inside = omega (arith, read_int32-lt bytes)

-- Two handlers that agree on all shorter inputs, and fuel for each.
elements_agree :
    (g h : List ℕ → List Call) (k m : ℕ) (bytes : List ℕ) (pos : ℕ)
    → ((s : List ℕ) → length s < length bytes → g s ≡ h s)
    → length bytes < 2 ^ 62
    → pos ≤ length bytes
    → length bytes < k + pos
    → length bytes < m + pos
    → dispatch_elements g k bytes pos ≡ dispatch_elements h m bytes pos
unfolding dispatch_elements
elements_agree g h zero m bytes pos same small inside a b = absurd (omega arith)
elements_agree g h (suc k) zero bytes pos same small inside a b = absurd (omega arith)
elements_agree g h (suc k) (suc m) bytes pos same small inside a b =
    elim (Bool-cases (leb (add_size pos 4) (length bytes))) [
      | inr e ↦ rw (e, dispatch_elements) refl
      | inl e ↦ elim (Bool-cases (ltb (length bytes) next)) [
        | inl f ↦ rw (e, dispatch_elements) (rw f refl)
        | inr f ↦
            rw (e, dispatch_elements)
              (rw f (
                ap₂ ◌++◌
                  (same element (
                    ground (
                      arith,
                      length-take len (drop (add_size pos 4) bytes),
                      length-drop (add_size pos 4) bytes,
                    )))
                  (elements_agree g h k m bytes next same small (ground arith)
                    (ground (arith, step)) (ground (arith, step)))))
      ]
    ]
  where
    len : ℕ
    len = (read_int32 (reader (take 4 (drop pos bytes)))).0

    next : ℕ
    next = add_size (add_size pos 4) len

    step : next ≡ pos + 4 + len
    step = next_lem (take 4 (drop pos bytes)) pos (length bytes) small inside

    element : List ℕ
    element = take len (drop (add_size pos 4) bytes)

-- A level of nesting that is never reached is not needed.
dispatch_agree :
    (f g : ℕ) (bytes : List ℕ)
    → length bytes < 2 ^ 62
    → length bytes < f
    → length bytes < g
    → dispatch f bytes ≡ dispatch g bytes
unfolding dispatch
dispatch_agree zero g bytes small a b = absurd (omega arith)
dispatch_agree (suc f) zero bytes small a b = absurd (omega arith)
dispatch_agree (suc f) (suc g) bytes small a b =
    elim (Bool-cases (starts_with bundle_prefix bytes)) [
      | inr e ↦ rw (e, dispatch) refl
      | inl e ↦ elim (Bool-cases (ltb (length bytes) 16)) [
        | inl short ↦ rw (e, dispatch) (rw short refl)
        | inr long ↦
            rw (e, dispatch)
              (rw long (
                ap (λ r. if ltb (length bytes) 8 then [] else r)
                  (elements_agree (dispatch f) (dispatch g) (length bytes) (length bytes) bytes 16
                    (λ s shorter. dispatch_agree f g s (omega arith) (omega arith) (omega arith))
                    small (ground arith) (omega arith) (omega arith))))
      ]
    ]

-- For every input below 2^62 bytes, `OscDispatch` makes the same calls in the same order with any
-- fuel above the input's length: its recursion and its loop end by themselves.
pub dispatch-osc_dispatch :
    (fuel : ℕ) (bytes : List ℕ)
    → length bytes < 2 ^ 62
    → length bytes < fuel
    → dispatch fuel bytes ≡ osc_dispatch bytes
unfolding osc_dispatch
dispatch-osc_dispatch fuel bytes small enough =
    dispatch_agree fuel (suc (length bytes)) bytes small enough (omega arith)
