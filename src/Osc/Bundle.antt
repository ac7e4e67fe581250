-- ===== src/Osc/Bundle.antt =====
-- OscDispatch of modules/oscrouter/src/driver/OscWire.h. The callback's calls are returned as a
-- list, in the order in which they are made.
pub mod Fuel
pub mod Nested
use open_vr_pair_driver.Base.{
  ℕ, zero, suc, ◌+◌, Bool, true, false, Option, none, some, List, [], ◌∷◌, ◌++◌, length, take, drop,
  ltb, leb, ◌==◌, ◌&&◌, if◌then◌else◌, add_size, codes,
}
use open_vr_pair_driver.Osc.Reader.{OscMessage, reader, read_int32, parse_message}

-- The arguments of one call of `OscDispatchFn`.
pub record Call : Type 0 where
  pub address : List ℕ
  pub typetag : List ℕ
  pub args : List ℕ

-- "#bundle" and its NUL: `kOscBundlePrefix`.
abbrev pub bundle_prefix : List ℕ
bundle_prefix = codes "#bundle" ++ 0 ∷ []

-- `memcmp(...) == 0` of the first bytes of `data` with all of the other text.
unfoldable pub starts_with : List ℕ → List ℕ → Bool
starts_with [] bytes = true
starts_with (c ∷ s) [] = false
starts_with (c ∷ s) (d ∷ bytes) = c == d && starts_with s bytes

abbrev text_of : Option (List ℕ) → List ℕ
text_of none = []
text_of (some s) = s

-- `if (msg.valid) fn(...)`.
unfoldable pub call_of : OscMessage → List Call
call_of m =
    if m.valid
    then record { address = text_of m.address; typetag = text_of m.typetag; args = m.arg_data } ∷ []
    else []

-- The `while` loop over a bundle's elements, with `sub` for the recursive call and fuel for its
-- rounds.
unfoldable pub dispatch_elements : (List ℕ → List Call) → ℕ → List ℕ → ℕ → List Call
dispatch_elements sub zero bytes pos = []
dispatch_elements sub (suc fuel) bytes pos =
    let len = (read_int32 (reader (take 4 (drop pos bytes)))).0 in
    let start = add_size pos 4 in
    let next = add_size start len in
    let rest = dispatch_elements sub fuel bytes next in
    if leb start (length bytes)
    then if ltb (length bytes) next then [] else sub (take len (drop start bytes)) ++ rest
    else []

-- Fuel bounds the nesting of bundles.
unfoldable pub dispatch : ℕ → List ℕ → List Call
unfolding call_of
dispatch zero bytes = []
dispatch (suc fuel) bytes =
    if ltb (length bytes) 8
    then []
    else if starts_with bundle_prefix bytes
    then if ltb (length bytes) 16
      then []
      else dispatch_elements (dispatch fuel) (length bytes) bytes 16
    else call_of (parse_message bytes)

unfoldable pub osc_dispatch : List ℕ → List Call
osc_dispatch bytes = dispatch (suc (length bytes)) bytes
