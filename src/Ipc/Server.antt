-- ===== src/Ipc/Server.antt =====
-- The driver's end of the pipe: FeatureFlags.cpp, the modules and HandleIpcRequest of
-- ServerTrackedDeviceProvider.cpp, and the callbacks of IPCServer.cpp, all in core/src/driver. The
-- state of the driver's modules is of a type that is a parameter.
pub mod Session
use open_vr_pair_driver.Base.{
  ℕ, zero, suc, ◌+◌, ◌/◌, ◌%◌, Bool, true, false, not, Option, none, some, List, [], ◌∷◌, ◌++◌, ltb,
  ◌==◌, ◌&&◌, ◌||◌, if◌then◌else◌,
}
use open_vr_pair_driver.Ipc.Client.{Request, Response, request_handshake, response_handshake}

-- Which of the flag files exist.
pub record FlagFiles : Type 0 where
  pub enable_calibration : Bool
  pub enable_smoothing : Bool
  pub enable_inputhealth : Bool
  pub enable_facetracking : Bool
  pub enable_oscrouter : Bool
  pub enable_captions : Bool
  pub enable_translator : Bool

-- The bits, by their place.
pub data Feature : Type 0 where
  calibration : Feature
  smoothing : Feature
  input_health : Feature
  face_tracking : Feature
  osc_router : Feature
  captions : Feature

abbrev pub mask_of : Feature → ℕ
mask_of calibration = 1
mask_of smoothing = 2
mask_of input_health = 4
mask_of face_tracking = 8
mask_of osc_router = 16
mask_of captions = 32

-- `flags |= bit`, for a bit that is not set.
abbrev set_if : Bool → ℕ → ℕ → ℕ
set_if on bit flags = if on then flags + bit else flags

-- `none` if the directory of resources is not found.
unfoldable pub detect_feature_flags : Option FlagFiles → ℕ
detect_feature_flags none = 0
detect_feature_flags (some f) =
    set_if (f.enable_captions || f.enable_translator) (mask_of captions) (
      set_if f.enable_oscrouter (mask_of osc_router) (
        set_if f.enable_facetracking (mask_of face_tracking) (
          set_if f.enable_inputhealth (mask_of input_health) (
            set_if f.enable_smoothing (mask_of smoothing)
              (set_if f.enable_calibration (mask_of calibration) 0)))))

-- `(a & b) != 0`, on the lowest `n` bits.
abbrev pub shares_bit : ℕ → ℕ → ℕ → Bool
shares_bit zero a b = false
shares_bit (suc n) a b = (a % 2 == 1 && b % 2 == 1) || shares_bit n (a / 2) (b / 2)

-- A DriverModule, over the state `S` of all modules. Each call says whether it returned true.
pub record DriverModule (S : Type 0) : Type 0 where
  pub feature_mask : ℕ
  pub init : S → S × Bool
  pub handle_request : S → Request → Response → S × (Response × Bool)

module _ {S : Type 0} where
  -- `activateModule` for each module created, in their order.
  unfoldable pub activate_all : ℕ → S → List (DriverModule S) → S × List (DriverModule S)
  activate_all flags s [] = (s, [])
  activate_all flags s (m ∷ ms) =
      let (s', ready) = m.init s in
      let skipped = activate_all flags s ms in
      let (s2, active) = activate_all flags s' ms in
      if shares_bit 32 flags m.feature_mask
      then (s2, (if ready then m ∷ active else active))
      else skipped

  -- The loop of HandleIpcRequest over the active modules.
  unfoldable pub try_modules :
      List (DriverModule S) → ℕ → S → Request → Response → S × (Response × Bool)
  try_modules [] mask s request response = (s, (response, false))
  try_modules (m ∷ ms) mask s request response =
      let skipped = try_modules ms mask s request response in
      let (s', (response', handled)) = m.handle_request s request response in
      let rest = try_modules ms mask s' request response' in
      if shares_bit 32 m.feature_mask mask
      then if handled then (s', (response', true)) else rest
      else skipped

  unfoldable pub handle_ipc_request :
      ℕ → List (DriverModule S) → ℕ → S → Request → Response → S × (Response × Bool)
  handle_ipc_request version modules mask s request response =
      if request.kind == request_handshake
      then (s, (record response { kind = response_handshake; version = version }, true))
      else try_modules modules mask s request response

  -- IPCServer::HandleRequest. ResponseInvalid is 0.
  unfoldable pub answer_request :
      ℕ → List (DriverModule S) → ℕ → S → Request → Response → S × Response
  answer_request version modules mask s request response =
      let (s', (response', handled)) = handle_ipc_request version modules mask s request response in
      (s', (if handled then response' else record response' { kind = 0 }))

-- What Windows reports to one round of the callbacks of a pipe: the read that completed with its
-- request, whether the write started, how it completed, and whether the next read started.
pub record PipeRound : Type 0 where
  pub read_error : ℕ
  pub bytes_read : ℕ
  pub request : Request
  pub write_started : Bool
  pub write_error : ℕ
  pub bytes_written : ℕ
  pub read_started : Bool

-- CompletedWriteCallback: whether the pipe is still open.
unfoldable pub completed_write : ℕ → PipeRound → Bool
completed_write response_size r =
    r.write_error == 0 && (r.bytes_written == response_size && r.read_started)

module _ {S : Type 0} (version request_size response_size : ℕ) (modules : List (DriverModule S))
    (mask : ℕ) where
  -- CompletedReadCallback: the state, the response that is written, if it is, and whether the pipe is
  -- still open. The response is the one of the pipe, which keeps what the last request left in it.
  unfoldable pub completed_read : S → Response → PipeRound → S × (Response × Bool)
  completed_read s response r =
      let (s', response') = answer_request version modules mask s r.request response in
      if r.read_error == 0 && r.bytes_read == request_size
      then (s', (response', r.write_started))
      else (s, (response, false))

  -- The rounds of a pipe until it is closed: the state, the responses written, and whether the pipe is
  -- open.
  unfoldable pub serve : S → Response → List PipeRound → S × (List Response × Bool)
  serve s response [] = (s, ([], true))
  serve s response (r ∷ rs) =
      let (s', (response', writes)) = completed_read s response r in
      let (s2, (rest, open_)) = serve s' response' rs in
      if writes
      then if completed_write response_size r
        then (s2, (response' ∷ rest, open_))
        else (s', (response' ∷ [], false))
      else (s', ([], false))
