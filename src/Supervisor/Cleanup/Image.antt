-- ===== src/Supervisor/Cleanup/Image.antt =====
-- Which processes the cleanup of stale hosts terminates.
use open_vr_pair_driver.Base.{
  ℕ, ◌+◌, ◌≤◌, ◌<◌, ◌≡◌, ◌≢◌, ◌⊎◌, true, false, Option, none, some, List, [], ◌∷◌, ◌++◌,
}
use open_vr_pair_driver.Supervisor.Cleanup.{behind_slash, Process, Probe}

-- The same letter, in upper or lower case.
abbrev pub SameLetter : ℕ → ℕ → Type 0
SameLetter c d =
    (c ≡ d) ⊎ (((65 ≤ c) × (c ≤ 90) × (c + 32 ≡ d)) ⊎ ((65 ≤ d) × (d ≤ 90) × (d + 32 ≡ c)))

-- An image that reads like the name `name`, case and all characters outside ASCII left aside.
pub data IsImage : List ℕ → List ℕ → Type 0 where
  ends : IsImage [] []
  letter :
      {c d : ℕ} {image name : List ℕ}
      → c < 128
      → SameLetter c d
      → IsImage image name
      → IsImage (c ∷ image) (d ∷ name)
  skipped : {c : ℕ} {image name : List ℕ} → 128 ≤ c → IsImage image name → IsImage (c ∷ image) name

abbrev pub NoSlash : List ℕ → Type 0
NoSlash [] = Unit {0}
NoSlash (c ∷ s) = (c ≢ 47) × (c ≢ 92) × NoSlash s

-- The part of a path behind its last slash or backslash.
pub data IsFileName : List ℕ → List ℕ → Type 0 where
  whole : {name : List ℕ} → NoSlash name → IsFileName name name
  behind :
      {name path : List ℕ} (folder : List ℕ) (separator : ℕ)
      → NoSlash name
      → (separator ≡ 47) ⊎ (separator ≡ 92)
      → path ≡ folder ++ separator ∷ name
      → IsFileName path name

-- What `behind_slash` finds.
abbrev Found : List ℕ → Option (List ℕ) → Type 0
Found s none = NoSlash s
Found s (some name) =
    NoSlash name
    × ((folder : List ℕ) × (separator : ℕ) × ((separator ≡ 47) ⊎ (separator ≡ 92))
        × (s ≡ folder ++ separator ∷ name))

file_name : List ℕ → List ℕ
file_name path = elim (behind_slash path) [ none ↦ path | some name ↦ name ]

-- The process has the image `name`, is not the driver's own, and can be terminated.
abbrev pub IsStale : ℕ → List ℕ → Process → Type 0
IsStale own name p = IsImage p.image name × (p.pid ≢ own) × (p.opens ≡ true) × (p.terminates ≡ true)

-- `killed` are exactly the stale ones of the processes, in their order.
pub data Cleaned (own : ℕ) (name : List ℕ) : List Process → List Process → Type 0 where
  finished : Cleaned own name [] []
  kills :
      {p : Process} {ps killed : List Process}
      → IsStale own name p
      → Cleaned own name ps killed
      → Cleaned own name (p ∷ ps) (p ∷ killed)
  spares :
      {p : Process} {ps killed : List Process}
      → ¬ IsStale own name p
      → Cleaned own name ps killed
      → Cleaned own name (p ∷ ps) killed

-- The cleanup has a reason to leave every process alone.
abbrev pub LeavesAll : Probe → List ℕ → Type 0
LeavesAll probe name =
    (probe.mutex_named ≡ false)
    ⊎ ((probe.mutex_held ≡ false)
        ⊎ ((probe.pipe_answers ≡ true) ⊎ ((name ≡ []) ⊎ (probe.snapshot ≡ none))))
