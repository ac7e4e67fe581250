-- ===== src/Supervisor/Cleanup.antt =====
-- CleanupStaleHostIfWedged of core/src/common/HostSupervisorBase.cpp, and the image names it
-- compares.
pub mod Image
use open_vr_pair_driver.Base.{
  ℕ, ◌+◌, ◌≡◌, ◌≢◌, ◌⊎◌, Bool, true, false, not, Option, none, some, List, [], ◌∷◌, map, ltb, leb,
  ◌==◌, ◌&&◌, ◌||◌, if◌then◌else◌, arith, refl,
}

-- A list of characters compared with another.
unfoldable pub same_text : List ℕ → List ℕ → Bool
same_text [] [] = true
same_text [] (d ∷ t) = false
same_text (c ∷ s) [] = false
same_text (c ∷ s) (d ∷ t) = c == d && same_text s t

unfoldable pub lower : ℕ → ℕ
lower c = if leb b'A' c && leb c b'Z' then c + 32 else c

-- What stands behind the last separator of a path, if it has one.
unfoldable pub behind_slash : List ℕ → Option (List ℕ)
behind_slash [] = none
behind_slash (c ∷ s) = elim (behind_slash s) [
  | some t ↦ some t
  | none ↦ if c == b'/' || c == 92 then some s else none
]

unfoldable pub extract_image_name : List ℕ → List ℕ
extract_image_name path = map lower (elim (behind_slash path) [ none ↦ path | some name ↦ name ])

unfoldable pub lower_ascii : List ℕ → List ℕ
lower_ascii [] = []
lower_ascii (c ∷ w) = if ltb c 128 then lower c ∷ lower_ascii w else lower_ascii w

-- An entry of the snapshot, whether it can be opened, and whether it can be terminated.
pub record Process : Type 0 where
  pub pid : ℕ
  pub image : List ℕ
  pub opens : Bool
  pub terminates : Bool

-- The loop over the snapshot: the processes that it terminates.
unfoldable pub terminate_stale : ℕ → List ℕ → List Process → List Process
terminate_stale own image_lc [] = []
terminate_stale own image_lc (p ∷ ps) =
    let rest = terminate_stale own image_lc ps in
    if not (same_text (lower_ascii p.image) image_lc)
    then rest
    else if p.pid == own
    then rest
    else if p.opens && p.terminates
    then p ∷ rest
    else rest

abbrev empty : List ℕ → Bool
empty [] = true
empty (_ ∷ _) = false

-- What the check for a wedged host finds. No snapshot is `none`.
pub record Probe : Type 0 where
  pub mutex_named : Bool
  pub mutex_held : Bool
  pub pipe_answers : Bool
  pub own_pid : ℕ
  pub snapshot : Option (List Process)

-- The processes that are terminated; their number is returned.
unfoldable pub cleanup_stale_host_if_wedged : List ℕ → Probe → List Process
cleanup_stale_host_if_wedged path probe =
    if not probe.mutex_named
    then []
    else if not probe.mutex_held
    then []
    else if probe.pipe_answers
    then []
    else if empty (extract_image_name path)
    then []
    else elim probe.snapshot [
      | none ↦ []
      | some ps ↦ terminate_stale probe.own_pid (extract_image_name path) ps
    ]
