-- ===== src/Massage/Engine/Interface.antt =====
-- What `MassageEngine::run_inner` calls outside src/engine, src/io and src/db (src/engine/massage.cpp).
-- The mounts (src/mount/automount.cpp), the opening of the target and of the database, and the
-- thread of the full-disk sync are the interface `System` over the state `W` of the world.
use reflash.Base.{
  ℕ, Bool, true, false, Option, none, some, List, [], ◌∷◌, if◌then◌else◌, Text, text,
}
use reflash.Progress.{Progress}
use reflash.BlockIo.{Host}
use reflash.Fs.{Disk, Run, returned, out_of_fuel}
use reflash.Options.{RunMode, linear, recursive, Action, massage, check}
use reflash.Sha1Pass.{Files}
use reflash.Sha1Pass.File.{}
use reflash.Sha1Pass.Walk.{Tree}

-- The device that is open.
pub record Target (W : Type 0) : Type 0 where
  pub size : ℕ
  pub sector_size : ℕ
  pub host : Host W
  pub disk : W → Disk

pub data Opening (A : Type 0) : Type 0 where
  opened : A → Opening A
  unopened : Text → Opening A

-- A verdict, with the text in `err`.
abbrev pub Answer : Type 0
Answer = Bool × Text

-- `M` is `MountRecord`.
pub record System (F W D M : Type 0) : Type 0 where
  pub ensure_unmounted : Text → W → (List M × Answer) × W
  pub open_target : Text → W → Opening (Target W) × W
  pub close_target : W → W
  pub find_builtin_manifest_db : Text → W → Text
  pub default_db_path : Text → W → Text
  pub open_db : Text → W → Opening D × W
  pub stop_requested : W → Bool
  -- The lines that are shown until the sync is done or a stop is requested, and the world then.
  pub full_disk_sync : ℕ → W → List Text × W
  pub stats_line : Bool → Progress F → Text
  pub prepare_sha1_mounts : Text → List M → W → ((List M × Bool) × Answer) × W
  pub restore_mount_state : Text → List M → List M → Bool → W → Answer × W
  pub target_of : M → Text
  pub tree : W → Tree
  pub files : W → Files

-- What `run_inner` returns, and what it leaves.
pub record Finished (F W D : Type 0) : Type 0 where
  pub rc : ℕ
  pub progress : Progress F
  pub world : W
  pub db : Option D

pub or_text : Text → Text → Text
or_text [] other = other
or_text (c ∷ cs) other = c ∷ cs

pub is_check : Action → Bool
is_check massage = false
is_check check = true

pub is_empty : {A : Type 0} → List A → Bool
is_empty [] = true
is_empty (x ∷ xs) = false

unfoldable pub one_if : Bool → ℕ
one_if b = if b then 1 else 0

unfoldable pub mode_name : RunMode → Text
mode_name linear = text "linear"
mode_name recursive = text "recursive"

-- The UTF-8 form of the ellipsis.
pub ellipsis : Text
ellipsis = 226 ∷ 128 ∷ 166 ∷ []

unfoldable pub of_option : {A : Type 0} → Option A → Run A
of_option none = out_of_fuel
of_option (some a) = returned a
