-- ===== src/Session/Paths.antt =====
-- Where the files of the user's settings are (src/gui/session.cpp). The environment, the files and
-- the directories are the interface `Host` over their state `W`.
pub mod Laws
use reflash.Base.{
  ℕ, zero, suc, Bool, ◌||◌, Option, none, some, List, [], ◌∷◌, ◌++◌, ◌==◌, if◌then◌else◌, length,
  text_eq, not, ◌&&◌, Text, text,
}

-- `file` is what a `wxFileConfig` finds in a file, nothing where there is none.
pub record Host (C W : Type 0) : Type 0 where
  pub getenv : Text → Option Text
  pub access : Text → W → Bool
  pub mkdir : Text → W → W
  pub file : Text → W → C
  pub flush : Text → C → W → W

-- The text before the last slash.
before_slash : Text → Option Text
before_slash [] = none
before_slash (c ∷ cs) = elim (before_slash cs) [
  | some p ↦ some (c ∷ p)
  | none ↦ if c == b'/' then some [] else none
]

is_root : Text → Bool
is_root dir = text_eq dir [] || text_eq dir (text "/")

-- A variable that is there and not empty.
set_variable : Option Text → Option Text
set_variable (some (c ∷ cs)) = some (c ∷ cs)
set_variable _ = none

module _ {C W : Type 0} (h : Host C W) where
  -- A directory and those above it; the number bounds the length of the path, and that of the
  -- directory above is less.
  mkdir_all : ℕ → Text → W → W
  mkdir_all zero dir w = w
  mkdir_all (suc n) dir w =
      if is_root dir
      then w
      else h.mkdir dir (elim (before_slash dir) [
        | none ↦ w
        | some [] ↦ w
        | some (c ∷ cs) ↦ mkdir_all n (c ∷ cs) w
      ])

  mkdir_p : Text → W → W
  mkdir_p dir = mkdir_all (length dir) dir

  mkdir_above : Option Text → W → W
  mkdir_above none w = w
  mkdir_above (some []) w = w
  mkdir_above (some (c ∷ cs)) w = mkdir_p (c ∷ cs) w

  pub mkdir_p_parent : Text → W → W
  mkdir_p_parent file = mkdir_above (before_slash file)

  unfoldable pub path_exists : Text → W → Bool
  path_exists path w = not (text_eq path []) && h.access path w

  home_dir : Option Text → Text
  home_dir none = text "/tmp/reflash"
  home_dir (some home) = home ++ text "/.config/reflash"

  mkdir_home : Option Text → W → W
  mkdir_home none w = w
  mkdir_home (some home) w = mkdir_p (home ++ text "/.config") w

  -- `mkdir_home` and `mkdir_p` where no directory is set.
  config_of : Option Text → Option Text → W → Text × W
  config_of (some env) home w = (env, mkdir_p env w)
  config_of none home w = let dir = home_dir home in (dir, mkdir_p dir (mkdir_home home w))

  pub config_dir : W → Text × W
  config_dir = config_of (set_variable (h.getenv (text "REFLASH_CONFIG"))) (h.getenv (text "HOME"))

  path_of : Option Text → W → Text × W
  path_of (some env) w = (env, w)
  path_of none w = let dir = config_dir w in (dir.0 ++ text "/reflash.ini", dir.1)

  pub gui_session_path : W → Text × W
  gui_session_path = path_of (set_variable (h.getenv (text "REFLASH_SESSION")))

  legacy_gui_session_path : Text
  legacy_gui_session_path = elim (set_variable (h.getenv (text "HOME"))) [
    | none ↦ []
    | some home ↦ home ++ text "/.config/reflash/gui.ini"
  ]

  -- The file that is read: the session file or else the one of older versions.
  found_at : Text × W → Option Text × W
  found_at (path, w) =
      if path_exists path w
      then (some path, w)
      else if path_exists legacy_gui_session_path w
      then (some legacy_gui_session_path, w)
      else (none, w)

  pub session_file : W → Option Text × W
  session_file w = found_at (gui_session_path w)

  pub browser_settings_path : W → Text × W
  browser_settings_path w = let dir = config_dir w in (dir.0 ++ text "/browser.ini", dir.1)
