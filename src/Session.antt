-- ===== src/Session.antt =====
-- The user's settings (src/gui/session.hpp, src/gui/session.cpp): how they are saved and restored.
mod Contents
mod Paths
mod RoundTrip
mod Tests
use reflash.Base.{
  ℕ, zero, suc, Bool, true, false, not, ◌&&◌, Option, none, some, List, [], ◌∷◌, ◌++◌, ltb,
  if◌then◌else◌, length, take, text_eq, Text, text, to_string,
}
use reflash.Options.{Options, ℤ, pos, negsuc}
use reflash.Session.Contents.{
  Conf, BrowserSettings, default_settings, is_set, flag, to_int, non_negative, magnitude, read,
  read_long, write_long, write_utf8, settings_of, put_settings, mode_of, restore_rest, put_session,
}
use reflash.Session.Paths.{
  Host, path_exists, mkdir_p_parent, gui_session_path, session_file, browser_settings_path,
}

-- `std::remove` and `erase`.
without : Text → List Text → List Text
without path [] = []
without path (t ∷ ts) = let rest = without path ts in if text_eq t path then rest else t ∷ rest

module _ {C W : Type 0} (x : Conf C) (h : Host C W) where
  -- A path that is read is used where it exists.
  existing : W → Option Text → Text → Text
  existing w none old = old
  existing w (some t) old = if path_exists h (x.to_std_string t) w then x.to_std_string t else old

  restore_target : Bool → C → W → Options → Options
  restore_target keep c w o =
      if keep then o else record o { target = existing w (read x (text "target") c) o.target }

  restore_db : Bool → C → W → Options → Options
  restore_db keep c w o =
      if keep
      then o
      else record o { sqlite_db = existing w (read x (text "database") c) o.sqlite_db }

  restore_mode : Bool → C → Options → Options
  restore_mode keep c o =
      if keep then o else record o { mode = mode_of x (read x (text "mode") c) o.mode }

  restored : Bool → Bool → Options → Option Text × W → Options × W
  restored keep_target keep_db o (none, w) = (o, w)
  restored keep_target keep_db o (some path, w) =
      let c = h.file path w in
      let o1 = restore_db keep_db c w (restore_target keep_target c w o) in
      (restore_rest x c (restore_mode keep_target c o1), w)

  pub restore_gui_session : Options → Bool → Bool → W → Options × W
  restore_gui_session o keep_target keep_db w = restored keep_target keep_db o (session_file h w)

  -- What a file holds is changed and written.
  rewrite : (C → C) → Text × W → W
  rewrite change (path, w) =
      let w1 = mkdir_p_parent h path w in h.flush path (change (h.file path w1)) w1

  pub save_gui_session : Options → W → W
  save_gui_session o w = rewrite (put_session x o) (gui_session_path h w)

  recent_key : ℕ → Text
  recent_key i = text "recent/path" ++ to_string i

  -- The rounds that are left, from number `i`.
  recent_loop : ℕ → ℕ → C → W → ℕ → List Text → List Text
  recent_loop zero i c w max_n out = out
  recent_loop (suc n) i c w max_n out =
      if ltb (length out) max_n
      then recent_loop n (suc i) c w max_n (elim (read x (recent_key i) c) [
        | none ↦ out
        | some t ↦
            if path_exists h (x.to_std_string t) w then out ++ x.to_std_string t ∷ [] else out
      ])
      else out

  count_of : Option ℤ → ℕ
  count_of none = 0
  count_of (some n) = magnitude n

  recent_in : ℕ → Option Text × W → List Text × W
  recent_in max_n (none, w) = ([], w)
  recent_in max_n (some path, w) =
      let c = h.file path w in
      (recent_loop (count_of (read_long x (text "recent/count") c)) 0 c w max_n [], w)

  pub load_recent_targets : ℕ → W → List Text × W
  load_recent_targets max_n w = recent_in max_n (session_file h w)

  put_recent : ℕ → List Text → C → C
  put_recent i [] c = c
  put_recent i (t ∷ ts) c = put_recent (suc i) ts (write_utf8 x (recent_key i) t c)

  put_all_recent : List Text → C → C
  put_all_recent targets c =
      put_recent 0 targets (write_long x (text "recent/count") (pos (length targets)) c)

  remember_in : Text → ℕ → List Text × W → W
  remember_in path max_n (targets, w) =
      rewrite (put_all_recent (take max_n (path ∷ without path targets))) (gui_session_path h w)

  pub remember_recent_target : Text → ℕ → W → W
  remember_recent_target path max_n w =
      if path_exists h path w then remember_in path max_n (load_recent_targets max_n w) else w

  or_default : ℤ → Option ℤ → ℤ
  or_default n none = n
  or_default n (some m) = m

  -- The action is -1 where the user is to be asked.
  conflict_in : Option Text × W → (ℤ × Bool) × W
  conflict_in (none, w) = ((negsuc 0, false), w)
  conflict_in (some path, w) =
      let c = h.file path w in
      (
        (
          to_int (or_default (negsuc 0) (read_long x (text "conflict/action") c)),
          is_set (or_default (pos 0) (read_long x (text "conflict/remember") c)),
        ),
        w,
      )

  pub load_conflict_pref : W → (ℤ × Bool) × W
  load_conflict_pref w = conflict_in (session_file h w)

  put_conflict : ℤ → Bool → C → C
  put_conflict action remember c =
      write_long x (text "conflict/action") action
        (write_long x (text "conflict/remember") (flag remember) c)

  pub save_conflict_pref : ℤ → Bool → W → W
  save_conflict_pref action remember w =
      rewrite (put_conflict action remember) (gui_session_path h w)

  settings_in : Text × W → BrowserSettings × W
  settings_in (path, w) =
      if path_exists h path w
      then (settings_of x (h.file path w) default_settings, w)
      else (default_settings, w)

  pub load_browser_settings : W → BrowserSettings × W
  load_browser_settings w = settings_in (browser_settings_path h w)

  pub save_browser_settings : BrowserSettings → W → W
  save_browser_settings s w = rewrite (put_settings x s) (browser_settings_path h w)
