-- ===== src/Session/RoundTrip.antt =====
-- Settings that are saved are restored (src/gui/session.cpp).
use reflash.Base.{◌≡◌, refl, ◌∙◌, Bool, true, false, Option, some, if◌then◌else◌, Text, text}
use reflash.Options.{Options, ℤ}
use reflash.Session.Contents.{
  Conf, BrowserSettings, to_int, read, restore_rest, put_session, put_settings, flag, read_long,
  default_settings,
}
use reflash.Session.Contents.Laws.{
  IsConf, IsValid, rest_of, restore_rest-put_session, mode_of-put_session, read-put_session,
  settings_of-put_settings, read_long_entry, write_long_other, flag_switch,
}
use reflash.Session.Paths.{
  Host, path_exists, mkdir_p_parent, gui_session_path, session_file, browser_settings_path,
}
use reflash.Session.Paths.Laws.{
  IsHost, session_file-some, gui_session_path-Stays, browser_settings_path-some,
}
use reflash.Session.{
  existing, restore_target, restore_db, restore_mode, restored, restore_gui_session, rewrite,
  save_gui_session, settings_in, load_browser_settings, save_browser_settings, conflict_in,
  or_default, put_conflict, load_conflict_pref, save_conflict_pref,
}

-- The options that were saved, over older ones: a path where it exists, a number where it is in the
-- range that is read.
unfoldable pub merged : (Text → Bool) → Options → Options → Options
merged there o old = record (rest_of o old) {
  target = if there o.target then o.target else old.target;
  sqlite_db = if there o.sqlite_db then o.sqlite_db else old.sqlite_db;
  mode = o.mode;
}

module _ {C W : Type 0} (x : Conf C) (h : Host C W) (conf : IsConf x) (law : IsHost h) where
  existing_text :
      (w : W) (read : Option Text) (t u old : Text)
      → read ≡ some t
      → x.to_std_string t ≡ u
      → existing x h w read old ≡ (if path_exists h u w then u else old)
  unfolding existing
  existing_text w read t u old e same = rw (e, same) refl

  -- What was saved, read as a whole.
  restored_saved :
      (o old : Options) (c : C) (w : W)
      → x.to_std_string (x.expand (x.from_utf8 o.target)) ≡ o.target
      → x.to_std_string (x.expand (x.from_utf8 o.sqlite_db)) ≡ o.sqlite_db
      → restore_rest x (put_session x o c) (
          restore_mode x h false (put_session x o c) (
            restore_db x h false
              (put_session x o c)
              w
              (restore_target x h false (put_session x o c) w old)))
        ≡ merged (λ t. path_exists h t w) o old
  unfolding restore_mode restore_db restore_target merged rest_of
  restored_saved o old c w target db =
      let paths = read-put_session x conf o c in
      restore_rest-put_session x conf o _ c ∙ λ i. record (rest_of o old) {
        target = existing_text w _ _ o.target old.target paths.0 target i;
        sqlite_db = existing_text w _ _ o.sqlite_db old.sqlite_db paths.1 db i;
        mode = mode_of-put_session x conf o old.mode c i;
      }

  -- After the session file is written, it is the one that is read, with what was written.
  rewrite_found :
      (change : C → C) (w : W)
      → let path = (gui_session_path h w).0 in
        let w1 = rewrite x h change (gui_session_path h w) in
        (c : C) × (session_file h w1 ≡ (some path, (gui_session_path h w1).1))
        × (h.file path (gui_session_path h w1).1 ≡ change c)
  unfolding rewrite
  rewrite_found change w =
      let path = (gui_session_path h w).0 in
      let w0 = mkdir_p_parent h path (gui_session_path h w).1 in
      let w1 = rewrite x h change (gui_session_path h w) in
      (
        h.file path w0,
        session_file-some h law w w1 (law.access_flush path (change (h.file path w0)) w0),
        (gui_session_path-Stays h law path w1).1 ∙ law.file_flush path (change (h.file path w0)) w0,
      )

  -- Where wxWidgets and the file system do what is documented, and the two paths come through the
  -- conversions of `wxString` and the expansion of variables as they are: what
  -- `restore_gui_session` makes of any options, after `save_gui_session` has saved `o`, is `o`,
  -- except for a path that does not exist, a number of days, a poll interval or a block size that is out of the range that is
  -- read, and the fields that are not saved. Those are as they were.
  pub restore_gui_session-save_gui_session :
      (o old : Options) (w : W)
      → x.to_std_string (x.expand (x.from_utf8 o.target)) ≡ o.target
      → x.to_std_string (x.expand (x.from_utf8 o.sqlite_db)) ≡ o.sqlite_db
      → let r = restore_gui_session x h old false false (save_gui_session x h o w) in
        r.0 ≡ merged (λ t. path_exists h t r.1) o old
  unfolding restore_gui_session save_gui_session restored
  restore_gui_session-save_gui_session o old w target db =
      let (c, found, held) = rewrite_found (put_session x o) w in
      rw (found, held) (restored_saved o old c _ target db)

  settings_in_found :
      (r : Text × W) (path : Text) (s : BrowserSettings) (c : C)
      → r.0 ≡ path
      → path_exists h path r.1 ≡ true
      → h.file path r.1 ≡ put_settings x s c
      → IsValid s
      → (settings_in x h r).0 ≡ s
  unfolding settings_in
  settings_in_found (q, w) path s c same there held valid =
      rw (same, there, held) (settings_of-put_settings x conf s default_settings c valid)

  load_browser_settings_saved :
      (s : BrowserSettings) (w : W)
      → IsValid s
      → (load_browser_settings x h (save_browser_settings x h s w)).0 ≡ s
  unfolding load_browser_settings save_browser_settings rewrite
  load_browser_settings_saved s w valid =
      let path = (browser_settings_path h w).0 in
      let w0 = mkdir_p_parent h path (browser_settings_path h w).1 in
      let c = h.file path w0 in
      let w1 = h.flush path (put_settings x s c) w0 in
      let again =
        browser_settings_path-some h law w w1 (law.access_flush path (put_settings x s c) w0) in
      settings_in_found (browser_settings_path h w1) path s c again.0 again.1
        (again.2.1 ∙ law.file_flush path (put_settings x s c) w0) valid

  conflict_entries :
      (action : ℤ) (remember : Bool) (c : C)
      → (read_long x (text "conflict/action") (put_conflict x h action remember c) ≡ some action)
        × (read_long x (text "conflict/remember") (put_conflict x h action remember c)
            ≡ some (flag remember))
  unfolding put_conflict
  conflict_entries action remember c = (
    read_long_entry x conf (text "conflict/action") action (put_conflict x h action remember c)
        (simp (write_long_other x conf)),
    read_long_entry x conf (text "conflict/remember") (flag remember)
        (put_conflict x h action remember c) (simp (write_long_other x conf)),
  )

  load_conflict_pref_saved :
      (action : ℤ) (remember : Bool) (w : W)
      → to_int action ≡ action
      → (load_conflict_pref x h (save_conflict_pref x h action remember w)).0 ≡ (action, remember)
  unfolding load_conflict_pref save_conflict_pref conflict_in or_default
  load_conflict_pref_saved action remember w int =
      let (c, found, held) = rewrite_found (put_conflict x h action remember) w in
      let (a, b) = conflict_entries action remember c in
      rw (found, held, a, b) (rw (int, flag_switch remember) refl)

  -- With the same documented, the settings of the browser are loaded as they were saved, where they
  -- are in their ranges, and so is the answer to a conflict, an `int`.
  pub load_browser_settings-save_browser_settings :
      (s : BrowserSettings) (action : ℤ) (remember : Bool) (w : W)
      → IsValid s
      → to_int action ≡ action
      → ((load_browser_settings x h (save_browser_settings x h s w)).0 ≡ s)
        × ((load_conflict_pref x h (save_conflict_pref x h action remember w)).0
            ≡ (action, remember))
  load_browser_settings-save_browser_settings s action remember w valid int =
      (load_browser_settings_saved s w valid, load_conflict_pref_saved action remember w int)
