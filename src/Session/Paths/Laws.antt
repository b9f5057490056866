-- ===== src/Session/Paths/Laws.antt =====
-- The paths of the settings files after directories are made (src/gui/session.cpp).
use reflash.Base.{
  ℕ, zero, suc, ◌≡◌, refl, ap, ◌∙◌, true, false, Option, none, some, [], ◌∷◌, ◌++◌, text_eq, Text,
  text, arith, Bool-cases, inl, inr,
}
use reflash.Session.Paths.{
  Host, is_root, before_slash, set_variable, mkdir_all, mkdir_p, path_exists, home_dir, mkdir_home,
  config_of, config_dir, path_of, gui_session_path, found_at, session_file, browser_settings_path,
}

-- What is documented of the files: making a directory leaves the files as they are and takes none
-- away, and a file that is written is there with what was written.
pub record IsHost {C W : Type 0} (h : Host C W) : Type 0 where
  pub file_mkdir : (path dir : Text) (w : W) → h.file path (h.mkdir dir w) ≡ h.file path w
  pub access_mkdir :
      (path dir : Text) (w : W) → h.access path w ≡ true → h.access path (h.mkdir dir w) ≡ true
  pub file_flush : (path : Text) (c : C) (w : W) → h.file path (h.flush path c w) ≡ c
  pub access_flush : (path : Text) (c : C) (w : W) → h.access path (h.flush path c w) ≡ true

append_not_empty : (t : Text) (c : ℕ) (cs : Text) → text_eq (t ++ c ∷ cs) [] ≡ false
append_not_empty [] c cs = refl
append_not_empty (d ∷ ds) c cs = refl

-- A variable that is set is not empty.
set_not_empty : (v : Option Text) (env : Text) → set_variable v ≡ some env → text_eq env [] ≡ false
unfolding set_variable
set_not_empty none env e = cc
set_not_empty (some []) env e = cc
set_not_empty (some (c ∷ cs)) env e = ground arith

module _ {C W : Type 0} (h : Host C W) (law : IsHost h) where
  -- A file is still there, with what it held.
  abbrev pub Stays : Text → W → W → Type 0
  Stays path w w1 =
      (h.access path w ≡ true → h.access path w1 ≡ true) × (h.file path w1 ≡ h.file path w)

  Stays-trans : (path : Text) (w w1 w2 : W) → Stays path w w1 → Stays path w1 w2 → Stays path w w2
  Stays-trans path w w1 w2 (a1, f1) (a2, f2) = (λ e. a2 (a1 e), f2 ∙ f1)

  Stays-refl : (path : Text) (w : W) → Stays path w w
  Stays-refl path w = (λ e. e, refl)

  mkdir-Stays : (path dir : Text) (w : W) → Stays path w (h.mkdir dir w)
  mkdir-Stays path dir w = (law.access_mkdir path dir w, law.file_mkdir path dir w)

  made-Stays :
      (path dir : Text) (n : ℕ) (w : W) (up : Option Text)
      → ((d : Text) → Stays path w (mkdir_all h n d w))
      → Stays path w (
          h.mkdir dir
            (elim up [ none ↦ w | some [] ↦ w | some (c ∷ cs) ↦ mkdir_all h n (c ∷ cs) w ]))
  made-Stays path dir n w none ih = mkdir-Stays path dir w
  made-Stays path dir n w (some []) ih = mkdir-Stays path dir w
  made-Stays path dir n w (some (c ∷ cs)) ih =
      Stays-trans path w (mkdir_all h n (c ∷ cs) w) _ (ih (c ∷ cs))
        (mkdir-Stays path dir (mkdir_all h n (c ∷ cs) w))

  mkdir_all-Stays : (path : Text) (n : ℕ) (dir : Text) (w : W) → Stays path w (mkdir_all h n dir w)
  unfolding mkdir_all
  mkdir_all-Stays path zero dir w = Stays-refl path w
  mkdir_all-Stays path (suc n) dir w = elim (Bool-cases (is_root dir)) [
    | inl e ↦ rw (mkdir_all, e) (Stays-refl path w)
    | inr e ↦
        rw (mkdir_all, e)
          (made-Stays path dir n w (before_slash dir) (λ d. mkdir_all-Stays path n d w))
  ]

  mkdir_home-Stays : (path : Text) (home : Option Text) (w : W) → Stays path w (mkdir_home h home w)
  unfolding mkdir_home mkdir_p
  mkdir_home-Stays path none w = Stays-refl path w
  mkdir_home-Stays path (some home) w = mkdir_all-Stays path _ _ w

  config_of-Stays :
      (path : Text) (env home : Option Text) (w : W) → Stays path w (config_of h env home w).1
  unfolding config_of mkdir_p
  config_of-Stays path (some env) home w = mkdir_all-Stays path _ env w
  config_of-Stays path none home w =
      Stays-trans path w (mkdir_home h home w) _ (mkdir_home-Stays path home w)
        (mkdir_all-Stays path _ (home_dir h home) (mkdir_home h home w))

  pub config_dir-Stays : (path : Text) (w : W) → Stays path w (config_dir h w).1
  unfolding config_dir
  config_dir-Stays path w = config_of-Stays path _ _ w

  config_of_fixed :
      (env home : Option Text) (w w1 : W) → (config_of h env home w1).0 ≡ (config_of h env home w).0
  unfolding config_of
  config_of_fixed none home w w1 = refl
  config_of_fixed (some env) home w w1 = refl

  path_of_facts :
      (env : Option Text) (path : Text) (w w1 : W)
      → Stays path w (path_of h env w).1 × ((path_of h env w1).0 ≡ (path_of h env w).0)
  unfolding path_of config_dir
  path_of_facts none path w w1 = (
    config_of-Stays path _ _ w,
    ap (λ (t : Text). t ++ text "/reflash.ini") (config_of_fixed _ _ w w1),
  )
  path_of_facts (some env) path w w1 = (Stays-refl path w, refl)

  path_of_not_empty :
      (v : Option Text) (w : W) → text_eq (path_of h (set_variable v) w).0 [] ≡ false
  unfolding path_of set_variable
  path_of_not_empty none w = append_not_empty (config_dir h w).0 _ _
  path_of_not_empty (some []) w = append_not_empty (config_dir h w).0 _ _
  path_of_not_empty (some (c ∷ cs)) w = refl

  found_at-some :
      (path : Text) (r : Text × W)
      → r.0 ≡ path
      → text_eq path [] ≡ false
      → h.access path r.1 ≡ true
      → found_at h r ≡ (some path, r.1)
  unfolding found_at path_exists
  found_at-some path (q, w) same full there = rw (same, full, there) refl

  -- A session file that was written before is the one that is read.
  pub session_file-some :
      (w w1 : W)
      → h.access (gui_session_path h w).0 w1 ≡ true
      → session_file h w1 ≡ (some (gui_session_path h w).0, (gui_session_path h w1).1)
  unfolding session_file gui_session_path
  session_file-some w w1 there =
      let env = set_variable (h.getenv (text "REFLASH_SESSION")) in
      let path = (path_of h env w).0 in
      found_at-some path (path_of h env w1) (path_of_facts env path w w1).1 (path_of_not_empty _ w)
        ((path_of_facts env path w1 w).0.0 there)

  pub gui_session_path-Stays : (path : Text) (w : W) → Stays path w (gui_session_path h w).1
  unfolding gui_session_path
  gui_session_path-Stays path w = (path_of_facts _ path w w).0

  -- The same for the settings of the browser.
  pub browser_settings_path-some :
      (w w1 : W)
      → h.access (browser_settings_path h w).0 w1 ≡ true
      → ((browser_settings_path h w1).0 ≡ (browser_settings_path h w).0)
        × (path_exists h (browser_settings_path h w).0 (browser_settings_path h w1).1 ≡ true)
        × Stays (browser_settings_path h w).0 w1 (browser_settings_path h w1).1
  unfolding browser_settings_path path_exists config_dir
  browser_settings_path-some w w1 there =
      let dir = (config_dir h w).0 in
      let stays = config_dir-Stays (browser_settings_path h w).0 w1 in
      (
        ap (λ (t : Text). t ++ text "/browser.ini") (config_of_fixed _ _ w w1),
        rw (append_not_empty dir b'/' (text "browser.ini")) (stays.0 there),
        stays,
      )
