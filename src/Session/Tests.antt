-- ===== src/Session/Tests.antt =====
-- Settings that are saved to and restored from a small file system (src/gui/session.cpp).
use reflash.Base.{
  zero, suc, ◌≡◌, refl, Bool, true, false, Option, none, some, List, [], ◌∷◌, if◌then◌else◌,
  text_eq, text_eq_refl, Text, text,
}
use reflash.Options.{Options, recursive, default_options, ℤ, pos, negsuc}
use reflash.Session.Contents.{Conf, BrowserSettings, between, zoom_in_range, to_int}
use reflash.Session.Contents.Laws.{IsConf, IsValid, rest_of}
use reflash.Session.Paths.{Host, path_exists}
use reflash.Session.Paths.Laws.{IsHost}
use reflash.Session.RoundTrip.{
  merged, restore_gui_session-save_gui_session, load_browser_settings-save_browser_settings,
}
use reflash.Session.{
  restore_gui_session, save_gui_session, load_browser_settings, save_browser_settings,
  load_conflict_pref, save_conflict_pref,
}

abbrev at {ℓ} : {A : Type ℓ} → Text → List (Text × A) → Option A
at key [] = none
at key ((k, a) ∷ rest) = if text_eq key k then some a else at key rest

abbrev signed : ℤ → Text
signed (pos n) = 0 ∷ n ∷ []
signed (negsuc n) = 1 ∷ n ∷ []

abbrev unsigned : Text → Option ℤ
unsigned (zero ∷ n ∷ []) = some (pos n)
unsigned (suc z ∷ n ∷ []) = some (negsuc n)
unsigned _ = none

abbrev Entries : Type 0
Entries = List (Text × Text)

-- No variable is there to be expanded.
abbrev entries : Conf Entries
entries = record {
  entry = at;
  write = λ key t c. (key, t) ∷ c;
  expand = λ t. t;
  from_utf8 = λ t. t;
  to_std_string = λ t. t;
  print_long = signed;
  parse_long = unsigned;
}

unsigned-signed : (n : ℤ) → unsigned (signed n) ≡ some n
unsigned-signed (pos n) = refl
unsigned-signed (negsuc n) = refl

entries-IsConf : IsConf entries
entries-IsConf = record {
  entry_write = λ key other t c. refl;
  expand_plain = λ t plain. refl;
  parse_print = unsigned-signed;
}

abbrev Files : Type 0
Files = List (Text × Entries)

abbrev is_some {ℓ} : {A : Type ℓ} → Option A → Bool
is_some none = false
is_some (some a) = true

abbrev contents : Option Entries → Entries
contents none = []
contents (some c) = c

abbrev home : Text → Option Text
home key = if text_eq key (text "HOME") then some (text "/root") else none

-- Files below directories that are all there.
abbrev files : Host Entries Files
files = record {
  getenv = home;
  access = λ path w. is_some (at path w);
  mkdir = λ dir w. w;
  file = λ path w. contents (at path w);
  flush = λ path c w. (path, c) ∷ w;
}

file_flush_same : (path : Text) (c : Entries) (w : Files) → contents (at path ((path, c) ∷ w)) ≡ c
file_flush_same path c w = rw (text_eq_refl path) refl

access_flush_same :
    (path : Text) (c : Entries) (w : Files) → is_some (at path ((path, c) ∷ w)) ≡ true
access_flush_same path c w = rw (text_eq_refl path) refl

files-IsHost : IsHost files
files-IsHost = record {
  file_mkdir = λ path dir w. refl;
  access_mkdir = λ path dir w there. there;
  file_flush = file_flush_same;
  access_flush = access_flush_same;
}

abbrev chosen : Options
chosen = record default_options { target = text "/dev/sdb"; mode = recursive; block_size = 4096 }

abbrev disk : Files
disk = (text "/dev/sdb", []) ∷ []

restore_gui_session-save_gui_session_example :
    let r =
      restore_gui_session entries files default_options false false
        (save_gui_session entries files chosen disk) in
    r.0 ≡ merged (λ t. path_exists files t r.1) chosen default_options
restore_gui_session-save_gui_session_example =
    restore_gui_session-save_gui_session entries files entries-IsConf files-IsHost chosen
      default_options disk refl refl

-- The merge is the options that were chosen.
chosen_again : merged (λ t. path_exists files t disk) chosen default_options ≡ chosen
unfolding merged rest_of path_exists
chosen_again = refl

abbrev by_size : BrowserSettings
by_size = record {
  view_mode = pos 2;
  arrange = pos 2;
  arrange_rev = true;
  show_hidden = false;
  show_thumbs = true;
  zoom_level = negsuc 1;
  auto_rewrite_months = pos 12;
}

by_size-IsValid : IsValid by_size
unfolding between zoom_in_range
by_size-IsValid = record {
  view_mode = refl;
  arrange = refl;
  zoom_level = refl;
  auto_rewrite_months = refl;
}

ask : to_int (negsuc 0) ≡ negsuc 0
unfolding to_int
ask = refl

load_browser_settings-save_browser_settings_example :
    ((load_browser_settings entries files (save_browser_settings entries files by_size disk)).0
      ≡ by_size)
    × ((load_conflict_pref entries files (save_conflict_pref entries files (negsuc 0) true disk)).0
        ≡ (negsuc 0, true))
load_browser_settings-save_browser_settings_example =
    load_browser_settings-save_browser_settings entries files entries-IsConf files-IsHost by_size
      (negsuc 0) true disk by_size-IsValid ask
