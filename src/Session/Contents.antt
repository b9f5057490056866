-- ===== src/Session/Contents.antt =====
-- What stands in the files of the user's settings (src/gui/session.hpp, src/gui/session.cpp).
-- `wxFileConfig` is the interface `Conf` over its contents `C`. A `wxString` is the bytes of its
-- UTF-8 form.
pub mod Laws
use reflash.Base.{
  ℕ, zero, suc, ◌+◌, ◌-◌, ◌%◌, ◌^◌, Bool, true, false, ◌&&◌, ◌||◌, Option, none, some, ltb, leb,
  if◌then◌else◌, text_eq, Text, text,
}
use reflash.BlockIo.{WriteCacheMode, write_through, cachestat, mincore}
use reflash.Options.{Options, RunMode, linear, recursive, ℤ, pos, negsuc}

-- The entries of a configuration, as they are written; `expand` replaces the environment variables
-- in a text that is read, and `parse_long` reads a number.
pub record Conf (C : Type 0) : Type 0 where
  pub entry : Text → C → Option Text
  pub write : Text → Text → C → C
  pub expand : Text → Text
  pub from_utf8 : Text → Text
  pub to_std_string : Text → Text
  pub print_long : ℤ → Text
  pub parse_long : Text → Option ℤ

-- A `long` of a 64-bit machine from an unsigned number, modulo 2^64.
to_long : ℕ → ℤ
to_long n = if ltb n (2 ^ 63) then pos n else negsuc (2 ^ 64 - 1 - n)

-- `int` from a `long`, modulo 2^32.
unfoldable pub to_int : ℤ → ℤ
to_int (pos n) = let m = n % 2 ^ 32 in if ltb m (2 ^ 31) then pos m else negsuc (2 ^ 32 - 1 - m)
to_int (negsuc n) = let m = n % 2 ^ 32 in if ltb m (2 ^ 31) then negsuc m else pos (2 ^ 32 - 1 - m)

pub flag : Bool → ℤ
flag b = if b then pos 1 else pos 0

pub is_set : ℤ → Bool
is_set (pos zero) = false
is_set _ = true

unfoldable pub between : ℕ → ℕ → ℤ → Bool
between low high (pos n) = leb low n && leb n high
between low high (negsuc n) = false

pub non_negative : ℤ → Bool
non_negative (pos n) = true
non_negative (negsuc n) = false

pub magnitude : ℤ → ℕ
magnitude (pos n) = n
magnitude (negsuc n) = 0

mode_text : RunMode → Text
mode_text recursive = text "recursive"
mode_text linear = text "linear"

cache_text : WriteCacheMode → Text
cache_text write_through = text "writethrough"
cache_text mincore = text "mincore"
cache_text cachestat = text "cachestat"

cache_of : Text → WriteCacheMode
cache_of t =
    if text_eq t (text "writethrough") || text_eq t (text "write_through")
    then write_through
    else if text_eq t (text "mincore")
    then mincore
    else cachestat

-- In this order; the default of each is that of `BrowserSettings`.
pub record BrowserSettings : Type 0 where
  pub view_mode : ℤ
  pub arrange : ℤ
  pub arrange_rev : Bool
  pub show_hidden : Bool
  pub show_thumbs : Bool
  pub zoom_level : ℤ
  pub auto_rewrite_months : ℤ

pub default_settings : BrowserSettings
default_settings = record {
  view_mode = pos 1;
  arrange = pos 1;
  arrange_rev = false;
  show_hidden = false;
  show_thumbs = false;
  zoom_level = pos 0;
  auto_rewrite_months = pos 6;
}

unfoldable pub zoom_in_range : ℤ → Bool
zoom_in_range (pos n) = leb n 3
zoom_in_range (negsuc n) = leb n 1

module _ {C : Type 0} (x : Conf C) where
  -- `Read` into a `wxString`, and into a `long`.
  pub read : Text → C → Option Text
  read key c = elim (x.entry key c) [ none ↦ none | some t ↦ some (x.expand t) ]

  pub read_long : Text → C → Option ℤ
  read_long key c = elim (x.entry key c) [ none ↦ none | some t ↦ x.parse_long t ]

  pub write_long : Text → ℤ → C → C
  write_long key n = x.write key (x.print_long n)

  pub write_utf8 : Text → Text → C → C
  write_utf8 key t = x.write key (x.from_utf8 t)

  -- A field that is set from a number in its range.
  ranged : (ℤ → Bool) → Option ℤ → ℤ → ℤ
  ranged ok none old = old
  ranged ok (some n) old = if ok n then n else old

  ranged_number : (ℤ → Bool) → Option ℤ → ℕ → ℕ
  ranged_number ok none old = old
  ranged_number ok (some n) old = if ok n then magnitude n else old

  switched : Option ℤ → Bool → Bool
  switched none old = old
  switched (some n) old = is_set n

  pub settings_of : C → BrowserSettings → BrowserSettings
  settings_of c s = record {
    view_mode = ranged (between 0 2) (read_long (text "view/mode") c) s.view_mode;
    arrange = ranged (between 0 4) (read_long (text "view/arrange") c) s.arrange;
    arrange_rev = switched (read_long (text "view/arrange_rev") c) s.arrange_rev;
    show_hidden = switched (read_long (text "view/show_hidden") c) s.show_hidden;
    show_thumbs = switched (read_long (text "view/show_thumbs") c) s.show_thumbs;
    zoom_level = ranged zoom_in_range (read_long (text "view/zoom") c) s.zoom_level;
    auto_rewrite_months =
        ranged (between 1 120) (read_long (text "prefs/auto_rewrite_months") c)
          s.auto_rewrite_months;
  }

  pub put_settings : BrowserSettings → C → C
  put_settings s c =
      let c1 = write_long (text "view/mode") s.view_mode c in
      let c2 = write_long (text "view/arrange") s.arrange c1 in
      let c3 = write_long (text "view/arrange_rev") (flag s.arrange_rev) c2 in
      let c4 = write_long (text "view/show_hidden") (flag s.show_hidden) c3 in
      let c5 = write_long (text "view/show_thumbs") (flag s.show_thumbs) c4 in
      let c6 = write_long (text "view/zoom") s.zoom_level c5 in
      write_long (text "prefs/auto_rewrite_months") s.auto_rewrite_months c6

  pub mode_of : Option Text → RunMode → RunMode
  mode_of none old = old
  mode_of (some t) old =
      if text_eq t (text "recursive")
      then recursive
      else if text_eq t (text "linear")
      then linear
      else old

  -- The name of the mode, or else the number of older files.
  cache_mode_of : Option Text → Option ℤ → WriteCacheMode → WriteCacheMode
  cache_mode_of (some t) wt old = cache_of t
  cache_mode_of none none old = old
  cache_mode_of none (some wt) old = if is_set wt then write_through else old

  -- What is read whatever is kept.
  pub restore_rest : C → Options → Options
  restore_rest c o = record o {
    sha1_valid_days =
        ranged_number (between 1 3650) (read_long (text "sha1_valid_days") c) o.sha1_valid_days;
    dry_run = switched (read_long (text "dry_run") c) o.dry_run;
    write_cache =
        cache_mode_of (read (text "write_cache") c) (read_long (text "write_through") c)
          o.write_cache;
    verify_writes = switched (read_long (text "verify_writes") c) o.verify_writes;
    flush_poll_ms =
        ranged_number (between 50 60000) (read_long (text "flush_poll_ms") c) o.flush_poll_ms;
    block_size = ranged_number non_negative (read_long (text "block_size") c) o.block_size;
  }

  pub put_session : Options → C → C
  put_session o c =
      let c1 = write_utf8 (text "target") o.target c in
      let c2 = write_utf8 (text "database") o.sqlite_db c1 in
      let c3 = x.write (text "mode") (mode_text o.mode) c2 in
      let c4 = write_long (text "sha1_valid_days") (pos o.sha1_valid_days) c3 in
      let c5 = write_long (text "dry_run") (flag o.dry_run) c4 in
      let c6 = x.write (text "write_cache") (cache_text o.write_cache) c5 in
      let c7 = write_long (text "verify_writes") (flag o.verify_writes) c6 in
      let c8 = write_long (text "flush_poll_ms") (pos o.flush_poll_ms) c7 in
      write_long (text "block_size") (to_long o.block_size) c8
