-- ===== src/Session/Contents/Laws.antt =====
-- What is read from a settings file that was written (src/gui/session.cpp).
use reflash.Base.{
  ℕ, ◌^◌, ◌≡◌, refl, Bool, true, false, not, ◌&&◌, ◌||◌, some, [], ◌∷◌, ltb, leb, ◌==◌,
  if◌then◌else◌, text_eq, Text, text, arith, ap, ◌∙◌,
}
use reflash.BlockIo.{WriteCacheMode, write_through, cachestat, mincore}
use reflash.Options.{Options, RunMode, linear, recursive, ℤ, pos}
use reflash.Session.Contents.{
  Conf, BrowserSettings, is_set, flag, to_long, non_negative, magnitude, read, read_long,
  write_long, write_utf8, settings_of, put_settings, mode_of, mode_text, cache_text, cache_of,
  cache_mode_of, ranged, ranged_number, switched, between, zoom_in_range, restore_rest, put_session,
}

-- No variable is named in the text.
abbrev pub is_plain : Text → Bool
is_plain [] = true
is_plain (c ∷ cs) = not (c == b'$' || (c == b'%' || c == 92)) && is_plain cs

-- What wxWidgets documents of a configuration.
pub record IsConf {C : Type 0} (x : Conf C) : Type 0 where
  pub entry_write :
      (key other : Text) (t : Text) (c : C)
      → x.entry key (x.write other t c) ≡ (if text_eq key other then some t else x.entry key c)
  pub expand_plain : (t : Text) → is_plain t ≡ true → x.expand t ≡ t
  pub parse_print : (n : ℤ) → x.parse_long (x.print_long n) ≡ some n

pub flag_switch : (b : Bool) → is_set (flag b) ≡ b
unfolding is_set flag
flag_switch true = refl
flag_switch false = refl

-- The settings that the browser makes.
pub record IsValid (s : BrowserSettings) : Type 0 where
  pub view_mode : between 0 2 s.view_mode ≡ true
  pub arrange : between 0 4 s.arrange ≡ true
  pub zoom_level : zoom_in_range s.zoom_level ≡ true
  pub auto_rewrite_months : between 1 120 s.auto_rewrite_months ≡ true

-- What is restored of the options that were saved, over others: the numbers where they are in the
-- range that is read.
unfoldable pub rest_of : Options → Options → Options
rest_of o old = record old {
  sha1_valid_days =
      if leb 1 o.sha1_valid_days && leb o.sha1_valid_days 3650
      then o.sha1_valid_days
      else old.sha1_valid_days;
  dry_run = o.dry_run;
  write_cache = o.write_cache;
  verify_writes = o.verify_writes;
  flush_poll_ms =
      if leb 50 o.flush_poll_ms && leb o.flush_poll_ms 60000
      then o.flush_poll_ms
      else old.flush_poll_ms;
  block_size = if ltb o.block_size (2 ^ 63) then o.block_size else old.block_size;
}

module _ {C : Type 0} (x : Conf C) (law : IsConf x) where
  pub read_long_entry :
      (key : Text) (n : ℤ) (c : C)
      → x.entry key c ≡ some (x.print_long n)
      → read_long x key c ≡ some n
  unfolding read_long
  read_long_entry key n c e = rw (read_long, e) (law.parse_print n)

  read_entry : (key t : Text) (c : C) → x.entry key c ≡ some t → read x key c ≡ some (x.expand t)
  unfolding read
  read_entry key t c e = rw (read, e) refl

  pub write_long_other :
      (key other : Text) (n : ℤ) (c : C)
      → x.entry key (write_long x other n c)
        ≡ (if text_eq key other then some (x.print_long n) else x.entry key c)
  unfolding write_long
  write_long_other key other n c = law.entry_write key other (x.print_long n) c

  write_utf8_other :
      (key other t : Text) (c : C)
      → x.entry key (write_utf8 x other t c)
        ≡ (if text_eq key other then some (x.from_utf8 t) else x.entry key c)
  unfolding write_utf8
  write_utf8_other key other t c = law.entry_write key other (x.from_utf8 t) c

  ranged_entry :
      (ok : ℤ → Bool) (key : Text) (n old : ℤ) (c : C)
      → x.entry key c ≡ some (x.print_long n)
      → ok n ≡ true
      → ranged x ok (read_long x key c) old ≡ n
  unfolding ranged
  ranged_entry ok key n old c e good = rw (read_long_entry key n c e, good) refl

  number_entry :
      (ok : ℤ → Bool) (key : Text) (n : ℤ) (old : ℕ) (c : C)
      → x.entry key c ≡ some (x.print_long n)
      → ranged_number x ok (read_long x key c) old ≡ (if ok n then magnitude n else old)
  unfolding ranged_number
  number_entry ok key n old c e = rw (read_long_entry key n c e) refl

  switched_entry :
      (key : Text) (b old : Bool) (c : C)
      → x.entry key c ≡ some (x.print_long (flag b))
      → switched x (read_long x key c) old ≡ b
  unfolding switched
  switched_entry key b old c e = rw (read_long_entry key (flag b) c e) (flag_switch b)

  pub settings_of-put_settings :
      (s old : BrowserSettings) (c : C) → IsValid s → settings_of x (put_settings x s c) old ≡ s
  unfolding settings_of put_settings
  settings_of-put_settings s old c v = λ i. record {
    view_mode =
        ranged_entry (between 0 2) (text "view/mode") s.view_mode old.view_mode (put_settings x s c)
          (simp write_long_other) v.view_mode i;
    arrange =
        ranged_entry (between 0 4) (text "view/arrange") s.arrange old.arrange (put_settings x s c)
          (simp write_long_other) v.arrange i;
    arrange_rev =
        switched_entry (text "view/arrange_rev") s.arrange_rev old.arrange_rev (put_settings x s c)
          (simp write_long_other) i;
    show_hidden =
        switched_entry (text "view/show_hidden") s.show_hidden old.show_hidden (put_settings x s c)
          (simp write_long_other) i;
    show_thumbs =
        switched_entry (text "view/show_thumbs") s.show_thumbs old.show_thumbs (put_settings x s c)
          (simp write_long_other) i;
    zoom_level =
        ranged_entry zoom_in_range (text "view/zoom") s.zoom_level old.zoom_level
          (put_settings x s c) (simp write_long_other) v.zoom_level i;
    auto_rewrite_months =
        ranged_entry (between 1 120) (text "prefs/auto_rewrite_months") s.auto_rewrite_months
          old.auto_rewrite_months (put_settings x s c) (simp write_long_other) v.auto_rewrite_months
          i;
  }

  long_of_block :
      (n old : ℕ)
      → (if non_negative (to_long n) then magnitude (to_long n) else old)
        ≡ (if ltb n (2 ^ 63) then n else old)
  unfolding to_long non_negative magnitude
  long_of_block n old = ground arith

  cache_of_text :
      (m : WriteCacheMode) → (is_plain (cache_text m) ≡ true) × (cache_of (cache_text m) ≡ m)
  unfolding cache_text cache_of
  cache_of_text write_through = (refl, refl)
  cache_of_text mincore = (refl, refl)
  cache_of_text cachestat = (refl, refl)

  mode_of_text :
      (m old : RunMode) → (is_plain (mode_text m) ≡ true) × (mode_of x (some (mode_text m)) old ≡ m)
  unfolding mode_text mode_of
  mode_of_text linear old = (refl, refl)
  mode_of_text recursive old = (refl, refl)

  read_plain :
      (key t : Text) (c : C) → x.entry key c ≡ some t → is_plain t ≡ true → read x key c ≡ some t
  read_plain key t c e plain =
      read_entry key t c e ∙ ap (λ (u : Text). some u) (law.expand_plain t plain)

  cache_mode_entry :
      (o old : Options) (c : C)
      → cache_mode_of x
          (read x (text "write_cache") (put_session x o c))
          (read_long x (text "write_through") (put_session x o c))
          old.write_cache
        ≡ o.write_cache
  unfolding put_session cache_mode_of
  cache_mode_entry o old c =
      rw
        (read_plain (text "write_cache") (cache_text o.write_cache) (put_session x o c)
          (simp (write_long_other, write_utf8_other, law.entry_write))
          (cache_of_text o.write_cache).0)
        (cache_of_text o.write_cache).1

  pub mode_of-put_session :
      (o : Options) (old : RunMode) (c : C)
      → mode_of x (read x (text "mode") (put_session x o c)) old ≡ o.mode
  unfolding put_session
  mode_of-put_session o old c =
      rw
        (read_plain (text "mode") (mode_text o.mode) (put_session x o c)
          (simp (write_long_other, write_utf8_other, law.entry_write)) (mode_of_text o.mode old).0)
        (mode_of_text o.mode old).1

  pub read-put_session :
      (o : Options) (c : C)
      → (read x (text "target") (put_session x o c) ≡ some (x.expand (x.from_utf8 o.target)))
        × (read x (text "database") (put_session x o c) ≡ some (x.expand (x.from_utf8 o.sqlite_db)))
  unfolding put_session
  read-put_session o c = (
    read_entry (text "target") _ (put_session x o c)
        (simp (write_long_other, write_utf8_other, law.entry_write)),
    read_entry (text "database") _ (put_session x o c)
        (simp (write_long_other, write_utf8_other, law.entry_write)),
  )

  pub restore_rest-put_session :
      (o old : Options) (c : C) → restore_rest x (put_session x o c) old ≡ rest_of o old
  unfolding restore_rest put_session rest_of between magnitude
  restore_rest-put_session o old c = λ i. record old {
    sha1_valid_days =
        (number_entry (between 1 3650) (text "sha1_valid_days") (pos o.sha1_valid_days)
            old.sha1_valid_days (put_session x o c)
            (simp (write_long_other, write_utf8_other, law.entry_write)))
          i;
    dry_run =
        switched_entry (text "dry_run") o.dry_run old.dry_run (put_session x o c)
          (simp (write_long_other, write_utf8_other, law.entry_write)) i;
    write_cache = cache_mode_entry o old c i;
    verify_writes =
        switched_entry (text "verify_writes") o.verify_writes old.verify_writes (put_session x o c)
          (simp (write_long_other, write_utf8_other, law.entry_write)) i;
    flush_poll_ms =
        (number_entry (between 50 60000) (text "flush_poll_ms") (pos o.flush_poll_ms)
            old.flush_poll_ms (put_session x o c)
            (simp (write_long_other, write_utf8_other, law.entry_write)))
          i;
    block_size =
        (number_entry non_negative (text "block_size") (to_long o.block_size) old.block_size
              (put_session x o c) (simp (write_long_other, write_utf8_other, law.entry_write))
            ∙ long_of_block o.block_size old.block_size)
          i;
  }
