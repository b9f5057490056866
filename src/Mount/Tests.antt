-- ===== src/Mount/Tests.antt =====
-- Mounts of a small host (src/mount/automount.cpp) and requests on a pipe (src/mount/host_priv.cpp).
use reflash.Base.{
  inr, ℕ, sym, ap, ◌≤◌, ◌<◌, take, drop, length, length-take, arith, ◌≡◌, refl, true, false, none,
  some, [], ◌∷◌, ◌++◌, Text, text,
}
use reflash.Mount.Agent.{
  approval_failed, last_line, colon, after_newline, up_to_word, but_last, is_blank,
}
use reflash.Mount.Mounting.{strip_end}
use reflash.Mount.Pipe.{Pipe, got, wrote, send_script, receive_script}
use reflash.Mount.Pipe.RoundTrip.{
  take-drop, Taken, Takes, Put, Puts, Received, receive_script-send_script,
}
use reflash.Mount.Quote.{shell_quote}
use reflash.Mount.Quote.Word.{plain, sh_word, sh_word-shell_quote}
use reflash.Mount.Table.{Shell, real_or_self, is_related_device}
use reflash.Mount.Table.Related.{IsPartName, is_related_device_iff}

-- An image with a quote in its name, and a redirection.
sh_word-shell_quote_example :
    sh_word plain (shell_quote (text "it's $1.img") ++ text " 2>/dev/null")
    ≡ some (text "it's $1.img", text " 2>/dev/null")
sh_word-shell_quote_example = sh_word-shell_quote (text "it's $1.img") (text " 2>/dev/null") refl

-- Names are real, nothing can be looked at, and every command succeeds.
abbrev shell : Shell Text
shell = record {
  realpath = λ path w. none;
  stat = λ path w. none;
  proc_mounts = λ w. w;
  system = λ cmd w. (some 0, w);
  popen = λ cmd w. ([], w);
  umount2 = λ lazily path w. (true, w);
  mount = λ device target type ro w. (true, w);
  mkdir = λ path w. w;
  rmdir = λ path w. w;
  mkdtemp = λ w. (none, w);
  host_priv_gui = λ w. false;
  in_user_mount_ns = λ w. true;
  ensure_user_mount_ns = λ w. ((true, []), w);
}

sda10_part : IsPartName (text "/dev/sda1") (text "/dev/sda10")
sda10_part = record {
  char = b'0';
  rest = [];
  is_char = inr (omega arith, omega arith);
  whole = refl;
}

sda10_related : is_related_device shell (text "/dev/sda1") (text "/dev/sda10") [] ≡ true
unfolding real_or_self
sda10_related =
    (is_related_device_iff shell (text "/dev/sda1") (text "/dev/sda10") []).1 (inr (inr sda10_part))

-- A pipe that passes on what it is given.
abbrev pipe : Pipe Text
pipe = record {
  read = λ n w. (got (take n w), drop n w);
  write = λ bytes w. (wrote (length bytes), w ++ bytes);
}

abbrev bytes_of : Text → Text
bytes_of w = w

taken_some : (n : ℕ) (w : Text) → 0 < n → 0 < length w → 0 < length (take n w)
taken_some n w some_ bytes = omega (arith, length-take n w)

taken_at_most : (n : ℕ) (w : Text) → length (take n w) ≤ n
taken_at_most n w = omega (arith, length-take n w)

pipe-Takes : Takes pipe bytes_of
unfolding Takes Taken
pipe-Takes left w some_ bytes =
    (taken_at_most left w, (taken_some left w some_ bytes, sym (take-drop left w)))

take_all : (xs : Text) → take (length xs) xs ≡ xs
take_all [] = refl
take_all (x ∷ xs) = ap (λ v. x ∷ v) (take_all xs)

pipe-Puts : Puts pipe bytes_of
unfolding Puts Put
pipe-Puts bytes w some_ = (some_, (omega arith, ap (λ v. w ++ v) (sym (take_all bytes))))

receive_script-send_script_example :
    ((send_script 20 pipe (text "umount /mnt") []).0 ≡ true)
    × Received pipe bytes_of
        (text "umount /mnt")
        []
        (receive_script 20 pipe (send_script 20 pipe (text "umount /mnt") []).1)
receive_script-send_script_example =
    receive_script-send_script pipe bytes_of pipe-Takes pipe-Puts 20 (text "umount /mnt") []
      (omega arith) (omega arith) (omega arith) refl

-- The last character of an output of one line is lost.
one_line_cut :
    approval_failed true (text "Not authorized")
    ≡ text "Administrator approval failed: Not authorize"
unfolding approval_failed last_line colon after_newline up_to_word but_last is_blank strip_end
one_line_cut = refl
