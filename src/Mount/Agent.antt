-- ===== src/Mount/Agent.antt =====
-- The privilege agent (src/mount/host_priv.cpp): what it does with a script, and what its client
-- makes of the answer.
mod Message
pub mod Start
use reflash.Base.{
  ℕ, zero, suc, ◌%◌, Bool, true, false, not, ◌&&◌, ◌||◌, Option, none, some, List, [], ◌∷◌, ◌++◌,
  ltb, ◌==◌, if◌then◌else◌, length, take, Text, text, to_string, r32, u32_mod,
}
use reflash.Mount.Mounting.{strip_end}
use reflash.Mount.Pipe.{Pipe, put32, write_all, read_all, then_write, send_script, receive_script}
use reflash.Mount.Unmount.{Answer, is_empty}

pub data MkdirEnd : Type 0 where
  made exists : MkdirEnd
  not_made : Text → MkdirEnd

pub data WaitEnd : Type 0 where
  exited : ℕ → WaitEnd
  killed : WaitEnd

-- The calls for scripts and processes. `fork_exec` starts a program on an output file, with these
-- variables set; it answers whether `fork` succeeded.
pub record Processes (W : Type 0) : Type 0 where
  pub uid : ℕ
  pub mkdir : Text → W → MkdirEnd × W
  pub open_script : Text → W → Option Text × W
  pub write_script : Text → W → Bool × W
  pub fchmod_script : W → W
  pub close_script : W → W
  pub mkstemp : W → Option Text × W
  pub fork_exec : Text → List (Text × Text) → List Text → W → Bool × W
  pub waitpid : W → Option WaitEnd × W
  pub read_file : Text → W → Option Text × W
  pub unlink : Text → W → W

-- The variables of the session, taken when the agent starts.
pub record SessionEnv : Type 0 where
  pub display : Text
  pub wayland : Text
  pub xauthority : Text
  pub dbus : Text
  pub xdg_runtime : Text

set_where : Text → Text → List (Text × Text)
set_where name [] = []
set_where name (c ∷ cs) = (name, c ∷ cs) ∷ []

session_env : SessionEnv → List (Text × Text)
session_env s =
    set_where (text "DISPLAY") s.display
    ++ (set_where (text "WAYLAND_DISPLAY") s.wayland
        ++ (set_where (text "XAUTHORITY") s.xauthority
            ++ (set_where (text "DBUS_SESSION_BUS_ADDRESS") s.dbus
                ++ set_where (text "XDG_RUNTIME_DIR") s.xdg_runtime)))

-- An `int` of 32 bits as it is sent; this is -1.
abbrev minus_one : ℕ
minus_one = 4294967295

exit_code : WaitEnd → ℕ
exit_code (exited n) = n
exit_code killed = minus_one

or_before : Option Text → Text → Text
or_before none output = output
or_before (some captured) output = captured

-- The text after the last line end, where there is one.
unfoldable pub after_newline : Text → Option Text
after_newline [] = none
after_newline (c ∷ cs) = elim (after_newline cs) [
  | none ↦ if c == 10 then some cs else none
  | some line ↦ some line
]

unfoldable pub is_blank : ℕ → Bool
is_blank c = c == 32 || (c == 9 || (c == 13 || c == 10))

-- The text up to its last character that is not blank.
unfoldable pub up_to_word : Text → Text
up_to_word [] = []
up_to_word (c ∷ cs) = elim (up_to_word cs) [
  | [] ↦ if is_blank c then [] else c ∷ []
  | d ∷ ds ↦ c ∷ d ∷ ds
]

-- All but the last character.
unfoldable pub but_last : Text → Text
but_last [] = []
but_last (c ∷ []) = []
but_last (c ∷ d ∷ ds) = c ∷ but_last (d ∷ ds)

-- The last line of a text that ends with a word. Where there is no other line, the length that is
-- asked for is the position of the last character, one too few.
unfoldable pub last_line : Text → Text
last_line body = elim (after_newline body) [ none ↦ but_last body | some line ↦ line ]

unfoldable pub colon : Text → Text
colon [] = []
colon (c ∷ cs) = text ": " ++ c ∷ cs

unfoldable pub approval_failed : Bool → Text → Text
approval_failed gui [] =
    text "Administrator approval failed"
    ++ (if gui
        then text " (pkexec cancelled or unavailable)"
        else text " (pkexec/sudo unavailable or cancelled)")
approval_failed gui (c ∷ cs) =
    text "Administrator approval failed" ++ colon (strip_end (last_line (up_to_word (c ∷ cs))))

abbrev most_output : ℕ
most_output = 1048576

module _ {W : Type 0} (sys : Processes W) (env : SessionEnv) where
  script_dir : Text
  script_dir = text "/tmp/reflash-priv-" ++ to_string sys.uid

  pub fixed_script_path : Text
  fixed_script_path = script_dir ++ text "/run.sh"

  after_mkdir : MkdirEnd × W → Answer × W
  after_mkdir (not_made err, w) = ((false, text "mkdir: " ++ err), w)
  after_mkdir (_, w) = ((true, []), w)

  ensure_script_dir : W → Answer × W
  ensure_script_dir w = after_mkdir (sys.mkdir script_dir w)

  after_script : Bool × W → Answer × W
  after_script (false, w) = ((false, text "could not write privileged script"), sys.close_script w)
  after_script (true, w) = ((true, []), sys.close_script (sys.fchmod_script w))

  with_script : Text → Option Text × W → Answer × W
  with_script body (some err, w) = ((false, text "open script: " ++ err), w)
  with_script body (none, w) =
      after_script (sys.write_script (text "#!/bin/bash\nset -e\n" ++ (body ++ text "\n")) w)

  in_dir : Text → Answer × W → Answer × W
  in_dir body ((false, err), w) = ((false, err), w)
  in_dir body ((true, err), w) = with_script body (sys.open_script fixed_script_path w)

  -- The path is always `fixed_script_path`.
  pub write_fixed_script : Text → W → Answer × W
  write_fixed_script body w = in_dir body (ensure_script_dir w)

  captured : Text → Text → WaitEnd → Option Text × W → (ℕ × Text) × W
  captured out_file output end (read, w) =
      ((exit_code end, or_before read output), sys.unlink out_file w)

  waited : Text → Text → Option WaitEnd × W → (ℕ × Text) × W
  waited out_file output (none, w) = ((minus_one, output), sys.unlink out_file w)
  waited out_file output (some end, w) = captured out_file output end (sys.read_file out_file w)

  started : Text → Text → Bool × W → (ℕ × Text) × W
  started out_file output (false, w) = ((minus_one, output), sys.unlink out_file w)
  started out_file output (true, w) = waited out_file output (sys.waitpid w)

  into_file : List Text → Text → Option Text × W → (ℕ × Text) × W
  into_file argv output (none, w) = ((minus_one, output), w)
  into_file argv output (some out_file, w) =
      started out_file output (sys.fork_exec out_file (session_env env) argv w)

  -- The exit code and what `out` then holds.
  pub run_argv_capture : List Text → Text → W → (ℕ × Text) × W
  run_argv_capture [] output w = ((minus_one, output), w)
  run_argv_capture (a ∷ argv) output w = into_file (a ∷ argv) output (sys.mkstemp w)

  or_sudo : (ℕ × Text) × W → (ℕ × Text) × W
  or_sudo ((rc, output), w) =
      let again =
        run_argv_capture (text "sudo" ∷ text "/bin/bash" ∷ fixed_script_path ∷ []) output w in
      if rc == 0 then ((0, output), w) else again

  or_sudo_n : Bool → (ℕ × Text) × W → (ℕ × Text) × W
  or_sudo_n gui ((rc, output), w) =
      let again = or_sudo (
        run_argv_capture (text "sudo" ∷ text "-n" ∷ text "/bin/bash" ∷ fixed_script_path ∷ [])
          output w) in
      if rc == 0 || gui then ((rc, output), w) else again

  run_written : Bool → Answer × W → (ℕ × Text) × W
  run_written gui ((false, err), w) = ((minus_one, err), w)
  run_written gui ((true, err), w) =
      or_sudo_n gui
        (run_argv_capture (text "pkexec" ∷ text "/bin/bash" ∷ fixed_script_path ∷ []) [] w)

  -- With an empty text in `output`, as the agent calls it.
  pub run_script_host : Bool → Text → W → (ℕ × Text) × W
  run_script_host gui script w = run_written gui (write_fixed_script script w)

  -- How the agent answers: the exit code, the length of the output, and the output.
  pub send_reply : ℕ → Pipe W → (ℕ × Text) × W → Bool × W
  send_reply fuel rep ((rc, output), w) =
      let kept = take most_output output in
      then_write fuel rep kept
        (then_write fuel rep (put32 (length kept)) (write_all fuel rep (put32 rc) w))

  serve : ℕ → Bool → Pipe W → Option Text × W → Bool × W
  serve fuel gui rep (none, w) = (false, w)
  serve fuel gui rep (some script, w) = send_reply fuel rep (run_script_host gui script w)

  -- One round of the agent, and whether another follows.
  pub agent_round : ℕ → Bool → Pipe W → Pipe W → W → Bool × W
  agent_round fuel gui req rep w = serve fuel gui rep (receive_script fuel req w)

  next_round : (W → W) → Bool × W → W
  next_round go (false, w) = w
  next_round go (true, w) = go w

  -- `agent_main`, for at most so many rounds.
  pub agent_main : ℕ → ℕ → Bool → Pipe W → Pipe W → W → W
  agent_main zero fuel gui req rep w = w
  agent_main (suc rounds) fuel gui req rep w =
      next_round (agent_main rounds fuel gui req rep) (agent_round fuel gui req rep w)

module _ {W : Type 0} (req rep : Pipe W) (gui : Bool) where
  verdict : ℕ → Text → W → Answer × W
  verdict zero output w = ((true, []), w)
  verdict (suc n) output w = ((false, approval_failed gui output), w)

  with_output : ℕ → Option Text × W → Answer × W
  with_output rc (none, w) = ((false, text "host privilege agent disconnected"), w)
  with_output rc (some output, w) = verdict rc output w

  with_length : ℕ → ℕ → Option Text × W → Answer × W
  with_length fuel rc (none, w) = ((false, text "host privilege agent disconnected"), w)
  with_length fuel rc (some bytes, w) =
      let rest = with_output rc (read_all fuel rep (r32 bytes 0) w) in
      if ltb most_output (r32 bytes 0)
      then ((false, text "host privilege agent reply too large"), w)
      else rest

  with_code : ℕ → Option Text × W → Answer × W
  with_code fuel (none, w) = ((false, text "host privilege agent disconnected"), w)
  with_code fuel (some bytes, w) = with_length fuel (r32 bytes 0) (read_all fuel rep 4 w)

  pub receive_reply : ℕ → W → Answer × W
  receive_reply fuel w = with_code fuel (read_all fuel rep 4 w)

  -- `served` is what the agent does meanwhile.
  sent : ℕ → (W → W) → Bool × W → Answer × W
  sent fuel served (false, w) = ((false, text "failed to send privileged script to host agent"), w)
  sent fuel served (true, w) = receive_reply fuel (served w)

  pub run_host_privileged_script : ℕ → Bool → (W → W) → Text → W → Answer × W
  run_host_privileged_script fuel false served script w =
      ((false, text "host privilege agent is not running"), w)
  run_host_privileged_script fuel true served script w =
      sent fuel served (send_script fuel req script w)
