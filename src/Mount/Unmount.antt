-- ===== src/Mount/Unmount.antt =====
-- How mounts are undone (src/mount/automount.cpp).
use reflash.Base.{
  ℕ, Bool, true, false, not, ◌&&◌, ◌||◌, Option, none, some, List, [], ◌∷◌, ◌++◌, ltb, ◌==◌,
  if◌then◌else◌, length, Text, text,
}
use reflash.Mount.Quote.{shell_quote}
use reflash.Mount.Table.{MountRecord, Shell, no_auth_target, path_is_block, find_mounts_for_device}

-- A verdict, with the text in `err`.
abbrev pub Answer : Type 0
Answer = Bool × Text

is_zero : Option ℕ → Bool
is_zero none = false
is_zero (some n) = n == 0

pub is_empty : {A : Type 0} → List A → Bool
is_empty [] = true
is_empty (x ∷ xs) = false

-- Longer targets first; the order of targets of one length is that of the table.
insert : MountRecord → List MountRecord → List MountRecord
insert m [] = m ∷ []
insert m (x ∷ xs) =
    let later = insert m xs in
    if ltb (length m.target) (length x.target) then x ∷ later else m ∷ x ∷ xs

pub deepest_first : List MountRecord → List MountRecord
deepest_first [] = []
deepest_first (m ∷ ms) = insert m (deepest_first ms)

module _ {W : Type 0} where
  -- The next attempt, where one has failed.
  pub otherwise : Bool × W → (W → Bool × W) → Bool × W
  otherwise (true, w) next = (true, w)
  otherwise (false, w) next = next w

  -- An attempt that is made where the one before has succeeded.
  pub and_then : Bool × W → (W → Bool × W) → Bool × W
  and_then (true, w) next = next w
  and_then (false, w) next = (false, w)

  pub verdict : Text → Bool × W → Answer × W
  verdict err (true, w) = ((true, []), w)
  verdict err (false, w) = ((false, err), w)

module _ {W : Type 0} (sh : Shell W) where
  ran : Option ℕ × W → Bool × W
  ran (status, w) = (is_zero status, w)

  -- `run_shell(cmd) == 0`
  pub run : Text → W → Bool × W
  run cmd w = ran (sh.system cmd w)

  pub which_ok : Text → W → Bool × W
  which_ok bin = run (text "command -v " ++ shell_quote bin ++ text " >/dev/null 2>&1")

  -- As it is, by pkexec, and by sudo without a user interface.
  pub run_privileged : Text → W → Bool × W
  run_privileged cmd w =
      otherwise (otherwise (run cmd w) (run (text "pkexec " ++ cmd)))
        λ w1. if sh.host_priv_gui w1 then (false, w1) else run (text "sudo " ++ cmd) w1

  try_privileged_umount : Text → W → Answer × W
  try_privileged_umount target w = verdict (text "umount failed: " ++ target) (
      otherwise (otherwise (sh.umount2 false target w) (sh.umount2 true target))
        (run_privileged (text "umount " ++ shell_quote target)))

  is_quiet : MountRecord → W → Bool
  is_quiet m w =
      m.fuse_mount
      || (no_auth_target sh m.device w
          || (not (is_empty m.loop_from_image) && no_auth_target sh m.loop_from_image w))

  unmount_quietly : MountRecord → W → Answer × W
  unmount_quietly m w =
      let target = shell_quote m.target in
      verdict (text "umount failed without privileges: " ++ m.target) (
        otherwise
          (otherwise
            (otherwise
              (otherwise (run (text "fusermount -u " ++ target ++ text " 2>/dev/null") w)
                (run (text "fusermount3 -u " ++ target ++ text " 2>/dev/null")))
              (sh.umount2 false m.target))
            (sh.umount2 true m.target))
          (run (text "umount " ++ target ++ text " 2>/dev/null")))

  udisks_command : Text → Text → Text
  udisks_command verb device =
      text "udisksctl "
      ++ verb
      ++ text " -b "
      ++ shell_quote device
      ++ text " --no-user-interaction >/dev/null 2>&1"

  -- What the commands answer is not looked at.
  delete_loop : Text → W → Bool × W
  delete_loop device w =
      let r = run (udisks_command (text "unmount") device) w in
      (true, (run (udisks_command (text "loop-delete") device) r.1).1)

  unmount_loop : MountRecord → W → Bool × W
  unmount_loop m w =
      if is_empty m.loop_from_image
      then (false, w)
      else and_then (which_ok (text "udisksctl") w) (delete_loop m.device)

  unmount_block : MountRecord → W → Bool × W
  unmount_block m w = and_then (which_ok (text "udisksctl") w) λ w1.
      if path_is_block sh m.device w1
      then run (udisks_command (text "unmount") m.device) w1
      else (false, w1)

  -- The last attempt says why it failed.
  or_privileged : MountRecord → Bool × W → Answer × W
  or_privileged m (true, w) = ((true, []), w)
  or_privileged m (false, w) = try_privileged_umount m.target w

  pub unmount_one : MountRecord → W → Answer × W
  unmount_one m w =
      if is_quiet m w
      then unmount_quietly m w
      else or_privileged m (otherwise (unmount_loop m w) (unmount_block m))

  and_rest : Answer × W → (W → Answer × W) → Answer × W
  and_rest ((true, err), w) next = next w
  and_rest ((false, err), w) next = ((false, err), w)

  unmount_all : List MountRecord → W → Answer × W
  unmount_all [] w = ((true, []), w)
  unmount_all (m ∷ ms) w = and_rest (unmount_one m w) (unmount_all ms)

  unmount_found : List MountRecord × W → Answer × W
  unmount_found (mounts, w) = unmount_all (deepest_first mounts) w

  pub unmount_device : Text → W → Answer × W
  unmount_device device_path w = unmount_found (find_mounts_for_device sh device_path w)

  ensure_none : Text → List MountRecord × W → (List MountRecord × Answer) × W
  ensure_none device_path ([], w) = (([], (true, [])), w)
  ensure_none device_path (m ∷ ms, w) = let r = unmount_device device_path w in ((m ∷ ms, r.0), r.1)

  pub ensure_unmounted : Text → W → (List MountRecord × Answer) × W
  ensure_unmounted device_path w = ensure_none device_path (find_mounts_for_device sh device_path w)
