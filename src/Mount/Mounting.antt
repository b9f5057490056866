-- ===== src/Mount/Mounting.antt =====
-- How devices and images are mounted (src/mount/automount.cpp).
use reflash.Base.{
  ℕ, zero, suc, Bool, true, false, not, ◌&&◌, ◌||◌, Option, none, some, List, [], ◌∷◌, ◌++◌, ◌==◌,
  if◌then◌else◌, length, drop, text_eq, Text, text, to_string,
}
use reflash.Mount.Quote.{shell_quote}
use reflash.Mount.Table.{
  MountRecord, mount_record, Shell, real_or_self, starts_with, lines, fields, options_has_ro,
  path_is_block, no_auth_target, find_mounts_for_device,
}
use reflash.Mount.Unmount.{Answer, run, which_ok, run_privileged}

-- What stands after the first occurrence of a text.
after_text : Text → Text → Option Text
after_text pat [] = if text_eq pat [] then some [] else none
after_text pat (c ∷ cs) =
    let later = after_text pat cs in
    if starts_with pat (c ∷ cs) then some (drop (length pat) (c ∷ cs)) else later

pub contains : Text → Text → Bool
contains pat t = elim (after_text pat t) [ none ↦ false | some rest ↦ true ]

-- Up to a line end, a dot or a space.
up_to_end : Text → Text
up_to_end [] = []
up_to_end (c ∷ cs) =
    let rest = up_to_end cs in if c == 10 || (c == b'.' || c == 32) then [] else c ∷ rest

parse_mount_point : Text → Text
parse_mount_point printed = elim (after_text (text " at ") printed) [
  | none ↦ []
  | some rest ↦ up_to_end rest
]

pub or_other : Text → Text → Text
or_other [] other = other
or_other (c ∷ cs) other = c ∷ cs

-- What a mount gives: its record or the text in `err`, empty where none is written.
pub data Mounted : Type 0 where
  mounted : MountRecord → Mounted
  unmounted : Text → Mounted

-- The programs, each with the part of the type that it is for.
candidates : List (Text × Text)
candidates =
    (text "fuse2fs", text "ext")
    ∷ (text "fuse2fs", text "auto")
    ∷ (text "ntfs-3g", text "ntfs")
    ∷ (text "ntfs-3g", text "auto")
    ∷ (text "fuse.exfat", text "exfat")
    ∷ (text "fuse.exfat", text "auto")
    ∷ (text "exfat-fuse", text "exfat")
    ∷ (text "exfat-fuse", text "auto")
    ∷ (text "fusefat", text "vfat")
    ∷ (text "fusefat", text "fat")
    ∷ (text "fusefat", text "auto")
    ∷ []

-- Without the line ends at the end, and in one line.
unfoldable pub strip_end : Text → Text
strip_end [] = []
strip_end (c ∷ cs) = elim (strip_end cs) [
  | [] ↦ if c == 10 || c == 13 then [] else c ∷ []
  | d ∷ ds ↦ c ∷ d ∷ ds
]

one_line : Text → Text
one_line [] = []
one_line (c ∷ cs) = (if c == 10 then 32 else c) ∷ one_line cs

with_diag : Text → Text → Text
with_diag err [] = err
with_diag err (c ∷ cs) = err ++ text ": " ++ c ∷ cs

with_offset : ℕ → Text → Text
with_offset zero opt = opt
with_offset (suc n) opt = opt ++ text ",offset=" ++ to_string (suc n)

fuse_options : Text → Text → ℕ → Text
fuse_options fstype options offset =
    let opt = with_offset offset (or_other options (text "ro")) in
    if not (contains (text "fakeroot") opt)
      && (contains (text "ext") fstype || text_eq fstype (text "auto"))
    then opt ++ text ",fakeroot"
    else opt

looks_perm : Text → Bool
looks_perm err =
    contains (text "Operation not permitted") err
    || (contains (text "EPERM") err || contains (text "Permission denied") err)

second_field_is : Text → Text → List Text → Bool
second_field_is a b (dev ∷ mnt ∷ rest) = text_eq mnt a || text_eq mnt b
second_field_is a b _ = false

any_target : Text → Text → List Text → Bool
any_target a b [] = false
any_target a b (l ∷ ls) = second_field_is a b (fields l []) || any_target a b ls

append_tried : Text → Text → Text
append_tried [] bin = bin
append_tried (c ∷ cs) bin = (c ∷ cs) ++ text ", " ++ bin

-- The text where no candidate has mounted the image.
no_candidate : Text → Text → Text → Text → Text
no_candidate image fstype [] tried = text "no FUSE helper could mount " ++ image
no_candidate image fstype (c ∷ cs) tried =
    if text_eq fstype (text "auto") && contains (text ",") tried
    then (c ∷ cs) ++ text " (tried " ++ tried ++ text ")"
    else c ∷ cs

module _ {W : Type 0} (sh : Shell W) where
  -- The record of a mount that the table shows, or the text of the failure.
  first_mount : Text → List MountRecord × W → Mounted × W
  first_mount printed ([], w) = (unmounted (text "udisksctl mount failed: " ++ printed), w)
  first_mount printed (m ∷ ms, w) = (mounted m, w)

  udisks_mounted : Text → Text → Text × W → Text → Mounted × W
  udisks_mounted block opt (printed, w) [] = first_mount printed (find_mounts_for_device sh block w)
  udisks_mounted block opt (printed, w) (c ∷ cs) =
      (mounted (mount_record block (c ∷ cs) (text "auto") opt), w)

  udisks_mount : Text → Text → Bool × W → Mounted × W
  udisks_mount block opt (false, w) = (unmounted [], w)
  udisks_mount block opt (true, w) =
      let r =
        sh.popen
          (text "udisksctl mount -b "
            ++ shell_quote block
            ++ text " -o "
            ++ shell_quote opt
            ++ text " --no-user-interaction 2>&1")
          w in
      udisks_mounted block opt r (parse_mount_point r.0)

  pub try_udisks_mount_block : Text → Text → W → Mounted × W
  try_udisks_mount_block block options w =
      udisks_mount block (or_other options (text "ro")) (which_ok sh (text "udisksctl") w)

  mounted_here : Text → W → Bool × W
  mounted_here target w =
      if any_target target (real_or_self sh target w) (lines (sh.proc_mounts w))
      then (true, w)
      else run sh (text "mountpoint -q " ++ shell_quote target ++ text " 2>/dev/null") w

  module _ (image target fstype opt : Text) where
    fuse_record : MountRecord
    fuse_record = record (mount_record image target (or_other fstype (text "fuse")) opt) {
      fuse_mount = true;
    }

    -- What one program prints, and whether the image is mounted then.
    mount_with : Text → W → Text × (Bool × W)
    mount_with bin w =
        let r =
          sh.popen
            (bin
              ++ text " -o "
              ++ shell_quote opt
              ++ text " "
              ++ shell_quote image
              ++ text " "
              ++ shell_quote target
              ++ text " 2>&1")
            w in
        (r.0, mounted_here target r.1)

    -- The first failure is the one that is told.
    failure : Text → Text → Text → Text
    failure [] bin diag =
        with_diag (bin ++ text " did not mount " ++ image) (one_line (strip_end diag))
    failure (c ∷ cs) bin diag = c ∷ cs

    -- `go` is the rest of the loop, with the first failure and what was tried.
    tried_with :
        (Text → Text → W → Mounted × W) → Text → Text → Text → Text × (Bool × W) → Mounted × W
    tried_with go bin err tried (diag, (true, w)) = (mounted fuse_record, w)
    tried_with go bin err tried (diag, (false, w)) = go (failure err bin diag) tried w

    try_one : (Text → Text → W → Mounted × W) → Text → Text → Text → Bool × W → Mounted × W
    try_one go bin err tried (false, w) = go err tried w
    try_one go bin err tried (true, w) =
        tried_with go bin err (append_tried tried bin) (mount_with bin w)

    try_cands : List (Text × Text) → Text → Text → W → Mounted × W
    try_cands [] err tried w = (unmounted (no_candidate image fstype err tried), w)
    try_cands ((bin, part) ∷ rest) err tried w =
        elim (text_eq fstype (text "auto") || contains part fstype) [
          | false ↦ try_cands rest err tried w
          | true ↦ try_one (try_cands rest) bin err tried (which_ok sh bin w)
        ]

    -- The second round, in a user and mount namespace.
    second_round : Text → Mounted × W → Mounted × W
    second_round first_err (mounted r, w) = (mounted r, w)
    second_round first_err (unmounted [], w) = (unmounted first_err, w)
    second_round first_err (unmounted (c ∷ cs), w) =
        (unmounted ((c ∷ cs) ++ text " [after user mount namespace]"), w)

    in_namespace : Text → Answer × W → Mounted × W
    in_namespace first_err ((true, ns_err), w) =
        second_round first_err (try_cands candidates [] [] w)
    in_namespace first_err ((false, ns_err), w) =
        (unmounted (first_err ++ text "; userns retry failed: " ++ ns_err), w)

    or_namespace : Mounted × W → Mounted × W
    or_namespace (mounted r, w) = (mounted r, w)
    or_namespace (unmounted first_err, w) =
        if not (sh.in_user_mount_ns w) && looks_perm first_err
        then in_namespace first_err (sh.ensure_user_mount_ns w)
        else (unmounted first_err, w)

  pub try_fuse_mount_file : Text → Text → Text → Text → ℕ → W → Mounted × W
  try_fuse_mount_file image target fstype options offset w =
      let opt = fuse_options fstype options offset in
      or_namespace image target fstype opt
        (try_cands image target fstype opt candidates [] [] (sh.mkdir target w))

  privileged_hint : W → Text
  privileged_hint w =
      if sh.host_priv_gui w then text " (tried mount/pkexec)" else text " (tried mount/pkexec/sudo)"

  told : Text → Text → Bool × W → Answer × W
  told device target (true, w) = ((true, []), w)
  told device target (false, w) =
      ((false, text "mount failed for " ++ device ++ text " -> " ++ target ++ privileged_hint w), w)

  pub try_privileged_mount : Text → Text → Text → Text → W → Answer × W
  try_privileged_mount device target fstype options w = told device target (
      run_privileged sh
        (text "mount -t "
          ++ shell_quote fstype
          ++ text " -o "
          ++ shell_quote (or_other options (text "defaults"))
          ++ text " "
          ++ shell_quote device
          ++ text " "
          ++ shell_quote target)
        (sh.mkdir target w))

  fuse_answer : Text → Mounted × W → Answer × W
  fuse_answer device (mounted r, w) = ((true, []), w)
  fuse_answer device (unmounted err, w) =
      ((false, or_other err (text "FUSE mount failed for " ++ device)), w)

  or_mount : Text → Text → Text → Text → Bool × W → Answer × W
  or_mount device target fstype options (true, w) = ((true, []), w)
  or_mount device target fstype options (false, w) =
      try_privileged_mount device target fstype options w

  mount_by_call : Text → Text → Text → Text → W → Answer × W
  mount_by_call device target fstype options w =
      or_mount device target fstype options
        (sh.mount device target fstype (options_has_ro options) w)

  or_call : Text → Text → Text → Text → Mounted × W → Answer × W
  or_call device target fstype options (mounted r, w) = ((true, []), w)
  or_call device target fstype options (unmounted err, w) =
      mount_by_call device target fstype options w

  mount_block : Text → Text → Text → Text → Bool × W → Answer × W
  mount_block device target fstype options (false, w) = mount_by_call device target fstype options w
  mount_block device target fstype options (true, w) =
      or_call device target fstype options
        (try_udisks_mount_block device (or_other options (text "ro")) w)

  pub mount_device : Text → Text → Text → Text → W → Answer × W
  mount_device device target fstype options w =
      if no_auth_target sh device w
      then fuse_answer device (
          try_fuse_mount_file device target (or_other fstype (text "auto"))
            (or_other options (text "ro")) 0 w)
      else mount_block device target fstype options
          (if path_is_block sh device w then which_ok sh (text "udisksctl") w else (false, w))
