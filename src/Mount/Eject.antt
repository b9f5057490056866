-- ===== src/Mount/Eject.antt =====
-- How a device is made ready to be unplugged, and where the database of a mounted device is
-- (src/mount/automount.cpp). `readable` is `access` for reading.
use reflash.Base.{
  ℕ, Bool, true, false, not, ◌&&◌, ◌||◌, List, [], ◌∷◌, ◌++◌, leb, ◌==◌, if◌then◌else◌, text_eq,
  Text, text,
}
use reflash.Mount.Quote.{shell_quote}
use reflash.Mount.Table.{
  MountRecord, Shell, real_or_self, lines, loop_devices, path_is_regular_file, path_is_block,
  path_is_directory, find_mounts_for_device,
}
use reflash.Mount.Unmount.{Answer, is_empty, run, which_ok, unmount_device}
use reflash.Mount.Mounting.{contains, or_other}

is_blank : ℕ → Bool
is_blank c = c == 32 || (leb 9 c && leb c 13)

trim_front : Text → Text
trim_front [] = []
trim_front (c ∷ cs) = let rest = trim_front cs in if is_blank c then rest else c ∷ cs

trim_back : Text → Text
trim_back [] = []
trim_back (c ∷ cs) = elim (trim_back cs) [
  | [] ↦ if is_blank c then [] else c ∷ []
  | d ∷ ds ↦ c ∷ d ∷ ds
]

trim_ws : Text → Text
trim_ws t = trim_back (trim_front t)

is_optical : Text → Bool
is_optical type = text_eq type (text "rom") || text_eq type (text "cd/dvd")

-- Without one slash at the end.
without_slash : Text → Text
without_slash [] = []
without_slash (c ∷ []) = if c == b'/' then [] else c ∷ []
without_slash (c ∷ d ∷ ds) = c ∷ without_slash (d ∷ ds)

module _ {W : Type 0} (sh : Shell W) where
  path_is_mounted : Text → W → Bool × W
  path_is_mounted device w = let r = find_mounts_for_device sh device w in (not (is_empty r.0), r.1)

  drive_of : Text → Text × W → Text × W
  drive_of path (printed, w) = elim (trim_ws printed) [
    | [] ↦ (path, w)
    | c ∷ cs ↦ (text "/dev/" ++ c ∷ cs, w)
  ]

  udisks_drive_node : Text → W → Text × W
  udisks_drive_node device w =
      let path = real_or_self sh device w in
      if path_is_block sh device w
      then drive_of path
          (sh.popen (text "lsblk -no PKNAME " ++ shell_quote path ++ text " 2>/dev/null") w)
      else ([], w)

  delete_loops : List Text → W → W
  delete_loops [] w = w
  delete_loops (loop ∷ loops) w =
      let w1 = (run sh (text "losetup -d " ++ shell_quote loop ++ text " 2>/dev/null") w).1 in
      let u = which_ok sh (text "udisksctl") w1 in
      delete_loops loops (
        if u.0
        then (run sh
            (text "udisksctl loop-delete -b "
              ++ shell_quote loop
              ++ text " --no-user-interaction >/dev/null 2>&1")
            u.1).1
        else u.1)

  eject_image : Text → W → W
  eject_image device w =
      let r =
        sh.popen
          (text "losetup -j " ++ shell_quote (real_or_self sh device w) ++ text " 2>/dev/null") w in
      delete_loops (loop_devices (lines r.0)) r.1

  unmount_optical : Text → Bool × W → W
  unmount_optical device (false, w) = w
  unmount_optical device (true, w) =
      (run sh
        (text "udisksctl unmount -b "
          ++ shell_quote device
          ++ text " --no-user-interaction >/dev/null 2>&1")
        w).1

  eject_optical : Text → Bool × W → W
  eject_optical device (true, w) =
      (run sh (text "eject " ++ shell_quote device ++ text " 2>/dev/null") w).1
  eject_optical device (false, w) = unmount_optical device (which_ok sh (text "udisksctl") w)

  eject_block : Text → W → W
  eject_block device w =
      let w1 = (udisks_drive_node device w).1 in
      let r = sh.popen (text "lsblk -no TYPE " ++ shell_quote device ++ text " 2>/dev/null") w1 in
      if is_optical (trim_ws r.0)
      then eject_optical device (which_ok sh (text "eject") r.1)
      else r.1

  after_unmount : Text → Answer × W → Answer × W
  after_unmount device ((false, err), w) = ((false, err), w)
  after_unmount device ((true, err), w) =
      if path_is_regular_file sh device w
      then ((true, []), eject_image device w)
      else if path_is_block sh device w
      then ((true, []), eject_block device w)
      else ((true, []), w)

  pub eject_device : Text → W → Answer × W
  eject_device device w =
      if text_eq device []
      then ((false, text "no device"), w)
      else if path_is_directory sh device w
      then ((true, []), w)
      else after_unmount device (unmount_device sh device w)

  -- An error is one only where the device is still mounted.
  still_mounted : Text → Text → Bool × W → Answer × W
  still_mounted drive printed (false, w) = ((true, []), w)
  still_mounted drive printed (true, w) = (
    (false, if text_eq printed [] then text "power-off failed: " ++ drive else trim_ws printed),
    w,
  )

  powered_off : Text → Text → Text × W → Answer × W
  powered_off device drive (printed, w) =
      if contains (text "Error") printed || contains (text "error") printed
      then still_mounted drive printed (path_is_mounted device w)
      else ((true, []), w)

  power_off : Text → Text → Bool × W → Answer × W
  power_off device drive (false, w) = ((true, []), w)
  power_off device drive (true, w) = powered_off device drive (
      sh.popen
        (text "udisksctl power-off -b " ++ shell_quote drive ++ text " --no-user-interaction 2>&1")
        w)

  synced : Text → W → Answer × W
  synced device w =
      let d = udisks_drive_node device (run sh (text "sync") w).1 in
      power_off device (or_other d.0 (real_or_self sh device d.1))
        (which_ok sh (text "udisksctl") d.1)

  after_eject : Text → Answer × W → Answer × W
  after_eject device ((false, err), w) = ((false, err), w)
  after_eject device ((true, err), w) =
      if path_is_block sh device w then synced device w else ((true, []), w)

  pub safely_remove_device : Text → W → Answer × W
  safely_remove_device device w =
      if text_eq device []
      then ((false, text "no device"), w)
      else if path_is_directory sh device w
      then ((true, []), w)
      else after_eject device (eject_device device w)

  module _ (readable : Text → W → Bool) where
    try_root : Text → W → Text
    try_root [] w = []
    try_root (c ∷ cs) w =
        let p = without_slash (c ∷ cs) ++ text "/manifest.db" in if readable p w then p else []

    first_root : List MountRecord → W → Text
    first_root [] w = []
    first_root (m ∷ ms) w = or_other (try_root m.target w) (first_root ms w)

    found_root : List MountRecord × W → Text × W
    found_root (mounts, w) = (first_root mounts w, w)

    or_mounts : Text → Text → W → Text × W
    or_mounts device [] w = found_root (find_mounts_for_device sh device w)
    or_mounts device (c ∷ cs) w = (c ∷ cs, w)

    pub find_builtin_manifest_db : Text → W → Text × W
    find_builtin_manifest_db device w =
        or_mounts device (if path_is_directory sh device w then try_root device w else []) w
