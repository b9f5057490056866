-- ===== src/Mount/Table.antt =====
-- Which mounts belong to a device (src/mount/automount.cpp). The system calls, the commands and
-- the mount table are the interface `Shell` over the state `W` of the host.
pub mod Related
use reflash.Base.{
  ℕ, ◌+◌, Bool, true, false, not, ◌&&◌, ◌||◌, Option, none, some, List, [], ◌∷◌, ◌++◌, ltb, leb,
  ◌==◌, if◌then◌else◌, length, drop, take, text_eq, Text, text,
}
use reflash.Mount.Quote.{shell_quote}

-- `loop_from_image` and `fuse_mount` are as they are filled in.
pub record MountRecord : Type 0 where
  pub device : Text
  pub target : Text
  pub fstype : Text
  pub options : Text
  pub loop_from_image : Text
  pub fuse_mount : Bool

abbrev pub mount_record : Text → Text → Text → Text → MountRecord
mount_record device target fstype options = record {
  device = device;
  target = target;
  fstype = fstype;
  options = options;
  loop_from_image = [];
  fuse_mount = false;
}

pub data FileKind : Type 0 where
  regular block directory other : FileKind

-- `system` gives the exit status, where the command exits; `popen` what the command prints.
pub record Shell (W : Type 0) : Type 0 where
  pub realpath : Text → W → Option Text
  pub stat : Text → W → Option (FileKind × ℕ)
  pub proc_mounts : W → Text
  pub system : Text → W → Option ℕ × W
  pub popen : Text → W → Text × W
  -- Lazily or not.
  pub umount2 : Bool → Text → W → Bool × W
  -- Device, target, type; read-only or not.
  pub mount : Text → Text → Text → Bool → W → Bool × W
  pub mkdir : Text → W → W
  pub rmdir : Text → W → W
  pub mkdtemp : W → Option Text × W
  pub host_priv_gui : W → Bool
  pub in_user_mount_ns : W → Bool
  pub ensure_user_mount_ns : W → (Bool × Text) × W

is_regular_kind : Option (FileKind × ℕ) → Bool
is_regular_kind none = false
is_regular_kind (some (regular, dev)) = true
is_regular_kind (some (block, dev)) = false
is_regular_kind (some (directory, dev)) = false
is_regular_kind (some (other, dev)) = false

is_block_kind : Option (FileKind × ℕ) → Bool
is_block_kind none = false
is_block_kind (some (regular, dev)) = false
is_block_kind (some (block, dev)) = true
is_block_kind (some (directory, dev)) = false
is_block_kind (some (other, dev)) = false

is_directory_kind : Option (FileKind × ℕ) → Bool
is_directory_kind none = false
is_directory_kind (some (regular, dev)) = false
is_directory_kind (some (block, dev)) = false
is_directory_kind (some (directory, dev)) = true
is_directory_kind (some (other, dev)) = false

same_rdev : Option (FileKind × ℕ) → Option (FileKind × ℕ) → Bool
same_rdev none b = false
same_rdev (some (k, a)) none = false
same_rdev (some (k, a)) (some (k', b)) = a == b && not (a == 0)

-- `compare(0, n, prefix) == 0`
pub starts_with : Text → Text → Bool
starts_with [] t = true
starts_with (p ∷ ps) [] = false
starts_with (p ∷ ps) (c ∷ cs) = p == c && starts_with ps cs

-- The character after the name of the disk.
unfoldable pub is_part_char : Text → Bool
is_part_char [] = false
is_part_char (c ∷ cs) = c == b'p' || (leb b'0' c && leb c b'9')

related_names : Text → Text → Bool
related_names w m = text_eq w m || (starts_with w m && is_part_char (drop (length w) m))

-- A part that is not empty.
push_part : Text → List Text → List Text
push_part [] rest = rest
push_part (c ∷ cs) rest = (c ∷ cs) ∷ rest

-- `std::getline`: the parts between separators; an empty one after the last separator is none.
split_at : ℕ → Text → Text → List Text
split_at sep [] part = push_part part []
split_at sep (c ∷ cs) part =
    let next = split_at sep cs [] in
    let more = split_at sep cs (part ++ c ∷ []) in if c == sep then part ∷ next else more

pub lines : Text → List Text
lines t = split_at 10 t []

has : Text → List Text → Bool
has t [] = false
has t (x ∷ xs) = text_eq x t || has t xs

pub options_has_ro : Text → Bool
options_has_ro opts = has (text "ro") (split_at b',' opts [])

pub read_only : MountRecord → Bool
read_only m = options_has_ro m.options

is_space : ℕ → Bool
is_space c = c == 32 || (leb 9 c && leb c 13)

-- The fields that `>>` reads.
pub fields : Text → Text → List Text
fields [] part = push_part part []
fields (c ∷ cs) part =
    let next = fields cs [] in
    let more = fields cs (part ++ c ∷ []) in if is_space c then push_part part next else more

-- A line of the table that has four fields.
record_of : List Text → Option MountRecord
record_of (device ∷ target ∷ fstype ∷ options ∷ rest) =
    some (mount_record device target fstype options)
record_of _ = none

before_colon : Text → Option Text
before_colon [] = none
before_colon (c ∷ cs) =
    let rest = before_colon cs in
    if c == b':' then some [] else elim rest [ none ↦ none | some t ↦ some (c ∷ t) ]

-- The loop devices in what `losetup -j` prints.
pub loop_devices : List Text → List Text
loop_devices [] = []
loop_devices (l ∷ ls) = elim (before_colon l) [
  | none ↦ loop_devices ls
  | some dev ↦
      let rest = loop_devices ls in if starts_with (text "/dev/") l then dev ∷ rest else rest
]

module _ {W : Type 0} (sh : Shell W) where
  unfoldable pub real_or_self : Text → W → Text
  real_or_self path w = elim (sh.realpath path w) [ none ↦ path | some real ↦ real ]

  pub path_is_regular_file : Text → W → Bool
  path_is_regular_file path w = is_regular_kind (sh.stat path w)

  pub path_is_block : Text → W → Bool
  path_is_block path w = is_block_kind (sh.stat path w)

  pub path_is_directory : Text → W → Bool
  path_is_directory path w = is_directory_kind (sh.stat path w)

  -- Regular files and loop devices are mounted without asking for a password.
  pub no_auth_target : Text → W → Bool
  no_auth_target path w =
      path_is_regular_file path w || starts_with (text "/dev/loop") (real_or_self path w)

  pub same_device_file : Text → Text → W → Bool
  same_device_file a b w = same_rdev (sh.stat a w) (sh.stat b w)

  pub is_related_device : Text → Text → W → Bool
  is_related_device wanted mounted_dev w =
      let d = real_or_self wanted w in
      let m = real_or_self mounted_dev w in
      text_eq d m || (same_device_file d m w || related_names d m)

  -- The first loop device of the image that the mount is of.
  loop_match : List Text → Text → MountRecord → W → Option MountRecord
  loop_match [] want r w = none
  loop_match (lp ∷ lps) want r w =
      let rest = loop_match lps want r w in
      if text_eq r.device lp || is_related_device lp r.device w
      then some (record r { loop_from_image = want })
      else rest

  match_mount : Text → List Text → MountRecord → W → Option MountRecord
  match_mount device_path also r w =
      let want = real_or_self device_path w in
      if is_related_device device_path r.device w || text_eq r.device want
      then some r
      else loop_match also want r w

  match_line : Text → List Text → Option MountRecord → W → Option MountRecord
  match_line device_path also none w = none
  match_line device_path also (some r) w = match_mount device_path also r w

  matching : Text → List Text → List Text → W → List MountRecord
  matching device_path also [] w = []
  matching device_path also (l ∷ ls) w =
      elim (match_line device_path also (record_of (fields l [])) w) [
        | none ↦ matching device_path also ls w
        | some r ↦ r ∷ matching device_path also ls w
      ]

  -- The loop devices behind an image.
  loops_of : Text → W → Text × W → List Text × W
  loops_of device_path w0 (printed, w) = (loop_devices (lines printed), w)

  image_loops : Text → W → List Text × W
  image_loops device_path w =
      if path_is_regular_file device_path w
      then loops_of device_path w (
          sh.popen
            (text "losetup -j " ++ shell_quote (real_or_self device_path w) ++ text " 2>/dev/null")
            w)
      else ([], w)

  pub find_mounts_for_device : Text → W → List MountRecord × W
  find_mounts_for_device device_path w =
      let (also, w1) = image_loops device_path w in
      (matching device_path also (lines (sh.proc_mounts w1)) w1, w1)
