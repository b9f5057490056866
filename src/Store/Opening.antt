-- ===== src/Store/Opening.antt =====
-- Opening the management database (src/db/store.cpp): its tables, the import of the records of an
-- older version, the check of its integrity, and the path of the database of a target.
use reflash.Base.{
  ℕ, Bool, true, false, ◌&&◌, ◌||◌, ◌==◌, Option, none, some, List, [], ◌∷◌, ◌++◌, leb,
  if◌then◌else◌, length, Text, text, text_eq,
}
use reflash.Store.Path.{special_path}
use reflash.Store.{
  VerifyStatus, ObjectRecord, Found, found, not_found, refused, Sqlite, Verdict,
  upsert_special_locked, upsert_file_locked,
}

-- What `sqlite3_open` answers: a database, an error with a handle that is to be closed, or an error.
pub data OpenEnd (D : Type 0) : Type 0 where
  opened : D → OpenEnd D
  broken : D → Text → OpenEnd D
  no_handle : Text → OpenEnd D

-- A row of the table `objects` of an older version.
pub record LegacyRow : Type 0 where
  pub path : Option Text
  pub size : ℕ
  pub sha1 : Option Text
  pub last_massage : ℕ
  pub massage_count : ℕ
  pub verify_status : VerifyStatus
  pub verify_count : ℕ

-- The calls and statements for opening, over the state `W` of the files.
pub record Library (W D : Type 0) : Type 0 where
  pub sqlite3_open : Text → W → OpenEnd D × W
  pub sqlite3_close : D → W → W
  pub busy_timeout : D → D
  pub create_tables : D → Option Text × D
  pub journal_mode : D → D
  pub table_exists : Text → D → Bool
  pub select_objects : D → Option (List LegacyRow)
  pub rename_objects : D → D
  pub integrity_check : D → Found (List (Option Text))

-- A hash is a blob of twenty bytes.
unfoldable pub read_sha1 : Option Text → Option Text
read_sha1 none = none
read_sha1 (some blob) = if length blob == 20 then some blob else none

or_no_path : Option Text → Text
or_no_path none = []
or_no_path (some path) = path

pub legacy_record : LegacyRow → ObjectRecord
legacy_record r = record {
  path = or_no_path r.path;
  size = r.size;
  sha1 = read_sha1 r.sha1;
  last_massage = r.last_massage;
  massage_count = r.massage_count;
  verify_status = r.verify_status;
  verify_count = r.verify_count;
  verified_at = 0;
}

-- The rows of a check, one on each line, and whether each says ok. A row without text is left out.
pub checked : Text → Bool → List (Option Text) → Bool × Text
checked out ok [] = (ok, out)
checked out ok (none ∷ rows) = checked out ok rows
checked [] ok (some t ∷ rows) = checked t (ok && text_eq t (text "ok")) rows
checked (c ∷ cs) ok (some t ∷ rows) =
    checked ((c ∷ cs) ++ 10 ∷ t) (ok && text_eq t (text "ok")) rows

or_empty : Bool × Text → Bool × Text
or_empty (ok, []) = (ok, text "(empty)")
or_empty (ok, c ∷ cs) = (ok, c ∷ cs)

has_slash : Text → Bool
has_slash [] = false
has_slash (c ∷ cs) = c == b'/' || has_slash cs

-- The text after the last slash.
pub after_slash : Text → Text
after_slash [] = []
after_slash (c ∷ cs) = let rest = after_slash cs in if has_slash (c ∷ cs) then rest else c ∷ cs

is_plain : ℕ → Bool
is_plain c =
    (leb b'0' c && leb c b'9')
    || ((leb b'A' c && leb c b'Z')
        || ((leb b'a' c && leb c b'z') || (c == 46 || (c == 45 || c == 95))))

pub plain_name : Text → Text
plain_name [] = []
plain_name (c ∷ cs) = (if is_plain c then c else 95) ∷ plain_name cs

cache_dir : Option Text → Text
cache_dir none = text "/tmp/reflash"
cache_dir (some home) = home ++ text "/.cache/reflash"

-- The home directory is an argument. The directory is made first, by `mkdir`.
pub default_db_path : Option Text → Text → Text
default_db_path home target =
    cache_dir home ++ text "/" ++ plain_name (after_slash target) ++ text ".sqlite"

module _ {W D : Type 0} (lib : Library W D) (s : Sqlite D) where
  pub import_row : LegacyRow → D → D
  import_row r d =
      let o = legacy_record r in
      if special_path o.path
      then (upsert_special_locked s o d).1
      else (if text_eq o.path [] then d else (upsert_file_locked s o d).1)

  pub import_rows : List LegacyRow → D → D
  import_rows [] d = d
  import_rows (r ∷ rows) d = import_rows rows (import_row r d)

  import_selected : Option (List LegacyRow) → D → D
  import_selected none d = d
  import_selected (some rows) d = lib.rename_objects (import_rows rows d)

  pub import_legacy_objects : D → D
  import_legacy_objects d =
      if lib.table_exists (text "objects") d then import_selected (lib.select_objects d) d else d

  created : Option Text × D → Verdict × D
  created (some err, d) = ((false, some err), d)
  created (none, d) = ((true, none), import_legacy_objects (lib.journal_mode d))

  pub migrate : D → Verdict × D
  migrate d = created (lib.create_tables d)

  migrated : Text → Verdict × D → W → Verdict × (Option (D × Text) × W)
  migrated path ((false, err), d) w = ((false, err), (none, lib.sqlite3_close d w))
  migrated path ((true, err), d) w = ((true, err), (some (d, path), w))

  opened_db : Text → OpenEnd D × W → Verdict × (Option (D × Text) × W)
  opened_db path (opened d, w) = migrated path (migrate (lib.busy_timeout d)) w
  opened_db path (broken d err, w) = ((false, some err), (none, lib.sqlite3_close d w))
  opened_db path (no_handle err, w) = ((false, some err), (none, w))

  pub close_store : Option (D × Text) → W → W
  close_store none w = w
  close_store (some (d, path)) w = lib.sqlite3_close d w

  -- `Store::open`, on a store that may be open: the database with its path.
  pub open_store : Text → Option (D × Text) → W → Verdict × (Option (D × Text) × W)
  open_store path before w = opened_db path (lib.sqlite3_open path (close_store before w))

  checked_rows : Found (List (Option Text)) → Verdict × Option Text
  checked_rows (found rows) = let r = or_empty (checked [] true rows) in ((r.0, none), some r.1)
  checked_rows not_found = let r = or_empty (checked [] true []) in ((r.0, none), some r.1)
  checked_rows (refused err) = ((false, some err), none)

  -- The verdict with `err`, and `report` where it is written.
  pub check_integrity : Option D → Verdict × Option Text
  check_integrity none = ((false, some (text "database not open")), none)
  check_integrity (some d) = checked_rows (lib.integrity_check d)
