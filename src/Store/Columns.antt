-- ===== src/Store/Columns.antt =====
-- The columns of a record in the management database (src/db/store.cpp): the statements that write
-- and read the row of a special object and of a file, with what is bound to them.
pub mod RoundTrip
use reflash.Base.{
  ℕ, zero, suc, Option, none, some, List, [], ◌∷◌, map, ◌==◌, if◌then◌else◌, Text, text, text_eq,
}
use reflash.Store.{VerifyStatus, ObjectRecord, no_record}
use reflash.Store.Opening.{read_sha1}

-- A text or a blob is its bytes.
pub data Value : Type 0 where
  null : Value
  integer : ℕ → Value
  bytes : Text → Value

abbrev pub Row : Type 0
Row = Text → Value

-- One of the assignments after DO UPDATE SET: a column from the row that was to be inserted, or by
-- COALESCE from that row where it is not NULL there.
pub data Assignment : Type 0 where
  excluded : Text → Assignment
  coalesce : Text → Assignment

-- INSERT INTO a table with these columns, ON CONFLICT of some of them DO UPDATE SET.
pub record Upsert : Type 0 where
  pub table : Text
  pub columns : List Text
  pub conflict : List Text
  pub assignments : List Assignment

-- The value of `sqlite3_bind` for a column of the statement.
pub bound : List Text → List Value → Text → Option Value
bound [] values c = none
bound (n ∷ ns) [] c = none
bound (n ∷ ns) (v ∷ vs) c = let rest = bound ns vs c in if text_eq c n then some v else rest

pub bind_sha1 : Option Text → Value
bind_sha1 none = null
bind_sha1 (some sha1) = bytes sha1

pub status_int : VerifyStatus → ℕ
status_int VerifyStatus.unknown = 0
status_int VerifyStatus.ok = 1
status_int VerifyStatus.fail = 2

-- The cast of a number to `VerifyStatus`; no other number is written.
pub status_of_int : ℕ → VerifyStatus
status_of_int zero = VerifyStatus.unknown
status_of_int (suc zero) = VerifyStatus.ok
status_of_int (suc (suc n)) = VerifyStatus.fail

-- `sqlite3_column_int64`
pub column_int : Value → ℕ
column_int null = 0
column_int (integer n) = n
column_int (bytes t) = 0

pub column_blob : Value → Option Text
column_blob null = none
column_blob (integer n) = none
column_blob (bytes t) = some t

-- `t ? t : path`
pub column_text : Text → Value → Text
column_text path null = path
column_text path (integer n) = path
column_text path (bytes t) = t

-- `upsert_special_locked`: the statement, and what is bound to its nine parameters.
pub special_upsert : Upsert
special_upsert = record {
  table = text "object";
  columns =
      text "vol_id"
      ∷ text "type"
      ∷ text "sha1"
      ∷ text "size"
      ∷ text "last_massage"
      ∷ text "massage_count"
      ∷ text "verify_status"
      ∷ text "verify_count"
      ∷ text "verified_at"
      ∷ [];
  conflict = text "vol_id" ∷ text "type" ∷ [];
  assignments =
      coalesce (text "sha1")
      ∷ excluded (text "size")
      ∷ excluded (text "last_massage")
      ∷ excluded (text "massage_count")
      ∷ excluded (text "verify_status")
      ∷ excluded (text "verify_count")
      ∷ excluded (text "verified_at")
      ∷ [];
}

pub special_values : ℕ → ObjectRecord → List Value
special_values vol o =
    integer vol
    ∷ bytes o.path
    ∷ bind_sha1 o.sha1
    ∷ integer o.size
    ∷ integer o.last_massage
    ∷ integer o.massage_count
    ∷ integer (status_int o.verify_status)
    ∷ integer o.verify_count
    ∷ integer o.verified_at
    ∷ []

-- `get_special_locked`
pub special_columns : List Text
special_columns =
    text "type"
    ∷ text "size"
    ∷ text "sha1"
    ∷ text "last_massage"
    ∷ text "massage_count"
    ∷ text "verify_status"
    ∷ text "verify_count"
    ∷ text "verified_at"
    ∷ []

-- Column `i` of the row that a SELECT delivers.
pub column : List Value → ℕ → Value
column [] i = null
column (v ∷ vs) zero = v
column (v ∷ vs) (suc i) = column vs i

pub read_columns : Text → List Value → ObjectRecord
read_columns path vs = record {
  path = path;
  size = column_int (column vs 1);
  sha1 = read_sha1 (column_blob (column vs 2));
  last_massage = column_int (column vs 3);
  massage_count = column_int (column vs 4);
  verify_status = status_of_int (column_int (column vs 5));
  verify_count = column_int (column vs 6);
  verified_at = column_int (column vs 7);
}

pub read_special : Text → List Value → ObjectRecord
read_special path vs = read_columns (column_text path (column vs 0)) vs

-- `upsert_file_locked`
pub file_upsert : Upsert
file_upsert = record {
  table = text "file";
  columns =
      text "folder_id"
      ∷ text "basename"
      ∷ text "sha1"
      ∷ text "size"
      ∷ text "verify_status"
      ∷ text "verify_count"
      ∷ text "verified_at"
      ∷ text "last_massage"
      ∷ text "massage_count"
      ∷ [];
  conflict = text "folder_id" ∷ text "basename" ∷ [];
  assignments =
      coalesce (text "sha1")
      ∷ excluded (text "size")
      ∷ excluded (text "verify_status")
      ∷ excluded (text "verify_count")
      ∷ excluded (text "verified_at")
      ∷ excluded (text "last_massage")
      ∷ excluded (text "massage_count")
      ∷ [];
}

pub file_values : ℕ → Text → ObjectRecord → List Value
file_values folder base o =
    integer folder
    ∷ bytes base
    ∷ bind_sha1 o.sha1
    ∷ integer o.size
    ∷ integer (status_int o.verify_status)
    ∷ integer o.verify_count
    ∷ integer o.verified_at
    ∷ integer o.last_massage
    ∷ integer o.massage_count
    ∷ []

-- `get_file_locked`, whose record keeps the path that was asked for.
pub file_columns : List Text
file_columns =
    text "basename"
    ∷ text "size"
    ∷ text "sha1"
    ∷ text "last_massage"
    ∷ text "massage_count"
    ∷ text "verify_status"
    ∷ text "verify_count"
    ∷ text "verified_at"
    ∷ []
