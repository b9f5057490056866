-- ===== src/Store/Tests.antt =====
-- The management database over tables that are functions, and concrete paths and records.
use reflash.Base.{
  ap, map, replicate, ℕ, suc, ◌≡◌, refl, Bool, true, false, ◌&&◌, Option, none, some, List, [], ◌∷◌,
  ◌==◌, if◌then◌else◌, text_eq, text_eq_refl, arith, Text, text,
}
use reflash.Store.Path.{
  special_path, split_file_path, strip_front, strip_back, with_part, parts_of, split_last,
}
use reflash.Store.Path.Split.{Name, join, split_file_path-join}
use reflash.Store.{
  VerifyStatus, bump_verify, update, or_fresh, get_locked, get_file_locked, get_split, file_in,
  find_folders, with_path, ObjectRecord, no_record, Found, found, not_found, refused, Done, done,
  Sqlite, or_kept, upserted, row, upsert_object, upsert_locked, upsert_file_locked, upsert_split,
  put_file, ensure_path, ensure_volume, volume_of, id_of, ensure_root_folder, root_of,
  ensure_folders, ensure_folder_locked, folder_of, inserted_folder, enter, verdict,
}
use reflash.Store.Laws.{Keeps, IsDocumented, Ready}
use reflash.Store.Columns.{
  Value, null, Row, Assignment, excluded, coalesce, Upsert, bound, special_upsert, special_values,
  special_columns, read_special, read_columns, file_upsert, file_values, file_columns,
}
use reflash.Store.Columns.RoundTrip.{
  or_value, assigned, IsUpsert, Conflicts, hash_of, read_special-upsert,
}

-- The tables, with the last row id.
pub record Tables : Type 0 where
  last : ℕ
  meta : Text → Found Text
  folder : ℕ → ℕ → Text → Found ℕ
  special : ℕ → Text → Found ObjectRecord
  file : ℕ → Text → Found ObjectRecord

-- A row that is there stays.
abbrev or_new : Found ℕ → Bool → ℕ → Found ℕ
or_new (found id) same new = found id
or_new not_found same new = if same then found new else not_found
or_new (refused err) same new = refused err

abbrev put_folder : ℕ → ℕ → Text → Tables → Found ℕ → Done × Tables
put_folder vol parent name d not_found = (
  done,
  record d {
    last = suc d.last;
    folder = λ v p n.
        or_new (d.folder v p n) ((v == vol) && ((p == parent) && text_eq n name)) (suc d.last);
  },
)
put_folder vol parent name d (found id) = (Done.refused (text "UNIQUE"), d)
put_folder vol parent name d (refused err) = (Done.refused err, d)

abbrev pub tables : Sqlite Tables
tables = record {
  last_insert_rowid = λ d. d.last;
  select_meta = λ key d. d.meta key;
  upsert_meta = λ key value d.
      (done, record d { meta = λ k. if text_eq k key then found value else d.meta k });
  insert_device = λ d. (done, record d { last = suc d.last });
  insert_volume = λ dev d. (done, record d { last = suc d.last });
  select_folder = λ vol parent name d. d.folder vol parent name;
  insert_folder = λ vol parent name d. put_folder vol parent name d (d.folder vol parent name);
  select_children = λ vol id d. [];
  delete_folder_row = λ id d. (Done.refused (text "FOREIGN KEY"), d);
  select_special = λ vol type d. d.special vol type;
  upsert_special = λ vol o d. (
    done,
    record d {
      special = λ v t.
          if (v == vol) && text_eq t o.path
          then found (upserted (row (d.special vol o.path)) o)
          else d.special v t;
    },
  );
  delete_special = λ vol type d. (Done.refused (text "locked"), d);
  select_file = λ folder base d. d.file folder base;
  upsert_file = λ folder base o d. (
    done,
    record d {
      file = λ f b.
          if (f == folder) && text_eq b base
          then found (upserted (row (d.file folder base)) o)
          else d.file f b;
    },
  );
  delete_file_row = λ folder base d. (Done.refused (text "locked"), d);
  delete_files = λ folder d. (Done.refused (text "locked"), d);
  delete_extents = λ path d. (done, d);
  prepare_extent = λ d. none;
  insert_extent = λ path e now d. (done, d);
  select_bad_extents = λ d. found [];
  select_specials = λ vol d. found [];
  select_files = λ vol d. found [];
  select_subfolders = λ vol folder d. found [];
  select_folder_files = λ folder d. found [];
  positive = λ t. 1;
}

put_folder-put :
    (vol parent : ℕ) (name : Text) (d : Tables) (r : Found ℕ)
    → d.folder vol parent name ≡ r
    → (put_folder vol parent name d r).0 ≡ done
    → (put_folder vol parent name d r).1.folder vol parent name
      ≡ found (put_folder vol parent name d r).1.last
put_folder-put vol parent name d not_found e ok = rw e (ground (arith, text_eq_refl name))
put_folder-put vol parent name d (found id) e ok = ground arith
put_folder-put vol parent name d (refused err) e ok = ground arith

put_folder-Keeps :
    (vol parent : ℕ) (name : Text) (d : Tables) (r : Found ℕ)
    → Keeps tables d (put_folder vol parent name d r).1
unfolding Keeps
put_folder-Keeps vol parent name d not_found = (λ key. refl, λ v p n id e. rw e refl)
put_folder-Keeps vol parent name d (found id) = (λ key. refl, λ v p n id1 e. e)
put_folder-Keeps vol parent name d (refused err) = (λ key. refl, λ v p n id e. e)

same_row : (n : ℕ) (t : Text) → ((n == n) && text_eq t t) ≡ true
same_row n t = ground (arith, text_eq_refl t)

pub tables-IsDocumented : IsDocumented tables
unfolding Keeps
tables-IsDocumented = record {
  folder_put = λ vol parent name d ok. put_folder-put vol parent name d _ refl ok;
  folder_keeps = λ vol parent name d. put_folder-Keeps vol parent name d _;
  file_put = λ folder base o d ok. rw (same_row folder base) refl;
  file_keeps = λ folder base o d. (λ key. refl, λ v p n id e. e);
  special_put = λ vol o d ok. rw (same_row vol o.path) refl;
  special_keeps = λ vol o d. (λ key. refl, λ v p n id e. e);
}

-- A database with volume 1, and its root folder 3.
abbrev pub volume_1 : Tables
volume_1 = record {
  last = 3;
  meta = λ key. if text_eq key (text "current_vol_id") then found (text "1") else not_found;
  folder = λ v p n. if (v == 1) && ((p == 0) && text_eq n []) then found 3 else not_found;
  special = λ v t. not_found;
  file = λ f b. not_found;
}

pub volume_1-Ready : Ready tables volume_1
unfolding id_of
volume_1-Ready = record { vol = 0; root = 3; vol_set = refl; root_set = refl }

-- A file two folders deep, and its hash.
abbrev pub song : ObjectRecord
song = record (no_record (text "/music/live/a.ogg")) { size = 700; sha1 = some (1 ∷ 2 ∷ []) }

song_stored : (upsert_object tables song (some volume_1)).0.0 ≡ true
unfolding upsert_object upsert_locked special_path upsert_file_locked split_file_path strip_front
    strip_back parts_of with_part split_last upsert_split put_file ensure_path ensure_volume
    volume_of id_of ensure_root_folder root_of ensure_folders ensure_folder_locked folder_of
    inserted_folder enter verdict
song_stored = refl

-- A verification of the file that finds another hash is recorded.
pub song_verified :
    (bump_verify tables song.path VerifyStatus.fail (some (3 ∷ 4 ∷ [])) 5000 volume_1).0.0 ≡ true
unfolding bump_verify update or_fresh get_locked get_file_locked get_split file_in find_folders
    with_path row upsert_locked special_path upsert_file_locked split_file_path strip_front
    strip_back parts_of with_part split_last upsert_split put_file ensure_path ensure_volume
    volume_of id_of ensure_root_folder root_of ensure_folders ensure_folder_locked folder_of
    inserted_folder enter verdict
song_verified = refl

pub song_file : special_path song.path ≡ false
unfolding special_path
song_file = refl

-- Rows as functions, with NULL in what is not bound.
or_null : Option Value → Value
or_null none = null
or_null (some v) = v

assign : Option Assignment → Value → Value → Value
assign none new old = old
assign (some (excluded c)) new old = new
assign (some (coalesce c)) new old = or_value new old

abbrev upsert_row : Upsert → List Value → Option Row → Row
unfolding or_null assign
upsert_row st values none c = or_null (bound st.columns values c)
upsert_row st values (some old) c =
    assign (assigned st.assignments c) (or_null (bound st.columns values c)) (old c)

upsert_row-IsUpsert : IsUpsert upsert_row
unfolding or_null assign
upsert_row-IsUpsert = record {
  inserted = λ st values c v b. ap or_null b;
  updated = λ st values old c v b e. rw (e, b) refl;
  coalesced = λ st values old c v b e. rw (e, b) refl;
  unassigned = λ st values old c e. rw e refl;
}

-- The record of a special object, with a hash, and the row that it had.
abbrev hashed_song : ObjectRecord
hashed_song = record song { sha1 = some (replicate 20 7) }

abbrev old_row : Option Row
old_row = some (λ c. or_null (bound special_upsert.columns (special_values 1 hashed_song) c))

old_row-Conflicts : Conflicts special_upsert (special_values 1 hashed_song) old_row
unfolding Conflicts or_null
old_row-Conflicts c v key b = ap or_null b

read_special-upsert_example :
    (read_special song.path
        (map (upsert_row special_upsert (special_values 1 hashed_song) old_row) special_columns)
      ≡ record hashed_song { sha1 = or_kept hashed_song.sha1 (hash_of old_row) })
    × (read_columns song.path (
          map (upsert_row file_upsert (file_values 2 (text "a.ogg") hashed_song) none) file_columns)
        ≡ record hashed_song { sha1 = or_kept hashed_song.sha1 (hash_of none) })
read_special-upsert_example =
    read_special-upsert upsert_row upsert_row-IsUpsert 1 2 (text "a.ogg") hashed_song old_row none
      refl old_row-Conflicts

music : Name (text "music")
unfolding Name
music = (omega arith, ground arith)

a_ogg : Name (text "a.ogg")
unfolding Name
a_ogg = (omega arith, ground arith)

split_file_path-join_example :
    split_file_path (join (text "music" ∷ []) (text "a.ogg")) ≡ (text "music" ∷ [], text "a.ogg")
split_file_path-join_example =
    split_file_path-join (text "music" ∷ []) (text "a.ogg") (music, tt) a_ogg
