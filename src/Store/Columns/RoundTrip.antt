-- ===== src/Store/Columns/RoundTrip.antt =====
-- What is read of a row after it was written (src/db/store.cpp), column by column.
use reflash.Base.{
  ℕ, ◌≡◌, refl, Bool, true, false, Option, none, some, List, [], ◌∷◌, map, ap, ◌∙◌, ◌||◌,
  if◌then◌else◌, length, Text, text, text_eq, arith,
}
use reflash.Store.{VerifyStatus, ObjectRecord, or_kept}
use reflash.Store.Opening.{read_sha1}
use reflash.Store.Columns.{
  Value, null, integer, bytes, Row, Assignment, excluded, coalesce, Upsert, bound, bind_sha1,
  status_int, status_of_int, column_int, column_blob, column_text, special_upsert, special_values,
  special_columns, column, read_columns, read_special, file_upsert, file_values, file_columns,
}

abbrev pub or_value : Value → Value → Value
or_value null old = old
or_value (integer n) old = integer n
or_value (bytes t) old = bytes t

-- The assignment to a column.
pub assigned : List Assignment → Text → Option Assignment
assigned [] c = none
assigned (excluded n ∷ rest) c =
    let later = assigned rest c in if text_eq c n then some (excluded n) else later
assigned (coalesce n ∷ rest) c =
    let later = assigned rest c in if text_eq c n then some (coalesce n) else later

-- What SQLite documents of an upsert that succeeds: the row that the statement leaves where there was
-- none, and where one was in conflict with it. A column that is neither bound nor assigned to is of
-- no concern here, but for the old row, which keeps it.
pub record IsUpsert (row_after : Upsert → List Value → Option Row → Row) : Type 0 where
  pub inserted :
      (st : Upsert) (values : List Value) (c : Text) (v : Value)
      → bound st.columns values c ≡ some v
      → row_after st values none c ≡ v
  pub updated :
      (st : Upsert) (values : List Value) (old : Row) (c : Text) (v : Value)
      → bound st.columns values c ≡ some v
      → assigned st.assignments c ≡ some (excluded c)
      → row_after st values (some old) c ≡ v
  pub coalesced :
      (st : Upsert) (values : List Value) (old : Row) (c : Text) (v : Value)
      → bound st.columns values c ≡ some v
      → assigned st.assignments c ≡ some (coalesce c)
      → row_after st values (some old) c ≡ or_value v (old c)
  pub unassigned :
      (st : Upsert) (values : List Value) (old : Row) (c : Text)
      → assigned st.assignments c ≡ none
      → row_after st values (some old) c ≡ old c

status-round : (s : VerifyStatus) → status_of_int (status_int s) ≡ s
unfolding status_of_int status_int
status-round VerifyStatus.unknown = refl
status-round VerifyStatus.ok = refl
status-round VerifyStatus.fail = refl

-- The hash of a row, where there is one.
pub hash_of : Option Row → Option Text
hash_of none = none
hash_of (some old) = read_sha1 (column_blob (old (text "sha1")))

-- A hash is of twenty bytes.
abbrev pub IsHash : Option Text → Type 0
IsHash none = Unit
IsHash (some sha1) = length sha1 ≡ 20

kept_hash :
    (sha1 : Option Text) (old : Value)
    → IsHash sha1
    → read_sha1 (column_blob (or_value (bind_sha1 sha1) old))
      ≡ or_kept sha1 (read_sha1 (column_blob old))
unfolding read_sha1 column_blob bind_sha1 or_kept
kept_hash none old h = refl
kept_hash (some sha1) old h = ground arith

new_hash :
    (sha1 : Option Text)
    → IsHash sha1
    → read_sha1 (column_blob (bind_sha1 sha1)) ≡ or_kept sha1 none
unfolding read_sha1 column_blob bind_sha1 or_kept
new_hash none h = refl
new_hash (some sha1) h = ground arith

pub is_in : List Text → Text → Bool
is_in [] c = false
is_in (n ∷ ns) c = text_eq c n || is_in ns c

-- The old row is the one in conflict: it has the values of the conflict's columns.
unfoldable pub Conflicts : Upsert → List Value → Option Row → Type 0
unfolding is_in
Conflicts st values none = Unit
Conflicts st values (some old) =
    (c : Text) (v : Value)
    → is_in st.conflict c ≡ true
    → bound st.columns values c ≡ some v
    → old c ≡ v

module _ (row_after : Upsert → List Value → Option Row → Row) (law : IsUpsert row_after) where
  excluded_after :
      (st : Upsert) (values : List Value) (old : Option Row) (c : Text) (v : Value)
      → bound st.columns values c ≡ some v
      → assigned st.assignments c ≡ some (excluded c)
      → row_after st values old c ≡ v
  excluded_after st values none c v b e = law.inserted st values c v b
  excluded_after st values (some old) c v b e = law.updated st values old c v b e

  key_after :
      (st : Upsert) (values : List Value) (old : Option Row) (c : Text) (v : Value)
      → Conflicts st values old
      → bound st.columns values c ≡ some v
      → is_in st.conflict c ≡ true
      → assigned st.assignments c ≡ none
      → row_after st values old c ≡ v
  unfolding Conflicts
  key_after st values none c v same b k e = law.inserted st values c v b
  key_after st values (some old) c v same b k e = law.unassigned st values old c e ∙ same c v k b

  hash_after :
      (st : Upsert) (values : List Value) (old : Option Row) (sha1 : Option Text)
      → IsHash sha1
      → bound st.columns values (text "sha1") ≡ some (bind_sha1 sha1)
      → assigned st.assignments (text "sha1") ≡ some (coalesce (text "sha1"))
      → read_sha1 (column_blob (row_after st values old (text "sha1"))) ≡ or_kept sha1 (hash_of old)
  unfolding hash_of
  hash_after st values none sha1 h b e =
      ap (λ v. read_sha1 (column_blob v)) (law.inserted st values (text "sha1") _ b)
      ∙ new_hash sha1 h
  hash_after st values (some old) sha1 h b e =
      ap (λ v. read_sha1 (column_blob v)) (law.coalesced st values old (text "sha1") _ b e)
      ∙ kept_hash sha1 (old (text "sha1")) h

  special-round :
      (vol : ℕ) (o : ObjectRecord) (old : Option Row)
      → IsHash o.sha1
      → Conflicts special_upsert (special_values vol o) old
      → read_special o.path
          (map (row_after special_upsert (special_values vol o) old) special_columns)
        ≡ record o { sha1 = or_kept o.sha1 (hash_of old) }
  unfolding read_special read_columns special_columns column column_int column_text special_upsert
      special_values bound assigned is_in
  special-round vol o old h same =
      let set = excluded_after special_upsert (special_values vol o) old in
      rw
        (
          key_after special_upsert (special_values vol o) old (text "type") _ same refl refl refl,
          set (text "size") _ refl refl,
          set (text "last_massage") _ refl refl,
          set (text "massage_count") _ refl refl,
          set (text "verify_status") _ refl refl,
          set (text "verify_count") _ refl refl,
          set (text "verified_at") _ refl refl,
          hash_after special_upsert (special_values vol o) old o.sha1 h refl refl,
          status-round o.verify_status,
        )
        refl

  file-round :
      (folder : ℕ) (base : Text) (o : ObjectRecord) (old : Option Row)
      → IsHash o.sha1
      → read_columns o.path
          (map (row_after file_upsert (file_values folder base o) old) file_columns)
        ≡ record o { sha1 = or_kept o.sha1 (hash_of old) }
  unfolding read_columns file_columns column column_int file_upsert file_values bound assigned
  file-round folder base o old h =
      let set = excluded_after file_upsert (file_values folder base o) old in
      rw
        (
          set (text "size") _ refl refl,
          set (text "last_massage") _ refl refl,
          set (text "massage_count") _ refl refl,
          set (text "verify_status") _ refl refl,
          set (text "verify_count") _ refl refl,
          set (text "verified_at") _ refl refl,
          hash_after file_upsert (file_values folder base o) old o.sha1 h refl refl,
          status-round o.verify_status,
        )
        refl

-- Where SQLite does an upsert as it is documented: the row that `upsert_special_locked` and
-- `upsert_file_locked` write is read by `get_special_locked` and `get_file_locked` as the record that
-- was given, column by column, whether or not there was a row before. Its hash is the one that was
-- given, of twenty bytes, or else that of the row that was there before, or none.
pub read_special-upsert :
    (row_after : Upsert → List Value → Option Row → Row)
    → IsUpsert row_after
    → (vol folder : ℕ) (base : Text) (o : ObjectRecord) (old old_file : Option Row) → IsHash o.sha1
    → Conflicts special_upsert (special_values vol o) old
    → (read_special o.path
          (map (row_after special_upsert (special_values vol o) old) special_columns)
        ≡ record o { sha1 = or_kept o.sha1 (hash_of old) })
      × (read_columns o.path
            (map (row_after file_upsert (file_values folder base o) old_file) file_columns)
          ≡ record o { sha1 = or_kept o.sha1 (hash_of old_file) })
read_special-upsert row_after law vol folder base o old old_file h same = (
  special-round row_after law vol o old h same,
  file-round row_after law folder base o old_file h,
)
