-- ===== src/Sha1Pass/Tests.antt =====
-- The SHA-1 pass on a small database and a small file (src/engine/sha1_pass.cpp).
use reflash.Base.{if◌then◌else◌, none, ℕ, ◌≡◌, refl, ap, true, some, List, [], ◌∷◌, ◌++◌}
use reflash.Store.{VerifyStatus, ObjectRecord, get_locked, bump_verify}
use reflash.Store.Tests.{
  tables, tables-IsDocumented, volume_1, volume_1-Ready, song, song_verified, song_file,
}
use reflash.Sha1Pass.{find, find_lower, lower, todo_of, differs, status_of, verified}
use reflash.Sha1Pass.Walk.{FileMap}
use reflash.Sha1Pass.Todo.{or_else, is_recorded, todo_of-find}
use reflash.Sha1Pass.File.{Answer, got, interrupted, Evp, opened_file, digest, sha1_file}
use reflash.Sha1Pass.File.Content.{IsIncremental, sha1_file-IsDigestOf}
use reflash.Sha1Pass.Verified.{verified-status_of}

-- The hash in the database is another one.
song_differs :
    (bump_verify tables song.path
      (status_of (some song) (3 ∷ 4 ∷ []))
      (some (3 ∷ 4 ∷ []))
      5000
      volume_1).0.0
    ≡ true
unfolding status_of differs
song_differs = song_verified

verified-status_of_example :
    (o : ObjectRecord) × (((get_locked tables song.path
          (verified tables 5000 song.path (3 ∷ 4 ∷ []) (some song, volume_1))).0
        ≡ some o)
      × ((o.verify_status ≡ status_of (some song) (3 ∷ 4 ∷ []))
          × (status_of (some o) (3 ∷ 4 ∷ []) ≡ VerifyStatus.ok)))
verified-status_of_example =
    verified-status_of tables tables-IsDocumented 5000 song.path (3 ∷ 4 ∷ []) (some song) volume_1
      song_file volume_1-Ready song_differs

-- A digest that is the message.
abbrev whole : Evp (List ℕ)
whole = record { init = some []; update = λ c xs. c ++ xs; final = λ c. c }

append_assoc : (xs ys zs : List ℕ) → (xs ++ ys) ++ zs ≡ xs ++ (ys ++ zs)
append_assoc [] ys zs = refl
append_assoc (x ∷ xs) ys zs = ap (λ r. x ∷ r) (append_assoc xs ys zs)

append_nil : (xs : List ℕ) → xs ++ [] ≡ xs
append_nil [] = refl
append_nil (x ∷ xs) = ap (λ r. x ∷ r) (append_nil xs)

whole-IsIncremental : IsIncremental whole
whole-IsIncremental = record { update_append = append_assoc; update_empty = append_nil }

-- Two pieces with an interrupted call between them.
abbrev two_pieces : List Answer
two_pieces = got (1 ∷ 2 ∷ []) ∷ interrupted ∷ got (3 ∷ []) ∷ []

sha1_file-IsDigestOf_example : sha1_file whole (opened_file two_pieces) ≡ digest (1 ∷ 2 ∷ 3 ∷ [])
sha1_file-IsDigestOf_example = sha1_file-IsDigestOf whole whole-IsIncremental [] refl two_pieces

-- A recorded path in another case is hashed as well.
abbrev one_file : FileMap
one_file = (b'/' ∷ b'a' ∷ [], b'm' ∷ b'/' ∷ b'a' ∷ []) ∷ []

todo_of-find_example :
    find (todo_of one_file (record song { path = b'/' ∷ b'A' ∷ [] } ∷ [])) (b'/' ∷ b'A' ∷ [])
    ≡ or_else (find one_file (b'/' ∷ b'A' ∷ [])) (
        if is_recorded (record song { path = b'/' ∷ b'A' ∷ [] } ∷ []) (b'/' ∷ b'A' ∷ [])
        then find_lower one_file (lower (b'/' ∷ b'A' ∷ []))
        else none)
todo_of-find_example =
    todo_of-find one_file (record song { path = b'/' ∷ b'A' ∷ [] } ∷ []) (b'/' ∷ b'A' ∷ [])
