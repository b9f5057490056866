-- ===== src/Store/Path.antt =====
-- `special_path` and `split_file_path` (src/db/store.cpp).
pub mod Split
use reflash.Base.{ℕ, Bool, ◌&&◌, List, [], ◌∷◌, ◌++◌, leb, ◌==◌, if◌then◌else◌, length, Text, byte}

unfoldable pub special_path : Text → Bool
special_path path = leb 2 (length path) && ((byte path 0 == b':') && (byte path 1 == b':'))

unfoldable pub strip_front : Text → Text
strip_front [] = []
strip_front (c ∷ cs) = let rest = strip_front cs in if c == b'/' then rest else c ∷ cs

unfoldable pub strip_back : Text → Text
strip_back [] = []
strip_back (c ∷ cs) =
    let rest = strip_back cs in if (c == b'/') && (length rest == 0) then [] else c ∷ rest

-- `push_back` of a part that is not empty, before the parts after it.
unfoldable pub with_part : Text → List Text → List Text
with_part [] rest = rest
with_part (c ∷ cs) rest = (c ∷ cs) ∷ rest

-- The loop over the characters, with the part so far.
unfoldable pub parts_of : Text → Text → List Text
parts_of cur [] = with_part cur []
parts_of cur (c ∷ cs) =
    let next = parts_of [] cs in
    let more = parts_of (cur ++ c ∷ []) cs in if c == b'/' then with_part cur next else more

-- The last part, and those before it.
unfoldable pub split_last : List Text → List Text × Text
split_last [] = ([], [])
split_last (x ∷ []) = ([], x)
split_last (x ∷ y ∷ rest) = let s = split_last (y ∷ rest) in (x ∷ s.0, s.1)

unfoldable pub split_file_path : Text → List Text × Text
split_file_path path = split_last (parts_of [] (strip_back (strip_front path)))
