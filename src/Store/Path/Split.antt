-- ===== src/Store/Path/Split.antt =====
-- `split_file_path` (src/db/store.cpp) and the paths that are joined from names.
use mathlib.Core.List.{append-nil, append_assoc}
use reflash.Base.{
  ◌<◌, ◌≡◌, ◌≢◌, refl, ap, ◌∙◌, sym, List, [], ◌∷◌, ◌++◌, length, length-append, All, arith, Text,
}
use reflash.Store.Path.{strip_front, strip_back, with_part, parts_of, split_last, split_file_path}

-- A name of a directory or a file: it is not empty and has no slash.
unfoldable pub Name : Text → Type 0
Name s = (0 < length s) × All (λ c. c ≢ b'/') s

-- The path without the slash at the front.
unfoldable pub relative : List Text → Text → Text
relative [] base = base
relative (d ∷ ds) base = d ++ b'/' ∷ relative ds base

-- The path of a file below directories.
abbrev pub join : List Text → Text → Text
join dirs base = b'/' ∷ relative dirs base

strip_front-Name : (s rest : Text) → Name s → strip_front (s ++ rest) ≡ s ++ rest
unfolding Name strip_front
strip_front-Name [] rest h = absurd (omega arith)
strip_front-Name (c ∷ cs) rest h = ground (arith, h.1.0)

strip_front-join :
    (dirs : List Text) (base : Text)
    → All Name dirs
    → Name base
    → strip_front (join dirs base) ≡ relative dirs base
unfolding strip_front relative
strip_front-join [] base names name =
    ap strip_front (sym (append-nil base)) ∙ strip_front-Name base [] name ∙ append-nil base
strip_front-join (d ∷ ds) base names name = strip_front-Name d (b'/' ∷ relative ds base) names.0

strip_back-name : (s : Text) → All (λ c. c ≢ b'/') s → strip_back s ≡ s
unfolding strip_back
strip_back-name [] h = refl
strip_back-name (c ∷ cs) h = ground (arith, h.0, strip_back-name cs h.1)

strip_back-append :
    (s rest : Text) → strip_back rest ≡ rest → 0 < length rest → strip_back (s ++ rest) ≡ s ++ rest
unfolding strip_back
strip_back-append [] rest h some_ = h
strip_back-append (c ∷ cs) rest h some_ =
    let later = strip_back-append cs rest h some_ in
    let size = length-append cs rest in rw (strip_back, later) (ground arith)

length-relative : (dirs : List Text) (base : Text) → Name base → 0 < length (relative dirs base)
unfolding Name relative
length-relative [] base name = name.0
length-relative (d ∷ ds) base name = omega (arith, length-append d (b'/' ∷ relative ds base))

strip_back-relative :
    (dirs : List Text) (base : Text)
    → Name base
    → strip_back (relative dirs base) ≡ relative dirs base
unfolding Name relative
strip_back-relative [] base name = strip_back-name base name.1
strip_back-relative (d ∷ ds) base name =
    strip_back-append d (b'/' ∷ relative ds base)
      (strip_back-append (b'/' ∷ []) (relative ds base) (strip_back-relative ds base name)
        (length-relative ds base name))
      (omega arith)

parts_of-last :
    (cur name : Text) → All (λ c. c ≢ b'/') name → parts_of cur name ≡ with_part (cur ++ name) []
unfolding parts_of
parts_of-last cur [] h = ap (λ s. with_part s []) (sym (append-nil cur))
parts_of-last cur (c ∷ cs) h =
    let more = parts_of-last (cur ++ c ∷ []) cs h.1 in
    let same = ap (λ s. with_part s []) (append_assoc cur (c ∷ []) cs) in
    ground (arith, h.0, more, same)

parts_of-name :
    (cur name rest : Text)
    → All (λ c. c ≢ b'/') name
    → parts_of cur (name ++ b'/' ∷ rest) ≡ with_part (cur ++ name) (parts_of [] rest)
unfolding parts_of
parts_of-name cur [] rest h = ap (λ s. with_part s (parts_of [] rest)) (sym (append-nil cur))
parts_of-name cur (c ∷ cs) rest h =
    let more = parts_of-name (cur ++ c ∷ []) cs rest h.1 in
    let same = ap (λ s. with_part s (parts_of [] rest)) (append_assoc cur (c ∷ []) cs) in
    ground (arith, h.0, more, same)

with_part-Name : (s : Text) (rest : List Text) → Name s → with_part s rest ≡ s ∷ rest
unfolding Name with_part
with_part-Name [] rest h = absurd (omega arith)
with_part-Name (c ∷ cs) rest h = refl

parts_of-relative :
    (dirs : List Text) (base : Text)
    → All Name dirs
    → Name base
    → parts_of [] (relative dirs base) ≡ dirs ++ base ∷ []
unfolding relative Name
parts_of-relative [] base names name = parts_of-last [] base name.1 ∙ with_part-Name base [] name
parts_of-relative (d ∷ ds) base names name =
    parts_of-name [] d (relative ds base) names.0.1
    ∙ with_part-Name d _ names.0
    ∙ ap (λ rest. d ∷ rest) (parts_of-relative ds base names.1 name)

split_last-append : (xs : List Text) (x : Text) → split_last (xs ++ x ∷ []) ≡ (xs, x)
unfolding split_last
split_last-append [] x = refl
split_last-append (y ∷ []) x = refl
split_last-append (y ∷ z ∷ rest) x =
    ap (λ (s : List Text × Text). (y ∷ s.0, s.1)) (split_last-append (z ∷ rest) x)

-- Round trip of a path: what is joined from the names of directories and of a file, none of them
-- empty or with a slash in it, is split into the same directories and the same file.
pub split_file_path-join :
    (dirs : List Text) (base : Text)
    → All Name dirs
    → Name base
    → split_file_path (join dirs base) ≡ (dirs, base)
unfolding split_file_path
split_file_path-join dirs base names name = rw (strip_front-join dirs base names name) (
    rw (strip_back-relative dirs base name)
      (rw (parts_of-relative dirs base names name) (split_last-append dirs base)))
