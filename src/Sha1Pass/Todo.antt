-- ===== src/Sha1Pass/Todo.antt =====
-- The files that `sha1_mounted_files` hashes (src/engine/sha1_pass.cpp).
use reflash.Base.{
  subst, Bool, ◌&&◌, ◌||◌, not, if◌then◌else◌, text_eq_refl, sym, ap, ◌≡◌, refl, ◌∙◌, true, false,
  Option, none, some, List, [], ◌∷◌, Text, text_eq, arith,
}
use reflash.Store.{ObjectRecord}
use reflash.Store.Path.{special_path}
use reflash.Sha1Pass.Walk.{FileMap, put}
use reflash.Sha1Pass.{find, put_found, find_lower, lower, add_object, add_objects, todo_of}

pub text_eq_sound : (xs ys : Text) → text_eq xs ys ≡ true → xs ≡ ys
text_eq_sound [] [] e = refl
text_eq_sound [] (y ∷ ys) e = ground arith
text_eq_sound (x ∷ xs) [] e = ground arith
text_eq_sound (x ∷ xs) (y ∷ ys) e = ground (arith, text_eq_sound xs ys)

-- A file that is put under another path is not in the way.
find-put :
    (key value path : Text) (m : FileMap)
    → text_eq path key ≡ false
    → find (put key value m) path ≡ find m path
unfolding put find
find-put key value path [] e = ground arith
find-put key value path ((k, v) ∷ rest) e =
    ground (arith, find-put key value path rest e, text_eq_sound key k)

find-put_same : (key value : Text) (m : FileMap) → find (put key value m) key ≡ some value
unfolding put find
find-put_same key value [] = ground (arith, text_eq_refl key)
find-put_same key value ((k, v) ∷ rest) =
    ground (arith, find-put_same key value rest, text_eq_refl key)

pub or_else : Option Text → Option Text → Option Text
or_else none other = other
or_else (some file) other = some file

-- Whether the database has a record of the path, one that is not of a special object.
pub is_recorded : List ObjectRecord → Text → Bool
is_recorded [] path = false
is_recorded (o ∷ os) path = (text_eq path o.path && not (special_path path)) || is_recorded os path

put_found-find :
    (key : Text) (found : Option Text) (todo : FileMap)
    → find todo key ≡ none
    → find (put_found key found todo) key ≡ found
unfolding put_found
put_found-find key none todo lost = lost
put_found-find key (some file) todo lost = find-put_same key file todo

put_found-other :
    (key path : Text) (found : Option Text) (todo : FileMap)
    → text_eq path key ≡ false
    → find (put_found key found todo) path ≡ find todo path
unfolding put_found
put_found-other key path none todo e = refl
put_found-other key path (some file) todo e = find-put key file path todo e

-- The record of the path itself.
add_object-same :
    (files : FileMap) (key : Text) (todo : FileMap) (found : Option Text) (special : Bool)
    → find todo key ≡ found
    → special_path key ≡ special
    → find (add_object files key todo) key
      ≡ or_else found (if not special then find_lower files (lower key) else none)
unfolding add_object or_else
add_object-same files key todo none true e s = rw (s, e) refl
add_object-same files key todo (some file) true e s = rw (s, e) refl
add_object-same files key todo none false e s =
    rw (s, e) (put_found-find key (find_lower files (lower key)) todo e)
add_object-same files key todo (some file) false e s = rw (s, e) e

add_object-other :
    (files : FileMap) (key path : Text) (todo : FileMap)
    → text_eq path key ≡ false
    → find (add_object files key todo) path ≡ find todo path
unfolding add_object
add_object-other files key path todo e =
    let other = put_found-other key path (find_lower files (lower key)) todo e in
    ground (arith, other)

or_else-none : (r : Option Text) → or_else r none ≡ r
unfolding or_else
or_else-none none = refl
or_else-none (some file) = refl

or_else_twice :
    (r other : Option Text) (a b : Bool)
    → or_else (or_else r (if a then other else none)) (if b then other else none)
      ≡ or_else r (if a || b then other else none)
unfolding or_else
or_else_twice (some file) other a b = refl
or_else_twice none none true b = ground arith
or_else_twice none (some file) true b = refl
or_else_twice none other false b = refl

add_object-find :
    (files : FileMap) (key path : Text) (todo : FileMap) (same : Bool)
    → text_eq path key ≡ same
    → find (add_object files key todo) path
      ≡ or_else
          (find todo path)
          (if same && not (special_path path) then find_lower files (lower path) else none)
add_object-find files key path todo true e =
    subst
      (λ k.
        find (add_object files k todo) path
        ≡ or_else (find todo path)
            (if not (special_path path) then find_lower files (lower path) else none))
      (text_eq_sound path key e)
      (add_object-same files path todo (find todo path) (special_path path) refl refl)
add_object-find files key path todo false e =
    add_object-other files key path todo e ∙ sym (or_else-none (find todo path))

add_objects-find :
    (files : FileMap) (objects : List ObjectRecord) (path : Text) (todo : FileMap)
    → find (add_objects files objects todo) path
      ≡ or_else
          (find todo path)
          (if is_recorded objects path then find_lower files (lower path) else none)
unfolding add_objects is_recorded
add_objects-find files [] path todo = sym (or_else-none (find todo path))
add_objects-find files (o ∷ os) path todo =
    add_objects-find files os path (add_object files o.path todo)
    ∙ (ap (λ r. or_else r (if is_recorded os path then find_lower files (lower path) else none))
          (add_object-find files o.path path todo _ refl)
        ∙ or_else_twice (find todo path) (find_lower files (lower path))
            (text_eq path o.path && not (special_path path)) (is_recorded os path))

-- What `sha1_mounted_files` is to hash, for the map that the walk of the mounts has left. Under a
-- path that the walk found it is the file found there. Under another path it is, where the database
-- has a record of that path that is not of a special object, the first file found whose path is
-- the same but for the case. Under all other paths there is nothing.
pub todo_of-find :
    (files : FileMap) (objects : List ObjectRecord) (path : Text)
    → find (todo_of files objects) path
      ≡ or_else
          (find files path)
          (if is_recorded objects path then find_lower files (lower path) else none)
unfolding todo_of
todo_of-find files objects path = add_objects-find files objects path files
