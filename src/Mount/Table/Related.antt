-- ===== src/Mount/Table/Related.antt =====
-- Which names `is_related_device` takes for parts of a disk (src/mount/automount.cpp).
use reflash.Base.{
  Bool-cases, ℕ, ◌≡◌, ◌≤◌, ◌↔◌, ◌⊎◌, inl, inr, refl, ap, ◌∙◌, Bool, true, false, ◌||◌, ◌&&◌, [],
  ◌∷◌, ◌++◌, drop, length, Text, text_eq, text_eq_refl, arith,
}
use reflash.Mount.Table.{
  Shell, starts_with, is_part_char, related_names, is_related_device, same_device_file,
  real_or_self,
}

-- The second name is the first one, a `p` or a decimal digit, and any rest.
pub record IsPartName (w m : Text) : Type 0 where
  pub char : ℕ
  pub rest : Text
  pub is_char : (char ≡ 112) ⊎ ((48 ≤ char) × (char ≤ 57))
  pub whole : m ≡ w ++ char ∷ rest

text_eq_sound : (xs ys : Text) → text_eq xs ys ≡ true → xs ≡ ys
text_eq_sound [] [] e = refl
text_eq_sound [] (y ∷ ys) e = ground arith
text_eq_sound (x ∷ xs) [] e = ground arith
text_eq_sound (x ∷ xs) (y ∷ ys) e = ground (arith, text_eq_sound xs ys)

starts_with-append : (w rest : Text) → starts_with w (w ++ rest) ≡ true
unfolding starts_with
starts_with-append [] rest = refl
starts_with-append (c ∷ cs) rest = ground (arith, starts_with-append cs rest)

drop-append : (w rest : Text) → drop (length w) (w ++ rest) ≡ rest
drop-append [] rest = refl
drop-append (c ∷ cs) rest = drop-append cs rest

is_part_char_sound :
    (c : ℕ) (rest : Text) → is_part_char (c ∷ rest) ≡ true → (c ≡ 112) ⊎ ((48 ≤ c) × (c ≤ 57))
unfolding is_part_char
is_part_char_sound c rest e = ground arith

is_part_char_complete :
    (c : ℕ) (rest : Text) → (c ≡ 112) ⊎ ((48 ≤ c) × (c ≤ 57)) → is_part_char (c ∷ rest) ≡ true
unfolding is_part_char
is_part_char_complete c rest h = ground arith

part_of :
    (w m : Text) → (starts_with w m && is_part_char (drop (length w) m)) ≡ true → IsPartName w m
unfolding starts_with is_part_char
part_of [] [] e = ground arith
part_of [] (c ∷ cs) e = record {
  char = c;
  rest = cs;
  is_char = is_part_char_sound c cs e;
  whole = refl;
}
part_of (p ∷ ps) [] e = ground arith
part_of (p ∷ ps) (c ∷ cs) e =
    let later = part_of ps cs (ground arith) in
    let same : c ≡ p = ground arith in
    record {
      char = later.char;
      rest = later.rest;
      is_char = later.is_char;
      whole = ap (λ x. x ∷ cs) same ∙ ap (λ xs. p ∷ xs) later.whole;
    }

related_part : (w m : Text) → IsPartName w m → related_names w m ≡ true
unfolding related_names
related_part w m part =
    let tail = drop-append w (part.char ∷ part.rest) in
    rw
      (
        part.whole,
        starts_with-append w (part.char ∷ part.rest),
        tail,
        is_part_char_complete part.char part.rest part.is_char,
      )
      (ground arith)

related_names_iff : (w m : Text) → (related_names w m ≡ true) ↔ ((w ≡ m) ⊎ IsPartName w m)
unfolding related_names
related_names_iff w m = (
  λ e.
      elim (text_eq w m)
          as (λ b.
            text_eq w m ≡ b
            → (b || (starts_with w m && is_part_char (drop (length w) m))) ≡ true
            → (w ≡ m) ⊎ IsPartName w m) [
              | true ↦ λ same k. inl (text_eq_sound w m same)
              | false ↦ λ other k. inr (part_of w m k)
            ]
        refl e,
  λ h. elim h [ inl same ↦ rw (← same, text_eq_refl w) refl | inr part ↦ related_part w m part ],
)

any_of :
    (same : Bool) (d m : Text)
    → ((text_eq d m || (same || related_names d m)) ≡ true)
      ↔ ((same ≡ true) ⊎ ((d ≡ m) ⊎ IsPartName d m))
any_of true d m = (λ e. inl refl, λ h. ground arith)
any_of false d m = (
  λ e. elim (Bool-cases (text_eq d m)) [
    | inl equal ↦ inr (inl (text_eq_sound d m equal))
    | inr other ↦ inr ((related_names_iff d m).0 (ground arith))
  ],
  λ h. elim h [
    | inl never ↦ ground arith
    | inr names ↦ let related = (related_names_iff d m).1 names in ground arith
  ],
)

pub is_related_device_iff :
    {W : Type 0} (sh : Shell W) (wanted mounted_dev : Text) (w : W)
    → (is_related_device sh wanted mounted_dev w ≡ true) ↔ (
        (same_device_file sh (real_or_self sh wanted w) (real_or_self sh mounted_dev w) w ≡ true)
        ⊎ ((real_or_self sh wanted w ≡ real_or_self sh mounted_dev w)
            ⊎ IsPartName (real_or_self sh wanted w) (real_or_self sh mounted_dev w)))
unfolding is_related_device
is_related_device_iff sh wanted mounted_dev w =
    any_of (same_device_file sh (real_or_self sh wanted w) (real_or_self sh mounted_dev w) w)
      (real_or_self sh wanted w) (real_or_self sh mounted_dev w)
