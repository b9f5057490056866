-- ===== src/Fs/Ntfs/Loop.antt =====
-- The loop over the attributes of a record (src/fs/ntfs.cpp, `collect_nonresident_attrs`): when it
-- ends. The offset of an attribute has 16 bits and its length 32.
use reflash.Base.{
  ℕ, zero, suc, ◌+◌, ◌%◌, ◌<◌, ◌≡◌, refl, ap, ◌∙◌, true, List, drop, arith, byte, r16, r32, u16_mod,
}
use reflash.Fs.{returned, out_of_fuel}
use reflash.Fs.Ntfs.{Attrs, attr, at_attr, collect_loop}

attr-aoff :
    (rec : List ℕ) (base bps spc : ℕ) (s next : Attrs)
    → attr rec base bps spc s ≡ returned next
    → next.aoff ≡ (s.aoff + r32 (drop s.aoff rec) 4) % u16_mod
unfolding attr
attr-aoff rec base bps spc s next h = ground arith

-- The offsets of the attributes of a record, one after the other.
pub data Attribute (rec : List ℕ) : ℕ → Type 0 where
  first_attr : Attribute rec (r16 rec 20)
  next_attr :
      {aoff : ℕ}
      → Attribute rec aoff
      → at_attr rec aoff ≡ true
      → Attribute rec (aoff + r32 (drop aoff rec) 4)

-- No attribute of the record reaches 2^16.
unfoldable pub Short : List ℕ → Type 0
Short rec =
    (aoff : ℕ)
    → Attribute rec aoff
    → at_attr rec aoff ≡ true
    → aoff + r32 (drop aoff rec) 4 < u16_mod

attr-resident :
    (rec : List ℕ) (base bps spc : ℕ) (s : Attrs)
    → byte (drop s.aoff rec) 8 ≡ 0
    → (next : Attrs) × (attr rec base bps spc s ≡ returned next)
unfolding attr
attr-resident rec base bps spc s h = rw (attr, h) (_, refl)

-- A resident attribute whose length is a multiple of 2^16 keeps the loop where it is: no number of
-- rounds is enough.
pub collect_loop-stuck :
    (rec : List ℕ) (base bps spc : ℕ) (s : Attrs)
    → s.aoff < u16_mod
    → at_attr rec s.aoff ≡ true
    → byte (drop s.aoff rec) 8 ≡ 0
    → r32 (drop s.aoff rec) 4 % u16_mod ≡ 0
    → (fuel : ℕ) → collect_loop fuel rec base bps spc s ≡ out_of_fuel
unfolding collect_loop
collect_loop-stuck rec base bps spc s here at_ resident stay zero = refl
collect_loop-stuck rec base bps spc s here at_ resident stay (suc f) =
    let (next, step) = attr-resident rec base bps spc s resident in
    let moved = attr-aoff rec base bps spc s next step in
    let same : next.aoff ≡ s.aoff = omega arith in
    let later =
      collect_loop-stuck rec base bps spc next (omega arith) (ap (at_attr rec) same ∙ at_)
        (ap (λ o. byte (drop o rec) 8) same ∙ resident)
        (ap (λ o. r32 (drop o rec) 4 % u16_mod) same ∙ stay) f in
    rw (collect_loop, at_) (rw step later)
