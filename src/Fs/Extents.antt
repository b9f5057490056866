-- ===== src/Fs/Extents.antt =====
-- The list of extents under `push`, the merge that the scanners of src/fs share.
use reflash.Base.{ℕ, ◌+◌, ◌-◌, ◌%◌, ◌≤◌, ◌<◌, ◌≡◌, ◌↔◌, ◌⊎◌, List, [], ◌∷◌, arith, u64_mod, All}
use reflash.Fs.{FsFileExtent, push, push_all, sum_lengths}

-- The extent lies within `low` and `high`.
abbrev pub Within : ℕ → ℕ → FsFileExtent → Type 0
Within low high e = (low ≤ e.offset) × (e.offset + e.length ≤ high)

-- Byte `b` belongs to the extent, or to one of a list.
abbrev pub Has : FsFileExtent → ℕ → Type 0
Has e b = (e.offset ≤ b) × (b < e.offset + e.length)

abbrev pub Covers : List FsFileExtent → ℕ → Type 0
Covers [] b = ⊥
Covers (x ∷ xs) b = Has x b ⊎ Covers xs b

abbrev pub total : List FsFileExtent → ℕ
total [] = 0
total (x ∷ xs) = x.length + total xs

pub push-Within :
    (low high : ℕ) (xs : List FsFileExtent) (e : FsFileExtent)
    → high < u64_mod
    → All (Within low high) xs
    → Within low high e
    → All (Within low high) (push xs e)
unfolding push
push-Within low high [] e word h k = (k, tt)
push-Within low high (x ∷ []) e word h k = ground arith
push-Within low high (x ∷ y ∷ rest) e word h k = (h.0, push-Within low high (y ∷ rest) e word h.1 k)

-- Merging loses no byte and adds none, as long as extents end within 64 bits.
pub push-Covers :
    (xs : List FsFileExtent) (e : FsFileExtent) (b : ℕ)
    → All (Within 0 (u64_mod - 1)) xs
    → Within 0 (u64_mod - 1) e
    → Covers (push xs e) b ↔ (Covers xs b ⊎ Has e b)
unfolding push
push-Covers [] e b h k = ground arith
push-Covers (x ∷ []) e b h k = ground arith
push-Covers (x ∷ y ∷ rest) e b h k = ground (arith, push-Covers (y ∷ rest) e b h.1 k)

-- Adding an extent adds its length to the bytes of the list, as long as extents end within 64 bits.
pub total-push :
    (xs : List FsFileExtent) (e : FsFileExtent)
    → All (Within 0 (u64_mod - 1)) xs
    → Within 0 (u64_mod - 1) e
    → total (push xs e) ≡ total xs + e.length
unfolding push
total-push [] e h k = ground arith
total-push (x ∷ []) e h k = ground arith
total-push (x ∷ y ∷ rest) e h k = omega (arith, total-push (y ∷ rest) e h.1 k)

pub total-push_le :
    (xs : List FsFileExtent) (e : FsFileExtent) → total (push xs e) ≤ total xs + e.length
unfolding push
total-push_le [] e = ground arith
total-push_le (x ∷ []) e = ground arith
total-push_le (x ∷ y ∷ rest) e = omega (arith, total-push_le (y ∷ rest) e)

pub total-push_all_le : (xs ys : List FsFileExtent) → total (push_all xs ys) ≤ total xs + total ys
unfolding push_all
total-push_all_le xs [] = omega arith
total-push_all_le xs (y ∷ ys) = omega (arith, total-push_all_le (push xs y) ys, total-push_le xs y)

pub sum_lengths-total :
    (xs : List FsFileExtent) (size : ℕ)
    → size + total xs < u64_mod
    → sum_lengths xs size ≡ size + total xs
unfolding sum_lengths
sum_lengths-total [] size h = omega arith
sum_lengths-total (x ∷ xs) size h =
    let here : (size + x.length) % u64_mod ≡ size + x.length = omega arith in
    rw here (omega (arith, sum_lengths-total xs (size + x.length) (omega arith)))
