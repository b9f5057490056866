-- ===== src/Progress/Cells.antt =====
-- The cell map under `mark_cell`, `mark_cell_locked` of src/engine/progress.cpp.
use reflash.Base.{
  ◌⊎◌, ℕ, zero, suc, ◌+◌, ◌-◌, ◌*◌, ◌/◌, ◌%◌, ◌≤◌, ◌<◌, ◌≡◌, ◌↔◌, refl, ◌&&◌, List, arith, leb,
  if◌then◌else◌, length, get_or, set, length-set, get_or-set_self, get_or-set_ne, u64_mod,
}
use native.Mathlib.Nat.{le-div_iff_mul-le, div-lt_iff_lt-mul}
use reflash.Progress.{
  CellStatus, pending, Double, Progress, paint, mark_loop, mark_cell, at_least_one,
}

length-mark_loop :
    (fuel i end : ℕ) (st : CellStatus) (cells : List CellStatus)
    → length (mark_loop fuel i end st cells) ≡ length cells
unfolding mark_loop
length-mark_loop zero i end st cells = refl
length-mark_loop (suc fuel) i end st cells =
    let v = paint st (get_or cells i pending) in
    ground (arith, length-mark_loop fuel (i + 1) end st (set cells i v), length-set cells i v)

-- The loop paints the cells from `i` up to `end` and no other.
get_or-mark_loop :
    (fuel i end : ℕ) (st : CellStatus) (cells : List CellStatus) (j : ℕ)
    → length cells ≤ i + fuel
    → j < length cells
    → get_or (mark_loop fuel i end st cells) j pending
      ≡ (if leb i j && leb j end then paint st (get_or cells j pending) else get_or cells j pending)
unfolding mark_loop
get_or-mark_loop zero i end st cells j h lt = ground arith
get_or-mark_loop (suc fuel) i end st cells j h lt =
    let v = paint st (get_or cells i pending) in
    ground (
      arith,
      get_or-mark_loop fuel (i + 1) end st (set cells i v) j,
      length-set cells i v,
      get_or-set_self cells i v pending,
      get_or-set_ne cells i j v pending,
    )

-- Whether cell `j` of `size` bytes has a byte of the `len` bytes from `offset`; an empty range
-- counts as one byte.
abbrev pub Touches : ℕ → ℕ → ℕ → ℕ → Type 0
Touches size j offset len = (j * size < offset + at_least_one len) × (offset < (j + 1) * size)

touches_iff :
    (size j offset last : ℕ)
    → 0 < size
    → ((offset / size ≤ j) × (j ≤ last / size)) ↔ ((offset < (j + 1) * size) × (j * size ≤ last))
touches_iff size j offset last h =
    let low = div-lt_iff_lt-mul {k = size} {x = offset} {y = j + 1} h in
    let high = le-div_iff_mul-le {k = size} {x = j} {y = last} h in
    (
      λ p. (low.0 (omega (arith, p.0)), high.0 p.1),
      λ p. (let q = low.1 p.0 in omega arith, high.1 p.1),
    )

module _ {F : Type 0} ⦃fl : Double F⦄ where
  pub length-mark_cell :
      (offset len : ℕ) (st : CellStatus) (p : Progress F)
      → length (mark_cell offset len st p).cells ≡ length p.cells
  unfolding mark_cell
  length-mark_cell offset len st p = ground (
    arith,
    length-mark_loop (length p.cells) (offset / p.cell_size)
        ((offset + at_least_one len + (u64_mod - 1)) % u64_mod / p.cell_size) st p.cells,
  )

  -- Marking a byte range paints every cell that has a byte of the range, and leaves every other
  -- cell as it was, whatever the map showed before. The range must end within 64 bits, and the
  -- cell size is not zero.
  pub mark_cell_paints :
      (offset len : ℕ) (st : CellStatus) (p : Progress F) (j : ℕ)
      → 0 < p.cell_size
      → offset + at_least_one len ≤ u64_mod
      → j < length p.cells
      → let after = get_or (mark_cell offset len st p).cells j pending in
        let before = get_or p.cells j pending in
        (Touches p.cell_size j offset len → after ≡ paint st before)
        × (¬ Touches p.cell_size j offset len → after ≡ before)
  unfolding mark_cell
  mark_cell_paints offset len st p j pos fits lt =
      let last = offset + at_least_one len - 1 in
      let wraps : (offset + at_least_one len + (u64_mod - 1)) % u64_mod ≡ last = ground arith in
      let at = touches_iff p.cell_size j offset last pos in
      let loop =
        get_or-mark_loop (length p.cells) (offset / p.cell_size) (last / p.cell_size) st p.cells j
          (omega arith) lt in
      rw wraps (ground (arith, at, loop))

  -- A cell is painted or left alone, also where the range leaves 64 bits.
  pub mark_cell_either :
      (offset len : ℕ) (st : CellStatus) (p : Progress F) (j : ℕ)
      → j < length p.cells
      → let after = get_or (mark_cell offset len st p).cells j pending in
        let before = get_or p.cells j pending in (after ≡ before) ⊎ (after ≡ paint st before)
  unfolding mark_cell
  mark_cell_either offset len st p j lt =
      let start = offset / p.cell_size in
      let end = (offset + at_least_one len + (u64_mod - 1)) % u64_mod / p.cell_size in
      ground (arith, get_or-mark_loop (length p.cells) start end st p.cells j (omega arith) lt)
