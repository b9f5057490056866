-- ===== src/Progress/Reset.antt =====
-- The choice of the cell size in `Progress::reset` (src/engine/progress.cpp).
use native.Mathlib.Nat.{
  div-eq_of_lt-le, pow-suc, mul-le-mul_right, mul-le-mul_left, div-add-mod', le-mul_of_pos_right,
  pow-le-pow_right,
}
use native.Mathlib.Numerals.{add-one}
use reflash.Base.{
  ℕ, zero, suc, ◌+◌, ◌-◌, ◌*◌, ◌/◌, ◌%◌, ◌^◌, ◌≤◌, ◌<◌, ◌≡◌, ◌⊎◌, inl, inr, refl, ap, ◌&&◌, arith,
  ltb, leb, Bool-cases, length, length-replicate, u64_mod, leb→le, leb-false→lt,
}
use reflash.Progress.{
  pending, Double, Progress, grow, choose_shift, count_units, block_or_default, reset, at_least_one,
}

-- `cells` units of `unit` bytes hold `total` bytes, and one unit less does not.
abbrev Fits : ℕ → ℕ → ℕ → Type 0
Fits total unit cells = (total ≤ cells * unit) × (cells * unit < total + unit)

halve_mul :
    (c h unit : ℕ)
    → c ≤ 2 * h
    → 2 * h ≤ c + 1
    → (c * unit ≤ h * (2 * unit)) × (h * (2 * unit) ≤ c * unit + unit)
halve_mul c h unit low high =
    let low' : c * unit ≤ 2 * h * unit = mul-le-mul_right unit low in
    let high' : 2 * h * unit ≤ (c + 1) * unit = mul-le-mul_right unit high in omega arith

Fits-halve : (total unit c : ℕ) → Fits total unit c → Fits total (2 * unit) ((c + 1) / 2)
Fits-halve total unit c h =
    omega (arith, halve_mul c ((c + 1) / 2) unit (omega arith) (omega arith))

pow-add_one : (n : ℕ) → 2 ^ (n + 1) ≡ 2 * 2 ^ n
pow-add_one n = rw add-one (rw pow-suc (omega arith))

record IsGrown (total block start shift cells : ℕ) : Type 0 where
  fits : Fits total (block * 2 ^ shift) cells
  small : (cells ≤ 4096) ⊎ (shift ≡ 40)
  grown : (shift ≡ start) ⊎ (2048 < cells)
  bound : shift ≤ 40

grow-IsGrown :
    (fuel total block start cells shift : ℕ)
    → shift + fuel ≡ 40
    → cells + 1 < u64_mod
    → (shift ≡ start) ⊎ (2048 < cells)
    → Fits total (block * 2 ^ shift) cells
    → IsGrown total block start (grow fuel cells shift).1 (grow fuel cells shift).0
unfolding grow
grow-IsGrown zero total block start cells shift e lt g h = record {
  fits = h;
  small = inr (omega arith);
  grown = g;
  bound = omega arith;
}
grow-IsGrown (suc fuel) total block start cells shift e lt g h =
    elim (Bool-cases (ltb 4096 cells && ltb shift 40)) [
      | inl more ↦
          let big : 4096 < cells = ground arith in
          let room : (cells + 1) % u64_mod ≡ cells + 1 = omega arith in
          let unit : 2 * (block * 2 ^ shift) ≡ block * 2 ^ (shift + 1) =
            omega (arith, ap (λ (t : ℕ). block * t) (pow-add_one shift)) in
          rw (more, room)
            (grow-IsGrown fuel total block start ((cells + 1) / 2) (shift + 1) (omega arith)
              (omega arith) (inr (omega arith))
              (rw (← unit) (Fits-halve total (block * 2 ^ shift) cells h)))
      | inr done ↦
          rw done (record { fits = h; small = ground arith; grown = g; bound = omega arith })
    ]

count_units-Fits :
    (total unit : ℕ)
    → 0 < total
    → 0 < unit
    → total + unit ≤ u64_mod
    → Fits total unit (count_units total unit)
unfolding count_units
count_units-Fits total unit pos upos room =
    let n = total + unit - 1 in
    let wraps : (total + unit + (u64_mod - 1)) % u64_mod ≡ n = omega arith in
    let whole = div-add-mod' n unit in
    let part : n % unit < unit = omega arith in
    let count : count_units total unit ≡ n / unit = ground (arith, wraps) in rw count (omega arith)

Fits-count_units :
    (total unit n : ℕ)
    → 0 < total
    → 0 < unit
    → total + unit ≤ u64_mod
    → Fits total unit n
    → count_units total unit ≡ n
unfolding count_units
Fits-count_units total unit n pos upos room h =
    let wraps : (total + unit + (u64_mod - 1)) % u64_mod ≡ total + unit - 1 = omega arith in
    let div : (total + unit - 1) / unit ≡ n =
      div-eq_of_lt-le {k = n} unit (omega arith) (omega arith) in
    ground (arith, wraps, div)

-- The shift that `reset` chooses, and the number of cells that it leaves.
choose_shift-IsGrown :
    (total block : ℕ)
    → 0 < total
    → 0 < block
    → total + block * 2 ^ 40 ≤ u64_mod
    → (n : ℕ) × IsGrown total block 0 (choose_shift total block) n
unfolding choose_shift
choose_shift-IsGrown total block pos bpos room =
    let c = count_units total block in
    let first = count_units-Fits total block pos bpos (omega arith) in
    let one : block * 2 ^ 0 ≡ block = omega arith in
    let few : c ≤ c * block = le-mul_of_pos_right c bpos in
    (
      (grow 40 c 0).0,
      grow-IsGrown 40 total block 0 c 0 refl (omega arith) (inl refl) (rw one first),
    )

pos_of_le-mul : (n u t : ℕ) → 0 < t → t ≤ n * u → 0 < n
pos_of_le-mul zero u t pos h = omega arith
pos_of_le-mul (suc n) u t pos h = omega arith

le_of_lt-mul :
    (n b total : ℕ) → n * (b * 2 ^ 40) < total + b * 2 ^ 40 → total ≤ 2 ^ 52 * b → n ≤ 4096
le_of_lt-mul n b total h cap = elim (Bool-cases (leb n 4096)) [
  | inl small ↦ leb→le n 4096 small
  | inr big ↦
      let big' : 4097 ≤ n = leb-false→lt n 4096 big in
      let many : 4097 * b ≤ n * b = mul-le-mul_right b big' in absurd (omega arith)
]

-- The numbers that `reset` stores, with nothing lost to the 64-bit wrap-around.
record IsMap (total block shift : ℕ) : Type 0 where
  unit : block * 2 ^ shift % u64_mod ≡ block * 2 ^ shift
  some_cell : 0 < count_units total (block * 2 ^ shift)
  few : count_units total (block * 2 ^ shift) ≤ 4096
  covers : Fits total (block * 2 ^ shift) (count_units total (block * 2 ^ shift))
  grown : (shift ≡ 0) ⊎ (2048 < count_units total (block * 2 ^ shift))

choose_shift-IsMap :
    (total block : ℕ)
    → 0 < total
    → 0 < block
    → total + block * 2 ^ 40 ≤ u64_mod
    → total ≤ 2 ^ 52 * block
    → IsMap total block (choose_shift total block)
choose_shift-IsMap total block pos bpos room cap =
    let (n, g) = choose_shift-IsGrown total block pos bpos room in
    let s = choose_shift total block in
    let pow : 2 ^ s ≤ 2 ^ 40 = pow-le-pow_right (omega arith) g.bound in
    let top : block * 2 ^ s ≤ block * 2 ^ 40 = mul-le-mul_left block pow in
    let bottom : block ≤ block * 2 ^ s =
      le-mul_of_pos_right block
        (pow-le-pow_right {n = 2} (omega arith) {i = 0} {j = s} (omega arith)) in
    let num : count_units total (block * 2 ^ s) ≡ n =
      Fits-count_units total (block * 2 ^ s) n pos (omega arith) (omega arith) g.fits in
    let some_n : 0 < n = pos_of_le-mul n (block * 2 ^ s) total pos g.fits.0 in
    let few_n : n ≤ 4096 = elim g.small [
      | inl small ↦ small
      | inr e ↦ le_of_lt-mul n block total (rw e at g.fits.1) cap
    ] in
    record {
      unit = omega arith;
      some_cell = rw num some_n;
      few = rw num few_n;
      covers = rw num g.fits;
      grown = rw num g.grown;
    }

module _ {F : Type 0} ⦃fl : Double F⦄ where
  -- On a map of `total` bytes `reset` leaves at most 4096 cells. They cover every byte, and one
  -- cell less would not. A cell is more than one block only where over 2048 cells remain. The
  -- target is not empty, is at most 2^52 blocks long, and the sums do not leave 64 bits.
  pub reset_map :
      (total block_size : ℕ) (p : Progress F)
      → 0 < total
      → total + block_or_default block_size * 2 ^ 40 ≤ u64_mod
      → total ≤ 2 ^ 52 * block_or_default block_size
      → let r = reset total block_size p in
        let n = length r.cells in
        (n ≤ 4096)
        × (total ≤ n * r.cell_size)
        × (n * r.cell_size < total + r.cell_size)
        × ((r.cell_shift ≡ 0) ⊎ (2048 < n))
  unfolding reset
  reset_map total block_size p pos fits cap =
      let b = block_or_default block_size in
      let m = choose_shift-IsMap total b pos (ground arith) fits cap in
      let cell = b * 2 ^ choose_shift total b in
      let ncells : at_least_one (count_units total cell) ≡ count_units total cell =
        ground (arith, m.some_cell) in
      rw (m.unit, ncells, length-replicate (count_units total cell) pending)
        (m.few, m.covers.0, m.covers.1, m.grown)
