-- ===== src/Fs/Ntfs/Fixup.antt =====
-- The fixup of a record (src/fs/ntfs.cpp, `fixup_record`): the last two bytes of every sector are
-- kept in the update sequence array, and are put back.
use native.Mathlib.Nat.{mul-le-mul_right, suc-mul, add-mul}
use reflash.Base.{
  ℕ, zero, suc, ◌+◌, ◌-◌, ◌*◌, ◌%◌, ◌≤◌, ◌<◌, ◌≡◌, ◌≢◌, ◌⊎◌, inl, inr, subst, refl, ap, ◌∙◌, true,
  List, text_eq, length, length-set, get_or-set_self, get_or-set_ne, take, set, text, arith, byte,
  r16, u64_mod,
}
use reflash.Fs.Ntfs.{sector_tail, fixup_loop, fixup_record}

-- Bytes `pos` and `pos + 1` are replaced, the second by what is read after the first is written.
put_two : List ℕ → ℕ → ℕ → ℕ → List ℕ
put_two rec pos p q = let low = set rec pos (byte rec p) in set low (pos + 1) (byte low q)

put_two-bytes :
    (rec : List ℕ) (pos p q : ℕ)
    → q < pos
    → pos + 1 < length rec
    → (length (put_two rec pos p q) ≡ length rec)
      × ((byte (put_two rec pos p q) pos ≡ byte rec p)
          × ((byte (put_two rec pos p q) (pos + 1) ≡ byte rec q)
              × ((a : ℕ) → a ≢ pos → a ≢ pos + 1 → byte (put_two rec pos p q) a ≡ byte rec a)))
unfolding put_two
put_two-bytes rec pos p q before_ inside =
    let low : List ℕ = set rec pos (byte rec p) in
    let size : length low ≡ length rec = length-set rec pos (byte rec p) in
    (
      length-set low (pos + 1) (byte low q) ∙ size,
      (
        get_or-set_ne low (pos + 1) pos (byte low q) 0 (λ e. omega arith)
            ∙ get_or-set_self rec pos (byte rec p) 0 (omega arith),
        (
          get_or-set_self low (pos + 1) (byte low q) 0 (omega arith)
              ∙ get_or-set_ne rec pos q (byte rec p) 0 (λ e. omega arith),
          λ a off off2.
              get_or-set_ne low (pos + 1) a (byte low q) 0 (λ e. off2 (omega arith))
              ∙ get_or-set_ne rec pos a (byte rec p) 0 (λ e. off (omega arith)),
        ),
      ),
    )

module _ (sector_size usa_off : ℕ) where
  -- After the sectors `i` to `i + n - 1`: the record keeps its length, every one of them ends with
  -- the two bytes of its entry in the array, and every other byte is as before.
  pub Restored : ℕ → ℕ → List ℕ → List ℕ → Type 0
  Restored n i rec out =
      (length out ≡ length rec)
      × (((j : ℕ)
            → i ≤ j
            → j < i + n
            → (byte out (j * sector_size - 2) ≡ byte rec (usa_off + j * 2))
              × (byte out (j * sector_size - 1) ≡ byte rec (usa_off + (j * 2 + 1))))
          × ((a : ℕ)
              → ((j : ℕ)
                  → i ≤ j
                  → j < i + n
                  → (a ≢ j * sector_size - 2) × (a ≢ j * sector_size - 1))
              → byte out a ≡ byte rec a))

  -- The array ends before the end of the first sector.
  Before : ℕ → ℕ → Type 0
  Before n i = (0 < i) × (usa_off + (i + n) * 2 + 2 ≤ sector_size)

  later_sector : (i j : ℕ) → i + 1 ≤ j → i * sector_size + sector_size ≤ j * sector_size
  later_sector i j h =
      let below : (i + 1) * sector_size ≤ j * sector_size = mul-le-mul_right sector_size h in
      omega (arith, below, suc-mul i sector_size)

  first_sector : (i : ℕ) → 0 < i → sector_size ≤ i * sector_size
  first_sector i h =
      let below : 1 * sector_size ≤ i * sector_size = mul-le-mul_right sector_size h in
      omega (arith, below)

  -- The first sector is restored in `rec1`, and the later ones from there.
  module _ (n i : ℕ) (rec rec1 out : List ℕ) (h : Before (suc n) i)
      (low : byte rec1 (i * sector_size - 2) ≡ byte rec (usa_off + i * 2))
      (high : byte rec1 (i * sector_size - 2 + 1) ≡ byte rec (usa_off + (i * 2 + 1)))
      (same : (a : ℕ)
        → a ≢ i * sector_size - 2
        → a ≢ i * sector_size - 2 + 1
        → byte rec1 a ≡ byte rec a)
      (later : Restored n (i + 1) rec1 out) where
    ends_here :
        (byte out (i * sector_size - 2) ≡ byte rec (usa_off + i * 2))
        × (byte out (i * sector_size - 1) ≡ byte rec (usa_off + (i * 2 + 1)))
    unfolding Restored Before
    ends_here =
        let first = first_sector i h.0 in
        (
          later.1.1 (i * sector_size - 2) (λ j le lt.
                (λ e. omega (arith, later_sector i j le), λ e. omega (arith, later_sector i j le)))
              ∙ low,
          later.1.1 (i * sector_size - 1) (λ j le lt.
                (λ e. omega (arith, later_sector i j le), λ e. omega (arith, later_sector i j le)))
              ∙ ap (byte rec1) (omega arith)
              ∙ high,
        )

    ends_later :
        (j : ℕ)
        → i + 1 ≤ j
        → j < i + suc n
        → (byte out (j * sector_size - 2) ≡ byte rec (usa_off + j * 2))
          × (byte out (j * sector_size - 1) ≡ byte rec (usa_off + (j * 2 + 1)))
    unfolding Restored Before
    ends_later j le lt =
        let first = first_sector i h.0 in
        let (one, two) = later.1.0 j le (omega arith) in
        (
          one ∙ same (usa_off + j * 2) (λ e. omega arith) (λ e. omega arith),
          two ∙ same (usa_off + (j * 2 + 1)) (λ e. omega arith) (λ e. omega arith),
        )

    ends_each :
        (j : ℕ)
        → (i ≡ j) ⊎ (i + 1 ≤ j)
        → j < i + suc n
        → (byte out (j * sector_size - 2) ≡ byte rec (usa_off + j * 2))
          × (byte out (j * sector_size - 1) ≡ byte rec (usa_off + (j * 2 + 1)))
    ends_each j (inl e) lt =
        subst
          (λ k.
            (byte out (k * sector_size - 2) ≡ byte rec (usa_off + k * 2))
            × (byte out (k * sector_size - 1) ≡ byte rec (usa_off + (k * 2 + 1))))
          e ends_here
    ends_each j (inr le) lt = ends_later j le lt

    Restored-round : length rec1 ≡ length rec → Restored (suc n) i rec out
    unfolding Restored Before
    Restored-round size = (
      later.0 ∙ size,
      (
        λ j le lt. ends_each j (ground arith) lt,
        λ a off.
            later.1.1 a (λ j le lt. off j (omega arith) (omega arith))
            ∙ same a (off i (omega arith) (omega arith)).0
                (λ e. (off i (omega arith) (omega arith)).1 (omega (arith, first_sector i h.0))),
      ),
    )

  Restored-none : (i : ℕ) (rec : List ℕ) → Restored 0 i rec rec
  unfolding Restored
  Restored-none i rec = (refl, (λ j le lt. absurd (omega arith), λ a off. refl))

  ends_at :
      (i : ℕ) (rec : List ℕ)
      → ((fixup_loop sector_size usa_off 0 i rec).0 ≡ true)
        × Restored 0 i rec (fixup_loop sector_size usa_off 0 i rec).1
  unfolding fixup_loop
  ends_at i rec = (refl, Restored-none i rec)

  fixup_loop-sector :
      (n i pos : ℕ) (rec : List ℕ)
      → sector_tail sector_size i ≡ pos
      → (pos + 2) % u64_mod ≤ length rec
      → fixup_loop sector_size usa_off (suc n) i rec
        ≡ fixup_loop sector_size usa_off n
            (i + 1)
            (put_two rec pos (usa_off + i * 2) (usa_off + (i * 2 + 1)))
  unfolding fixup_loop put_two
  fixup_loop-sector n i pos rec e fits = rw (fixup_loop, e) (ground arith)

  -- The loop reaches its end, with every sector restored.
  fixup_loop-Restored :
      (n i : ℕ) (rec : List ℕ)
      → length rec < u64_mod
      → Before n i
      → (i + n) * sector_size ≤ length rec + sector_size
      → ((fixup_loop sector_size usa_off n i rec).0 ≡ true)
        × Restored n i rec (fixup_loop sector_size usa_off n i rec).1
  unfolding sector_tail Before
  fixup_loop-Restored zero i rec word h room = ends_at i rec
  fixup_loop-Restored (suc n) i rec word h room =
      let first = first_sector i h.0 in
      let here : i * sector_size + n * sector_size ≤ length rec =
        omega (arith, room, add-mul i (suc n) sector_size, suc-mul n sector_size) in
      let tail : sector_tail sector_size i ≡ i * sector_size - 2 = omega arith in
      let (size, (low, (high, same))) =
        put_two-bytes rec (i * sector_size - 2) (usa_off + i * 2) (usa_off + (i * 2 + 1))
          (omega arith) (omega arith) in
      let (ok, later) =
        fixup_loop-Restored n (i + 1)
          (put_two rec (i * sector_size - 2) (usa_off + i * 2) (usa_off + (i * 2 + 1)))
          (omega arith) (omega arith, omega arith)
          (omega (
            arith,
            room,
            size,
            add-mul i (suc n) sector_size,
            suc-mul n sector_size,
            add-mul (i + 1) n sector_size,
            suc-mul i sector_size,
          )) in
      rw (fixup_loop-sector n i (i * sector_size - 2) rec tail (omega arith))
        (ok, Restored-round n i rec _ _ h low high same later size)

fixup_record-loop :
    (rec : List ℕ) (sector_size : ℕ)
    → 8 ≤ length rec
    → text_eq (take 4 rec) (text "FILE") ≡ true
    → r16 rec 4 ≢ 0
    → 2 ≤ r16 rec 6
    → r16 rec 4 + r16 rec 6 * 2 ≤ length rec
    → fixup_record rec sector_size ≡ fixup_loop sector_size (r16 rec 4) (r16 rec 6 - 1) 1 rec
unfolding fixup_record
fixup_record-loop rec sector_size size file some_ many fits = ground arith

-- A record marked FILE whose update sequence array lies before the last two bytes of its first
-- sector and has an entry for each of its sectors passes the fixup: it keeps its length, each of the
-- sectors ends with the two bytes of its entry, and every other byte is as before.
pub fixup_record-Restored :
    (rec : List ℕ) (sector_size : ℕ)
    → length rec < u64_mod
    → text_eq (take 4 rec) (text "FILE") ≡ true
    → r16 rec 4 ≢ 0
    → 2 ≤ r16 rec 6
    → 8 ≤ sector_size
    → r16 rec 4 + r16 rec 6 * 2 + 2 ≤ sector_size
    → (r16 rec 6 - 1) * sector_size ≤ length rec
    → ((fixup_record rec sector_size).0 ≡ true)
      × Restored sector_size (r16 rec 4) (r16 rec 6 - 1) 1 rec (fixup_record rec sector_size).1
unfolding Before
fixup_record-Restored rec sector_size word file some_ many wide room fits =
    let n : ℕ = r16 rec 6 - 1 in
    let first = first_sector sector_size (r16 rec 4) n (omega arith) in
    rw (fixup_record-loop rec sector_size (omega arith) file some_ many (omega arith)) (
      fixup_loop-Restored sector_size (r16 rec 4) n 1 rec word (omega arith, omega arith)
        (omega (arith, add-mul 1 n sector_size)))
