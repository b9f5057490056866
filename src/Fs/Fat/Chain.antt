-- ===== src/Fs/Fat/Chain.antt =====
-- `chain_extents` (src/fs/fat.cpp): its loop, and the extents it collects.
use reflash.Base.{
  ℕ, zero, suc, ◌+◌, ◌-◌, ◌*◌, ◌%◌, ◌≤◌, ◌<◌, ◌≡◌, refl, Bool, true, false, List, [], ◌∷◌, arith,
  if◌then◌else◌, u32_mod, u64_mod, All, Bool-cases, inl, inr,
}
use native.Mathlib.Nat.{mul-le-mul_right}
use reflash.Fs.{FsFileExtent, extent, Run, returned, trapped, out_of_fuel, push, seen_in}
use reflash.Fs.Extents.{Within, total, push-Within, total-push}
use reflash.Fs.Visited.{fresh, fresh-cons, fresh-le}
use reflash.Fs.Fat.{
  FatGeom, fat_get, is_eoc, cluster_offset, Walk, WalkEnd, ends, goes_on, in_chain, take_bytes,
  follow, chain_round, chain_loop, first_left, chain_extents,
}

-- A round that goes on has marked a new cluster.
chain_round-seen :
    (g : FatGeom) (fat : List ℕ) (whole : Bool) (s next : Walk)
    → chain_round g fat whole s ≡ goes_on next
    → suc (fresh u32_mod next.seen) ≡ fresh u32_mod s.seen
unfolding chain_round follow in_chain
chain_round-seen g fat whole s next h = ground (arith, fresh-cons u32_mod s.cluster s.seen)

chain_end-returned :
    (f : ℕ) (g : FatGeom) (fat : List ℕ) (whole : Bool) (r : WalkEnd)
    → ((next : Walk)
        → r ≡ goes_on next
        → (exts : List FsFileExtent) × (chain_loop f g fat whole next ≡ returned exts))
    → (exts : List FsFileExtent) × (elim r as (λ x. Run (List FsFileExtent)) [
      | ends exts ↦ returned exts
      | goes_on next ↦ chain_loop f g fat whole next
    ]
        ≡ returned exts)
chain_end-returned f g fat whole (ends exts) rec = (exts, refl)
chain_end-returned f g fat whole (goes_on next) rec = rec next refl

chain_loop-returned :
    (f : ℕ) (g : FatGeom) (fat : List ℕ) (whole : Bool) (s : Walk)
    → fresh u32_mod s.seen < f
    → (exts : List FsFileExtent) × (chain_loop f g fat whole s ≡ returned exts)
unfolding chain_loop
chain_loop-returned zero g fat whole s h = absurd (omega arith)
chain_loop-returned (suc f) g fat whole s h =
    chain_end-returned f g fat whole (chain_round g fat whole s) (λ next e.
      chain_loop-returned f g fat whole next (omega (arith, chain_round-seen g fat whole s next e)))

-- The walk along a chain of clusters ends whatever the table holds: `chain_extents` returns.
pub chain_extents-returned :
    (g : FatGeom) (fat : List ℕ) (start size : ℕ) (whole : Bool)
    → (exts : List FsFileExtent) × (chain_extents g fat start size whole ≡ returned exts)
unfolding chain_extents
chain_extents-returned g fat start size whole =
    chain_loop-returned (suc u32_mod) g fat whole _ (omega (arith, fresh-le u32_mod []))

-- The first byte of the data region, and the end of its clusters.
pub data_low : FatGeom → ℕ
data_low g = g.base + g.data_start * g.bps

unfoldable pub data_high : FatGeom → ℕ
data_high g = g.base + (g.data_start + g.clusters * g.spc) * g.bps

inside :
    (base first spc bps k clusters n : ℕ)
    → k < clusters
    → base + (first + clusters * spc) * bps < u64_mod
    → n ≤ spc * bps
    → Within
        (base + first * bps)
        (base + (first + clusters * spc) * bps)
        (extent ((base + (first + k * spc) * bps) % u64_mod) n)
inside base first spc bps k clusters n below word le =
    let in_spc : suc k * spc ≤ clusters * spc = mul-le-mul_right spc below in
    let in_bps : (first + k * spc + spc) * bps ≤ (first + clusters * spc) * bps =
      mul-le-mul_right bps (omega (arith, in_spc)) in
    let from_bps : first * bps ≤ (first + k * spc) * bps = mul-le-mul_right bps (omega arith) in
    ground (arith, in_bps, from_bps)

-- The numbers of the geometry are in their ranges.
unfoldable pub Geometry : FatGeom → Type 0
Geometry g = (g.clusters + 2 < u32_mod) × (data_high g < u64_mod)

cluster_offset-Within :
    (g : FatGeom) (c n : ℕ)
    → Geometry g
    → 2 ≤ c
    → c < g.clusters + 2
    → n ≤ g.spc * g.bps
    → Within (data_low g) (data_high g) (extent (cluster_offset g c) n)
unfolding data_low data_high cluster_offset Geometry
cluster_offset-Within g c n ok low high le =
    let k : (c + u32_mod - 2) % u32_mod ≡ c - 2 = omega (arith, ok.0) in
    rw k (inside g.base g.data_start g.spc g.bps (c - 2) g.clusters n (omega arith) ok.1 le)

take_bytes-le :
    (g : FatGeom) (whole : Bool) (left : ℕ)
    → (take_bytes g whole left ≤ g.spc * g.bps) × (whole ≡ false → take_bytes g whole left ≤ left)
unfolding take_bytes
take_bytes-le g whole left = ground arith

-- What a walk has collected with `left` bytes to go.
Collected : FatGeom → Bool → ℕ → ℕ → List FsFileExtent → Type 0
Collected g whole size left exts =
    All (Within (data_low g) (data_high g)) exts × (whole ≡ false → total exts + left ≡ size)

EndsWell : FatGeom → Bool → ℕ → WalkEnd → Type 0
EndsWell g whole size (ends exts) = (left : ℕ) × Collected g whole size left exts
EndsWell g whole size (goes_on s) = Collected g whole size s.left s.exts

widen :
    (low high : ℕ) (xs : List FsFileExtent)
    → high < u64_mod
    → All (Within low high) xs
    → All (Within 0 (u64_mod - 1)) xs
widen low high [] word h = tt
widen low high (x ∷ xs) word h = (omega (arith, h.0), widen low high xs word h.1)

-- One cluster is collected.
push-Collected :
    (g : FatGeom) (whole : Bool) (size : ℕ) (s : Walk)
    → Geometry g
    → 2 ≤ s.cluster
    → s.cluster < g.clusters + 2
    → Collected g whole size s.left s.exts
    → Collected g whole size
        (if whole then s.left else s.left - take_bytes g whole s.left)
        (push s.exts (extent (cluster_offset g s.cluster) (take_bytes g whole s.left)))
unfolding Collected Geometry
push-Collected g whole size s ok low high had =
    let n = take_bytes g whole s.left in
    let le = take_bytes-le g whole s.left in
    let new = cluster_offset-Within g s.cluster n ok low high le.0 in
    let sum =
      total-push s.exts (extent (cluster_offset g s.cluster) n) (widen _ _ s.exts ok.1 had.0)
        (omega (arith, new, ok.1)) in
    (push-Within _ _ s.exts _ ok.1 had.0 new, ground (arith, le.1, sum, had.1))

follow-EndsWell :
    (g : FatGeom) (fat : List ℕ) (whole : Bool) (size : ℕ) (s : Walk)
    → Geometry g
    → 2 ≤ s.cluster
    → s.cluster < g.clusters + 2
    → Collected g whole size s.left s.exts
    → EndsWell g whole size (follow g fat whole s)
unfolding follow EndsWell
follow-EndsWell g fat whole size s ok low high had =
    let new = push-Collected g whole size s ok low high had in
    elim (Bool-cases (is_eoc g.type (fat_get fat g.type s.cluster))) [
      | inl last ↦ rw last (_, new)
      | inr more ↦ rw more new
    ]

in_chain-range :
    (g : FatGeom) (s : Walk)
    → Geometry g
    → in_chain g s ≡ true
    → (2 ≤ s.cluster) × (s.cluster < g.clusters + 2)
unfolding in_chain Geometry
in_chain-range g s ok h =
    let same : (g.clusters + 2) % u32_mod ≡ g.clusters + 2 = omega (arith, ok.0) in
    ground (arith, same)

chain_round-EndsWell :
    (g : FatGeom) (fat : List ℕ) (whole : Bool) (size : ℕ) (s : Walk)
    → Geometry g
    → Collected g whole size s.left s.exts
    → EndsWell g whole size (chain_round g fat whole s)
unfolding chain_round EndsWell
chain_round-EndsWell g fat whole size s ok had = elim (Bool-cases (in_chain g s)) [
  | inr out ↦ rw out (_, had)
  | inl here ↦ rw here (elim (Bool-cases (seen_in s.seen s.cluster)) [
    | inl again ↦ rw again (_, had)
    | inr new ↦ rw new (
        let range = in_chain-range g s ok here in
        follow-EndsWell g fat whole size s ok range.0 range.1 had)
  ])
]

-- A run returns extents that a walk can have collected.
Collects : FatGeom → Bool → ℕ → Run (List FsFileExtent) → Type 0
Collects g whole size (returned exts) = (left : ℕ) × Collected g whole size left exts
Collects g whole size trapped = ⊥
Collects g whole size out_of_fuel = Unit

chain_end-Collects :
    (f : ℕ) (g : FatGeom) (fat : List ℕ) (whole : Bool) (size : ℕ) (r : WalkEnd)
    → EndsWell g whole size r
    → ((next : Walk)
        → Collected g whole size next.left next.exts
        → Collects g whole size (chain_loop f g fat whole next))
    → Collects g whole size (elim r as (λ x. Run (List FsFileExtent)) [
      | ends exts ↦ returned exts
      | goes_on next ↦ chain_loop f g fat whole next
    ])
unfolding Collects EndsWell
chain_end-Collects f g fat whole size (ends exts) had rec = had
chain_end-Collects f g fat whole size (goes_on next) had rec = rec next had

chain_loop-Collects :
    (f : ℕ) (g : FatGeom) (fat : List ℕ) (whole : Bool) (size : ℕ) (s : Walk)
    → Geometry g
    → Collected g whole size s.left s.exts
    → Collects g whole size (chain_loop f g fat whole s)
unfolding chain_loop Collects
chain_loop-Collects zero g fat whole size s ok had = tt
chain_loop-Collects (suc f) g fat whole size s ok had =
    chain_end-Collects f g fat whole size (chain_round g fat whole s)
      (chain_round-EndsWell g fat whole size s ok had)
      (λ next more. chain_loop-Collects f g fat whole size next ok more)

Collects-bounds :
    (g : FatGeom) (whole : Bool) (limit : ℕ) (exts : List FsFileExtent)
    → Collects g whole limit (returned exts)
    → All (Within (data_low g) (data_high g)) exts × (whole ≡ false → total exts ≤ limit)
unfolding Collects Collected
Collects-bounds g whole limit exts (left, (all, sum)) = (all, λ known. omega (arith, sum known))

first_left-known :
    {size : ℕ} {whole : Bool} → whole ≡ false → 0 < size → first_left size whole ≡ size
unfolding first_left
first_left-known known some_bytes = ground arith

-- Where the clusters of the volume end below 2^64 bytes and are fewer than 2^32 - 2, the extents
-- that `chain_extents` collects lie in the data region of the volume, whatever the table holds;
-- and for a file of a known size they hold no more bytes than the file.
pub chain_extents-Within :
    (g : FatGeom) (fat : List ℕ) (start size : ℕ) (whole : Bool) (exts : List FsFileExtent)
    → Geometry g
    → chain_extents g fat start size whole ≡ returned exts
    → All (Within (data_low g) (data_high g)) exts × (whole ≡ false → 0 < size → total exts ≤ size)
unfolding chain_extents Collected
chain_extents-Within g fat start size whole exts ok e =
    let s : Walk = record { cluster = start; left = first_left size whole; seen = []; exts = [] } in
    let collected =
      chain_loop-Collects (suc u32_mod) g fat whole (first_left size whole) s ok
        (tt, λ _. omega arith) in
    let within =
      Collects-bounds g whole (first_left size whole) exts (rw (e, chain_extents) at collected) in
    (within.0, λ known some_bytes. omega (arith, within.1 known, first_left-known known some_bytes))
