-- ===== src/Fs/Ntfs/Runs.antt =====
-- Run lists (src/fs/ntfs.cpp, `decode_runs_allocated`) against the format that NTFS describes.
use native.Mathlib.Nat.{pow-le-pow_right}
use reflash.Base.{
  length-append, length-drop, ℕ, zero, suc, ◌+◌, ◌-◌, ◌*◌, ◌/◌, ◌%◌, ◌^◌, ◌≤◌, ◌<◌, ◌≡◌, ◌≢◌, refl,
  ap, ◌∙◌, false, List, [], ◌∷◌, ◌++◌, leb, ◌==◌, if◌then◌else◌, length, drop, arith, byte, u64_mod,
}
use reflash.Fs.{FsFileExtent, extent, Run, returned, trapped, out_of_fuel, push}
use reflash.Fs.Ntfs.{
  le_word, read_signed, Volume, Decode, DecodeEnd, ends, goes_on, undefined, decode_stored,
  decode_round, decode_loop, decode_runs_allocated,
}

-- A number as `n` bytes, least significant first.
to_bytes : ℕ → ℕ → List ℕ
to_bytes zero m = []
to_bytes (suc n) m = m % 256 ∷ to_bytes n (m / 256)

le_word-to_bytes : (n m : ℕ) (rest : List ℕ) → m < 256 ^ n → le_word n (to_bytes n m ++ rest) ≡ m
unfolding le_word to_bytes
le_word-to_bytes zero m rest h = omega arith
le_word-to_bytes (suc n) m rest h =
    let below : m / 256 < 256 ^ n = omega arith in
    omega (arith, le_word-to_bytes n (m / 256) rest below)

drop-to_bytes : (n m : ℕ) (rest : List ℕ) → drop n (to_bytes n m ++ rest) ≡ rest
unfolding to_bytes
drop-to_bytes zero m rest = refl
drop-to_bytes (suc n) m rest = drop-to_bytes n (m / 256) rest

-- The most significant byte tells the sign.
top-to_bytes :
    (n m : ℕ) (rest : List ℕ)
    → m < 256 ^ suc n
    → leb 128 (byte (to_bytes (suc n) m ++ rest) n) ≡ leb (128 * 256 ^ n) m
unfolding to_bytes
top-to_bytes zero m rest h = ground arith
top-to_bytes (suc n) m rest h =
    let below : m / 256 < 256 ^ suc n = omega arith in
    ground (arith, top-to_bytes n (m / 256) rest below)

pow_word : (n : ℕ) → n ≤ 8 → 256 ^ n ≤ u64_mod
pow_word n h = let below : 256 ^ n ≤ 256 ^ 8 = pow-le-pow_right (omega arith) h in omega arith

-- A signed number in `suc n` bytes, as the code reads it.
read_signed-to_bytes :
    (n m : ℕ) (rest : List ℕ)
    → m < 256 ^ suc n
    → read_signed (to_bytes (suc n) m ++ rest) (suc n)
      ≡ (if leb (128 * 256 ^ n) m then u64_mod - 256 ^ suc n + m else m)
unfolding read_signed
read_signed-to_bytes n m rest h =
    ground (arith, top-to_bytes n m rest h, le_word-to_bytes (suc n) m rest h)

-- A run as NTFS describes it: how many clusters it has, and how far its first cluster is from that
-- of the run before, ahead or behind. A hole has no clusters on the volume. With each of the two
-- numbers stands the size of its field, less one.
pub data RunEntry : Type 0 where
  hole : ℕ → ℕ → RunEntry
  ahead : ℕ → ℕ → ℕ → ℕ → RunEntry
  behind : ℕ → ℕ → ℕ → ℕ → RunEntry

-- The bytes of a run list, before what follows it.
encode : RunEntry → List ℕ → List ℕ
encode (hole k n) rest = suc k ∷ (to_bytes (suc k) n ++ rest)
encode (ahead k n j d) rest =
    (suc k + 16 * suc j) ∷ (to_bytes (suc k) n ++ (to_bytes (suc j) d ++ rest))
encode (behind k n j d) rest =
    (suc k + 16 * suc j) ∷ (to_bytes (suc k) n ++ (to_bytes (suc j) (256 ^ suc j - d) ++ rest))

pub encode_all : List RunEntry → List ℕ → List ℕ
encode_all [] rest = 0 ∷ rest
encode_all (e ∷ es) rest = encode e (encode_all es rest)

-- The extent of `n` clusters from cluster `lcn` on.
stored : Volume → ℕ → ℕ → FsFileExtent
stored v lcn n = extent ((v.base + lcn * v.cluster_bytes) % u64_mod) (n * v.cluster_bytes % u64_mod)

-- The extents that a run list means, after a run at `lcn`.
pub meaning : Volume → ℕ → List FsFileExtent → List RunEntry → List FsFileExtent
meaning v lcn exts [] = exts
meaning v lcn exts (hole k n ∷ es) = meaning v lcn exts es
meaning v lcn exts (ahead k n j d ∷ es) = meaning v (lcn + d) (push exts (stored v (lcn + d) n)) es
meaning v lcn exts (behind k n j d ∷ es) = meaning v (lcn - d) (push exts (stored v (lcn - d) n)) es

-- The numbers fit their fields, of at most eight bytes, and no run is before cluster 0 or at a
-- cluster of 2^64 or above.
unfoldable pub Fits : ℕ → List RunEntry → Type 0
Fits lcn [] = Unit
Fits lcn (hole k n ∷ es) = ((k < 8) × (n < 256 ^ suc k)) × Fits lcn es
Fits lcn (ahead k n j d ∷ es) =
    ((k < 8) × ((n < 256 ^ suc k) × ((j < 8) × ((d < 128 * 256 ^ j) × (lcn + d < u64_mod)))))
    × Fits (lcn + d) es
Fits lcn (behind k n j d ∷ es) =
    ((k < 8) × ((n < 256 ^ suc k) × ((j < 8) × ((0 < d) × ((d ≤ 128 * 256 ^ j) × (d ≤ lcn))))))
    × Fits (lcn - d) es

-- A round, once the two sizes are known.
decode_round-sizes :
    (v : Volume) (s : Decode) (k o : ℕ)
    → k < 8
    → o ≤ 8
    → byte s.run 0 ≡ suc k + 16 * o
    → decode_round v s ≡ (
        if o == 0
        then goes_on record s { run = drop (suc (suc k)) s.run }
        else decode_stored v o (le_word (suc k) (drop 1 s.run)) (drop (suc (suc k)) s.run) s)
unfolding decode_round
decode_round-sizes v s k o small small2 h =
    let low : (suc k + 16 * o) % 16 ≡ suc k = omega arith in
    let high : (suc k + 16 * o) / 16 % 16 ≡ o = omega arith in
    rw h (rw low (rw high (ground arith)))

abbrev at_run : List ℕ → ℕ → List FsFileExtent → Decode
at_run run lcn exts = record { run = run; lcn = lcn; exts = exts }

decode_round-hole :
    (v : Volume) (k n lcn : ℕ) (exts : List FsFileExtent) (rest : List ℕ)
    → k < 8
    → decode_round v (at_run (encode (hole k n) rest) lcn exts) ≡ goes_on (at_run rest lcn exts)
unfolding encode
decode_round-hole v k n lcn exts rest small =
    decode_round-sizes v (at_run (encode (hole k n) rest) lcn exts) k 0 small (omega arith)
      (omega arith)
    ∙ ap (λ p. goes_on (at_run p lcn exts)) (drop-to_bytes (suc k) n rest)

suc_nonzero : (n : ℕ) → (suc n == 0) ≡ false
suc_nonzero n = ground arith

-- The round for a run whose second field holds `m`.
decode_round-stored :
    (v : Volume) (k n j m lcn next : ℕ) (exts : List FsFileExtent) (rest : List ℕ)
    → k < 8
    → n < 256 ^ suc k
    → j < 8
    → m < 256 ^ suc j
    → (lcn + (if leb (128 * 256 ^ j) m then u64_mod - 256 ^ suc j + m else m)) % u64_mod ≡ next
    → decode_round v (
        at_run
          ((suc k + 16 * suc j) ∷ (to_bytes (suc k) n ++ (to_bytes (suc j) m ++ rest)))
          lcn
          exts)
      ≡ goes_on (at_run rest next (push exts (stored v next n)))
unfolding decode_stored stored
decode_round-stored v k n j m lcn next exts rest small fits small2 fits2 sum =
    let tail : List ℕ = to_bytes (suc j) m ++ rest in
    let sizes =
      decode_round-sizes v (at_run ((suc k + 16 * suc j) ∷ (to_bytes (suc k) n ++ tail)) lcn exts) k
        (suc j) small (omega arith) refl in
    let count = le_word-to_bytes (suc k) n tail fits in
    let after = drop-to_bytes (suc k) n tail in
    let sign = read_signed-to_bytes j m rest fits2 in
    let end_ = drop-to_bytes (suc j) m rest in
    rw sizes (rw (suc_nonzero j) (rw count (rw after (rw sign (rw sum (rw end_ refl))))))

decode_round-end :
    (v : Volume) (lcn : ℕ) (exts : List FsFileExtent) (rest : List ℕ)
    → decode_round v (at_run (0 ∷ rest) lcn exts) ≡ ends exts
unfolding decode_round
decode_round-end v lcn exts rest = ground arith

decode_loop-round :
    (v : Volume) (f : ℕ) (s next : Decode) (r : Run (List FsFileExtent))
    → decode_round v s ≡ goes_on next
    → decode_loop f v next ≡ r
    → decode_loop (suc f) v s ≡ r
unfolding decode_loop
decode_loop-round v f s next r here later = rw (decode_loop, here) later

-- The whole list, by rounds.
decode_loop-encode_all :
    (v : Volume) (es : List RunEntry) (fuel lcn : ℕ) (exts : List FsFileExtent) (rest : List ℕ)
    → lcn < u64_mod
    → Fits lcn es
    → length es < fuel
    → decode_loop fuel v (at_run (encode_all es rest) lcn exts) ≡ returned (meaning v lcn exts es)
unfolding decode_loop Fits meaning encode_all encode
decode_loop-encode_all v es zero lcn exts rest word fits enough = absurd (omega arith)
decode_loop-encode_all v [] (suc f) lcn exts rest word fits enough =
    rw (decode_loop, decode_round-end v lcn exts rest) refl
decode_loop-encode_all v (hole k n ∷ es) (suc f) lcn exts rest word ((small, fit), fits) enough =
    decode_loop-round v f _ _ _ (decode_round-hole v k n lcn exts (encode_all es rest) small)
      (decode_loop-encode_all v es f lcn exts rest word fits (omega arith))
decode_loop-encode_all v (ahead k n j d ∷ es) (suc f) lcn exts rest word
      ((small, (fit, (small2, (fit2, below)))), fits) enough =
    decode_loop-round v f _ _ _
      (decode_round-stored v k n j d lcn (lcn + d) exts (encode_all es rest) small fit small2
        (omega arith) (ground arith))
      (decode_loop-encode_all v es f (lcn + d) _ rest below fits (omega arith))
decode_loop-encode_all v (behind k n j d ∷ es) (suc f) lcn exts rest word
      ((small, (fit, (small2, (far, (fit2, below))))), fits) enough =
    decode_loop-round v f _ _ _
      (decode_round-stored v k n j (256 ^ suc j - d) lcn (lcn - d) exts (encode_all es rest) small
        fit small2 (omega arith) (ground (arith, pow_word (suc j))))
      (decode_loop-encode_all v es f (lcn - d) _ rest (omega arith) fits (omega arith))

length-encode : (e : RunEntry) (rest : List ℕ) → suc (length rest) ≤ length (encode e rest)
unfolding encode
length-encode (hole k n) rest = omega (arith, length-append (to_bytes (suc k) n) rest)
length-encode (ahead k n j d) rest = omega (
  arith,
  length-append (to_bytes (suc k) n) (to_bytes (suc j) d ++ rest),
  length-append (to_bytes (suc j) d) rest,
)
length-encode (behind k n j d) rest = omega (
  arith,
  length-append (to_bytes (suc k) n) (to_bytes (suc j) (256 ^ suc j - d) ++ rest),
  length-append (to_bytes (suc j) (256 ^ suc j - d)) rest,
)

length-encode_all : (es : List RunEntry) (rest : List ℕ) → length es ≤ length (encode_all es rest)
unfolding encode_all
length-encode_all [] rest = omega arith
length-encode_all (e ∷ es) rest =
    omega (arith, length-encode e (encode_all es rest), length-encode_all es rest)

-- Round trip of a run list: of the bytes that encode a list of runs, whatever follows them,
-- `decode_runs_allocated` makes the extents of the runs, holes left out, where each number fits a
-- field of at most eight bytes and each run starts at a cluster below 2^64.
pub decode_runs_allocated-encode_all :
    (es : List RunEntry) (rest : List ℕ) (base bps spc : ℕ)
    → Fits 0 es
    → decode_runs_allocated (encode_all es rest) base bps spc
      ≡ returned (meaning record { base = base; cluster_bytes = bps * spc } 0 [] es)
unfolding decode_runs_allocated
decode_runs_allocated-encode_all es rest base bps spc fits =
    decode_loop-encode_all record { base = base; cluster_bytes = bps * spc } es _ 0 [] rest
      (omega arith) fits (omega (arith, length-encode_all es rest))

-- Every round of the loop takes a byte at least.
length-round :
    (v : Volume) (s next : Decode)
    → decode_round v s ≡ goes_on next
    → length next.run < length s.run
unfolding decode_round decode_stored
length-round v s next h = grind (arith, length-drop)

decode_loop-ends_round :
    (f : ℕ) (v : Volume) (r : DecodeEnd)
    → ((next : Decode) → r ≡ goes_on next → decode_loop f v next ≢ out_of_fuel)
    → elim r as (λ x. Run (List FsFileExtent)) [
      | ends exts ↦ returned exts
      | goes_on next ↦ decode_loop f v next
      | undefined ↦ trapped
    ]
      ≢ out_of_fuel
decode_loop-ends_round f v (ends exts) later e = ground arith
decode_loop-ends_round f v (goes_on next) later e = later next refl e
decode_loop-ends_round f v undefined later e = ground arith

decode_loop-ends :
    (fuel : ℕ) (v : Volume) (s : Decode) → length s.run < fuel → decode_loop fuel v s ≢ out_of_fuel
unfolding decode_loop
decode_loop-ends zero v s h = absurd (omega arith)
decode_loop-ends (suc f) v s h =
    decode_loop-ends_round f v (decode_round v s)
      (λ next e. decode_loop-ends f v next (omega (arith, length-round v s next e)))

-- Decoding a run list ends whatever the bytes are, after one round for each byte at most.
pub decode_runs_allocated-ends :
    (run : List ℕ) (base bps spc : ℕ) → decode_runs_allocated run base bps spc ≢ out_of_fuel
unfolding decode_runs_allocated
decode_runs_allocated-ends run base bps spc =
    decode_loop-ends _ record { base = base; cluster_bytes = bps * spc } (at_run run 0 [])
      (omega arith)
