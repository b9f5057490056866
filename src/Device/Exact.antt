-- ===== src/Device/Exact.antt =====
-- `io_exact` (src/io/device.cpp), reading, against the bytes of a medium.
use reflash.Base.{
  ℕ, zero, suc, ◌+◌, ◌-◌, ◌%◌, ◌≤◌, ◌<◌, ◌≡◌, ◌≢◌, refl, ◌∙◌, List, [], ◌∷◌, ◌++◌, arith, length,
  length-append, u64_mod,
}
use reflash.Device.{
  SysRead, moved, interrupted, error, Sys, ReadEnd, full, read_failed, read_out_of_fuel, before,
  read_round, read_exact,
}

arith_zero : (n : ℕ) → n + 0 ≡ n
arith_zero n = omega arith

arith_shift : (n m : ℕ) → n + suc m ≡ n + 1 + m
arith_shift n m = omega arith

module _ {W : Type 0} (sys : Sys W) (view : W → ℕ → ℕ) where
  -- `bytes` are those on the medium at an offset.
  unfoldable pub AreAt : W → ℕ → List ℕ → Type 0
  AreAt w offset [] = Unit
  AreAt w offset (b ∷ bs) = (b ≡ view w offset) × AreAt w (offset + 1) bs

  AreAt-append :
      (w : W) (offset : ℕ) (xs ys : List ℕ)
      → AreAt w offset xs
      → AreAt w (offset + length xs) ys
      → AreAt w offset (xs ++ ys)
  unfolding AreAt
  AreAt-append w offset [] ys h k = rw (arith_zero offset) at k
  AreAt-append w offset (x ∷ xs) ys h k =
      (h.0, AreAt-append w (offset + 1) xs ys h.1 (rw (arith_shift offset (length xs)) at k))

  AreAt-same :
      (w w1 : W) (offset : ℕ) (xs : List ℕ)
      → ((a : ℕ) → view w1 a ≡ view w a)
      → AreAt w1 offset xs
      → AreAt w offset xs
  unfolding AreAt
  AreAt-same w w1 offset [] same h = tt
  AreAt-same w w1 offset (x ∷ xs) same h =
      (h.0 ∙ same offset, AreAt-same w w1 (offset + 1) xs same h.1)

  -- A call for `left` bytes that has ended in the state `w1`.
  unfoldable pub AfterRead : ℕ → ℕ → W → SysRead × W → Type 0
  AfterRead offset left w (moved bytes, w1) =
      (length bytes ≤ left)
      × ((offset + length bytes < u64_mod)
          × (AreAt w offset bytes × ((a : ℕ) → view w1 a ≡ view w a)))
  AfterRead offset left w (_, w1) = (a : ℕ) → view w1 a ≡ view w a

  -- What `pread` is documented to do: deliver at most the bytes asked for, those of the medium, none
  -- of them at 2^64 or above, and change nothing there.
  unfoldable pub Reads : Type 0
  Reads = (offset left : ℕ) (w : W) → AfterRead offset left w (sys.pread offset left w)

  -- What `io_exact` makes of it.
  Exact : ℕ → ℕ → W → ReadEnd × W → Type 0
  Exact offset len w (full bytes, w1) =
      (length bytes ≡ len) × (AreAt w offset bytes × ((a : ℕ) → view w1 a ≡ view w a))
  Exact offset len w (_, w1) = (a : ℕ) → view w1 a ≡ view w a

  Exact-same :
      (offset left : ℕ) (w w1 : W) (r : ReadEnd × W)
      → ((a : ℕ) → view w1 a ≡ view w a)
      → Exact offset left w1 r
      → Exact offset left w r
  unfolding Exact
  Exact-same offset left w w1 (full bytes, w2) same (len, (found, kept)) =
      (len, (AreAt-same w w1 offset bytes same found, λ a. kept a ∙ same a))
  Exact-same offset left w w1 (read_failed err, w2) same h = λ a. h a ∙ same a
  Exact-same offset left w w1 (read_out_of_fuel, w2) same h = λ a. h a ∙ same a

  Exact-before :
      (offset left : ℕ) (w w1 : W) (bytes : List ℕ) (r : ReadEnd × W)
      → length bytes ≤ left
      → AreAt w offset bytes
      → ((a : ℕ) → view w1 a ≡ view w a)
      → Exact (offset + length bytes) (left - length bytes) w1 r
      → Exact offset left w (before bytes r)
  unfolding Exact before
  Exact-before offset left w w1 bytes (full rest, w2) le at_ same (len, (rest_at, rest_same)) = (
    omega (arith, length-append bytes rest, len),
    (
      AreAt-append w offset bytes rest at_
          (AreAt-same w w1 (offset + length bytes) rest same rest_at),
      λ a. rest_same a ∙ same a,
    ),
  )
  Exact-before offset left w w1 bytes (read_failed err, w2) le at_ same h = λ a. h a ∙ same a
  Exact-before offset left w w1 bytes (read_out_of_fuel, w2) le at_ same h = λ a. h a ∙ same a

  Exact-round :
      (go : ℕ → ℕ → W → ReadEnd × W)
      → ((offset left : ℕ) (w : W) → Exact offset left w (go offset left w))
      → (offset left : ℕ) (w : W) (r : SysRead × W) → AfterRead offset left w r
      → Exact offset left w (read_round go offset left r)
  unfolding Exact read_round AfterRead
  Exact-round go rec offset left w (moved [], w1) h = h.1.1.1
  Exact-round go rec offset left w (moved (b ∷ bs), w1) (le, (word, (found, same))) =
      let n : (offset + suc (length bs)) % u64_mod ≡ offset + suc (length bs) = omega arith in
      rw n (Exact-before offset left w w1 (b ∷ bs) _ le found same (rec _ _ w1))
  Exact-round go rec offset left w (interrupted, w1) same =
      Exact-same offset left w w1 _ same (rec offset left w1)
  Exact-round go rec offset left w (error err, w1) same = same

  read_exact-Exact :
      Reads → (fuel offset len : ℕ) (w : W) → Exact offset len w (read_exact fuel sys offset len w)
  unfolding Exact read_exact Reads AreAt
  read_exact-Exact reads fuel offset zero w = (refl, (tt, λ a. refl))
  read_exact-Exact reads zero offset (suc left) w = λ a. refl
  read_exact-Exact reads (suc fuel) offset (suc left) w =
      Exact-round (read_exact fuel sys) (read_exact-Exact reads fuel) offset (suc left) w _
        (reads offset (suc left) w)

  -- Where `pread` is never interrupted, `io_exact` returns.
  Ends : ReadEnd × W → Type 0
  Ends (read_out_of_fuel, w) = ⊥
  Ends (_, w) = Unit

  unfoldable pub Uninterrupted : Type 0
  Uninterrupted = (offset left : ℕ) (w : W) → (sys.pread offset left w).0 ≢ interrupted

  Ends-before : (bytes : List ℕ) (r : ReadEnd × W) → Ends r → Ends (before bytes r)
  unfolding Ends before
  Ends-before bytes (full rest, w) h = tt
  Ends-before bytes (read_failed err, w) h = tt
  Ends-before bytes (read_out_of_fuel, w) h = h

  Ends-round :
      (go : ℕ → ℕ → W → ReadEnd × W) (left : ℕ)
      → ((offset fewer : ℕ) (w : W) → fewer < left → Ends (go offset fewer w))
      → (offset : ℕ) (r : SysRead × W) → 0 < left
      → r.0 ≢ interrupted
      → Ends (read_round go offset left r)
  unfolding Ends read_round
  Ends-round go left rec offset (moved [], w) some_left steady = tt
  Ends-round go left rec offset (moved (b ∷ bs), w) some_left steady =
      Ends-before (b ∷ bs) _ (rec _ _ w (omega arith))
  Ends-round go left rec offset (interrupted, w) some_left steady = absurd (steady refl)
  Ends-round go left rec offset (error err, w) some_left steady = tt

  read_exact-Ends :
      Uninterrupted
      → (fuel offset len : ℕ) (w : W) → len ≤ fuel
      → Ends (read_exact fuel sys offset len w)
  unfolding Ends read_exact Uninterrupted
  read_exact-Ends steady fuel offset zero w le = tt
  read_exact-Ends steady zero offset (suc left) w le = absurd (omega arith)
  read_exact-Ends steady (suc fuel) offset (suc left) w le =
      Ends-round (read_exact fuel sys) (suc left)
        (λ offset1 fewer w1 few. read_exact-Ends steady fuel offset1 fewer w1 (omega arith)) offset
        _ (omega arith) (steady offset (suc left) w)

  -- What `io_exact` may leave: the bytes of the medium in full, or an error.
  unfoldable pub ReadsAll : ℕ → ℕ → W → ReadEnd × W → Type 0
  ReadsAll offset len w (full bytes, w1) =
      (length bytes ≡ len) × (AreAt w offset bytes × ((a : ℕ) → view w1 a ≡ view w a))
  ReadsAll offset len w (read_failed err, w1) = (a : ℕ) → view w1 a ≡ view w a
  ReadsAll offset len w (read_out_of_fuel, w1) = ⊥

  both :
      (offset len : ℕ) (w : W) (r : ReadEnd × W)
      → Exact offset len w r
      → Ends r
      → ReadsAll offset len w r
  unfolding Exact Ends ReadsAll
  both offset len w (full bytes, w1) h ends = h
  both offset len w (read_failed err, w1) h ends = h
  both offset len w (read_out_of_fuel, w1) h ends = ends

-- With a `pread` that delivers bytes of the medium, no more than asked for and none at 2^64 or above,
-- and is not interrupted, `io_exact` returns after at most `len` rounds: with exactly the `len`
-- bytes of the medium at the offset, or with an error; and the medium stays as it was.
pub read_exact-ReadsAll :
    {W : Type 0} (sys : Sys W) (view : W → ℕ → ℕ)
    → Reads sys view
    → Uninterrupted sys view
    → (fuel offset len : ℕ) (w : W) → len ≤ fuel
    → ReadsAll sys view offset len w (read_exact fuel sys offset len w)
read_exact-ReadsAll sys view reads steady fuel offset len w le =
    both sys view offset len w _ (read_exact-Exact sys view reads fuel offset len w)
      (read_exact-Ends sys view steady fuel offset len w le)
