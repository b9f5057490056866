-- ===== src/Device/Opening/Owned.antt =====
-- The descriptors that `Device::open` and `Device::close` (src/io/device.cpp) leave open.
use reflash.Base.{
  ℕ, ◌≡◌, ◌<◌, refl, arith, Bool, true, false, not, ◌&&◌, ◌||◌, Option, none, some, ◌==◌,
  if◌then◌else◌, Text, ap,
}
use reflash.Device.Opening.{
  Target, Descriptors, DeviceState, or_sector, size_of, is_fd, close_direct, close_plain, close,
  opened, failed, with_size, sized, with_fd, first_fd, open_device,
}

module _ {W : Type 0} (f : Descriptors W) (is_open : W → ℕ → Bool) where
  -- What the calls are documented to do: a descriptor that `open` answers was not in use and then
  -- is, and `close` frees its descriptor; neither changes another one.
  pub record IsDescriptorTable : Type 0 where
    pub open_none :
        (path : Text) (direct : Bool) (w : W)
        → (f.open_fd path direct w).0 ≡ none
        → (m : ℕ) → is_open (f.open_fd path direct w).1 m ≡ is_open w m
    pub open_some :
        (path : Text) (direct : Bool) (w : W) (n : ℕ)
        → (f.open_fd path direct w).0 ≡ some n
        → (is_open w n ≡ false)
          × ((m : ℕ) → is_open (f.open_fd path direct w).1 m ≡ (is_open w m || m == n))
    pub closes :
        (n : ℕ) (w : W) (m : ℕ) → is_open (f.close_fd n w) m ≡ (is_open w m && not (m == n))

  -- The open descriptors are those of the rest of the process, `others`, and those of the device.
  unfoldable pub Owns : (ℕ → Bool) → DeviceState × W → Type 0
  Owns others (d, w) =
      (m : ℕ)
      → (is_open w m ≡ (others m || (is_fd d.fd m || is_fd d.fd_direct m)))
        × ((is_fd d.fd m || is_fd d.fd_direct m) ≡ true → others m ≡ false)

  closed :
      IsDescriptorTable
      → (others : ℕ → Bool) (fd direct : Option ℕ) (w : W)
      → ((m : ℕ)
          → (is_open w m ≡ (others m || (is_fd fd m || is_fd direct m)))
            × ((is_fd fd m || is_fd direct m) ≡ true → others m ≡ false))
      → (m : ℕ) → is_open (close_plain f fd (close_direct f fd direct w)) m ≡ others m
  unfolding close_plain close_direct is_fd
  closed law others none none w h m = ground (arith, h m)
  closed law others none (some b) w h m = ground (arith, h m, law.closes b w m)
  closed law others (some a) none w h m = ground (arith, h m, law.closes a w m)
  closed law others (some a) (some b) w h m =
      ground (arith, h m, law.closes a w m, law.closes b w m, law.closes a (f.close_fd b w) m)

  close-Owns :
      IsDescriptorTable
      → (others : ℕ → Bool) (st : DeviceState × W) → Owns others st
      → Owns others (close f st)
  unfolding Owns close is_fd
  close-Owns law others (d, w) h m =
      let free = closed law others d.fd d.fd_direct w h m in ground (arith, free)

  -- What `open` leaves, where its first call answers `fd`.
  pub Opened : (ℕ → Bool) → Target → Option ℕ → Bool × (DeviceState × W) → Type 0
  Opened others t fd (ok, (d, w)) =
      Owns others (d, w)
      × ((ok ≡ false → (d.fd ≡ none) × (d.fd_direct ≡ none))
          × (ok ≡ true → (d.fd ≡ fd) × ((size_of t ≡ some d.size) × (0 < d.sector_size))))

  failed-Opened :
      IsDescriptorTable
      → (others : ℕ → Bool) (t : Target) (fd : Option ℕ) (st : DeviceState × W) → Owns others st
      → Opened others t fd (failed f st)
  unfolding Opened failed close
  failed-Opened law others t fd st h =
      (close-Owns law others st h, (λ e. (refl, refl), λ e. ground arith))

  second-Owns :
      IsDescriptorTable
      → (others : ℕ → Bool) (path : Text) (fd : Option ℕ) (w : W) (r : Option ℕ)
      → ((m : ℕ)
          → (is_open w m ≡ (others m || is_fd fd m)) × (is_fd fd m ≡ true → others m ≡ false))
      → (f.open_fd path true w).0 ≡ r
      → (m : ℕ)
      → (is_open (f.open_fd path true w).1 m ≡ (others m || (is_fd fd m || is_fd r m)))
        × ((is_fd fd m || is_fd r m) ≡ true → others m ≡ false)
  unfolding is_fd
  second-Owns law others path fd w none h e m = ground (arith, h m, law.open_none path true w e m)
  second-Owns law others path fd w (some n) h e m =
      ground
        (arith, h m, h n, (law.open_some path true w n e).0, (law.open_some path true w n e).1 m)

  or_sector-pos : (r : Option ℕ) → 0 < or_sector r 512
  unfolding or_sector
  or_sector-pos none = omega arith
  or_sector-pos (some n) = ground arith

  Owns-plain :
      (others : ℕ → Bool) (d : DeviceState) (w : W)
      → Owns others (d, w)
      → d.fd_direct ≡ none
      → (m : ℕ)
      → (is_open w m ≡ (others m || is_fd d.fd m)) × (is_fd d.fd m ≡ true → others m ≡ false)
  unfolding Owns is_fd
  Owns-plain others d w h e m = let here = h m in ground (arith, rw e at here)

  with_size-Opened :
      IsDescriptorTable
      → (others : ℕ → Bool) (t : Target) (sector : ℕ) (d : DeviceState) (size : Option ℕ) (w : W)
      → Owns others (d, w)
      → d.fd_direct ≡ none
      → size_of t ≡ size
      → 0 < sector
      → Opened others t d.fd (with_size f t sector d size w)
  unfolding with_size opened Opened Owns
  with_size-Opened law others t sector d none w h e size pos =
      failed-Opened law others t d.fd
        (record d { sector_size = if t.is_blk then sector else 512 }, w) h
  with_size-Opened law others t sector d (some n) w h e size pos = (
    second-Owns law others d.path d.fd w _ (Owns-plain others d w h e) refl,
    (λ k. ground arith, λ k. (refl, (size, pos))),
  )

  sector-pos :
      (t : Target)
      → 0 < (if t.is_blk then or_sector t.blksszget 512 else or_sector (some t.blksize) 512)
  sector-pos t = ground (arith, or_sector-pos t.blksszget, or_sector-pos (some t.blksize))

  with_fd-Opened :
      IsDescriptorTable
      → (others : ℕ → Bool) (t : Target) (d : DeviceState) (w : W) → Owns others (d, w)
      → d.fd_direct ≡ none
      → Opened others t d.fd (with_fd f t d w)
  unfolding with_fd sized Owns
  with_fd-Opened law others t d w h e =
      let typed : DeviceState = record d { is_block = t.is_blk; is_regular = t.is_reg } in
      let first = failed-Opened law others t d.fd (d, w) h in
      let second = failed-Opened law others t d.fd (typed, w) h in
      let sector = if t.is_blk then or_sector t.blksszget 512 else or_sector (some t.blksize) 512 in
      let third =
        with_size-Opened law others t sector (record typed { sector_size = 512 }) (size_of t) w h e
          refl (sector-pos t) in
      elim (not t.stat_ok)
        as (λ b. Opened others t d.fd (
          if b
          then failed f (d, w)
          else if not t.is_blk && not t.is_reg
          then failed f (typed, w)
          else with_size f t sector (record typed { sector_size = 512 }) (size_of t) w)) [
            | true ↦ first
            | false ↦
                elim (not t.is_blk && not t.is_reg)
                  as (λ b. Opened others t d.fd (
                    if b
                    then failed f (typed, w)
                    else with_size f t sector (record typed { sector_size = 512 }) (size_of t) w)) [
                      | true ↦ second
                      | false ↦ third
                    ]
          ]

  first_fd-Opened :
      IsDescriptorTable
      → (others : ℕ → Bool) (t : Target) (d : DeviceState) (path : Text) (w : W) (r : Option ℕ)
      → ((m : ℕ) → is_open w m ≡ others m)
      → d.fd_direct ≡ none
      → (f.open_fd path false w).0 ≡ r
      → Opened others t r (first_fd f t d (r, (f.open_fd path false w).1))
  unfolding first_fd Opened Owns is_fd
  first_fd-Opened law others t d path w none same e r = (
    λ m. ground (arith, same m, law.open_none path false w r m, ap is_fd e),
    (λ k. (refl, e), λ k. ground arith),
  )
  first_fd-Opened law others t d path w (some n) same e r =
      with_fd-Opened law others t (record d { fd = some n }) (f.open_fd path false w).1
        (λ m. ground (
          arith,
          same m,
          same n,
          (law.open_some path false w n r).0,
          (law.open_some path false w n r).1 m,
          ap is_fd e,
        ))
        e

-- `open` on a device that may be open, in a process that has other descriptors in use. Afterwards
-- the open descriptors are the others and those that the device holds. Where it fails the device
-- holds none, so that none is left open; where it succeeds the device holds the descriptor of the
-- path, the size that was asked for, and a sector size that is not 0.
pub open_device-Opened :
    {W : Type 0} (f : Descriptors W) (is_open : W → ℕ → Bool)
    → IsDescriptorTable f is_open
    → (others : ℕ → Bool) (t : Target) (path : Text) (st : DeviceState × W)
    → Owns f is_open others st
    → Opened f is_open others t (f.open_fd path false (close f st).1).0 (open_device f t path st)
unfolding open_device close Owns is_fd
open_device-Opened f is_open law others t path (d, w) h =
    first_fd-Opened f is_open law others t _ path _ _
      (closed f is_open law others d.fd d.fd_direct w h) refl refl
