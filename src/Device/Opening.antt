-- ===== src/Device/Opening.antt =====
-- `Device::open` and `Device::close` (src/io/device.cpp). What the system calls say of the path that
-- is opened is the record `Target`, and the calls that open and close descriptors are `Descriptors`
-- over the state `W` of the process.
pub mod Owned
use reflash.Base.{
  ℕ, ◌≡◌, ◌<◌, refl, arith, Bool, true, false, not, ◌&&◌, ◌||◌, Option, none, some, ltb, ◌==◌,
  if◌then◌else◌, Text, ◌∙◌, sym, ap, ==_iff, Bool-cases, inl, inr,
}

-- Whether the first opening is followed by a `stat` that succeeds, the mode and the block size of
-- the file, the answers of the two `ioctl`s of a block device, the end of a regular file, and the
-- page size.
pub record Target : Type 0 where
  pub stat_ok : Bool
  pub is_blk : Bool
  pub is_reg : Bool
  pub blksize : ℕ
  pub blksszget : Option ℕ
  pub blkgetsize64 : Option ℕ
  pub seek_end : Option ℕ
  pub page : Option ℕ

-- `open` of a path, with or without `O_DIRECT`, and `close`.
pub record Descriptors (W : Type 0) : Type 0 where
  pub open_fd : Text → Bool → W → Option ℕ × W
  pub close_fd : ℕ → W → W

-- The members of the class.
pub record DeviceState : Type 0 where
  pub fd : Option ℕ
  pub fd_direct : Option ℕ
  pub is_block : Bool
  pub is_regular : Bool
  pub size : ℕ
  pub sector_size : ℕ
  pub direct_align : ℕ
  pub path : Text

-- The sector size, from a call that may fail or answer 0.
pub or_sector : Option ℕ → ℕ → ℕ
or_sector none default = default
or_sector (some n) default = if n == 0 then default else n

or_page : Option ℕ → ℕ
or_page none = 4096
or_page (some n) = n

pub size_of : Target → Option ℕ
size_of t = if t.is_blk then t.blkgetsize64 else t.seek_end

unfoldable pub is_fd : Option ℕ → ℕ → Bool
is_fd none n = false
is_fd (some m) n = n == m

module _ {W : Type 0} (f : Descriptors W) where
  -- The descriptor for direct access, where it is one of its own.
  pub close_direct : Option ℕ → Option ℕ → W → W
  close_direct fd none w = w
  close_direct fd (some n) w = if is_fd fd n then w else f.close_fd n w

  pub close_plain : Option ℕ → W → W
  close_plain none w = w
  close_plain (some n) w = f.close_fd n w

  pub close : DeviceState × W → DeviceState × W
  close (d, w) =
      (record d { fd = none; fd_direct = none }, close_plain d.fd (close_direct d.fd d.fd_direct w))

  -- The last part of `open`: the alignment and the second descriptor.
  pub opened : Target → ℕ → ℕ → DeviceState → W → DeviceState × W
  opened t size sector d w =
      let page = or_page t.page in
      let second = f.open_fd d.path true w in
      (
        record d {
          size = size;
          sector_size = sector;
          direct_align = if ltb sector page then page else sector;
          fd_direct = second.0;
        },
        second.1,
      )

  pub failed : DeviceState × W → Bool × (DeviceState × W)
  failed st = (false, close st)

  pub with_size : Target → ℕ → DeviceState → Option ℕ → W → Bool × (DeviceState × W)
  with_size t sector d none w =
      failed (record d { sector_size = if t.is_blk then sector else 512 }, w)
  with_size t sector d (some n) w = (true, opened t n sector d w)

  -- The size of a block device, or of a regular file.
  pub sized : Target → DeviceState → W → Bool × (DeviceState × W)
  sized t d w =
      let sector =
        (if t.is_blk then or_sector t.blksszget 512 else or_sector (some t.blksize) 512) in
      with_size t sector d (size_of t) w

  -- With the descriptor of the first opening.
  pub with_fd : Target → DeviceState → W → Bool × (DeviceState × W)
  with_fd t d w =
      let typed = record d { is_block = t.is_blk; is_regular = t.is_reg } in
      if not t.stat_ok
      then failed (d, w)
      else if not t.is_blk && not t.is_reg
      then failed (typed, w)
      else sized t (record typed { sector_size = 512 }) w

  pub first_fd : Target → DeviceState → Option ℕ × W → Bool × (DeviceState × W)
  first_fd t d (none, w) = (false, (record d { fd = none }, w))
  first_fd t d (some n, w) = with_fd t (record d { fd = some n }) w

  pub open_device : Target → Text → DeviceState × W → Bool × (DeviceState × W)
  open_device t path st =
      let fresh = close st in
      first_fd t (record fresh.0 { path = path }) (f.open_fd path false fresh.1)
