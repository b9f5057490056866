-- ===== src/Mount/Pipe.antt =====
-- The pipes of the privilege agent (src/mount/host_priv.cpp): whole transfers, and the requests on
-- them.
pub mod RoundTrip
use reflash.Base.{
  ℕ, zero, suc, ◌-◌, ◌/◌, ◌%◌, Bool, true, false, Option, none, some, List, [], ◌∷◌, ◌++◌, ltb,
  ◌==◌, ◌||◌, if◌then◌else◌, length, drop, Text, r32, u32_mod,
}

-- The answers of `read` and `write`.
pub data ReadCall : Type 0 where
  got : Text → ReadCall
  read_interrupted read_error : ReadCall

pub data WriteCall : Type 0 where
  wrote : ℕ → WriteCall
  write_interrupted write_error : WriteCall

pub record Pipe (W : Type 0) : Type 0 where
  pub read : ℕ → W → ReadCall × W
  pub write : Text → W → WriteCall × W

-- The bytes of a number of 32 bits.
pub put32 : ℕ → Text
put32 n = n % 256 ∷ n / 256 % 256 ∷ n / 65536 % 256 ∷ n / 16777216 % 256 ∷ []

-- The number that leaves the reader: 0xffffffff, and the most that a request may hold.
abbrev pub quit : ℕ
quit = 4294967295

abbrev pub most_script : ℕ
most_script = 8388608

module _ {W : Type 0} where
  pub write_rest : (Text → W → Bool × W) → Text → WriteCall × W → Bool × W
  write_rest go bytes (write_interrupted, w) = go bytes w
  write_rest go bytes (write_error, w) = (false, w)
  write_rest go bytes (wrote zero, w) = (false, w)
  write_rest go bytes (wrote (suc n), w) = go (drop (suc n) bytes) w

  -- `write_all`, with fuel for the rounds.
  pub write_all : ℕ → Pipe W → Text → W → Bool × W
  write_all fuel pipe [] w = (true, w)
  write_all zero pipe (b ∷ bs) w = (false, w)
  write_all (suc fuel) pipe (b ∷ bs) w =
      write_rest (write_all fuel pipe) (b ∷ bs) (pipe.write (b ∷ bs) w)

  pub put_before : Text → Option Text × W → Option Text × W
  put_before bytes (none, w) = (none, w)
  put_before bytes (some rest, w) = (some (bytes ++ rest), w)

  pub read_rest : (ℕ → W → Option Text × W) → ℕ → ReadCall × W → Option Text × W
  read_rest go left (read_interrupted, w) = go left w
  read_rest go left (read_error, w) = (none, w)
  read_rest go left (got [], w) = (none, w)
  read_rest go left (got (b ∷ bs), w) = put_before (b ∷ bs) (go (left - length (b ∷ bs)) w)

  -- `read_all`: the bytes, where all of them came.
  pub read_all : ℕ → Pipe W → ℕ → W → Option Text × W
  read_all fuel pipe zero w = (some [], w)
  read_all zero pipe (suc left) w = (none, w)
  read_all (suc fuel) pipe (suc left) w =
      read_rest (read_all fuel pipe) (suc left) (pipe.read (suc left) w)

  pub then_write : ℕ → Pipe W → Text → Bool × W → Bool × W
  then_write fuel pipe bytes (false, w) = (false, w)
  then_write fuel pipe bytes (true, w) = write_all fuel pipe bytes w

  -- How a script is sent: its length, and its bytes.
  pub send_script : ℕ → Pipe W → Text → W → Bool × W
  send_script fuel pipe script w =
      then_write fuel pipe script (write_all fuel pipe (put32 (length script % u32_mod)) w)

  pub of_length : ℕ → Pipe W → Option Text × W → Option Text × W
  of_length fuel pipe (none, w) = (none, w)
  of_length fuel pipe (some bytes, w) =
      let rest = read_all fuel pipe (r32 bytes 0) w in
      if r32 bytes 0 == quit || ltb most_script (r32 bytes 0) then (none, w) else rest

  -- How the agent receives it, or leaves its loop.
  pub receive_script : ℕ → Pipe W → W → Option Text × W
  receive_script fuel pipe w = of_length fuel pipe (read_all fuel pipe 4 w)
