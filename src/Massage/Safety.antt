-- ===== src/Massage/Safety.antt =====
-- The massage engine over `class Device` (src/engine/massage.cpp, src/io/device.cpp).
use reflash.Base.{ℕ, Bool, List}
use reflash.Progress.{Double}
use reflash.Device.{Fds}
use reflash.Device.Hosting.{Others, device_host, OnDescriptor, IsQuiet, device_host-IsFaithful}
use reflash.Options.{Options}
use reflash.Store.{Sqlite}
use reflash.Massage.{WorkItem, State, run_work, run_linear}
use reflash.Massage.Run.{Spares, run_work-Spares}

-- Through a device whose system calls do what is documented, plain and direct, and with probes, a
-- pause control and an allocator that leave the medium alone, the massage of any list of work ends,
-- in the recursive and in the linear mode, and no byte of the medium has changed: whichever calls
-- fail or move fewer bytes, and whenever a stop is requested.
pub run_work-device_host :
    {F W D : Type 0} ⦃fl : Double F⦄ (view : W → ℕ → ℕ) (d : Fds W) (o : Others W)
    → OnDescriptor view d.plain
    → OnDescriptor view d.direct
    → IsQuiet view o
    → (s : Sqlite D) (opts : Options) (now block_size : ℕ) (stop : W → Bool) (items : List WorkItem)
      (st : State F W D)
    → Spares view st.world (run_work (device_host d o) s opts now block_size stop items st)
      × Spares view st.world (run_linear (device_host d o) s opts now block_size stop items st)
run_work-device_host view d o plain direct quiet s opts now block_size =
    run_work-Spares (device_host d o) view (device_host-IsFaithful view d o plain direct quiet) s
      opts now block_size
