-- ===== src/Massage/Thread.antt =====
-- The worker thread of the engine (src/engine/massage.cpp): `start`, `run` and what the thread does
-- at its end. `joined` says that an earlier thread has ended.
use reflash.Base.{ℕ, Bool, true, false, Option, none, some, if◌then◌else◌, text_eq, [], Text, text}
use reflash.Progress.{Double, Progress, note_restart}
use reflash.PageCache
use reflash.PageCache.{PauseControl}

pub record Engine (F : Type 0) : Type 0 where
  pub running : Bool
  pub exit_code : ℕ
  pub pause : PauseControl
  pub progress : Progress F

module _ {F : Type 0} ⦃fl : Double F⦄ where
  -- The worker runs where the answer is true; the object is then as it is when the thread begins.
  pub start_worker : Text → Engine F → (Bool × Option Text) × Engine F
  start_worker target e =
      if e.running
      then ((false, some (text "already running")), e)
      else if text_eq target []
      then ((false, some (text "no DEVICE/FILE selected")), e)
      else (
        (true, none),
        record {
          running = true;
          exit_code = 1;
          pause = PageCache.reset e.pause;
          progress = note_restart e.progress;
        },
      )

  -- The end of the thread, and of `run`.
  pub ended : ℕ → Progress F → Engine F → Engine F
  ended rc p e = record e { running = false; exit_code = rc; progress = p }
