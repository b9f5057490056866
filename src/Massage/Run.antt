-- ===== src/Massage/Run.antt =====
-- The loop over the work of the massage engine (src/engine/massage.cpp).
use reflash.Base.{ℕ, refl, ◌∙◌, Bool, true, false, Option, none, some, List, [], ◌∷◌}
use reflash.Progress.{Double, set_phase}
use reflash.BlockIo.{Host}
use reflash.BlockIo.Content.{Same, IsFaithful, rewrite_range-Same}
use reflash.BlockIo.Ends.{rewrite_range_returns}
use reflash.Options.{Options}
use reflash.Store.{Sqlite}
use reflash.Massage.{WorkItem, flags_of, State, recorded, run_one, run_work, run_linear}

-- A run that returns, with the bytes of the target as they were.
unfoldable pub Spares : {F W D : Type 0} → (W → ℕ → ℕ) → W → Option (State F W D) → Type 0
Spares view w none = ⊥
Spares view w (some st) = Same view w st.world

module _ {F W D : Type 0} ⦃fl : Double F⦄ (h : Host W) (view : W → ℕ → ℕ) (law : IsFaithful view h)
    (s : Sqlite D) (opts : Options) (now block_size : ℕ) where
  run_one-Spares :
      (item : WorkItem) (st : State F W D)
      → Spares view st.world (run_one h s opts now block_size item st)
  unfolding run_one recorded Spares
  run_one-Spares item st =
      let (o, e) =
        rewrite_range_returns {F = F} h item.offset item.length block_size (flags_of opts)
          (set_phase item.path st.progress) item.path st.world in
      rw (run_one, e)
        (rewrite_range-Same {F = F} h view law item.offset item.length block_size (flags_of opts)
          (set_phase item.path st.progress) item.path st.world o e)

  later-Spares :
      (w : W) (st : State F W D) (r : Option (State F W D))
      → Same view w st.world
      → Spares view st.world r
      → Spares view w r
  unfolding Spares
  later-Spares w st none here later = later
  later-Spares w st (some st1) here later = λ i. later i ∙ here i

  -- After one more item.
  next-Spares :
      (w : W) (r : Option (State F W D)) (go : State F W D → Option (State F W D))
      → Spares view w r
      → ((st : State F W D) → Spares view st.world (go st))
      → Spares view w (elim r [ none ↦ none | some st ↦ go st ])
  unfolding Spares
  next-Spares w none go h1 h2 = h1
  next-Spares w (some st) go h1 h2 = later-Spares w st (go st) h1 (h2 st)

  stop-Spares :
      (st : State F W D) (b : Bool) (r : Option (State F W D))
      → Spares view st.world r
      → Spares view st.world (elim b [ true ↦ some st | false ↦ r ])
  unfolding Spares
  stop-Spares st true r h1 = λ i. refl
  stop-Spares st false r h1 = h1

  run_work_each :
      (stop : W → Bool) (items : List WorkItem) (st : State F W D)
      → Spares view st.world (run_work h s opts now block_size stop items st)
  unfolding run_work Spares
  run_work_each stop [] st = λ i. refl
  run_work_each stop (item ∷ items) st = stop-Spares st (stop st.world) _ (
      next-Spares st.world _ (run_work h s opts now block_size stop items) (run_one-Spares item st)
        (run_work_each stop items))

  -- With a host that is faithful, the massage of a whole list of work ends, in the recursive and in
  -- the linear mode, whenever a stop is requested and whatever fails; and it leaves every byte of the
  -- target as it was.
  pub run_work-Spares :
      (stop : W → Bool) (items : List WorkItem) (st : State F W D)
      → Spares view st.world (run_work h s opts now block_size stop items st)
        × Spares view st.world (run_linear h s opts now block_size stop items st)
  unfolding run_linear Spares
  run_work-Spares stop [] st = (run_work_each stop [] st, λ i. refl)
  run_work-Spares stop (item ∷ items) st = (
    run_work_each stop (item ∷ items) st,
    next-Spares st.world _ (run_work h s opts now block_size stop items) (run_one-Spares item st)
        (run_work_each stop items),
  )
