-- ===== src/Massage/Engine/Rewriting/Work.antt =====
-- The work of a run of the massage engine (src/engine/massage.cpp): it ends, and leaves the bytes of
-- the target as they were.
use reflash.Base.{ℕ, ◌≤◌, ◌≡◌, refl, Bool, true, false, Option, none, some, List, [], Text, arith}
use reflash.Progress.{Double, at_least_one}
use reflash.BlockIo.Content.{Same, IsFaithful}
use reflash.Fs.{Run, returned, trapped, out_of_fuel, ◌>>=◌}
use reflash.Partition.{probe_partitions}
use reflash.Options.{Options, RunMode, linear, recursive}
use reflash.Store.{Sqlite}
use reflash.Sha1Pass.{}
use reflash.Sha1Pass.File.{Evp}
use reflash.Sha1Pass.Walk.{FileMap, walk_mounts}
use reflash.Massage.{State, run_linear}
use reflash.Massage.Plan.{Plan, recursive_plan}
use reflash.Massage.Run.{Spares, run_work-Spares}
use reflash.Massage.Engine.Interface.{Target, System, of_option, one_if, is_check}
use reflash.Massage.Engine.Rewriting.{
  after_sync, sync_target, coded, begin_work, reported, coded_run, run_linear_plan,
  run_recursive_plan, run_mode, stopped, rewrite_target,
}

-- A run that returns, with a result that has the property.
abbrev pub Holds : {A : Type 0} → (A → Type 0) → Run A → Type 0
Holds P (returned a) = P a
Holds P trapped = ⊥
Holds P out_of_fuel = ⊥

pub Holds->>= :
    {A B : Type 0} (P : A → Type 0) (Q : B → Type 0) (m : Run A) (f : A → Run B)
    → Holds P m
    → ((a : A) → P a → Holds Q (f a))
    → Holds Q (m >>= f)
Holds->>= P Q (returned a) f here next = next a here
Holds->>= P Q trapped f here next = elim here [ ]
Holds->>= P Q out_of_fuel f here next = elim here [ ]

one_if-le : (b : Bool) → one_if b ≤ 1
unfolding one_if
one_if-le b = ground arith

module _ {F W D M C : Type 0} ⦃fl : Double F⦄ (y : System F W D M) (s : Sqlite D) (evp : Evp C)
    (opts : Options) (now depth : ℕ) (view : W → ℕ → ℕ) where
  -- What a run needs of an open target: documented calls, and a scan that ends.
  pub record IsSound (t : Target W) : Type 0 where
    pub faithful : IsFaithful view t.host
    pub scanned :
        (w : W)
        → (plan : Plan) × (recursive_plan depth
              (t.disk w)
              t.size
              (probe_partitions t.sector_size (t.disk w))
            ≡ returned plan)

  -- The sync leaves the bytes of the target as they are, and the directories of the mounts are not
  -- nested deeper than the fuel.
  pub record IsQuiet : Type 0 where
    pub synced : (size : ℕ) (w : W) → Same view w (y.full_disk_sync size w).1
    pub walked :
        (w : W) (targets : List Text)
        → (files : FileMap) × (walk_mounts (y.tree w) depth targets [] ≡ some files)

  abbrev pub Worked : W → ℕ × State F W D → Type 0
  Worked w (rc, st) = (rc ≤ 1) × Same view w st.world

  coded-Worked :
      (w : W) (rc : ℕ) (r : Option (State F W D))
      → rc ≤ 1
      → Spares view w r
      → Holds (Worked w) (coded_run y s evp opts now depth rc r)
  unfolding coded_run of_option coded Spares
  coded-Worked w rc none small spared = elim spared [ ]
  coded-Worked w rc (some st) small spared = (small, spared)

  module _ (t : Target W) (sound : IsSound t) (bs : ℕ) where
    begin_same :
        (total : ℕ) (st : State F W D)
        → (begin_work y s evp opts now depth total bs st).world ≡ st.world
    unfolding begin_work
    begin_same total st = refl

    linear-Worked :
        (plan : Plan) (st : State F W D)
        → Holds (Worked st.world) (run_linear_plan y s evp opts now depth t bs plan st)
    unfolding run_linear_plan reported begin_work
    linear-Worked plan st =
        elim plan.bad
          as (λ b. Holds (Worked st.world) (elim b [
            | true ↦ returned (1, reported y s evp opts now depth plan st)
            | false ↦ coded_run y s evp opts now depth 0 (
                run_linear t.host s opts now bs y.stop_requested plan.work
                  (begin_work y s evp opts now depth plan.total bs st))
          ])) [
            | true ↦ (omega arith, λ i. refl)
            | false ↦
                coded-Worked st.world 0 _ (omega arith)
                  (run_work-Spares t.host view sound.faithful s opts now bs y.stop_requested
                    plan.work (begin_work y s evp opts now depth plan.total bs st)).1
          ]

    recursive-Worked :
        (plan : Plan) (st : State F W D)
        → Holds (Worked st.world) (run_recursive_plan y s evp opts now depth t bs st plan)
    unfolding run_recursive_plan reported begin_work
    recursive-Worked plan st =
        coded-Worked st.world (one_if plan.bad) _ (one_if-le plan.bad)
          (run_work-Spares t.host view sound.faithful s opts now bs y.stop_requested plan.work (
            begin_work y s evp opts now depth (at_least_one plan.total) bs
              (reported y s evp opts now depth plan st))).0

    run_mode-Worked :
        (mode : RunMode) (st : State F W D)
        → Holds (Worked st.world) (run_mode y s evp opts now depth mode t bs st)
    unfolding run_mode
    run_mode-Worked linear st = linear-Worked _ st
    run_mode-Worked recursive st =
        let (plan, e) = sound.scanned st.world in rw (e, ◌>>=◌) (recursive-Worked plan st)

    stopped-Worked :
        (w : W) (r : ℕ × State F W D) → Worked w r → Worked w (stopped y s evp opts now depth r)
    unfolding stopped
    stopped-Worked w (rc, st) (small, same) = (ground arith, same)

    pub rewrite_target-Worked :
        (st : State F W D) → Holds (Worked st.world) (rewrite_target y s evp opts now depth t bs st)
    unfolding rewrite_target
    rewrite_target-Worked st =
        elim (is_check opts.action)
          as (λ b. Holds (Worked st.world) (elim b [
            | true ↦ returned (0, st)
            | false ↦ run_mode y s evp opts now depth opts.mode t bs st >>= λ r.
                returned (stopped y s evp opts now depth r)
          ])) [
            | true ↦ (omega arith, λ i. refl)
            | false ↦
                Holds->>= (Worked st.world) (Worked st.world)
                  (run_mode y s evp opts now depth opts.mode t bs st)
                  (λ r. returned (stopped y s evp opts now depth r)) (run_mode-Worked opts.mode st)
                  (stopped-Worked st.world)
          ]

  -- The full-disk sync after it.
  pub sync_same :
      (quiet : IsQuiet)
      → (t : Target W) (st : State F W D)
      → Same view st.world (sync_target y s evp opts now depth t st).world
  unfolding sync_target after_sync
  sync_same quiet t st i = ground (arith, quiet.synced (at_least_one t.size) st.world i)
