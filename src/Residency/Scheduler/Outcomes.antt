-- ===== src/Residency/Scheduler/Outcomes.antt =====
-- har/crates/har-residency/src/scheduler.rs: how `run_one` ends, and what it makes of the works.
use remora_lab.Base.{
  ℕ, ◌≡◌, refl, sym, List, [], ◌∷◌, ◌==◌, ◌!=◌, nat_eq, Option, Bool, true, false, some, find, inl,
  inr, Bool-cases, Option-cases, not_ne, arith,
}
use remora_lab.Residency.Attempt.{Result, ok, err, ◌>>◌, when}
use remora_lab.Residency.Scheduler.Types.{
  waiting, stage_eq, WavefrontWork, WavefrontScheduler, ProjectionReplay,
}
use remora_lab.Residency.Scheduler.Run.{
  Surroundings, change_first, change_work, enter_stage, emit, find_work, lacks_slack, reject,
  run_stages, run_one,
}
use remora_lab.Residency.Scheduler.Stages
use remora_lab.Residency.Scheduler.Stages.Blocks.{Completed, run_stages-Takes}
use remora_lab.Residency.Scheduler.Stages.{
  Progress, unmoved, given_up, reading, uploading, placed, computing, finished, progress,
  is_finished, Stops, At, Stopped, change_first-unmoved,
}

abbrev pub found : ℕ → List WavefrontWork → Option WavefrontWork
found id = find (λ (w : WavefrontWork). w.work_id == id)

abbrev is_ok : {A : Type 0} → Result A → Bool
is_ok (ok a) = true
is_ok (err x) = false

-- How `run_one` ends: without effect on the works; with the work refused for want of slack; or after a run
-- of it, as far as it went, which succeeds exactly if the work is done.
pub data Outcome (id : ℕ) (s : WavefrontScheduler)
    (out : WavefrontScheduler × Result ProjectionReplay) : Type 0 where
  left_alone : out.0.works ≡ s.works → is_ok out.1 ≡ false → Outcome id s out
  refused :
      (w : WavefrontWork)
      → found id s.works ≡ some w
      → w.stage ≡ waiting
      → lacks_slack w s ≡ true
      → out.0.works ≡ change_first id (progress given_up) s.works
      → is_ok out.1 ≡ false
      → Outcome id s out
  ran :
      (w : WavefrontWork)
      → found id s.works ≡ some w
      → w.stage ≡ waiting
      → lacks_slack w s ≡ false
      → (made : Progress) → out.0.works ≡ change_first id (progress made) s.works
      → is_ok out.1 ≡ is_finished made
      → Outcome id s out

pub found-work_id :
    (id : ℕ) (ws : List WavefrontWork) (w : WavefrontWork) → found id ws ≡ some w → w.work_id ≡ id
found-work_id id [] w h = absurd (cc)
found-work_id id (v ∷ ws) w h = elim (Bool-cases (v.work_id == id)) [
  | inl e ↦ ground (arith, nat_eq.beq_iff v.work_id id)
  | inr e ↦ found-work_id id ws w (rw e at h)
]

module _ (e : Surroundings) (id : ℕ) (s : WavefrontScheduler) where
  module _ (w : WavefrontWork) (h : found id s.works ≡ some w) (q : w.stage ≡ waiting) where
    turned_away : lacks_slack w s ≡ true → Outcome id s ((reject e w >> run_stages e w) s)
    unfolding reject change_work enter_stage emit
    turned_away k = refused w h q k (rw (found-work_id id s.works w h) refl) refl

    ended :
        lacks_slack w s ≡ false
        → (out : WavefrontScheduler × Result ProjectionReplay)
        → Stages.Ends (λ _. Completed e w s.works) (Stopped w.work_id s.works) out
        → Outcome id s out
    ended k (t, ok a) d =
        ran w h q k (finished d.slot_id)
          (rw (← found-work_id id s.works w h) d.works_done.works_are) refl
    ended k (t, err x) d =
        ran w h q k d.progress_made (rw (← found-work_id id s.works w h) d.works_stand.works_are)
          (unfinished d.progress_made d.stops)
      where
        unfinished : (o : Progress) → Stops o → false ≡ is_finished o
        unfinished unmoved p = refl
        unfinished reading p = refl
        unfinished uploading p = refl
        unfinished (placed n) p = refl
        unfinished (computing n) p = refl
        unfinished given_up p = absurd p
        unfinished (finished n) p = absurd p

    allowed : lacks_slack w s ≡ false → Outcome id s (run_stages e w s)
    allowed k = ended k (run_stages e w s) (
        (run_stages-Takes e w s.works).run s
          (record { works_are = sym (change_first-unmoved w.work_id s.works) }))

    decided : Outcome id s ((when (lacks_slack w s) (reject e w) >> run_stages e w) s)
    decided = elim (Bool-cases (lacks_slack w s)) [
      | inl k ↦ rw k (turned_away k)
      | inr k ↦ rw k (allowed k)
    ]

  -- However `run_one` ends: it leaves the works alone and fails; or it finds the first work with the identifier,
  -- waiting and without the slack that the policy asks for, cancels it and fails; or that work was waiting and
  -- had the slack, there is a stage to which it is taken, and the run succeeds exactly if the work is done.
  -- All other works are as they were.
  pub run_one_lem : Outcome id s (run_one e id s)
  unfolding run_one find_work
  run_one_lem = elim (Option-cases (found id s.works)) [
    | inl h ↦ rw h (left_alone refl refl)
    | inr (w, h) ↦ elim (Bool-cases (w.stage != waiting)) [
      | inl q ↦ rw (h, q) (left_alone refl refl)
      | inr q ↦ rw (h, q) (decided w h (not_ne w.stage waiting q))
    ]
  ]
