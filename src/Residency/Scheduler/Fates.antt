-- ===== src/Residency/Scheduler/Fates.antt =====
-- har/crates/har-residency/src/scheduler.rs: what becomes of a work over any calls of the scheduler.
use remora_lab.Base.{
  ℕ, zero, suc, ◌≡◌, ◌≢◌, ◌⊎◌, inl, inr, refl, sym, ap, ◌∙◌, List, [], ◌∷◌, ◌++◌, ◌==◌, nat_eq,
  String, Option, true, none, some, Bool-cases, arith, ◌+◌,
}
use mathlib.Core.Path.{subst}
use remora_lab.Residency.Attempt.{Result}
use remora_lab.Residency.Attempt.Respect.{IsPreorder}
use remora_lab.Residency.Scheduler.Types.{
  waiting, stage_eq, WavefrontWork, WavefrontScheduler, ProjectionReplay,
}
use remora_lab.Residency.Scheduler.Run.{Surroundings, change_first, enter_stage, run_one}
use remora_lab.Residency.Scheduler.Works.{
  push_work, cancel_waiting, cancel_speculative, cancellable, SchedulerCall, run, Moves,
  run-Respects,
}
use remora_lab.Residency.Scheduler.Frame.{Steps, steps_apart, add-Respects}
use remora_lab.Residency.Scheduler.Stages.{
  Progress, unmoved, given_up, reading, uploading, placed, computing, finished, progress,
  change_first-unmoved,
}
use remora_lab.Residency.Scheduler.Outcomes.{left_alone, refused, ran, found, run_one_lem, Outcome}

abbrev pub IsMoved : Progress → Type 0
IsMoved o = elim o [ unmoved ↦ ⊥ | _ ↦ Unit ]

-- A work is as it was, or it was waiting and a run has taken it further, or it was cancelled.
abbrev pub Advances : WavefrontWork → WavefrontWork → Type 0
Advances w v = (v ≡ w) ⊎ ((o : Progress) × IsMoved o × (w.stage ≡ waiting) × (v ≡ progress o w))

moved_stage : (o : Progress) (w : WavefrontWork) → IsMoved o → (progress o w).stage ≢ waiting
moved_stage unmoved w m = absurd m
moved_stage given_up w m = λ e. cc
moved_stage reading w m = λ e. cc
moved_stage uploading w m = λ e. cc
moved_stage (placed n) w m = λ e. cc
moved_stage (computing n) w m = λ e. cc
moved_stage (finished n) w m = λ e. cc

Advances-trans : (u v w : WavefrontWork) → Advances u v → Advances v w → Advances u w
Advances-trans u v w x (inl e) = rw e x
Advances-trans u v w (inl d) (inr (o, m, q, e)) = inr (o, m, rw (← d) q, rw (← d) e)
Advances-trans u v w (inr (p, k, r, d)) (inr (o, m, q, e)) = absurd (moved_stage p u k (rw (← d) q))

-- Each work keeps its position and advances; others follow.
abbrev pub Continues : List WavefrontWork → List WavefrontWork → Type 0
Continues [] vs = Unit
Continues (w ∷ ws) [] = ⊥
Continues (w ∷ ws) (v ∷ vs) = Advances w v × Continues ws vs

Continues-refl : (ws : List WavefrontWork) → Continues ws ws
Continues-refl [] = tt
Continues-refl (w ∷ ws) = (inl refl, Continues-refl ws)

Continues-trans :
    (us vs ws : List WavefrontWork) → Continues us vs → Continues vs ws → Continues us ws
Continues-trans [] vs ws x y = tt
Continues-trans (u ∷ us) [] ws x y = absurd x
Continues-trans (u ∷ us) (v ∷ vs) [] x y = absurd y
Continues-trans (u ∷ us) (v ∷ vs) (w ∷ ws) x y =
    (Advances-trans u v w x.0 y.0, Continues-trans us vs ws x.1 y.1)

Continues-append : (ws vs : List WavefrontWork) → Continues ws (ws ++ vs)
Continues-append [] vs = tt
Continues-append (w ∷ ws) vs = (inl refl, Continues-append ws vs)

IsMoved-or_unmoved : (o : Progress) → (o ≡ unmoved) ⊎ IsMoved o
IsMoved-or_unmoved unmoved = inl refl
IsMoved-or_unmoved given_up = inr tt
IsMoved-or_unmoved reading = inr tt
IsMoved-or_unmoved uploading = inr tt
IsMoved-or_unmoved (placed n) = inr tt
IsMoved-or_unmoved (computing n) = inr tt
IsMoved-or_unmoved (finished n) = inr tt

change_first-Continues :
    (id : ℕ) (o : Progress) (w : WavefrontWork) (ws : List WavefrontWork)
    → IsMoved o
    → found id ws ≡ some w
    → w.stage ≡ waiting
    → Continues ws (change_first id (progress o) ws)
unfolding change_first
change_first-Continues id o w [] m h q = tt
change_first-Continues id o w (v ∷ ws) m h q = elim (Bool-cases (v.work_id == id)) [
  | inl e ↦
      rw e (inr (o, m, subst (λ x. x.stage ≡ waiting) (sym (same e)) q, refl), Continues-refl ws)
  | inr e ↦ rw e (inl refl, change_first-Continues id o w ws m (rw e at h) q)
]
  where
    same : (v.work_id == id) ≡ true → v ≡ w
    same e = cc (rw e at h)

abbrev Later : WavefrontScheduler → WavefrontScheduler → Type 0
Later s t = Continues s.works t.works

order : IsPreorder Later
order = record {
  stays = λ s. Continues-refl s.works;
  trans = λ s t u x y. Continues-trans s.works t.works u.works x y;
}

progress-Continues :
    (id : ℕ) (o : Progress) (w : WavefrontWork) (ws : List WavefrontWork)
    → found id ws ≡ some w
    → w.stage ≡ waiting
    → Continues ws (change_first id (progress o) ws)
progress-Continues id o w ws h q = elim (IsMoved-or_unmoved o) [
  | inl e ↦
      subst (Continues ws)
        (sym (ap (λ z. change_first id (progress z) ws) e ∙ change_first-unmoved id ws))
        (Continues-refl ws)
  | inr m ↦ change_first-Continues id o w ws m h q
]

Outcome-Later :
    (id : ℕ) (s : WavefrontScheduler) (out : WavefrontScheduler × Result ProjectionReplay)
    → Outcome id s out
    → Later s out.0
Outcome-Later id s out (left_alone e f) = subst (Continues s.works) (sym e) (Continues-refl s.works)
Outcome-Later id s out (refused w h q k e f) =
    subst (Continues s.works) (sym e) (progress-Continues id given_up w s.works h q)
Outcome-Later id s out (ran w h q k o e f) =
    subst (Continues s.works) (sym e) (progress-Continues id o w s.works h q)

run_one-Later : (e : Surroundings) (id : ℕ) (s : WavefrontScheduler) → Later s (run_one e id s).0
run_one-Later e id s = Outcome-Later id s (run_one e id s) (run_one_lem e id s)

cancel_waiting-Continues :
    (elapsed : ℕ → ℕ) (reason : String) (n : ℕ) (ws : List WavefrontWork)
    → Continues ws (cancel_waiting elapsed reason n ws).0
unfolding cancel_waiting enter_stage
cancel_waiting-Continues elapsed reason n [] = tt
cancel_waiting-Continues elapsed reason n (w ∷ ws) = elim (Bool-cases (cancellable w)) [
  | inl e ↦ rw e (
    inr (given_up, tt, ground (arith, stage_eq.beq_iff w.stage waiting), refl),
    cancel_waiting-Continues elapsed reason (n + 1) ws,
  )
  | inr e ↦ rw e (inl refl, cancel_waiting-Continues elapsed reason n ws)
]

steps : Steps Later
steps = steps_apart order λ s t h. subst (Continues s.works) (sym h.works) (Continues-refl s.works)

moves : Moves Later
unfolding push_work cancel_speculative
moves = record {
  order = order;
  add = add-Respects steps λ id r. record { step = λ s. Continues-append s.works (_ ∷ []) };
  run_one = λ e id. record { step = run_one-Later e id };
  cancel = λ elapsed reason s. cancel_waiting-Continues elapsed reason 0 s.works;
}

abbrev pub get_work : ℕ → List WavefrontWork → Option WavefrontWork
get_work n [] = none
get_work zero (w ∷ ws) = some w
get_work (suc n) (w ∷ ws) = get_work n ws

get_work-Continues :
    (n : ℕ) (ws vs : List WavefrontWork) (w : WavefrontWork)
    → Continues ws vs
    → get_work n ws ≡ some w
    → (v : WavefrontWork) × (get_work n vs ≡ some v) × Advances w v
get_work-Continues n [] vs w c h = absurd (cc)
get_work-Continues n (x ∷ ws) [] w c h = absurd c
get_work-Continues zero (x ∷ ws) (y ∷ vs) w c h =
    (y, refl, subst (λ z. Advances z y) (some-inj h) c.0)
  where
    some-inj : {a b : WavefrontWork} → some a ≡ some b → a ≡ b
    some-inj e = cc
get_work-Continues (suc n) (x ∷ ws) (y ∷ vs) w c h = get_work-Continues n ws vs w c.1 h

-- Whatever is asked of the scheduler: a work keeps its place, and it is as it was, or it was waiting and has
-- been cancelled or taken to a later stage, all else in it but the slot being as it was.
pub run-Advances :
    (calls : List SchedulerCall) (s : WavefrontScheduler) (n : ℕ) (w : WavefrontWork)
    → get_work n s.works ≡ some w
    → (v : WavefrontWork) × (get_work n (run calls s).works ≡ some v) × Advances w v
run-Advances calls s n w h =
    get_work-Continues n s.works (run calls s).works w (run-Respects moves calls s) h

-- A work that has left the waiting stage, also one whose run failed, is never changed again.
pub run-settled :
    (calls : List SchedulerCall) (s : WavefrontScheduler) (n : ℕ) (w : WavefrontWork)
    → get_work n s.works ≡ some w
    → w.stage ≢ waiting
    → get_work n (run calls s).works ≡ some w
run-settled calls s n w h k = let (v, q, a) = run-Advances calls s n w h in q ∙ ap some (same v a)
  where
    same : (v : WavefrontWork) → Advances w v → v ≡ w
    same v (inl e) = e
    same v (inr (o, m, p, e)) = absurd (k p)
