-- ===== src/Residency/Scheduler/Speculation.antt =====
-- har/crates/har-residency/src/scheduler.rs: speculation waits for measured bytes.
use remora_lab.Base.{
  ℕ, ◌≡◌, ◌<◌, inl, inr, refl, sym, ap, ◌∙◌, List, [], ◌∷◌, ◌==◌, nat_eq, String, true, false, some,
  Bool-cases, All, All-append, arith, ◌+◌, ◌||◌, Bool, ltb,
}
use mathlib.Core.Path.{subst}
use remora_lab.Residency.Attempt.{Result}
use remora_lab.Residency.Attempt.Respect.{IsPreorder, Respects}
use remora_lab.Residency.Manager.{ResidencyManager}
use remora_lab.Residency.Scheduler.Types.{
  waiting, cancelled, stage_eq, WavefrontWork, WavefrontScheduler, allow, new_scheduler,
  ProjectionReplay,
}
use remora_lab.Residency.Scheduler.Run.{
  Surroundings, change_first, change_work, enter_stage, lacks_slack, run_one,
}
use remora_lab.Residency.Scheduler.Works.{
  WorkRequest, new_work, push_work, cancel_waiting, cancel_speculative, cancellable, SchedulerCall,
  run, Moves, run-Respects,
}
use remora_lab.Residency.Scheduler.Frame.{Steps, steps_apart, add-Respects, run_one-Respects}
use remora_lab.Residency.Scheduler.Stages.{
  Progress, unmoved, given_up, reading, uploading, placed, computing, finished, progress,
}
use remora_lab.Residency.Scheduler.Outcomes.{left_alone, refused, ran, found, run_one_lem, Outcome}

-- The policy is not touched, and measured bytes stay measured.
abbrev Quiet : WavefrontScheduler → WavefrontScheduler → Type 0
Quiet s t =
    (t.slack_policy ≡ s.slack_policy)
    × (0 < s.mandatory_bytes_measured → 0 < t.mandatory_bytes_measured)

steps : Steps Quiet
steps =
    steps_apart
      (record { stays = λ s. (refl, λ h. h); trans = λ s t u x y. (y.0 ∙ x.0, λ h. y.1 (x.1 h)) })
      λ s t h. (h.policy, h.measured)

change_work-Quiet : (id : ℕ) (f : WavefrontWork → WavefrontWork) → Respects Quiet (change_work id f)
unfolding change_work
change_work-Quiet id f = record { step = λ s. (refl, λ h. h) }

-- A work that is neither waiting nor cancelled is mandatory, or mandatory bytes have been measured.
abbrev pub earned_by : ℕ → WavefrontWork → Bool
earned_by measured w =
    w.stage == waiting || (w.stage == cancelled || (w.mandatory || ltb 0 measured))

abbrev pub IsEarned : ℕ → WavefrontWork → Type 0
IsEarned measured w = earned_by measured w ≡ true

pub record IsMeasured (s : WavefrontScheduler) : Type 0 where
  pub asked : s.slack_policy.require_measured_mandatory_bytes ≡ true
  pub earned : All (IsEarned s.mandatory_bytes_measured) s.works

All-IsEarned :
    (a b : ℕ)
    → (0 < a → 0 < b)
    → (ws : List WavefrontWork) → All (IsEarned a) ws
    → All (IsEarned b) ws
All-IsEarned a b m [] h = tt
All-IsEarned a b m (w ∷ ws) h = (ground (arith, h.0), All-IsEarned a b m ws h.1)

-- A change of the first work with an identifier.
change_first-IsEarned :
    (id n : ℕ) (f : WavefrontWork → WavefrontWork) (w : WavefrontWork) (ws : List WavefrontWork)
    → IsEarned n (f w)
    → found id ws ≡ some w
    → All (IsEarned n) ws
    → All (IsEarned n) (change_first id f ws)
unfolding change_first
change_first-IsEarned id n f w [] k q h = tt
change_first-IsEarned id n f w (v ∷ ws) k q h = elim (Bool-cases (v.work_id == id)) [
  | inl e ↦ rw e (subst (λ y. IsEarned n (f y)) (sym (same e)) k, h.1)
  | inr e ↦ rw e (h.0, change_first-IsEarned id n f w ws k (rw e at q) h.1)
]
  where
    same : (v.work_id == id) ≡ true → v ≡ w
    same e = cc (rw e at q)

progress-IsEarned :
    (n : ℕ) (o : Progress) (w : WavefrontWork)
    → w.stage ≡ waiting
    → (w.mandatory || ltb 0 n) ≡ true
    → IsEarned n (progress o w)
progress-IsEarned n unmoved w q h = ground (arith, stage_eq.beq_iff w.stage waiting)
progress-IsEarned n given_up w q h = refl
progress-IsEarned n reading w q h = h
progress-IsEarned n uploading w q h = h
progress-IsEarned n (placed i) w q h = h
progress-IsEarned n (computing i) w q h = h
progress-IsEarned n (finished i) w q h = h

-- What the test of the policy says of a work that passes it.
slack-earned :
    (w : WavefrontWork) (s : WavefrontScheduler)
    → s.slack_policy.require_measured_mandatory_bytes ≡ true
    → lacks_slack w s ≡ false
    → (w.mandatory || ltb 0 s.mandatory_bytes_measured) ≡ true
unfolding lacks_slack allow
slack-earned w s a h = elim (Bool-cases w.mandatory) [ inl e ↦ rw e refl | inr e ↦ ground arith ]

Outcome-IsEarned :
    (id : ℕ) (s : WavefrontScheduler) (out : WavefrontScheduler × Result ProjectionReplay)
    → IsMeasured s
    → Outcome id s out
    → All (IsEarned s.mandatory_bytes_measured) out.0.works
Outcome-IsEarned id s out m (left_alone e f) = rw e m.earned
Outcome-IsEarned id s out m (refused w h q k e f) = rw e (
    change_first-IsEarned id s.mandatory_bytes_measured (progress given_up) w s.works refl h
      m.earned)
Outcome-IsEarned id s out m (ran w h q k o e f) = rw e (
    change_first-IsEarned id s.mandatory_bytes_measured (progress o) w s.works
      (progress-IsEarned s.mandatory_bytes_measured o w q (slack-earned w s m.asked k)) h m.earned)

abbrev Keeps : WavefrontScheduler → WavefrontScheduler → Type 0
Keeps s t = IsMeasured s → IsMeasured t

run_one-Keeps : (e : Surroundings) (id : ℕ) (s : WavefrontScheduler) → Keeps s (run_one e id s).0
run_one-Keeps e id s h =
    let q = (run_one-Respects steps change_work-Quiet e id).step s in
    record {
      asked = ap (λ p. p.require_measured_mandatory_bytes) q.0 ∙ h.asked;
      earned =
          All-IsEarned s.mandatory_bytes_measured (run_one e id s).0.mandatory_bytes_measured q.1
            (run_one e id s).0.works
            (Outcome-IsEarned id s (run_one e id s) h (run_one_lem e id s));
    }

order : IsPreorder Keeps
order = record { stays = λ s h. h; trans = λ s t u x y h. y (x h) }

kept : Steps Keeps
kept = steps_apart order λ s t u h. record {
  asked = ap (λ p. p.require_measured_mandatory_bytes) u.policy ∙ h.asked;
  earned = rw u.works (
      All-IsEarned s.mandatory_bytes_measured t.mandatory_bytes_measured u.measured s.works
        h.earned);
}

push_work-Keeps : (id : ℕ) (r : WorkRequest) → Respects Keeps (push_work (new_work id r))
unfolding push_work new_work
push_work-Keeps id r = record {
  step = λ s h. record { asked = h.asked; earned = All-append _ s.works _ h.earned (refl, tt) };
}

cancel_waiting-IsEarned :
    (n : ℕ) (elapsed : ℕ → ℕ) (reason : String) (k : ℕ) (ws : List WavefrontWork)
    → All (IsEarned n) ws
    → All (IsEarned n) (cancel_waiting elapsed reason k ws).0
unfolding cancel_waiting enter_stage
cancel_waiting-IsEarned n elapsed reason k [] h = tt
cancel_waiting-IsEarned n elapsed reason k (w ∷ ws) h = elim (Bool-cases (cancellable w)) [
  | inl e ↦ rw e (refl, cancel_waiting-IsEarned n elapsed reason (k + 1) ws h.1)
  | inr e ↦ rw e (h.0, cancel_waiting-IsEarned n elapsed reason k ws h.1)
]

moves : Moves Keeps
unfolding cancel_speculative
moves = record {
  order = order;
  add = add-Respects kept push_work-Keeps;
  run_one = λ e id. record { step = run_one-Keeps e id };
  cancel = λ elapsed reason s h. record {
    asked = h.asked;
    earned = cancel_waiting-IsEarned s.mandatory_bytes_measured elapsed reason 0 s.works h.earned;
  };
}

-- Whatever is asked of a new scheduler, in any order and with runs that fail: a work that is neither waiting
-- nor cancelled is mandatory, or mandatory bytes have been measured.
pub run-IsMeasured :
    (m : ResidencyManager) (calls : List SchedulerCall) → IsMeasured (run calls (new_scheduler m))
unfolding new_scheduler
run-IsMeasured m calls =
    run-Respects moves calls (new_scheduler m) (record { asked = refl; earned = tt })
