-- ===== src/Residency/Scheduler/Stages.antt =====
-- har/crates/har-residency/src/scheduler.rs: what becomes of the works: the stages through which a run
-- takes one, and those it leaves as they are.
pub mod Blocks
use remora_lab.Base.{
  ℕ, ◌≡◌, inl, inr, refl, ap, ◌∙◌, List, [], ◌∷◌, ◌==◌, nat_eq, Bool, true, false, some, Bool-cases,
}
use mathlib.Core.Path.{fun_ext}
use remora_lab.Residency.Attempt.{Result, ok, err, Done, ◌>>=◌, and_then, pure, lift, modify}
use remora_lab.Residency.Record.{PageLease}
use remora_lab.Residency.Manager.{Call}
use remora_lab.Residency.Scheduler.Types.{
  nvme_read, ram_to_vram, gpu_compute, done, cancelled, stage_eq, WavefrontWork, WavefrontEvent,
  WavefrontScheduler,
}
use remora_lab.Residency.Scheduler.Run.{
  Surroundings, Method, on_manager, change_first, enter_stage, take_slot, change_work, emit,
  count_mandatory, start_read, finish_read, start_transfer, finish_transfer, start_compute,
  finish_compute, run_stages,
}

-- From a state with `P`, a method ends well in a state with `Q` of its result, or fails in one with `E`.
module _ {A : Type 0} (Q : A → WavefrontScheduler → Type 0) (E : WavefrontScheduler → Type 0) where
  abbrev pub Ends : WavefrontScheduler × Result A → Type 0
  Ends (t, ok a) = Q a t
  Ends (t, err x) = E t

pub record Takes {A : Type 0} (P : WavefrontScheduler → Type 0) (m : Method A)
    (Q : A → WavefrontScheduler → Type 0) (E : WavefrontScheduler → Type 0) : Type 0 where
  pub run : (s : WavefrontScheduler) → P s → Ends Q E (m s)

module _ {A B : Type 0} {Q : A → WavefrontScheduler → Type 0} {R : B → WavefrontScheduler → Type 0}
    {E : WavefrontScheduler → Type 0} where
  and_then-Ends :
      (out : WavefrontScheduler × Result A) (f : A → Method B)
      → Ends Q E out
      → ((a : A) → Takes (Q a) (f a) R E)
      → Ends R E (and_then out f)
  and_then-Ends (t, ok a) f h k = (k a).run t h
  and_then-Ends (t, err x) f h k = h

  pub bind :
      {P : WavefrontScheduler → Type 0} (m : Method A) (f : A → Method B)
      → Takes P m Q E
      → ((a : A) → Takes (Q a) (f a) R E)
      → Takes P (m >>= f) R E
  bind m f h k = record { run = λ s p. and_then-Ends (m s) f (h.run s p) k }

-- How far a run has taken its work.
pub data Progress : Type 0 where
  unmoved given_up reading uploading : Progress
  placed computing finished : (slot_id : ℕ) → Progress

abbrev pub progress : Progress → WavefrontWork → WavefrontWork
progress unmoved w = w
progress given_up w = record w { stage = cancelled }
progress reading w = record w { stage = nvme_read }
progress uploading w = record w { stage = ram_to_vram }
progress (placed n) w = record w { stage = ram_to_vram; slot_id = some n }
progress (computing n) w = record w { stage = gpu_compute; slot_id = some n }
progress (finished n) w = record w { stage = done; slot_id = some n }

abbrev pub is_finished : Progress → Bool
is_finished o = elim o [ finished n ↦ true | _ ↦ false ]

-- A run can end here with an error, once it has not been refused.
abbrev pub Stops : Progress → Type 0
Stops unmoved = Unit
Stops given_up = ⊥
Stops reading = Unit
Stops uploading = Unit
Stops (placed n) = Unit
Stops (computing n) = Unit
Stops (finished n) = ⊥

pub progress-work_id : (o : Progress) (w : WavefrontWork) → (progress o w).work_id ≡ w.work_id
progress-work_id unmoved w = refl
progress-work_id given_up w = refl
progress-work_id reading w = refl
progress-work_id uploading w = refl
progress-work_id (placed n) w = refl
progress-work_id (computing n) w = refl
progress-work_id (finished n) w = refl

change_first-progress :
    (id : ℕ) (f : WavefrontWork → WavefrontWork) (o : Progress) (ws : List WavefrontWork)
    → change_first id f (change_first id (progress o) ws)
      ≡ change_first id (λ w. f (progress o w)) ws
unfolding change_first
change_first-progress id f o [] = refl
change_first-progress id f o (w ∷ ws) = elim (Bool-cases (w.work_id == id)) [
  | inl e ↦ rw (e, progress-work_id o w, e) refl
  | inr e ↦ rw (e, e) (ap (◌∷◌ w) (change_first-progress id f o ws))
]

pub change_first-unmoved :
    (id : ℕ) (ws : List WavefrontWork) → change_first id (progress unmoved) ws ≡ ws
unfolding change_first
change_first-unmoved id [] = refl
change_first-unmoved id (w ∷ ws) = elim (Bool-cases (w.work_id == id)) [
  | inl e ↦ rw e refl
  | inr e ↦ rw e (ap (◌∷◌ w) (change_first-unmoved id ws))
]

-- The works are those before, with the work as far as its run has taken it.
pub record At (id : ℕ) (before : List WavefrontWork) (o : Progress) (s : WavefrontScheduler)
    : Type 0 where
  pub works_are : s.works ≡ change_first id (progress o) before

module _ (id : ℕ) (before : List WavefrontWork) where
  pub record Stopped (s : WavefrontScheduler) : Type 0 where
    pub progress_made : Progress
    pub stops : Stops progress_made
    pub works_stand : At id before progress_made s

  split :
      {A : Type 0} (o : Progress)
      → Stops o
      → (out : WavefrontScheduler × Result A) → At id before o out.0
      → Ends (λ _. At id before o) Stopped out
  split o k (t, ok a) q = q
  split o k (t, err x) q = record { progress_made = o; stops = k; works_stand = q }

  -- What leaves the works alone.
  aside :
      {A : Type 0} (m : Method A) (o : Progress)
      → ((s : WavefrontScheduler) → (m s).0.works ≡ s.works)
      → Stops o
      → Takes (At id before o) m (λ _. At id before o) Stopped
  aside m o h k = record { run = λ s p. split o k (m s) (record { works_are = h s ∙ p.works_are }) }

  pub on_manager-Takes :
      {A : Type 0} (op : Call A) (o : Progress)
      → Stops o
      → Takes (At id before o) (on_manager op) (λ _. At id before o) Stopped
  unfolding on_manager
  on_manager-Takes op o k = aside (on_manager op) o (λ s. refl) k

  -- A part that cannot fail.
  pub emit-Takes :
      (x : WavefrontEvent) (o : Progress)
      → Takes (At id before o) (emit x) (λ _. At id before o) Stopped
  unfolding emit
  emit-Takes x o = record { run = λ s p. record { works_are = p.works_are } }

  pub pure-Takes :
      {A : Type 0} (a : A) (o : Progress)
      → Takes (At id before o) (pure a) (λ _. At id before o) Stopped
  pure-Takes a o = record { run = λ s p. record { works_are = p.works_are } }

  change_work-Takes :
      (f : WavefrontWork → WavefrontWork) (o q : Progress)
      → ((w : WavefrontWork) → f (progress o w) ≡ progress q w)
      → Takes (At id before o) (change_work id f) (λ _. At id before q) Stopped
  unfolding change_work
  change_work-Takes f o q h = record {
    run = λ s p. record {
      works_are =
          ap (change_first id f) p.works_are
          ∙ change_first-progress id f o before
          ∙ ap (λ g. change_first id g before) (fun_ext h);
    };
  }

  pub enter_reading :
      Takes
        (At id before unmoved)
        (change_work id (enter_stage nvme_read))
        (λ _. At id before reading)
        Stopped
  unfolding enter_stage
  enter_reading = change_work-Takes (enter_stage nvme_read) unmoved reading λ w. refl

  pub enter_uploading :
      Takes
        (At id before reading)
        (change_work id (enter_stage ram_to_vram))
        (λ _. At id before uploading)
        Stopped
  unfolding enter_stage
  enter_uploading = change_work-Takes (enter_stage ram_to_vram) reading uploading λ w. refl

  module _ (n : ℕ) where
    pub enter_placed :
        Takes
          (At id before uploading)
          (change_work id (take_slot n))
          (λ _. At id before (placed n))
          Stopped
    unfolding take_slot
    enter_placed = change_work-Takes (take_slot n) uploading (placed n) λ w. refl

    pub enter_computing :
        Takes
          (At id before (placed n))
          (change_work id (enter_stage gpu_compute))
          (λ _. At id before (computing n))
          Stopped
    unfolding enter_stage
    enter_computing = change_work-Takes (enter_stage gpu_compute) (placed n) (computing n) λ w. refl

    pub enter_finished :
        Takes
          (At id before (computing n))
          (change_work id (enter_stage done))
          (λ _. At id before (finished n))
          Stopped
    unfolding enter_stage
    enter_finished = change_work-Takes (enter_stage done) (computing n) (finished n) λ w. refl

  pub count_mandatory-Takes :
      (w : WavefrontWork) (o : Progress)
      → Takes (At id before o) (modify (count_mandatory w)) (λ _. At id before o) Stopped
  unfolding count_mandatory
  count_mandatory-Takes w o = record { run = λ s p. record { works_are = p.works_are } }

  pub lift-Takes :
      {A : Type 0} (r : Result A) (o : Progress)
      → Stops o
      → Takes (At id before o) (lift r) (λ _. At id before o) Stopped
  lift-Takes r o k = aside (lift r) o (λ s. refl) k
