-- ===== src/Residency/Scheduler/Works.antt =====
-- har/crates/har-residency/src/scheduler.rs: the other methods of `WavefrontScheduler`, and sequences of
-- calls, those that fail included.
use remora_lab.Base.{
  none, [], ◌∷◌, ◌++◌, ◌==◌, nat_eq, ℕ, ◌+◌, String, Bool, Option, List, ◌&&◌, wrap_add,
  if◌then◌else◌,
}
use remora_lab.Base.Int.{ℤ}
use remora_lab.Residency.Types.{StorageSlice}
use remora_lab.Residency.Attempt.{invalid, Result, ok, Done, pure, ◌>>=◌, ◌>>◌, refuse_if, modify}
use remora_lab.Residency.Manager
use remora_lab.Residency.Scheduler.Types.{
  waiting, cancelled, stage_eq, WavefrontWork, WavefrontEvent, ProjectionReplay, WavefrontScheduler,
}
use remora_lab.Residency.Scheduler.Order.{select}
use remora_lab.Residency.Scheduler.Run.{
  Surroundings, Method, on_manager, enter_stage, new_event, run_one,
}
use remora_lab.Residency.Attempt.Respect.{IsPreorder, Respects}

-- What a work is asked for with.
pub record WorkRequest : Type 0 where
  pub slice : StorageSlice
  pub generation : ℕ
  pub mandatory : Bool
  pub speculative : Bool
  pub deadline_ns : Option ℕ
  pub dependency_urgency : ℤ
  pub predicted_future_use : ℕ

unfoldable pub new_work : ℕ → WorkRequest → WavefrontWork
new_work work_id r = record {
  work_id = work_id;
  slice = r.slice;
  generation = r.generation;
  mandatory = r.mandatory;
  speculative = r.speculative;
  deadline_ns = r.deadline_ns;
  dependency_urgency = r.dependency_urgency;
  predicted_future_use = r.predicted_future_use;
  stage = waiting;
  slot_id = none;
  error = none;
}

unfoldable pub take_work_id : Method ℕ
take_work_id s = (record s { next_work_id = wrap_add s.next_work_id 1 }, ok s.next_work_id)

unfoldable pub count_speculative : WorkRequest → WavefrontScheduler → WavefrontScheduler
count_speculative r s =
    if r.speculative
    then record s {
      speculative_bytes_requested = wrap_add s.speculative_bytes_requested r.slice.payload_bytes;
    }
    else s

unfoldable pub push_work : WavefrontWork → Method Done
push_work w s = (record s { works = s.works ++ (w ∷ []) }, ok tt)

unfoldable pub add : WorkRequest → Method ℕ
unfolding on_manager Manager.register take_work_id count_speculative push_work new_work
add r = do
  refuse_if (r.speculative && r.mandatory) (invalid "work cannot be mandatory and speculative")
  on_manager (Manager.register r.slice r.generation)
  work_id ← take_work_id
  modify (count_speculative r)
  push_work (new_work work_id r)
  pure work_id

-- `run_one` of each work in turn; `surroundings n` is what the n-th of these runs meets.
unfoldable pub run_each :
    (surroundings : ℕ → Surroundings) (position : ℕ)
    → List ℕ
    → WavefrontScheduler
    → WavefrontScheduler × List (ℕ × Result ProjectionReplay)
unfolding run_one
run_each surroundings position [] s = (s, [])
run_each surroundings position (work_id ∷ rest) s =
    let now = run_one (surroundings position) work_id s in
    let later = run_each surroundings (position + 1) rest now.0 in
    (later.0, (work_id, now.1) ∷ later.1)

unfoldable pub run_all :
    (surroundings : ℕ → Surroundings) (include_speculative : Bool)
    → WavefrontScheduler
    → WavefrontScheduler × List (ℕ × Result ProjectionReplay)
unfolding select run_each
run_all surroundings include_speculative s =
    run_each surroundings 0 (select include_speculative s) s

abbrev pub cancellable : WavefrontWork → Bool
cancellable w = w.speculative && w.stage == waiting

-- The loop of `cancel_speculative`: the works it leaves, the events it adds and the number it counts.
unfoldable pub cancel_waiting :
    (elapsed : ℕ → ℕ) (reason : String) (cancelled_count : ℕ)
    → List WavefrontWork
    → List WavefrontWork × List WavefrontEvent × ℕ
unfolding enter_stage new_event
cancel_waiting elapsed reason n [] = ([], [], n)
cancel_waiting elapsed reason n (w ∷ rest) =
    let out = cancel_waiting elapsed reason (if cancellable w then n + 1 else n) rest in
    if cancellable w
    then (
      enter_stage cancelled w ∷ out.0,
      new_event w cancelled none none (elapsed n) reason ∷ out.1,
      out.2,
    )
    else (w ∷ out.0, out.1, out.2)

unfoldable pub cancel_speculative :
    (elapsed : ℕ → ℕ) (reason : String) → WavefrontScheduler → WavefrontScheduler × ℕ
unfolding cancel_waiting
cancel_speculative elapsed reason s =
    let out = cancel_waiting elapsed reason 0 s.works in
    (record s { works = out.0; events = s.events ++ out.1 }, out.2)

pub data SchedulerCall : Type 0 where
  add_work : WorkRequest → SchedulerCall
  run_work : (surroundings : Surroundings) (work_id : ℕ) → SchedulerCall
  run_selected : (surroundings : ℕ → Surroundings) (include_speculative : Bool) → SchedulerCall
  cancel_all : (elapsed : ℕ → ℕ) (reason : String) → SchedulerCall

unfoldable pub perform : SchedulerCall → WavefrontScheduler → WavefrontScheduler
unfolding add run_one run_all cancel_speculative
perform (add_work r) s = (add r s).0
perform (run_work e id) s = (run_one e id s).0
perform (run_selected e x) s = (run_all e x s).0
perform (cancel_all elapsed reason) s = (cancel_speculative elapsed reason s).0

unfoldable pub run : List SchedulerCall → WavefrontScheduler → WavefrontScheduler
unfolding perform
run [] s = s
run (c ∷ rest) s = run rest (perform c s)

-- What a relation needs to hold from before each call to after it.
pub record Moves (R : WavefrontScheduler → WavefrontScheduler → Type 0) : Type 0 where
  pub order : IsPreorder R
  pub add : (r : WorkRequest) → Respects R (add r)
  pub run_one : (e : Surroundings) (id : ℕ) → Respects R (run_one e id)
  pub cancel :
      (elapsed : ℕ → ℕ) (reason : String) (s : WavefrontScheduler)
      → R s (cancel_speculative elapsed reason s).0

module _ {R : WavefrontScheduler → WavefrontScheduler → Type 0} (h : Moves R) where
  run_each-Respects :
      (e : ℕ → Surroundings) (n : ℕ) (ids : List ℕ) (s : WavefrontScheduler)
      → R s (run_each e n ids s).0
  unfolding run_each
  run_each-Respects e n [] s = h.order.stays s
  run_each-Respects e n (id ∷ rest) s =
      h.order.trans s _ _ ((h.run_one (e n) id).step s)
        (run_each-Respects e (n + 1) rest (run_one (e n) id s).0)

  perform-Respects : (c : SchedulerCall) (s : WavefrontScheduler) → R s (perform c s)
  unfolding perform run_all
  perform-Respects (add_work r) s = (h.add r).step s
  perform-Respects (run_work e id) s = (h.run_one e id).step s
  perform-Respects (run_selected e x) s = run_each-Respects e 0 (select x s) s
  perform-Respects (cancel_all elapsed reason) s = h.cancel elapsed reason s

  pub run-Respects : (calls : List SchedulerCall) (s : WavefrontScheduler) → R s (run calls s)
  unfolding run
  run-Respects [] s = h.order.stays s
  run-Respects (c ∷ rest) s =
      h.order.trans s _ _ (perform-Respects c s) (run-Respects rest (perform c s))
