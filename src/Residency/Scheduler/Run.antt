-- ===== src/Residency/Scheduler/Run.antt =====
-- har/crates/har-residency/src/scheduler.rs: `WavefrontScheduler::run_one`. `?` is the do block; a work is
-- changed in place, at the first position with its identifier, which is the index that the code keeps.
use remora_lab.Base.{
  none, some, [], ◌∷◌, ◌++◌, false, ◌==◌, ◌!=◌, nat_eq, string_eq, ℕ, String, Bool, Option, List,
  not, ◌&&◌, sat_add, wrap_mul, bitxor, length, find, if◌then◌else◌,
}
use remora_lab.Residency.Types.{StorageSlice}
use remora_lab.Residency.Record.{PageLease}
use remora_lab.Residency.Attempt.{
  invalid, queue_full, io, Result, ok, err, Attempt, Done, pure, throw, ◌>>=◌, ◌>>◌, refuse_if,
  when, modify, read, lift, ok_or,
}
use remora_lab.Residency.Manager.{Call}
use remora_lab.Residency.Manager.Calls
use remora_lab.Residency.Manager.Uploads
use remora_lab.Residency.Scheduler.Types.{
  WorkStage, waiting, nvme_read, ram_to_vram, gpu_compute, done, cancelled, stage_eq, WavefrontWork,
  WavefrontEvent, ProjectionReplay, WavefrontScheduler, allow,
}

-- What a run meets outside: the answer of the page source, `none` if its thread panics; the digest of
-- SHA-256 in lower-case hexadecimal; ASCII letters made lower-case; the readings of the clock that the
-- n-th call of the manager takes, and the time elapsed at the n-th event.
pub record Surroundings : Type 0 where
  pub read_slice : StorageSlice → Option (Result (List ℕ))
  pub sha256_hex : List ℕ → String
  pub to_ascii_lowercase : String → String
  pub clock : ℕ → ℕ → ℕ
  pub elapsed : ℕ → ℕ

abbrev pub Method : Type 0 → Type 0
Method = Attempt WavefrontScheduler

-- A method of the manager.
unfoldable pub on_manager : {A : Type 0} → Call A → Method A
on_manager op s = (record s { manager = (op s.manager).0 }, (op s.manager).1)

-- The first work with an identifier is changed.
unfoldable pub change_first :
    ℕ → (WavefrontWork → WavefrontWork) → List WavefrontWork → List WavefrontWork
change_first id f [] = []
change_first id f (w ∷ rest) = if w.work_id == id then f w ∷ rest else w ∷ change_first id f rest

unfoldable pub enter_stage : WorkStage → WavefrontWork → WavefrontWork
enter_stage stage w = record w { stage = stage }

unfoldable pub take_slot : ℕ → WavefrontWork → WavefrontWork
take_slot slot_id w = record w { slot_id = some slot_id }

unfoldable pub change_work : ℕ → (WavefrontWork → WavefrontWork) → Method Done
unfolding change_first
change_work id f s = (record s { works = change_first id f s.works }, ok tt)

unfoldable pub new_event :
    WavefrontWork
    → WorkStage
    → (ticket_id slot_id : Option ℕ) (elapsed : ℕ) (reason : String) → WavefrontEvent
new_event work stage ticket_id slot_id elapsed reason = record {
  work_id = work.work_id;
  stage = stage;
  timestamp_ns = elapsed;
  bytes = work.slice.payload_bytes;
  ticket_id = ticket_id;
  slot_id = slot_id;
  hidden_time_ns = 0;
  exposed_time_ns = elapsed;
  reason = reason;
}

unfoldable pub emit : WavefrontEvent → Method Done
emit event s = (record s { events = s.events ++ (event ∷ []) }, ok tt)

unfoldable pub fnv_from : ℕ → List ℕ → ℕ
fnv_from state [] = state
fnv_from state (byte ∷ rest) = fnv_from (wrap_mul (bitxor 64 state byte) 1099511628211) rest

unfoldable pub simple_digest : List ℕ → ℕ
unfolding fnv_from
simple_digest bytes = fnv_from 14695981039346656037 bytes

unfoldable pub find_work : ℕ → Method WavefrontWork
find_work id s = (
  s,
  ok_or (find (λ (w : WavefrontWork). w.work_id == id) s.works) (invalid "unknown wavefront work"),
)

unfoldable pub lacks_slack : WavefrontWork → WavefrontScheduler → Bool
unfolding allow
lacks_slack work s =
    not work.mandatory
    && not (allow s.slack_policy work s.manager.snapshot s.mandatory_bytes_measured)

unfoldable pub count_wasted : ℕ → WavefrontScheduler → WavefrontScheduler
count_wasted bytes s = record s { wasted_prefetch_bytes = sat_add s.wasted_prefetch_bytes bytes }

-- Work without slack is given up.
unfoldable pub reject : Surroundings → WavefrontWork → Method Done
unfolding change_work enter_stage emit new_event count_wasted
reject e work = do
  change_work work.work_id (enter_stage cancelled)
  modify (count_wasted 0)
  emit (
      new_event work cancelled none none (e.elapsed 0)
        "speculation rejected without measured resource slack")
  throw (queue_full "speculative work has no measured slack")

-- What the join of the reading thread gives.
abbrev joined : Option (Result (List ℕ)) → Result (List ℕ)
joined none = err (io "NVMe worker panicked")
joined (some result) = result

-- The checksum is compared only if the slice has one.
abbrev checksum_differs : Surroundings → Option String → List ℕ → Bool
checksum_differs e none payload = false
checksum_differs e (some expected) payload = e.sha256_hex payload != e.to_ascii_lowercase expected

-- What the source gave, checked against the slice.
unfoldable pub checked_payload : Surroundings → StorageSlice → Result (List ℕ)
checked_payload e slice = elim (joined (e.read_slice slice)) [
  | err x ↦ err x
  | ok payload ↦
      if length payload != slice.payload_bytes
      then err (io "short expert slice")
      else if checksum_differs e slice.checksum_sha256 payload
      then err (io "expert slice checksum mismatch")
      else ok payload
]

unfoldable pub count_mandatory : WavefrontWork → WavefrontScheduler → WavefrontScheduler
count_mandatory work s = record s {
  mandatory_bytes_measured =
      sat_add s.mandatory_bytes_measured (if work.mandatory then work.slice.payload_bytes else 0);
}

-- The read is queued and started, and the work enters its stage.
unfoldable pub start_read : Surroundings → WavefrontWork → Method ℕ
unfolding on_manager Calls.queue_nvme_read Calls.start_nvme_read change_work enter_stage emit
    new_event
start_read e work = do
  read_ticket ←
      on_manager
        (Calls.queue_nvme_read work.slice.page_id work.mandatory work.speculative (e.clock 0))
  on_manager (Calls.start_nvme_read read_ticket (e.clock 1))
  change_work work.work_id (enter_stage nvme_read)
  emit (new_event work nvme_read (some read_ticket) none (e.elapsed 0) "NVMe read stage entered")
  pure read_ticket

-- The bytes come in and are committed.
unfoldable pub finish_read : Surroundings → WavefrontWork → (read_ticket : ℕ) → Method (List ℕ)
unfolding checked_payload on_manager Calls.complete_nvme_read count_mandatory emit new_event
finish_read e work read_ticket = do
  payload ← lift (checked_payload e work.slice)
  on_manager (Calls.complete_nvme_read read_ticket work.slice.checksum_sha256 (e.clock 2))
  modify (count_mandatory work)
  emit (
      new_event work nvme_read (some read_ticket) none (e.elapsed 1)
        "NVMe bytes committed to RAM_PINNED")
  pure payload

-- A slot is reserved and the upload started.
unfoldable pub start_transfer : Surroundings → WavefrontWork → Method (ℕ × ℕ)
unfolding on_manager Calls.reserve_vram Uploads.queue_upload Uploads.start_upload change_work
    enter_stage emit new_event
start_transfer e work = do
  slot_id ←
      on_manager (Calls.reserve_vram work.slice.page_id work.slice.projection work.speculative)
  upload_ticket ←
      on_manager (
        Uploads.queue_upload work.slice.page_id slot_id work.mandatory work.speculative (e.clock 3))
  on_manager (Uploads.start_upload upload_ticket (e.clock 4))
  change_work work.work_id (enter_stage ram_to_vram)
  emit (
      new_event work ram_to_vram (some upload_ticket) (some slot_id) (e.elapsed 2)
        "RAM_PINNED to VRAM_SLOT upload")
  pure (slot_id, upload_ticket)

unfoldable pub finish_transfer :
    Surroundings → WavefrontWork → (slot_id upload_ticket : ℕ) → Method Done
unfolding on_manager Uploads.complete_upload Uploads.mark_compute_ready change_work take_slot
finish_transfer e work slot_id upload_ticket = do
  on_manager (Uploads.complete_upload upload_ticket slot_id work.slice.checksum_sha256 (e.clock 5))
  on_manager (Uploads.mark_compute_ready work.slice.page_id slot_id)
  change_work work.work_id (take_slot slot_id)

unfoldable pub start_compute : Surroundings → WavefrontWork → (slot_id : ℕ) → Method PageLease
unfolding on_manager Uploads.acquire_compute change_work enter_stage emit new_event
start_compute e work slot_id = do
  lease ← on_manager (Uploads.acquire_compute work.slice.page_id slot_id)
  change_work work.work_id (enter_stage gpu_compute)
  emit (
      new_event work gpu_compute none (some slot_id) (e.elapsed 3)
        "native-kernel registry readiness boundary reached")
  pure lease

unfoldable pub finish_compute :
    Surroundings → WavefrontWork → (slot_id : ℕ) → PageLease → Method Done
unfolding on_manager Uploads.release_compute change_work enter_stage emit new_event
finish_compute e work slot_id lease = do
  on_manager (Uploads.release_compute lease)
  change_work work.work_id (enter_stage done)
  emit (new_event work done none (some slot_id) (e.elapsed 4) "projection replay complete")

-- The digest of the bytes as read, and that of the same bytes as the output.
unfoldable pub replay : List ℕ → ProjectionReplay
unfolding simple_digest
replay payload =
    let expected_digest = simple_digest payload in
    let output_digest = simple_digest payload in
    record {
      reference_digest = expected_digest;
      output_digest = output_digest;
      equal = expected_digest == output_digest;
      bytes = length payload;
    }

-- The three stages of a work that may run.
unfoldable pub run_stages : Surroundings → WavefrontWork → Method ProjectionReplay
unfolding start_read finish_read start_transfer finish_transfer start_compute finish_compute replay
run_stages e work = do
  read_ticket ← start_read e work
  payload ← finish_read e work read_ticket
  (slot_id, upload_ticket) ← start_transfer e work
  finish_transfer e work slot_id upload_ticket
  lease ← start_compute e work slot_id
  finish_compute e work slot_id lease
  pure (replay payload)

unfoldable pub run_one : Surroundings → (work_id : ℕ) → Method ProjectionReplay
unfolding find_work lacks_slack reject run_stages
run_one e work_id = do
  work ← find_work work_id
  refuse_if (work.stage != waiting) (invalid "work is not waiting")
  refused ← read (lacks_slack work)
  when refused (reject e work)
  run_stages e work
