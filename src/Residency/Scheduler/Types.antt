-- ===== src/Residency/Scheduler/Types.antt =====
-- har/crates/har-residency/src/scheduler.rs: the wavefront scheduler's works, events, policy and state.
use remora_lab.Base.{
  ℕ, String, Bool, true, false, Option, List, [], if◌then◌else◌, leb, max, ◌≡◌, PartialEq, ◌&&◌,
  nth_or, refl, ◌==◌, ◌∷◌, eq_by_code, nat_eq,
}
use remora_lab.Residency.Types.{StorageSlice}
use remora_lab.Residency.Manager.{ResidencyManager, ResourceSnapshot}
use remora_lab.Residency.Mtp.{
  ram_pinned_slack, vram_slot_slack, nvme_queue_slack, transfer_queue_slack,
}
use remora_lab.Base.Int.{ℤ}

pub data WorkStage : Type 0 where
  waiting nvme_read ram_to_vram gpu_compute done cancelled failed : WorkStage

abbrev stage_index : WorkStage → ℕ
stage_index s = elim s [
  | waiting ↦ 0
  | nvme_read ↦ 1
  | ram_to_vram ↦ 2
  | gpu_compute ↦ 3
  | done ↦ 4
  | cancelled ↦ 5
  | failed ↦ 6
]

abbrev of_stage_index : ℕ → WorkStage
of_stage_index =
    nth_or failed (waiting ∷ nvme_read ∷ ram_to_vram ∷ gpu_compute ∷ done ∷ cancelled ∷ [])

pub stage_index_lem : (s : WorkStage) → of_stage_index (stage_index s) ≡ s
stage_index_lem waiting = refl
stage_index_lem nvme_read = refl
stage_index_lem ram_to_vram = refl
stage_index_lem gpu_compute = refl
stage_index_lem done = refl
stage_index_lem cancelled = refl
stage_index_lem failed = refl

instance abbrev pub stage_eq : PartialEq WorkStage
stage_eq = eq_by_code nat_eq stage_index of_stage_index stage_index_lem

pub record WavefrontWork : Type 0 where
  pub work_id : ℕ
  pub slice : StorageSlice
  pub generation : ℕ
  pub mandatory : Bool
  pub speculative : Bool
  pub deadline_ns : Option ℕ
  pub dependency_urgency : ℤ
  pub predicted_future_use : ℕ
  pub stage : WorkStage
  pub slot_id : Option ℕ
  pub error : Option String

pub record WavefrontEvent : Type 0 where
  pub work_id : ℕ
  pub stage : WorkStage
  pub timestamp_ns : ℕ
  pub bytes : ℕ
  pub ticket_id : Option ℕ
  pub slot_id : Option ℕ
  pub hidden_time_ns : ℕ
  pub exposed_time_ns : ℕ
  pub reason : String

pub record ProjectionReplay : Type 0 where
  pub reference_digest : ℕ
  pub output_digest : ℕ
  pub equal : Bool
  pub bytes : ℕ

pub record SlackPolicy : Type 0 where
  pub min_nvme_queue_slack : ℕ
  pub min_transfer_queue_slack : ℕ
  pub min_ram_pinned_slack : ℕ
  pub min_vram_slot_slack : ℕ
  pub require_measured_mandatory_bytes : Bool

abbrev pub default_policy : SlackPolicy
default_policy = record {
  min_nvme_queue_slack = 1;
  min_transfer_queue_slack = 1;
  min_ram_pinned_slack = 0;
  min_vram_slot_slack = 0;
  require_measured_mandatory_bytes = true;
}

unfoldable pub allow : SlackPolicy → WavefrontWork → ResourceSnapshot → (mandatory_bytes : ℕ) → Bool
unfolding nvme_queue_slack transfer_queue_slack ram_pinned_slack vram_slot_slack
allow p work s mandatory_bytes =
    if work.mandatory
    then true
    else if p.require_measured_mandatory_bytes && mandatory_bytes == 0
    then false
    else leb p.min_nvme_queue_slack (nvme_queue_slack s)
      && (leb p.min_transfer_queue_slack (transfer_queue_slack s)
          && (leb (max p.min_ram_pinned_slack work.slice.payload_bytes) (ram_pinned_slack s)
              && leb (max p.min_vram_slot_slack work.slice.payload_bytes) (vram_slot_slack s)))

-- The source of the pages is not in the state: it is an argument of the methods that read.
pub record WavefrontScheduler : Type 0 where
  pub manager : ResidencyManager
  pub works : List WavefrontWork
  pub events : List WavefrontEvent
  pub slack_policy : SlackPolicy
  pub mandatory_bytes_measured : ℕ
  pub speculative_bytes_requested : ℕ
  pub useful_prefetch_bytes : ℕ
  pub wasted_prefetch_bytes : ℕ
  pub next_work_id : ℕ

unfoldable pub new_scheduler : ResidencyManager → WavefrontScheduler
new_scheduler manager = record {
  manager = manager;
  works = [];
  events = [];
  slack_policy = default_policy;
  mandatory_bytes_measured = 0;
  speculative_bytes_requested = 0;
  useful_prefetch_bytes = 0;
  wasted_prefetch_bytes = 0;
  next_work_id = 1;
}
