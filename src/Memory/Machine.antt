-- ===== src/Memory/Machine.antt =====
-- The residency machine and the residency record of har/crates/har-memory/src/lib.rs.
pub mod History
use remora_lab.Base.{
  ℕ, ◌+◌, ◌≡◌, ◌≤◌, ◌<◌, String, Bool, true, false, not, List, [], ◌∷◌, ◌++◌, length, arith, ◌==◌,
  ◌||◌, ◌&&◌, nat_eq, nat_beq, PartialEq, ◌↔◌, if◌then◌else◌, sat_add,
}
use remora_lab.Memory.Errors.{Result, ok, err, invalid, identity_mismatch}
use remora_lab.Memory.State.{
  ResidencyState, unavailable, ready_vram, error, state_eq, can_transition_to,
}

pub record ModelRoot : Type 0 where
  pub name : String
  pub sha256 : String

pub record EpochNamespace : Type 0 where
  pub model_root : ModelRoot
  pub graph_generation : ℕ
  pub decode_epoch : ℕ
  pub sequence_id : ℕ

abbrev pub new_namespace : ModelRoot → ℕ → EpochNamespace
new_namespace root id = record {
  model_root = root;
  graph_generation = 0;
  decode_epoch = 0;
  sequence_id = id;
}

pub record ResidencyEvent : Type 0 where
  pub sequence : ℕ
  pub resource_id : String
  pub from : ResidencyState
  pub to : ResidencyState
  pub reason : String
  pub namespace : EpochNamespace

pub record ResidencyMachine : Type 0 where
  pub resource_id : String
  pub generation : ℕ
  pub state : ResidencyState
  pub namespace : EpochNamespace
  pub events : List ResidencyEvent

abbrev pub new_machine : String → ModelRoot → ℕ → ResidencyMachine
new_machine resource_id root sequence_id = record {
  resource_id = resource_id;
  generation = 0;
  state = unavailable;
  namespace = new_namespace root sequence_id;
  events = [];
}

unfoldable pub transition :
    ResidencyState → String → ResidencyMachine → ResidencyMachine × Result (Unit {0})
transition next reason m =
    if can_transition_to m.state next
    then (
      record m {
        state = next;
        events =
            m.events
            ++ record {
              sequence = length m.events;
              resource_id = m.resource_id;
              from = m.state;
              to = next;
              reason = reason;
              namespace = m.namespace;
            }
              ∷ [];
      },
      ok tt,
    )
    else (m, err (invalid "residency transition" ""))

unfoldable pub fail : String → ResidencyMachine → ResidencyMachine
unfolding transition
fail reason m = (transition error reason m).0

unfoldable pub bump_generation : ResidencyMachine → ResidencyMachine
bump_generation m = record m {
  generation = sat_add m.generation 1;
  namespace = record m.namespace { graph_generation = sat_add m.generation 1 };
}

unfoldable pub require : ResidencyState → ℕ → ResidencyMachine → Result (Unit {0})
require expected generation m =
    if m.state == expected
    then if generation == m.generation then ok tt else err (identity_mismatch "generation")
    else err (invalid "residency state" "")

pub data MemoryTier : Type 0 where
  nvme_cold ram_mapped ram_pinned vram_resident vram_slot reconstruction_scratch cpu_heap :
      MemoryTier

abbrev pub tier_index : MemoryTier → ℕ
tier_index nvme_cold = 0
tier_index ram_mapped = 1
tier_index ram_pinned = 2
tier_index vram_resident = 3
tier_index vram_slot = 4
tier_index reconstruction_scratch = 5
tier_index cpu_heap = 6

pub tier_beq_iff : (a b : MemoryTier) → (nat_beq (tier_index a) (tier_index b) ≡ true) ↔ (a ≡ b)
tier_beq_iff a b = ground arith

instance abbrev pub tier_eq : PartialEq MemoryTier
tier_eq = record { beq = λ a b. nat_beq (tier_index a) (tier_index b); beq_iff = tier_beq_iff }

pub record BufferId : Type 0 where
  pub index : ℕ
  pub generation : ℕ
  pub stable_id : String

pub record ResidencyRecord : Type 0 where
  pub buffer : BufferId
  pub resource_id : String
  pub authoritative : MemoryTier
  pub replicas : List MemoryTier
  pub machine : ResidencyMachine
  pub bytes : ℕ

abbrev pub new_record : BufferId → String → ℕ → ModelRoot → ResidencyRecord
new_record buffer id bytes root = record {
  buffer = buffer;
  resource_id = id;
  authoritative = nvme_cold;
  replicas = [];
  machine = new_machine id root 0;
  bytes = bytes;
}

abbrev pub has_tier : MemoryTier → List MemoryTier → Bool
has_tier t [] = false
has_tier t (u ∷ us) = u == t || has_tier t us

unfoldable pub add_replica : MemoryTier → ResidencyRecord → ResidencyRecord
add_replica tier r =
    if has_tier tier r.replicas then r else record r { replicas = r.replicas ++ tier ∷ [] }

unfoldable pub has_replica : MemoryTier → ResidencyRecord → Bool
has_replica tier r = r.authoritative == tier || has_tier tier r.replicas

unfoldable pub validate : ResidencyRecord → Result (Unit {0})
unfolding has_replica
validate r =
    if r.bytes == 0
    then err (invalid "residency record" "zero-byte resource")
    else if r.machine.state == ready_vram
        && (not (has_replica vram_resident r) && not (has_replica vram_slot r))
    then err (invalid "residency record" "READY_VRAM without a VRAM replica")
    else ok tt
