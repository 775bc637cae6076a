-- ===== src/Residency/Record.antt =====
-- har/crates/har-residency/src/types.rs: `StorageSlice::validate`, replicas, leases and
-- `ResidencyRecord`. A text that `format!` makes is its fixed part with the number in it. The maps of
-- replicas and leases are association lists; which of several bad replicas `validate` names is not
-- what is stated.
use remora_lab.Base.{
  ℕ, zero, suc, String, Bool, true, false, not, Option, none, some, List, [], ◌∷◌, ◌++◌, ◌==◌, ◌!=◌,
  ◌&&◌, ◌||◌, nat_eq, is_empty, is_some, if◌then◌else◌, leb,
}
use remora_lab.Base.Dict.{Dict, insert, remove, contains_key}
use remora_lab.Residency.Types.{
  PageId, page_eq, RepresentationId, representation_eq, StorageSlice, PageLocation, nvme_cold,
  location_eq, is_ram, is_vram,
}
use remora_lab.Residency.State.{
  ResidencyState, indexed, ram_ready, uploaded, compute_ready, in_use, legal_transition,
}
use remora_lab.Residency.Attempt.{
  invalid, illegal_transition, stale_generation, not_resident, Result, ok, err, Attempt, Done,
  ◌>>=◌, ◌>>◌, modify, lift, read,
}
use Prim.Native.Char.{Char, code}

abbrev is_hexdigit : Char → Bool
is_hexdigit c =
    (leb 48 (code c) && leb (code c) 57)
    || ((leb 65 (code c) && leb (code c) 70) || (leb 97 (code c) && leb (code c) 102))

-- A text whose characters are hexadecimal digits has as many bytes as characters.
abbrev all_hexdigits : ℕ → String → Bool
all_hexdigits n String.[] = n == 0
all_hexdigits zero (String.◌∷◌ c s) = false
all_hexdigits (suc n) (String.◌∷◌ c s) = is_hexdigit c && all_hexdigits n s

unfoldable pub validate_slice : StorageSlice → Result Done
validate_slice slice =
    if is_empty slice.model_id || (is_empty slice.source_path || is_empty slice.tensor)
    then err (invalid "storage identity is incomplete")
    else if slice.payload_bytes == 0 || slice.alignment == 0
    then err (invalid "storage payload and alignment must be non-zero")
    else elim slice.checksum_sha256 [
      | none ↦ ok tt
      | some checksum ↦
          if all_hexdigits 64 checksum
          then ok tt
          else err (invalid "checksum is not a SHA-256 hex digest")
    ]

pub record Label : Type 0 where
  pub text : String
  pub number : Option ℕ

abbrev pub label_is_empty : Label → Bool
label_is_empty l = is_empty l.text && not (is_some l.number)

pub record Replica : Type 0 where
  pub location : PageLocation
  pub representation : RepresentationId
  pub generation : ℕ
  pub explicit_replication : Bool
  pub replica_id : Label
  pub checksum_sha256 : Option String

pub record PageLease : Type 0 where
  pub lease_id : ℕ
  pub page_id : PageId
  pub generation : ℕ
  pub epoch : ℕ
  pub location : PageLocation
  pub purpose : String

-- A line of `transition_history`, before it is formatted.
pub data HistoryLine : Type 0 where
  moved : (from to : ResidencyState) (reason : String) → HistoryLine
  advanced : (generation : ℕ) → HistoryLine

pub record ResidencyRecord : Type 0 where
  pub page_id : PageId
  pub representation : RepresentationId
  pub generation : ℕ
  pub state : ResidencyState
  pub authoritative : PageLocation
  pub replicas : Dict PageLocation Replica
  pub leases : Dict ℕ PageLease
  pub transition_history : List HistoryLine

unfoldable pub new_record : PageId → RepresentationId → ℕ → ResidencyRecord
new_record page_id representation generation = record {
  page_id = page_id;
  representation = representation;
  generation = generation;
  state = indexed;
  authoritative = nvme_cold;
  replicas = [];
  leases = [];
  transition_history = [];
}

abbrev pub has_replica : ResidencyRecord → PageLocation → Bool
has_replica r location = contains_key location r.replicas || r.authoritative == location

unfoldable pub transition : ResidencyState → String → Attempt ResidencyRecord Done
unfolding legal_transition
transition next reason r =
    if not (legal_transition r.state next) then (r, err (illegal_transition r.state next)) else (
      record r {
        transition_history = r.transition_history ++ (moved r.state next reason ∷ []);
        state = next;
      },
      ok tt,
    )

abbrev replica_of : PageLocation → ℕ → Label → Option String → ResidencyRecord → Replica
replica_of location generation replica_id checksum_sha256 r = record {
  location = location;
  representation = r.representation;
  generation = generation;
  explicit_replication = true;
  replica_id = replica_id;
  checksum_sha256 = checksum_sha256;
}

unfoldable pub add_replica : PageLocation → ℕ → Label → Option String → Attempt ResidencyRecord Done
add_replica location generation replica_id checksum_sha256 r =
    if location == r.authoritative
    then (r, err (invalid "authoritative location is not a replica"))
    else if generation != r.generation
    then (r, err (stale_generation r.page_id r.generation generation))
    else if label_is_empty replica_id
    then (r, err (invalid "replica id is empty"))
    else (
      record r {
        replicas =
            insert location (replica_of location generation replica_id checksum_sha256 r)
              r.replicas;
      },
      ok tt,
    )

unfoldable pub remove_replica : PageLocation → Attempt ResidencyRecord Done
remove_replica location r =
    if location == r.authoritative
    then (r, err (invalid "cannot remove authoritative location"))
    else (record r { replicas = remove location r.replicas }, ok tt)

abbrev lease_of : ℕ → ℕ → PageLocation → String → ResidencyRecord → PageLease
lease_of lease_id epoch location purpose r = record {
  lease_id = lease_id;
  page_id = r.page_id;
  generation = r.generation;
  epoch = epoch;
  location = location;
  purpose = purpose;
}

abbrev pub insert_lease : PageLease → ResidencyRecord → ResidencyRecord
insert_lease l r = record r { leases = insert l.lease_id l r.leases }

abbrev pub drop_lease : PageLease → ResidencyRecord → ResidencyRecord
drop_lease l r = record r { leases = remove l.lease_id r.leases }

unfoldable pub lease : ℕ → ℕ → PageLocation → String → Attempt ResidencyRecord PageLease
lease lease_id epoch location purpose r =
    if not (has_replica r location)
    then (r, err (not_resident location))
    else let l = lease_of lease_id epoch location purpose r in (insert_lease l r, ok l)

unfoldable pub validate_against : PageLease → ResidencyRecord → Result Done
validate_against l r =
    if l.page_id != r.page_id || l.generation != r.generation
    then err (stale_generation l.page_id r.generation l.generation)
    else if not (has_replica r l.location)
    then err (not_resident l.location)
    else ok tt

unfoldable pub release_lease : PageLease → Attempt ResidencyRecord Done
unfolding validate_against
release_lease l = do r ← read (λ r. r); lift (validate_against l r); modify (drop_lease l)

abbrev pub any_replica : (PageLocation → Bool) → Dict PageLocation Replica → Bool
any_replica test [] = false
any_replica test ((location, _) ∷ rest) = test location || any_replica test rest

-- The loop of `validate`.
unfoldable pub validate_replicas : ResidencyRecord → Dict PageLocation Replica → Result Done
validate_replicas r [] = ok tt
validate_replicas r ((location, replica) ∷ rest) =
    if not replica.explicit_replication || location != replica.location
    then err (invalid "replica lacks explicit location metadata")
    else if replica.generation != r.generation || replica.representation != r.representation
    then err (stale_generation r.page_id r.generation replica.generation)
    else validate_replicas r rest

-- The `match` of `validate`.
unfoldable pub validate_state : ResidencyRecord → Result Done
validate_state r =
    let ready =
      if any_replica is_vram r.replicas
      then ok tt
      else err (invalid "VRAM-ready state without VRAM replica") in
    elim r.state [
      | ram_ready ↦
          if any_replica is_ram r.replicas
          then ok tt
          else err (invalid "RAM_READY without RAM replica")
      | uploaded ↦ ready
      | compute_ready ↦ ready
      | in_use ↦
          if not (any_replica is_vram r.replicas)
          then ready
          else elim r.leases [ [] ↦ err (invalid "IN_USE without a lease") | _ ∷ _ ↦ ok tt ]
      | _ ↦ ok tt
    ]

unfoldable pub validate_record : ResidencyRecord → Result Done
unfolding validate_replicas validate_state
validate_record r =
    if r.authoritative != nvme_cold && not (has_replica r nvme_cold)
    then err (invalid "non-NVMe authority lacks explicit NVMe replica")
    else elim (validate_replicas r r.replicas) [ err e ↦ err e | ok _ ↦ validate_state r ]
