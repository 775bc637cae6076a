-- ===== src/Residency/Mtp/Cost.antt =====
-- har/crates/har-residency/src/mtp.rs: the bounds between the parts of an estimate.
use remora_lab.Base.{
  ℕ, ◌+◌, ◌≡◌, ◌≤◌, refl, Option, none, some, List, [], ◌∷◌, arith, Bool-cases, inl, inr, nat_eq,
  length, u64_max, All,
}
use mathlib.Core.Path.{subst, ◌∙◌}
use remora_lab.Base.Dict.{
  Dict, lookup, insert, lookup-insert, length-insert_new, IsDistinct, IsDistinct-insert,
  contains_key,
}
use remora_lab.Residency.Types.{PageId, page_eq, StorageSlice, is_ram}
use remora_lab.Residency.Record.{ResidencyRecord, any_replica}
use remora_lab.Residency.Manager.{ResidencyManager}
use remora_lab.Residency.Mtp.{
  Tally, no_tally, unique_slices, tally_slice, tally_vram, tally_ram, tally_nvme, tally_all,
  sum_values, ready_in_vram, ExpertUnionEstimate, expert_union_incremental_cost,
}

-- The bytes of the slices, and of a map, without wrap-around.
abbrev pub payload : Dict ℕ StorageSlice → ℕ
payload [] = 0
payload ((_, s) ∷ d) = s.payload_bytes + payload d

abbrev total : Dict ℕ ℕ → ℕ
total [] = 0
total ((_, v) ∷ d) = v + total d

sum_values-total : (d : Dict ℕ ℕ) → total d ≤ u64_max → sum_values d ≡ total d
sum_values-total [] h = refl
sum_values-total ((k, v) ∷ d) h = ground (arith, sum_values-total d)

total-insert : (k v : ℕ) (d : Dict ℕ ℕ) → lookup k d ≡ none → total (insert k v d) ≡ total d + v
total-insert k v [] h = omega arith
total-insert k v ((j, x) ∷ d) h = ground (arith, total-insert k v d)

pub record IsBounded (t : Tally) : Type 0 where
  pub nvme : t.nvme ≤ t.pcie
  pub pcie : t.pcie ≤ total t.bytes
  pub ready : t.ready ≤ t.resident
  pub resident : t.resident ≤ length t.bytes

module _ (n : ℕ) (s : StorageSlice) (t : Tally) (h : IsBounded t) (f : lookup n t.bytes ≡ none)
    (a : total t.bytes + s.payload_bytes ≤ u64_max) (b : length t.bytes + 1 ≤ u64_max) where
  tally_vram-IsBounded : IsBounded (tally_vram n s t)
  unfolding tally_vram
  tally_vram-IsBounded = record {
    nvme = h.nvme;
    pcie = omega (arith, h.pcie, total-insert n s.payload_bytes t.bytes f);
    ready = omega (arith, h.ready, h.resident);
    resident = omega (arith, h.resident, length-insert_new n s.payload_bytes t.bytes f);
  }

  tally_ram-IsBounded : IsBounded (tally_ram n s t)
  unfolding tally_ram
  tally_ram-IsBounded = record {
    nvme = omega (arith, h.nvme, h.pcie);
    pcie = omega (arith, h.pcie, total-insert n s.payload_bytes t.bytes f);
    ready = omega (arith, h.ready, h.resident);
    resident = omega (arith, h.resident, length-insert_new n s.payload_bytes t.bytes f);
  }

  tally_nvme-IsBounded : IsBounded (tally_nvme n s t)
  unfolding tally_nvme
  tally_nvme-IsBounded = record {
    nvme = omega (arith, h.nvme, h.pcie);
    pcie = omega (arith, h.pcie, total-insert n s.payload_bytes t.bytes f);
    ready = h.ready;
    resident = omega (arith, h.resident, length-insert_new n s.payload_bytes t.bytes f);
  }

  tally_slice-IsBounded : (o : Option ResidencyRecord) → IsBounded (tally_slice o n s t)
  unfolding tally_slice
  tally_slice-IsBounded none = tally_nvme-IsBounded
  tally_slice-IsBounded (some r) = elim (Bool-cases (ready_in_vram r)) [
    | inl e ↦ rw e tally_vram-IsBounded
    | inr e ↦ rw e (elim (Bool-cases (any_replica is_ram r.replicas)) [
      | inl k ↦ rw k tally_ram-IsBounded
      | inr k ↦ rw k tally_nvme-IsBounded
    ])
  ]

  -- Each slice enters its bytes, wherever the page is.
  tally_slice-bytes :
      (o : Option ResidencyRecord) → (tally_slice o n s t).bytes ≡ insert n s.payload_bytes t.bytes
  unfolding tally_slice tally_vram tally_ram tally_nvme
  tally_slice-bytes none = refl
  tally_slice-bytes (some r) = elim (Bool-cases (ready_in_vram r)) [
    | inl e ↦ rw e refl
    | inr e ↦ rw e (elim (Bool-cases (any_replica is_ram r.replicas)) [
      | inl k ↦ rw k refl
      | inr k ↦ rw k refl
    ])
  ]

-- No ordinal that is still to come has entered its bytes.
abbrev IsFresh : Dict ℕ StorageSlice → Dict ℕ ℕ → Type 0
IsFresh d bytes = All (λ (p : ℕ × StorageSlice). lookup p.0 bytes ≡ none) d

IsFresh-insert :
    (n v : ℕ) (d : Dict ℕ StorageSlice) (bytes : Dict ℕ ℕ)
    → lookup n d ≡ none
    → IsFresh d bytes
    → IsFresh d (insert n v bytes)
IsFresh-insert n v [] bytes f h = tt
IsFresh-insert n v ((j, s) ∷ d) bytes f h =
    ground (arith, IsFresh-insert n v d bytes, lookup-insert n j v bytes, h.0, h.1)

pub record Tallied (d : Dict ℕ StorageSlice) (t u : Tally) : Type 0 where
  pub bounded : IsBounded u
  pub bytes : total u.bytes ≡ total t.bytes + payload d
  pub count : length u.bytes ≡ length t.bytes + length d

module _ (n : ℕ) (s : StorageSlice) (t : Tally) (f : lookup n t.bytes ≡ none) (u : Tally)
    (q : u.bytes ≡ insert n s.payload_bytes t.bytes) where
  entered_total : total u.bytes ≡ total t.bytes + s.payload_bytes
  entered_total = rw q (total-insert n s.payload_bytes t.bytes f)

  entered_length : length u.bytes ≡ length t.bytes + 1
  entered_length = rw q (length-insert_new n s.payload_bytes t.bytes f)

Tallied-before :
    (n : ℕ) (s : StorageSlice) (d : Dict ℕ StorageSlice) (t u v : Tally)
    → total u.bytes ≡ total t.bytes + s.payload_bytes
    → length u.bytes ≡ length t.bytes + 1
    → Tallied d u v
    → Tallied ((n, s) ∷ d) t v
Tallied-before n s d t u v a b x = record {
  bounded = x.bounded;
  bytes = omega (arith, x.bytes);
  count = omega (arith, x.count);
}

tally_all_lem :
    (records : Dict PageId ResidencyRecord) (d : Dict ℕ StorageSlice) (t : Tally)
    → IsBounded t
    → IsDistinct d
    → IsFresh d t.bytes
    → total t.bytes + payload d ≤ u64_max
    → length t.bytes + length d ≤ u64_max
    → Tallied d t (tally_all records d t)
unfolding tally_all
tally_all_lem records [] t h i f a b = record {
  bounded = h;
  bytes = omega arith;
  count = omega arith;
}
tally_all_lem records ((n, s) ∷ d) t h i f a b =
    let o = lookup s.page_id records in
    let room : total t.bytes + s.payload_bytes ≤ u64_max = omega arith in
    let slot : length t.bytes + 1 ≤ u64_max = omega arith in
    let entered = tally_slice-bytes n s t h f.0 room slot o in
    let bytes = entered_total n s t f.0 (tally_slice o n s t) entered in
    let count = entered_length n s t f.0 (tally_slice o n s t) entered in
    Tallied-before n s d t (tally_slice o n s t) _ bytes count (
      tally_all_lem records d (tally_slice o n s t) (tally_slice-IsBounded n s t h f.0 room slot o)
        i.1 (rw entered (IsFresh-insert n s.payload_bytes d t.bytes i.0 f.1)) (omega (arith, bytes))
        (omega (arith, count)))

IsDistinct-unique_slices :
    (u : Dict ℕ StorageSlice) (slices : List StorageSlice)
    → IsDistinct u
    → IsDistinct (unique_slices u slices)
unfolding unique_slices
IsDistinct-unique_slices u [] h = h
IsDistinct-unique_slices u (s ∷ slices) h = elim (Bool-cases (contains_key s.page_id.ordinal u)) [
  | inl e ↦ rw e (IsDistinct-unique_slices u slices h)
  | inr e ↦ rw e (
      IsDistinct-unique_slices (insert s.page_id.ordinal s u) slices
        (IsDistinct-insert s.page_id.ordinal s u h))
]

IsFresh-none : (d : Dict ℕ StorageSlice) → IsFresh d []
IsFresh-none [] = tt
IsFresh-none (p ∷ d) = (refl, IsFresh-none d)

no_tally-IsBounded : IsBounded no_tally
no_tally-IsBounded = record {
  nvme = omega arith;
  pcie = omega arith;
  ready = omega arith;
  resident = omega arith;
}

-- For slices whose payloads, one for each ordinal, sum up to a 64-bit number: the bytes to read are among
-- the bytes to upload, and those are among the requested bytes, which are the payloads; the pages that
-- are ready are among those that are resident, and those are among the unique ones.
pub expert_union_incremental_cost_lem :
    (m : ResidencyManager) (slices : List StorageSlice)
    → payload (unique_slices [] slices) ≤ u64_max
    → length (unique_slices [] slices) ≤ u64_max
    → (e : ExpertUnionEstimate) → expert_union_incremental_cost m slices ≡ e
    → (e.incremental_nvme_bytes ≤ e.incremental_pcie_bytes)
      × (e.incremental_pcie_bytes ≤ e.requested_bytes)
      × (e.requested_bytes ≡ payload (unique_slices [] slices))
      × (e.ready_projection_count ≤ e.resident_projection_count)
      × (e.resident_projection_count ≤ e.unique_pages)
      × (e.unique_pages ≡ length (unique_slices [] slices))
unfolding expert_union_incremental_cost
expert_union_incremental_cost_lem m slices a b e q = subst Bounds q (
  x.bounded.nvme,
  rw sums x.bounded.pcie,
  sums ∙ omega (arith, x.bytes),
  x.bounded.ready,
  x.bounded.resident,
  omega (arith, x.count),
)
  where
    Bounds : ExpertUnionEstimate → Type 0
    Bounds e =
        (e.incremental_nvme_bytes ≤ e.incremental_pcie_bytes)
        × (e.incremental_pcie_bytes ≤ e.requested_bytes)
        × (e.requested_bytes ≡ payload (unique_slices [] slices))
        × (e.ready_projection_count ≤ e.resident_projection_count)
        × (e.resident_projection_count ≤ e.unique_pages)
        × (e.unique_pages ≡ length (unique_slices [] slices))

    u : Tally
    u = tally_all m.records (unique_slices [] slices) no_tally

    x : Tallied (unique_slices [] slices) no_tally u
    x =
        tally_all_lem m.records (unique_slices [] slices) no_tally no_tally-IsBounded
          (IsDistinct-unique_slices [] slices tt) (IsFresh-none (unique_slices [] slices))
          (omega arith) (omega arith)

    sums : sum_values u.bytes ≡ total u.bytes
    sums = sum_values-total u.bytes (omega (arith, x.bytes))
