-- ===== src/Memory/Registry.antt =====
-- The memory registry of har/crates/har-memory/src/lib.rs: the registered resources and their
-- transfers.
pub mod Transfers
use remora_lab.Base.{
  ℕ, ◌+◌, ◌≡◌, ◌≤◌, inl, inr, String, Bool, true, false, Option, none, some, List, [], ◌∷◌, ◌++◌,
  length, arith, ◌==◌, string_eq, nat_eq, if◌then◌else◌, wrap_add, All, ltb, Option-cases,
}
use remora_lab.Base.Dict.{Dict, lookup, insert, contains_key, lookup-insert}
use remora_lab.Memory.Errors.{Result, ok, err, invalid}
use remora_lab.Memory.Machine.{MemoryTier, ResidencyRecord, validate}

pub record TransferTicket : Type 0 where
  pub id : ℕ
  pub resource_id : String
  pub generation : ℕ
  pub source : MemoryTier
  pub destination : MemoryTier
  pub bytes : ℕ
  pub queue : String
  pub mandatory : Bool
  pub completed : Bool
  pub useful : Bool

pub record MemoryRegistry : Type 0 where
  pub schema : String
  pub records : Dict String ResidencyRecord
  pub transfers : List TransferTicket
  pub next_transfer_id : ℕ

abbrev pub new_registry : MemoryRegistry
new_registry = record {
  schema = "har.memory.v1";
  records = [];
  transfers = [];
  next_transfer_id = 0;
}

unfoldable pub register : ResidencyRecord → MemoryRegistry → MemoryRegistry × Result (Unit {0})
register r m = elim (validate r) [
  | err e ↦ (m, err e)
  | ok _ ↦
      if contains_key r.resource_id m.records
      then (m, err (invalid "memory registry" "duplicate resource"))
      else (record m { records = insert r.resource_id r m.records }, ok tt)
]

unfoldable pub queue_transfer :
    String
    → MemoryTier
    → MemoryTier
    → ℕ
    → String
    → Bool
    → MemoryRegistry
    → MemoryRegistry × Result ℕ
queue_transfer resource_id source destination bytes queue mandatory m =
    elim (lookup resource_id m.records) [
      | none ↦ (m, err (invalid "memory registry" "unknown resource"))
      | some r ↦
          if ltb r.bytes bytes
          then (m, err (invalid "transfer" "requested bytes exceed resource"))
          else (
            record m {
              next_transfer_id = wrap_add m.next_transfer_id 1;
              transfers =
                  m.transfers
                  ++ record {
                    id = m.next_transfer_id;
                    resource_id = resource_id;
                    generation = r.machine.generation;
                    source = source;
                    destination = destination;
                    bytes = bytes;
                    queue = queue;
                    mandatory = mandatory;
                    completed = false;
                    useful = false;
                  }
                    ∷ [];
            },
            ok m.next_transfer_id,
          )
    ]

-- `iter_mut().find`: the first ticket of that number is marked; `none` if there is none.
unfoldable pub mark : ℕ → Bool → List TransferTicket → Option (List TransferTicket)
mark id useful [] = none
mark id useful (t ∷ ts) =
    let rest = mark id useful ts in
    if t.id == id
    then some (record t { completed = true; useful = useful } ∷ ts)
    else elim rest [ none ↦ none | some us ↦ some (t ∷ us) ]

unfoldable pub complete_transfer : ℕ → Bool → MemoryRegistry → MemoryRegistry × Result (Unit {0})
complete_transfer id useful m = elim (mark id useful m.transfers) [
  | none ↦ (m, err (invalid "transfer" "unknown ticket"))
  | some ts ↦ (record m { transfers = ts }, ok tt)
]
