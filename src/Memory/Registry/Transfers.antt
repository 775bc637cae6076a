-- ===== src/Memory/Registry/Transfers.antt =====
-- The transfers of the registry of har/crates/har-memory/src/lib.rs: their numbers, and the resources
-- that they move.
use remora_lab.Base.{
  refl, ◌==◌, nat_eq, if◌then◌else◌, is_some, find, ◌⊎◌, sym, ◌∙◌, ℕ, ◌+◌, ◌≡◌, ◌≤◌, inl, inr,
  String, Bool, none, some, List, [], ◌∷◌, ◌++◌, length, arith, string_eq, All, ltb, Option-cases,
  ◌<◌, u64_max, Bool-cases, length-append, All-append, true, Option,
}
use remora_lab.Base.Dict.{Dict, lookup, insert, lookup-insert}
use remora_lab.Memory.Machine.{MemoryTier, ResidencyRecord}
use remora_lab.Memory.Registry.{
  TransferTicket, MemoryRegistry, register, queue_transfer, mark, complete_transfer, ok,
}
use remora_lab.Memory.Errors.{IsErr}

-- The resource is registered, and has at least as many bytes as the ticket moves.
abbrev pub IsCovered : Dict String ResidencyRecord → TransferTicket → Type 0
IsCovered d t = (r : ResidencyRecord) × (lookup t.resource_id d ≡ some r) × (t.bytes ≤ r.bytes)

abbrev pub IsNumbered : ℕ → List TransferTicket → Type 0
IsNumbered k [] = Unit
IsNumbered k (t ∷ ts) = (t.id ≡ k) × IsNumbered (k + 1) ts

-- The tickets are numbered from 0 and covered by registered resources.
pub record IsValid (m : MemoryRegistry) : Type 0 where
  pub numbered : IsNumbered 0 m.transfers
  pub next : m.next_transfer_id ≡ length m.transfers
  pub covered : All (IsCovered m.records) m.transfers

IsCovered-insert :
    (d : Dict String ResidencyRecord) (r : ResidencyRecord) (ts : List TransferTicket)
    → lookup r.resource_id d ≡ none
    → All (IsCovered d) ts
    → All (IsCovered (insert r.resource_id r d)) ts
IsCovered-insert d r [] fresh h = tt
IsCovered-insert d r (t ∷ ts) fresh ((s, e, b), h) = (
  (
    s,
    ground (
      arith,
      lookup-insert r.resource_id t.resource_id r d,
      string_eq.beq_iff r.resource_id t.resource_id,
    ),
    b,
  ),
  IsCovered-insert d r ts fresh h,
)

register-IsValid : (r : ResidencyRecord) (m : MemoryRegistry) → IsValid m → IsValid (register r m).0
unfolding register
register-IsValid r m h = elim (Option-cases (lookup r.resource_id m.records)) [
  | inl fresh ↦
      let c = IsCovered-insert m.records r m.transfers fresh h.covered in
      ground (arith, h.next, h.numbered, h.covered)
  | inr (s, e) ↦ ground (arith, h.next, h.numbered, h.covered)
]

IsNumbered-append :
    (k : ℕ) (ts : List TransferTicket) (t : TransferTicket)
    → IsNumbered k ts
    → t.id ≡ k + length ts
    → IsNumbered k (ts ++ t ∷ [])
IsNumbered-append k [] t h e = omega arith
IsNumbered-append k (x ∷ ts) t h e = (h.0, IsNumbered-append (k + 1) ts t h.1 (omega arith))

queue_transfer-IsValid :
    (id : String) (src dst : MemoryTier) (bytes : ℕ) (queue : String) (mandatory : Bool)
    (m : MemoryRegistry)
    → IsValid m
    → length m.transfers < u64_max
    → IsValid (queue_transfer id src dst bytes queue mandatory m).0
unfolding queue_transfer
queue_transfer-IsValid id src dst bytes queue mandatory m h room =
    elim (Option-cases (lookup id m.records)) [
      | inl e ↦ rw (e, queue_transfer) h
      | inr (r, e) ↦ elim (Bool-cases (ltb r.bytes bytes)) [
        | inl big ↦ rw (e, queue_transfer) (rw big h)
        | inr fits ↦
            rw (e, queue_transfer)
              (rw fits (record {
                numbered = IsNumbered-append 0 m.transfers _ h.numbered (omega (arith, h.next));
                next = omega (arith, h.next, length-append {0} m.transfers);
                covered =
                    All-append (IsCovered m.records) m.transfers _ h.covered
                      ((r, e, ground arith), tt);
              }))
      ]
    ]

-- What completing a ticket leaves alone.
mark-IsNumbered :
    (id k : ℕ) (useful : Bool) (ts us : List TransferTicket)
    → mark id useful ts ≡ some us
    → IsNumbered k ts
    → IsNumbered k us × (length us ≡ length ts)
unfolding mark
mark-IsNumbered id k useful [] us e h = absurd (cc e)
mark-IsNumbered id k useful (t ∷ ts) us e h = elim (Option-cases (mark id useful ts)) [
  | inl no_rest ↦ ground arith
  | inr (vs, rest) ↦ ground (arith, mark-IsNumbered id (k + 1) useful ts vs rest h.1)
]

mark-IsCovered :
    (d : Dict String ResidencyRecord) (id : ℕ) (useful : Bool) (ts us : List TransferTicket)
    → mark id useful ts ≡ some us
    → All (IsCovered d) ts
    → All (IsCovered d) us
unfolding mark
mark-IsCovered d id useful [] us e h = absurd (cc e)
mark-IsCovered d id useful (t ∷ ts) us e h = elim (Option-cases (mark id useful ts)) [
  | inl no_rest ↦ ground (arith, h.0, h.1)
  | inr (vs, rest) ↦
      let ih = mark-IsCovered d id useful ts vs rest h.1 in ground (arith, ih, h.0, h.1)
]

complete_transfer-IsValid :
    (id : ℕ) (useful : Bool) (m : MemoryRegistry)
    → IsValid m
    → IsValid (complete_transfer id useful m).0
unfolding complete_transfer
complete_transfer-IsValid id useful m h = elim (Option-cases (mark id useful m.transfers)) [
  | inl e ↦ rw (e, complete_transfer) h
  | inr (us, e) ↦
      let n = mark-IsNumbered id 0 useful m.transfers us e h.numbered in
      rw (e, complete_transfer)
        (record {
          numbered = n.0;
          next = h.next ∙ sym n.1;
          covered = mark-IsCovered m.records id useful m.transfers us e h.covered;
        })
]

register-length :
    (r : ResidencyRecord) (m : MemoryRegistry)
    → length (register r m).0.transfers ≤ length m.transfers + 1
unfolding register
register-length r m = ground arith

queue_transfer-length :
    (id : String) (src dst : MemoryTier) (bytes : ℕ) (queue : String) (mandatory : Bool)
    (m : MemoryRegistry)
    → length (queue_transfer id src dst bytes queue mandatory m).0.transfers
      ≤ length m.transfers + 1
unfolding queue_transfer
queue_transfer-length id src dst bytes queue mandatory m =
    grind (arith, length-append {0} {A = TransferTicket} m.transfers)

complete_transfer-length :
    (id : ℕ) (useful : Bool) (m : MemoryRegistry)
    → IsValid m
    → length (complete_transfer id useful m).0.transfers ≤ length m.transfers + 1
unfolding complete_transfer
complete_transfer-length id useful m h = elim (Option-cases (mark id useful m.transfers)) [
  | inl e ↦ rw (e, complete_transfer) (omega arith)
  | inr (us, e) ↦
      rw (e, complete_transfer)
        (omega (arith, (mark-IsNumbered id 0 useful m.transfers us e h.numbered).1))
]

-- A call that changes the registry.
pub data Op : Type 0 where
  add : ResidencyRecord → Op
  queue : String → MemoryTier → MemoryTier → ℕ → String → Bool → Op
  complete : ℕ → Bool → Op

unfoldable pub apply : Op → MemoryRegistry → MemoryRegistry
apply (add r) m = (register r m).0
apply (queue id src dst bytes name mandatory) m =
    (queue_transfer id src dst bytes name mandatory m).0
apply (complete id useful) m = (complete_transfer id useful m).0

unfoldable pub run_transfers : List Op → MemoryRegistry → MemoryRegistry
run_transfers [] m = m
run_transfers (op ∷ ops) m = run_transfers ops (apply op m)

apply-IsValid :
    (op : Op) (m : MemoryRegistry)
    → IsValid m
    → length m.transfers < u64_max
    → IsValid (apply op m) × (length (apply op m).transfers ≤ length m.transfers + 1)
unfolding apply
apply-IsValid (add r) m h room = (register-IsValid r m h, register-length r m)
apply-IsValid (queue id src dst bytes name mandatory) m h room = (
  queue_transfer-IsValid id src dst bytes name mandatory m h room,
  queue_transfer-length id src dst bytes name mandatory m,
)
apply-IsValid (complete id useful) m h room =
    (complete_transfer-IsValid id useful m h, complete_transfer-length id useful m h)

-- After any calls on a valid registry, as long as the tickets are countable in a u64: the tickets
-- are numbered 0, 1, 2, … in order, the next number is their count, and each ticket is for a
-- registered resource with at least as many bytes.
pub run_transfers-IsValid :
    (ops : List Op) (m : MemoryRegistry)
    → IsValid m
    → length m.transfers + length ops ≤ u64_max
    → IsValid (run_transfers ops m)
unfolding run_transfers
run_transfers-IsValid [] m h room = h
run_transfers-IsValid (op ∷ ops) m h room =
    let (v, l) = apply-IsValid op m h (omega arith) in
    run_transfers-IsValid ops (apply op m) v (omega arith)

-- A ticket, completed.
abbrev pub done : Bool → TransferTicket → TransferTicket
done useful t = record t { completed = true; useful = useful }

abbrev pub ticket : ℕ → List TransferTicket → Option TransferTicket
ticket id ts = find (λ t. t.id == id) ts

abbrev pub map_ticket :
    (TransferTicket → TransferTicket) → Option TransferTicket → Option TransferTicket
map_ticket f none = none
map_ticket f (some t) = some (f t)

mark-none :
    (id : ℕ) (useful : Bool) (ts : List TransferTicket)
    → mark id useful ts ≡ none
    → ticket id ts ≡ none
unfolding mark
mark-none id useful [] h = refl
mark-none id useful (t ∷ ts) h = ground (arith, mark-none id useful ts)

mark-some :
    (id j : ℕ) (useful : Bool) (ts us : List TransferTicket)
    → mark id useful ts ≡ some us
    → (ticket j us ≡ (if id == j then map_ticket (done useful) (ticket j ts) else ticket j ts))
      × (is_some (ticket id ts) ≡ true)
unfolding mark
mark-some id j useful [] us h = absurd (cc h)
mark-some id j useful (t ∷ ts) us h = elim (Option-cases (mark id useful ts)) [
  | inl no_rest ↦ ground arith
  | inr (vs, rest) ↦ ground (arith, mark-some id j useful ts vs rest)
]

-- Completing a ticket either finds it, and then completes that ticket and no other and leaves the
-- records alone, or reports an unknown ticket and changes nothing.
pub complete_transfer_lem :
    (id j : ℕ) (useful : Bool) (m : MemoryRegistry)
    → let (m', r) = complete_transfer id useful m in
      ((r ≡ ok tt)
        × (is_some (ticket id m.transfers) ≡ true)
        × (m'.records ≡ m.records)
        × (ticket j m'.transfers ≡ (
            if id == j
            then map_ticket (done useful) (ticket j m.transfers)
            else ticket j m.transfers)))
      ⊎ (IsErr r × (ticket id m.transfers ≡ none) × (m' ≡ m))
unfolding complete_transfer
complete_transfer_lem id j useful m = elim (Option-cases (mark id useful m.transfers)) [
  | inl e ↦ ground (arith, mark-none id useful m.transfers e)
  | inr (us, e) ↦ ground (arith, mark-some id j useful m.transfers us e)
]
