-- ===== src/R4kv/Dma.antt =====
-- har/crates/r4kv/src/dma.rs: the transfer queue. The bytes of the staging arena are never read or
-- written here, so only its constant size stands for it. A `usize` has 64 bits.
pub mod Arena
pub mod Polling
pub mod Awaiting
use remora_lab.Base.{
  ℕ, zero, suc, ◌-◌, String, Bool, true, false, Option, none, some, List, [], ◌∷◌, ◌++◌, ltb, leb,
  ◌==◌, nat_eq, if◌then◌else◌, wrap_add, length, find,
}
use remora_lab.Base.Real.{F64}

abbrev pub arena_bytes : ℕ
arena_bytes = 268435456

pub data TransferKind : Type 0 where
  mirror promote : TransferKind

pub data TransferState : Type 0 where
  queued in_flight complete failed : TransferState

abbrev pub is_queued : TransferState → Bool
is_queued queued = true
is_queued _ = false

abbrev pub is_in_flight : TransferState → Bool
is_in_flight in_flight = true
is_in_flight _ = false

abbrev pub is_complete : TransferState → Bool
is_complete complete = true
is_complete _ = false

-- `Complete` or `Failed`.
abbrev pub is_over : TransferState → Bool
is_over complete = true
is_over failed = true
is_over _ = false

pub record TransferRequest : Type 0 where
  pub id : ℕ
  pub kind : TransferKind
  pub page_id : ℕ
  pub bytes : ℕ

-- The methods' `Result<_, &'static str>`.
pub data Result {ℓ} (A : Type ℓ) : Type ℓ where
  ok : A → Result A
  err : String → Result A

module _ (f : F64) where
  pub record TransferRecord : Type 0 where
    pub req : TransferRequest
    pub state : TransferState
    pub queued_ms : f.Carrier
    pub completed_ms : f.Carrier

  pub record DmaEngine : Type 0 where
    pub arena_used : ℕ
    pub queue : List TransferRequest
    pub records : List TransferRecord
    pub capacity : ℕ
    pub next_id : ℕ
    pub bytes_submitted : ℕ
    pub bytes_completed : ℕ
    pub batches_submitted : ℕ

  abbrev pub new_engine : ℕ → DmaEngine
  new_engine capacity = record {
    arena_used = 0;
    queue = [];
    records = [];
    capacity = capacity;
    next_id = 1;
    bytes_submitted = 0;
    bytes_completed = 0;
    batches_submitted = 0;
  }

  abbrev pub queued_record : TransferRequest → TransferRecord
  queued_record r = record {
    req = r;
    state = queued;
    queued_ms = f.lit 0 1;
    completed_ms = f.lit 0 1;
  }

  unfoldable pub enqueue : TransferKind → ℕ → ℕ → DmaEngine → DmaEngine × Result ℕ
  enqueue kind page_id bytes e =
      let r : TransferRequest = record {
        id = e.next_id;
        kind = kind;
        page_id = page_id;
        bytes = bytes;
      } in
      if leb e.capacity (length e.queue)
      then (e, err "queue-full")
      else if ltb arena_bytes (wrap_add e.arena_used bytes)
      then (e, err "arena-full")
      else (
        record e {
          next_id = wrap_add e.next_id 1;
          arena_used = wrap_add e.arena_used bytes;
          queue = e.queue ++ r ∷ [];
          records = e.records ++ queued_record r ∷ [];
        },
        ok e.next_id,
      )

  -- The loop over `records.iter_mut().rev()`: the last record of that number is in flight now; `none`
  -- if there is none.
  unfoldable pub mark_last : ℕ → List TransferRecord → Option (List TransferRecord)
  mark_last id [] = none
  mark_last id (r ∷ rs) = elim (mark_last id rs) [
    | some us ↦ some (r ∷ us)
    | none ↦ if r.req.id == id then some (record r { state = in_flight } ∷ rs) else none
  ]

  abbrev pub marked : ℕ → List TransferRecord → List TransferRecord
  marked id rs = elim (mark_last id rs) [ some us ↦ us | none ↦ rs ]

  -- The loop over the drained queue.
  unfoldable pub drain : List TransferRequest → DmaEngine → DmaEngine
  drain [] e = e
  drain (r ∷ rs) e = drain rs (record e {
    records = marked r.id e.records;
    bytes_submitted = wrap_add e.bytes_submitted r.bytes;
  })

  unfoldable pub submit_batch : DmaEngine → DmaEngine × Result ℕ
  unfolding drain mark_last
  submit_batch e = elim e.queue [
    | [] ↦ (e, err "nothing-queued")
    | r ∷ rs ↦
        let d = drain (r ∷ rs) e in
        (
          record d { queue = []; batches_submitted = wrap_add d.batches_submitted 1 },
          ok (length (r ∷ rs)),
        )
  ]

  -- The loop of `poll_completion`: the records, the arena in use, the completed bytes and the
  -- numbers that are done.
  unfoldable pub poll_records :
      f.Carrier → List TransferRecord → ℕ → ℕ → List TransferRecord × ℕ × ℕ × List ℕ
  poll_records now [] used completed = ([], used, completed, [])
  poll_records now (r ∷ rs) used completed =
      let hit = is_in_flight r.state in
      let (us, u, c, done) =
        poll_records now rs (if hit then used - r.req.bytes else used)
          (if hit then wrap_add completed r.req.bytes else completed) in
      if hit
      then (record r { state = complete; completed_ms = now } ∷ us, u, c, r.req.id ∷ done)
      else (r ∷ us, u, c, done)

  unfoldable pub poll_completion : f.Carrier → DmaEngine → DmaEngine × List ℕ
  unfolding poll_records
  poll_completion now e =
      let (rs, u, c, done) = poll_records now e.records e.arena_used e.bytes_completed in
      (record e { records = rs; arena_used = u; bytes_completed = c }, done)

  -- The `loop`, with fuel: `none` means that the fuel ran out.
  unfoldable pub await_completion :
      ℕ → ℕ → f.Carrier → DmaEngine → Option (DmaEngine × TransferState)
  unfolding poll_completion
  await_completion zero id now e = none
  await_completion (suc fuel) id now e =
      let d = (poll_completion now e).0 in
      let rest = await_completion fuel id now d in
      elim (find (λ r. r.req.id == id) d.records) [
        | none ↦ some (d, failed)
        | some r ↦ if is_over r.state then some (d, r.state) else rest
      ]

  abbrev pub retained : List TransferRecord → List TransferRecord
  retained [] = []
  retained (r ∷ rs) = if is_complete r.state then retained rs else r ∷ retained rs

  unfoldable pub reclaim_completed : DmaEngine → DmaEngine × ℕ
  reclaim_completed e =
      let rs = retained e.records in (record e { records = rs }, length e.records - length rs)
