-- ===== src/Residency/Ticket.antt =====
-- har/crates/har-residency/src/types.rs: transfer tickets. A reading of the clock is an argument.
use remora_lab.Base.{
  ℕ, ◌-◌, ◌≡◌, refl, String, Bool, Option, none, some, [], ◌∷◌, ◌==◌, ◌!=◌, ◌||◌, not, nat_eq,
  PartialEq, if◌then◌else◌, eq_by_code, nth_or,
}
use remora_lab.Residency.Types.{PageId, PageLocation}
use remora_lab.Residency.Attempt.{ticket_state, ok, err, Attempt, Done}

pub data TransferKind : Type 0 where
  nvme_read ram_to_vram vram_eviction ram_eviction : TransferKind

pub data TransferStatus : Type 0 where
  queued running completed cancelled failed : TransferStatus

abbrev status_index : TransferStatus → ℕ
status_index s = elim s [ queued ↦ 0 | running ↦ 1 | completed ↦ 2 | cancelled ↦ 3 | failed ↦ 4 ]

abbrev of_status_index : ℕ → TransferStatus
of_status_index = nth_or failed (queued ∷ running ∷ completed ∷ cancelled ∷ [])

pub status_index_lem : (s : TransferStatus) → of_status_index (status_index s) ≡ s
status_index_lem queued = refl
status_index_lem running = refl
status_index_lem completed = refl
status_index_lem cancelled = refl
status_index_lem failed = refl

instance abbrev pub status_eq : PartialEq TransferStatus
status_eq = eq_by_code nat_eq status_index of_status_index status_index_lem

pub record TransferTicket : Type 0 where
  pub ticket_id : ℕ
  pub page_id : PageId
  pub generation : ℕ
  pub source : PageLocation
  pub destination : PageLocation
  pub kind : TransferKind
  pub requested_bytes : ℕ
  pub unique_bytes : ℕ
  pub useful_bytes : ℕ
  pub wasted_bytes : ℕ
  pub mandatory : Bool
  pub speculative : Bool
  pub status : TransferStatus
  pub created_ns : ℕ
  pub queued_ns : ℕ
  pub started_ns : Option ℕ
  pub first_byte_ns : Option ℕ
  pub completed_ns : Option ℕ
  pub error : Option String

unfoldable pub new_transfer_ticket :
    (ticket_id : ℕ) (page_id : PageId) (generation : ℕ) (source destination : PageLocation)
    → (kind : TransferKind) (requested_bytes : ℕ) (mandatory speculative : Bool) (timestamp : ℕ)
    → TransferTicket
new_transfer_ticket ticket_id page_id generation source destination kind requested_bytes mandatory
      speculative timestamp =
    record {
      ticket_id = ticket_id;
      page_id = page_id;
      generation = generation;
      source = source;
      destination = destination;
      kind = kind;
      requested_bytes = requested_bytes;
      unique_bytes = requested_bytes;
      useful_bytes = 0;
      wasted_bytes = 0;
      mandatory = mandatory;
      speculative = speculative;
      status = queued;
      created_ns = timestamp;
      queued_ns = timestamp;
      started_ns = none;
      first_byte_ns = none;
      completed_ns = none;
      error = none;
    }

abbrev get_or_insert : Option ℕ → ℕ → Option ℕ
get_or_insert none now = some now
get_or_insert (some t) now = some t

unfoldable pub start : (now : ℕ) → Attempt TransferTicket Done
start now t =
    if t.status != queued
    then (t, err (ticket_state "ticket is not queued"))
    else (record t { status = running; started_ns = some now }, ok tt)

unfoldable pub first_byte : (now : ℕ) → Attempt TransferTicket Done
first_byte now t =
    if t.status != running
    then (t, err (ticket_state "first byte requires a running ticket"))
    else (record t { first_byte_ns = get_or_insert t.first_byte_ns now }, ok tt)

-- The clock is read for the first byte, if it is not known, and then for the completion.
unfoldable pub complete : (first_now now : ℕ) → Attempt TransferTicket Done
complete first_now now t =
    if not (t.status == queued || t.status == running)
    then (t, err (ticket_state "ticket is not completable"))
    else (
      record t {
        status = completed;
        first_byte_ns = get_or_insert t.first_byte_ns first_now;
        completed_ns = some now;
      },
      ok tt,
    )

unfoldable pub cancel : String → (now : ℕ) → Attempt TransferTicket Done
cancel reason now t =
    if t.status == completed
    then (t, err (ticket_state "completed ticket cannot be cancelled"))
    else (record t { status = cancelled; completed_ns = some now; error = some reason }, ok tt)

unfoldable pub fail : String → (now : ℕ) → Attempt TransferTicket Done
fail reason now t =
    if t.status == completed
    then (t, err (ticket_state "completed ticket cannot fail"))
    else (record t { status = failed; completed_ns = some now; error = some reason }, ok tt)

unfoldable pub latency_ns : TransferTicket → Option ℕ
latency_ns t = elim t.completed_ns [ none ↦ none | some end ↦ some (end - t.queued_ns) ]
