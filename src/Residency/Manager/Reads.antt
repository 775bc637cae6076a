-- ===== src/Residency/Manager/Reads.antt =====
-- har/crates/har-residency/src/manager.rs: a read from storage that is queued and started.
use remora_lab.Base.{ℕ, ◌≡◌, refl, sym, ap, ◌∙◌, Bool, false, some, ne_false, leb, nat_eq, wrap_add}
use remora_lab.Base.Dict.{lookup, insert, lookup-insert_self}
use remora_lab.Residency.Types.{PageId, page_eq, nvme_cold, ram_pinned}
use remora_lab.Residency.State
use remora_lab.Residency.State.{ResidencyState, state_eq, legal_transition}
use remora_lab.Residency.Record.{ResidencyRecord, transition}
use remora_lab.Residency.Ticket.{TransferTicket, TransferKind, new_transfer_ticket, start}
use remora_lab.Residency.Attempt.{◌>>=◌, ◌>>◌, pure, and_then, ok, Attempt, Done, at_key-some}
use remora_lab.Residency.Manager.{
  ResidencyManager, get_record, get_ticket, on_record, on_ticket, adjust, new_ticket,
  take_ticket_id, add_ticket, Call,
}
use remora_lab.Residency.Manager.Calls.{
  get_snapshot, queue_nvme_read, start_nvme_read, count_nvme_read,
}
use remora_lab.Residency.Manager.Lifecycle.{life}
use remora_lab.Residency.Manager.Refusal.{on_record-some, transition-legal}

on_ticket-some :
    (id : ℕ) (op : Attempt TransferTicket Done) (s : ResidencyManager) (t : TransferTicket)
    → lookup id s.tickets ≡ some t
    → on_ticket id op s ≡ (record s { tickets = insert id (op t).0 s.tickets }, (op t).1)
unfolding on_ticket
on_ticket-some id op s t h =
    ap (λ x. (record s { tickets = x.0 }, x.1)) (at_key-some id _ op s.tickets t h)

-- A part that succeeds, before what follows it.
bind-ok :
    {A B : Type 0} (m : Call A) (f : A → Call B) (s : ResidencyManager) {t : ResidencyManager}
    {a : A}
    → m s ≡ (t, ok a)
    → (m >>= f) s ≡ f a t
bind-ok m f s h = ap (λ out. and_then out f) h

on_record-ok :
    (p : PageId) (op : Attempt ResidencyRecord Done) (s : ResidencyManager) (r : ResidencyRecord)
    → lookup p s.records ≡ some r
    → (op r).1 ≡ ok tt
    → on_record p op s ≡ (record s { records = insert p (op r).0 s.records }, ok tt)
on_record-ok p op s r h k =
    on_record-some p op s r h ∙ ap (λ z. (record s { records = insert p (op r).0 s.records }, z)) k

on_ticket-ok :
    (id : ℕ) (op : Attempt TransferTicket Done) (s : ResidencyManager) (t : TransferTicket)
    → lookup id s.tickets ≡ some t
    → (op t).1 ≡ ok tt
    → on_ticket id op s ≡ (record s { tickets = insert id (op t).0 s.tickets }, ok tt)
on_ticket-ok id op s t h k =
    on_ticket-some id op s t h
    ∙ ap (λ z. (record s { tickets = insert id (op t).0 s.tickets }, z)) k

module _ (p : PageId) (x y : Bool) (clock later : ℕ → ℕ) (s : ResidencyManager)
    (r : ResidencyRecord) (known : lookup p s.records ≡ some r) (q : r.state ≡ State.indexed)
    (room : leb s.snapshot.nvme_queue_capacity s.snapshot.nvme_queue_depth ≡ false) where
  abbrev pub queued_page : ResidencyRecord
  queued_page = (transition State.nvme_read_queued "NVMe read queued" r).0

  abbrev pub queued_ticket : TransferTicket
  queued_ticket =
      new_transfer_ticket s.next_ticket p r.generation nvme_cold ram_pinned TransferKind.nvme_read
        r.representation.bytes x y (clock 0)

  abbrev pub after_queueing : ResidencyManager
  after_queueing = record s {
    records = insert p queued_page s.records;
    tickets = insert s.next_ticket queued_ticket s.tickets;
    next_ticket = wrap_add s.next_ticket 1;
    snapshot = count_nvme_read r.representation.bytes s.snapshot;
  }

  queued-legal :
      ((transition State.nvme_read_queued "NVMe read queued" r).1 ≡ ok tt)
      × (life queued_page ≡ (r.generation, State.nvme_read_queued))
  unfolding legal_transition
  queued-legal =
      transition-legal State.nvme_read_queued "NVMe read queued" r
        (ap (λ z. legal_transition z State.nvme_read_queued) q)

  abbrev ticketed : ResidencyManager
  ticketed = record s {
    tickets = insert s.next_ticket queued_ticket s.tickets;
    next_ticket = wrap_add s.next_ticket 1;
  }

  new_ticket-ok :
      new_ticket p TransferKind.nvme_read nvme_cold ram_pinned r.representation.bytes x y
        (clock 0)
        s
      ≡ (ticketed, ok s.next_ticket)
  unfolding new_ticket get_record take_ticket_id add_ticket
  new_ticket-ok = rw known refl

  pub queue_nvme_read-ok : queue_nvme_read p x y clock s ≡ (after_queueing, ok s.next_ticket)
  unfolding queue_nvme_read get_snapshot get_record adjust
  queue_nvme_read-ok =
      rw (room, known)
        (bind-ok
            (new_ticket p TransferKind.nvme_read nvme_cold ram_pinned r.representation.bytes x y
              (clock 0))
            (λ id. on_record p (transition State.nvme_read_queued "NVMe read queued") >> counted id)
            s new_ticket-ok
          ∙ bind-ok (on_record p (transition State.nvme_read_queued "NVMe read queued"))
              (λ _. counted s.next_ticket) ticketed
              (on_record-ok p (transition State.nvme_read_queued "NVMe read queued") ticketed r
                known queued-legal.0))
    where
      counted : ℕ → Call ℕ
      counted id = adjust (count_nvme_read r.representation.bytes) >> pure id

  abbrev pub running_ticket : TransferTicket
  running_ticket = (start (later 0) queued_ticket).0

  abbrev pub reading_page : ResidencyRecord
  reading_page = (transition State.nvme_reading "NVMe read started" queued_page).0

  abbrev pub after_starting : ResidencyManager
  after_starting = record after_queueing {
    records = insert p reading_page (insert p queued_page s.records);
    tickets = insert s.next_ticket running_ticket (insert s.next_ticket queued_ticket s.tickets);
  }

  reading-legal :
      ((transition State.nvme_reading "NVMe read started" queued_page).1 ≡ ok tt)
      × (life reading_page ≡ (queued_page.generation, State.nvme_reading))
  unfolding legal_transition
  reading-legal =
      transition-legal State.nvme_reading "NVMe read started" queued_page
        (ap (λ z. legal_transition z.1 State.nvme_reading) queued-legal.1)

  start-ok : (start (later 0) queued_ticket).1 ≡ ok tt
  unfolding start new_transfer_ticket
  start-ok = refl

  queued_ticket-page : (queued_ticket.page_id ≡ p) × (queued_ticket.generation ≡ r.generation)
  unfolding new_transfer_ticket
  queued_ticket-page = (refl, refl)

  pub start_nvme_read-ok :
      start_nvme_read s.next_ticket later after_queueing ≡ (after_starting, ok tt)
  unfolding start_nvme_read get_ticket get_record new_transfer_ticket
  start_nvme_read-ok =
      rw
        (
          lookup-insert_self s.next_ticket queued_ticket s.tickets,
          lookup-insert_self p queued_page s.records,
          ne_false queued_ticket.generation queued_page.generation
              (queued_ticket-page.1 ∙ sym (ap (λ z. z.0) queued-legal.1)),
        )
        (bind-ok (on_ticket s.next_ticket (start (later 0)))
            (λ _. on_record p (transition State.nvme_reading "NVMe read started")) after_queueing
            (on_ticket-ok s.next_ticket (start (later 0)) after_queueing queued_ticket
              (lookup-insert_self s.next_ticket queued_ticket s.tickets) start-ok)
          ∙ on_record-ok p (transition State.nvme_reading "NVMe read started") started queued_page
              (lookup-insert_self p queued_page s.records) reading-legal.0)
    where
      started : ResidencyManager
      started = record after_queueing {
        tickets =
            insert s.next_ticket running_ticket (insert s.next_ticket queued_ticket s.tickets);
      }

  pub reading-life : life reading_page ≡ (r.generation, State.nvme_reading)
  reading-life = reading-legal.1 ∙ ap (λ z. (z.0, State.nvme_reading)) queued-legal.1
