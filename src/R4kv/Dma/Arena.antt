-- ===== src/R4kv/Dma/Arena.antt =====
-- What the transfer queue of har/crates/r4kv/src/dma.rs keeps: the arena is reserved for exactly the
-- transfers that are not done, and the queue holds exactly those that are not submitted.
use remora_lab.Base.{
  ℕ, ◌+◌, ◌≡◌, ◌≤◌, ◌<◌, none, some, List, [], ◌∷◌, ◌++◌, arith, length, u64_max, refl,
  if◌then◌else◌, inl, inr, length-append, Bool-cases, wrap_add, ◌∙◌, ◌⊎◌, sym, ap,
}
use remora_lab.Base.Real.{F64}
use remora_lab.R4kv.Dma.{
  TransferKind, TransferRequest, TransferRecord, DmaEngine, enqueue, submit_batch, drain, mark_last,
  marked, is_queued, is_in_flight, arena_bytes, queued_record, in_flight,
}

module _ (f : F64) where
  -- The bytes that the arena holds for the transfers of the records.
  abbrev pub staged : List (TransferRecord f) → ℕ
  staged [] = 0
  staged (r ∷ rs) =
      (if is_queued r.state then r.req.bytes else if is_in_flight r.state then r.req.bytes else 0)
      + staged rs

  abbrev pub waiting : List (TransferRecord f) → List TransferRequest
  waiting [] = []
  waiting (r ∷ rs) = if is_queued r.state then r.req ∷ waiting rs else waiting rs

  -- The numbers of the records grow from `lo` on, and stay below `hi`.
  abbrev pub Grows : ℕ → ℕ → List (TransferRecord f) → Type 0
  Grows lo hi [] = lo ≤ hi
  Grows lo hi (r ∷ rs) = (lo ≤ r.req.id) × Grows (r.req.id + 1) hi rs

  pub record IsSound (e : DmaEngine f) : Type 0 where
    pub arena : e.arena_used ≡ staged e.records
    pub room : e.arena_used ≤ arena_bytes
    pub bound : length e.queue ≤ e.capacity
    pub queue : e.queue ≡ waiting e.records
    pub numbered : Grows 0 e.next_id e.records

  staged-append :
      (rs : List (TransferRecord f)) (r : TransferRequest)
      → staged (rs ++ queued_record f r ∷ []) ≡ staged rs + r.bytes
  staged-append [] r = omega arith
  staged-append (x ∷ rs) r = ground (arith, staged-append rs r)

  waiting-append :
      (rs : List (TransferRecord f)) (r : TransferRequest)
      → waiting (rs ++ queued_record f r ∷ []) ≡ waiting rs ++ r ∷ []
  waiting-append [] r = refl
  waiting-append (x ∷ rs) r = ground (arith, waiting-append rs r)

  Grows-append :
      (lo hi : ℕ) (rs : List (TransferRecord f)) (r : TransferRequest)
      → Grows lo hi rs
      → r.id ≡ hi
      → Grows lo (hi + 1) (rs ++ queued_record f r ∷ [])
  Grows-append lo hi [] r h e = (omega arith, omega arith)
  Grows-append lo hi (x ∷ rs) r h e = (h.0, Grows-append (x.req.id + 1) hi rs r h.1 e)

  pub enqueue-IsSound :
      (kind : TransferKind) (page_id bytes : ℕ) (e : DmaEngine f)
      → arena_bytes + bytes ≤ u64_max
      → e.next_id < u64_max
      → IsSound e
      → IsSound (enqueue f kind page_id bytes e).0
  unfolding enqueue
  enqueue-IsSound kind page_id bytes e w n h =
      let r : TransferRequest = record {
        id = e.next_id;
        kind = kind;
        page_id = page_id;
        bytes = bytes;
      } in
      let s = staged-append e.records r in
      let q = waiting-append e.records r in
      let g = Grows-append 0 e.next_id e.records r h.numbered refl in
      let l = length-append e.queue (r ∷ []) in
      ground (arith, h.arena, h.room, h.bound, h.queue, h.numbered)

  -- A number below all of the records' is not found.
  mark_last-none :
      (id lo hi : ℕ) (rs : List (TransferRecord f))
      → id < lo
      → Grows lo hi rs
      → mark_last f id rs ≡ none
  unfolding mark_last
  mark_last-none id lo hi [] lt h = refl
  mark_last-none id lo hi (r ∷ rs) lt h =
      let e = mark_last-none id (r.req.id + 1) hi rs (omega (arith, h.0)) h.1 in ground (arith, h.0)

  -- The records once everything that is queued is in flight.
  abbrev pub launched : List (TransferRecord f) → List (TransferRecord f)
  launched [] = []
  launched (r ∷ rs) =
      (if is_queued r.state then record r { state = in_flight } else r) ∷ launched rs

  -- What marking the first of the waiting requests does.
  record Marks (lo hi : ℕ) (qs : List TransferRequest) (rs us : List (TransferRecord f))
      : Type 0 where
    wait : waiting us ≡ qs
    grow : Grows lo hi us
    same : launched us ≡ launched rs

  mark_last-first :
      (lo hi : ℕ) (q : TransferRequest) (qs : List TransferRequest) (rs : List (TransferRecord f))
      → Grows lo hi rs
      → waiting rs ≡ q ∷ qs
      → (us : List (TransferRecord f)) × (mark_last f q.id rs ≡ some us) × Marks lo hi qs rs us
  unfolding mark_last
  mark_last-first lo hi q qs [] g e = absurd (cc e)
  mark_last-first lo hi q qs (r ∷ rs) g e = elim (Bool-cases (is_queued r.state)) [
    | inl w ↦
        let p : r.req ≡ q = ground arith in
        let t : waiting rs ≡ qs = ground arith in
        let none_later = mark_last-none q.id (r.req.id + 1) hi rs (ground arith) g.1 in
        (
          record r { state = in_flight } ∷ rs,
          ground arith,
          record { wait = t; grow = g; same = ground arith },
        )
    | inr w ↦
        let t : waiting rs ≡ q ∷ qs = ground arith in
        let (us, m, k) = mark_last-first (r.req.id + 1) hi q qs rs g.1 t in
        (
          r ∷ us,
          rw (m, mark_last) refl,
          record {
            wait = ground (arith, k.wait);
            grow = (g.0, k.grow);
            same = ground (arith, k.same);
          },
        )
  ]

  pub drain-launched :
      (qs : List TransferRequest) (e : DmaEngine f) (hi : ℕ)
      → Grows 0 hi e.records
      → waiting e.records ≡ qs
      → let d = drain f qs e in
        (waiting d.records ≡ [])
        × Grows 0 hi d.records
        × (launched d.records ≡ launched e.records)
        × (d.arena_used ≡ e.arena_used)
        × (d.capacity ≡ e.capacity)
        × (d.next_id ≡ e.next_id)
  unfolding drain
  drain-launched [] e hi g w = (w, g, refl, refl, refl, refl)
  drain-launched (q ∷ qs) e hi g w =
      let (us, m, k) = mark_last-first 0 hi q qs e.records g w in
      let s : marked f q.id e.records ≡ us = rw (m, marked) refl in
      let next : DmaEngine f = record e {
        records = marked f q.id e.records;
        bytes_submitted = wrap_add e.bytes_submitted q.bytes;
      } in
      let ih = drain-launched qs next hi (rw s k.grow) (rw s k.wait) in
      let same : launched next.records ≡ launched e.records = rw s k.same in
      (ih.0, ih.1, ih.2 ∙ same, ih.3, ih.4, ih.5)

  staged-launched : (rs : List (TransferRecord f)) → staged (launched rs) ≡ staged rs
  staged-launched [] = refl
  staged-launched (r ∷ rs) = ground (arith, staged-launched rs)

  queue-cases :
      (qs : List TransferRequest)
      → (qs ≡ []) ⊎ ((r : TransferRequest) × (rs : List TransferRequest) × (qs ≡ r ∷ rs))
  queue-cases [] = inl refl
  queue-cases (r ∷ rs) = inr (r, rs, refl)

  drain-IsSound :
      (qs : List TransferRequest) (n : ℕ) (e : DmaEngine f)
      → IsSound e
      → e.queue ≡ qs
      → IsSound (record (drain f qs e) { queue = []; batches_submitted = n })
  drain-IsSound qs n e h q =
      let d = drain-launched qs e e.next_id h.numbered (sym h.queue ∙ q) in
      let s : staged (drain f qs e).records ≡ staged e.records =
        sym (staged-launched (drain f qs e).records) ∙ ap staged d.2 ∙ staged-launched e.records in
      record {
        arena = d.3 ∙ h.arena ∙ sym s;
        room = omega (arith, h.room, d.3);
        bound = omega arith;
        queue = sym d.0;
        numbered = rw (d.5) (d.1);
      }

  pub submit_batch-IsSound : (e : DmaEngine f) → IsSound e → IsSound (submit_batch f e).0
  unfolding submit_batch
  submit_batch-IsSound e h = elim (queue-cases e.queue) [
    | inl q ↦ rw (q, submit_batch) h
    | inr (r, rs, q) ↦
        rw (q, submit_batch)
          (drain-IsSound (r ∷ rs) (wrap_add (drain f (r ∷ rs) e).batches_submitted 1) e h q)
  ]

  pub submit_batch-empties :
      (e : DmaEngine f)
      → IsSound e
      → ((submit_batch f e).0.queue ≡ []) × ((submit_batch f e).0.next_id ≡ e.next_id)
  unfolding submit_batch
  submit_batch-empties e h = elim (queue-cases e.queue) [
    | inl q ↦ rw (q, submit_batch) (q, refl)
    | inr (r, rs, q) ↦
        let d = drain-launched (r ∷ rs) e e.next_id h.numbered (sym h.queue ∙ q) in
        rw (q, submit_batch) (refl, d.5)
  ]

  launched-none : (rs : List (TransferRecord f)) → waiting rs ≡ [] → launched rs ≡ rs
  launched-none [] h = refl
  launched-none (r ∷ rs) h = elim (Bool-cases (is_queued r.state)) [
    | inl q ↦ absurd (ground arith)
    | inr q ↦ rw q (ap (λ x. r ∷ x) (launched-none rs (ground arith)))
  ]

  -- A submission puts all that is queued in flight, and changes no other record.
  pub submit_batch-launched :
      (e : DmaEngine f) → IsSound e → (submit_batch f e).0.records ≡ launched e.records
  unfolding submit_batch
  submit_batch-launched e h = elim (queue-cases e.queue) [
    | inl q ↦ rw (q, submit_batch) (sym (launched-none e.records (sym h.queue ∙ q)))
    | inr (r, rs, q) ↦
        let d = drain-launched (r ∷ rs) e e.next_id h.numbered (sym h.queue ∙ q) in
        rw (q, submit_batch) (sym (launched-none (drain f (r ∷ rs) e).records d.0) ∙ d.2)
  ]
