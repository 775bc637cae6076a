-- ===== src/R4kv/Dma/Polling.antt =====
-- Polling and reclaiming in har/crates/r4kv/src/dma.rs, and runs of the engine.
use remora_lab.Base.{
  ℕ, ◌+◌, ◌-◌, ◌≡◌, ◌≤◌, ◌<◌, List, [], ◌∷◌, arith, length, u64_max, refl, if◌then◌else◌, inl, inr,
  All, Bool-cases, ◌∙◌, sym, wrap_add, map, ap, ◌⊎◌,
}
use remora_lab.Base.Real.{F64}
use remora_lab.R4kv.Dma.{
  queued, in_flight, complete, failed, TransferState, TransferKind, TransferRecord, DmaEngine,
  enqueue, submit_batch, poll_completion, reclaim_completed, poll_records, retained, is_in_flight,
  arena_bytes,
}
use remora_lab.R4kv.Dma.Arena.{
  staged, waiting, Grows, IsSound, enqueue-IsSound, submit_batch-IsSound, submit_batch-empties,
  launched, submit_batch-launched,
}

module _ (f : F64) where
  -- What a poll leaves: the arena holds what it held less what was in flight.
  abbrev flying : List (TransferRecord f) → ℕ
  flying [] = 0
  flying (r ∷ rs) = (if is_in_flight r.state then r.req.bytes else 0) + flying rs

  record Polls (lo hi used : ℕ) (rs us : List (TransferRecord f)) (left : ℕ) : Type 0 where
    left_used : left + flying rs ≡ used
    landed : staged f us + flying rs ≡ staged f rs
    wait : waiting f us ≡ waiting f rs
    grow : Grows f lo hi us
    none_flying : flying us ≡ 0

  poll_records-Polls :
      (now : f.Carrier) (rs : List (TransferRecord f)) (lo hi used c : ℕ)
      → flying rs ≤ used
      → Grows f lo hi rs
      → let (us, left, _, _) = poll_records f now rs used c in Polls lo hi used rs us left
  unfolding poll_records
  poll_records-Polls now [] lo hi used c room g = ground arith
  poll_records-Polls now (r ∷ rs) lo hi used c room g =
      let u = if is_in_flight r.state then used - r.req.bytes else used in
      let d = if is_in_flight r.state then wrap_add c r.req.bytes else c in
      let ih = poll_records-Polls now rs (r.req.id + 1) hi u d (ground arith) g.1 in
      elim (Bool-cases (is_in_flight r.state)) [
        | inl w ↦ ground (arith, ih.left_used, ih.landed, ih.wait, ih.grow, ih.none_flying)
        | inr w ↦ ground (arith, ih.left_used, ih.landed, ih.wait, ih.grow, ih.none_flying)
      ]

  flying-le : (rs : List (TransferRecord f)) → flying rs ≤ staged f rs
  flying-le [] = omega arith
  flying-le (r ∷ rs) = ground (arith, flying-le rs)

  poll_completion-IsSound :
      (now : f.Carrier) (e : DmaEngine f) → IsSound f e → IsSound f (poll_completion f now e).0
  unfolding poll_completion
  poll_completion-IsSound now e h =
      let room : flying e.records ≤ e.arena_used = omega (arith, h.arena, flying-le e.records) in
      let p =
        poll_records-Polls now e.records 0 e.next_id e.arena_used e.bytes_completed room
          h.numbered in
      record {
        arena = omega (arith, p.left_used, p.landed, h.arena);
        room = omega (arith, p.left_used, h.room);
        bound = h.bound;
        queue = h.queue ∙ sym p.wait;
        numbered = p.grow;
      }

  Grows-below :
      (lo mid hi : ℕ) (rs : List (TransferRecord f))
      → lo ≤ mid
      → Grows f mid hi rs
      → Grows f lo hi rs
  Grows-below lo mid hi [] l g = omega arith
  Grows-below lo mid hi (r ∷ rs) l g = (omega (arith, g.0), g.1)

  retained-keeps :
      (lo hi : ℕ) (rs : List (TransferRecord f))
      → Grows f lo hi rs
      → (staged f (retained f rs) ≡ staged f rs)
        × (waiting f (retained f rs) ≡ waiting f rs)
        × Grows f lo hi (retained f rs)
  retained-keeps lo hi [] g = (refl, refl, g)
  retained-keeps lo hi (r ∷ rs) g =
      let ih = retained-keeps (r.req.id + 1) hi rs g.1 in
      let low = Grows-below lo (r.req.id + 1) hi (retained f rs) (omega (arith, g.0)) ih.2 in
      ground (arith, g.0)

  reclaim_completed-IsSound : (e : DmaEngine f) → IsSound f e → IsSound f (reclaim_completed f e).0
  unfolding reclaim_completed
  reclaim_completed-IsSound e h =
      let k = retained-keeps 0 e.next_id e.records h.numbered in
      record {
        arena = h.arena ∙ sym k.0;
        room = h.room;
        bound = h.bound;
        queue = h.queue ∙ sym k.1;
        numbered = k.2;
      }

  -- A call of a method that changes the engine.
  pub data Op : Type 0 where
    ask : TransferKind → ℕ → ℕ → Op
    submit : Op
    poll : f.Carrier → Op
    reclaim : Op

  unfoldable pub apply : Op → DmaEngine f → DmaEngine f
  apply (ask kind page_id bytes) e = (enqueue f kind page_id bytes e).0
  apply submit e = (submit_batch f e).0
  apply (poll now) e = (poll_completion f now e).0
  apply reclaim e = (reclaim_completed f e).0

  unfoldable pub run_transport : List Op → DmaEngine f → DmaEngine f
  run_transport [] e = e
  run_transport (op ∷ ops) e = run_transport ops (apply op e)

  -- The bytes of a request, on top of a full arena, are a word.
  abbrev pub IsSized : Op → Type 0
  IsSized (ask kind page_id bytes) = arena_bytes + bytes ≤ u64_max
  IsSized _ = Unit

  apply-IsSound :
      (op : Op) (e : DmaEngine f)
      → IsSized op
      → e.next_id < u64_max
      → IsSound f e
      → IsSound f (apply op e)
  unfolding apply
  apply-IsSound (ask kind page_id bytes) e w n h = enqueue-IsSound f kind page_id bytes e w n h
  apply-IsSound submit e w n h = submit_batch-IsSound f e h
  apply-IsSound (poll now) e w n h = poll_completion-IsSound now e h
  apply-IsSound reclaim e w n h = reclaim_completed-IsSound e h

  apply-next :
      (op : Op) (e : DmaEngine f)
      → e.next_id < u64_max
      → IsSound f e
      → (apply op e).next_id ≤ e.next_id + 1
  unfolding apply enqueue submit_batch poll_completion reclaim_completed
  apply-next (ask kind page_id bytes) e n h = ground arith
  apply-next submit e n h = omega (arith, (submit_batch-empties f e h).1)
  apply-next (poll now) e n h = omega arith
  apply-next reclaim e n h = omega arith

  -- Whatever is asked for, submitted, polled and reclaimed, as long as the numbers of the transfers
  -- and the sizes that are asked for are words: the arena is reserved for exactly the bytes of the
  -- transfers that are queued or in flight and never overfull; the queue holds exactly the queued
  -- transfers, in order, within its capacity; and the numbers of the records grow.
  pub run_transport-IsSound :
      (ops : List Op) (e : DmaEngine f)
      → All IsSized ops
      → e.next_id + length ops ≤ u64_max
      → IsSound f e
      → IsSound f (run_transport ops e)
  unfolding run_transport
  run_transport-IsSound [] e w n h = h
  run_transport-IsSound (op ∷ ops) e w n h =
      let a = apply-IsSound op e w.0 (omega arith) h in
      let m = apply-next op e (omega arith) h in
      run_transport-IsSound ops (apply op e) w.1 (omega arith) a

  staged-zero : (rs : List (TransferRecord f)) → waiting f rs ≡ [] → flying rs ≡ 0 → staged f rs ≡ 0
  staged-zero [] w z = refl
  staged-zero (r ∷ rs) w z = ground (arith, staged-zero rs)

  -- A record that is queued or in flight is completed at a time; every other is as it was.
  abbrev pub finished : f.Carrier → TransferRecord f → TransferRecord f
  finished now r = elim r.state [
    | queued ↦ record r { state = complete; completed_ms = now }
    | in_flight ↦ record r { state = complete; completed_ms = now }
    | _ ↦ r
  ]

  abbrev pub unfinished : List (TransferRecord f) → List ℕ
  unfinished [] = []
  unfinished (r ∷ rs) = elim r.state [
    | queued ↦ r.req.id ∷ unfinished rs
    | in_flight ↦ r.req.id ∷ unfinished rs
    | _ ↦ unfinished rs
  ]

  state-cases :
      (s : TransferState) → (s ≡ queued) ⊎ ((s ≡ in_flight) ⊎ ((s ≡ complete) ⊎ (s ≡ failed)))
  state-cases queued = inl refl
  state-cases in_flight = inr (inl refl)
  state-cases complete = inr (inr (inl refl))
  state-cases failed = inr (inr (inr refl))

  poll_records-launched :
      (now : f.Carrier) (rs : List (TransferRecord f)) (used c : ℕ)
      → let (us, _, _, done) = poll_records f now (launched f rs) used c in
        (us ≡ map (finished now) rs) × (done ≡ unfinished rs)
  unfolding poll_records
  poll_records-launched now [] used c = (refl, refl)
  poll_records-launched now (r ∷ rs) used c = elim (state-cases r.state) [
    | inl q ↦
        ground (arith, poll_records-launched now rs (used - r.req.bytes) (wrap_add c r.req.bytes))
    | inr (inl q) ↦
        ground (arith, poll_records-launched now rs (used - r.req.bytes) (wrap_add c r.req.bytes))
    | inr (inr (inl q)) ↦ ground (arith, poll_records-launched now rs used c)
    | inr (inr (inr q)) ↦ ground (arith, poll_records-launched now rs used c)
  ]

  -- On a sound engine a submission and a poll finish all that was asked for: every record that was
  -- queued or in flight is complete, with the time of the poll, every other is as it was, and the
  -- numbers of the former are returned; the arena is empty, and nothing is queued.
  pub poll_completion-submit_batch :
      (now : f.Carrier) (e : DmaEngine f)
      → IsSound f e
      → let (d, done) = poll_completion f now (submit_batch f e).0 in
        (d.records ≡ map (finished now) e.records)
        × (done ≡ unfinished e.records)
        × (d.arena_used ≡ 0)
        × (d.queue ≡ [])
  unfolding poll_completion
  poll_completion-submit_batch now e h =
      let s = (submit_batch f e).0 in
      let v = submit_batch-IsSound f e h in
      let w = poll_completion-IsSound now s v in
      let q = (submit_batch-empties f e h).0 in
      let room : flying s.records ≤ s.arena_used = omega (arith, v.arena, flying-le s.records) in
      let p =
        poll_records-Polls now s.records 0 s.next_id s.arena_used s.bytes_completed room
          v.numbered in
      let waits = sym w.queue ∙ q in
      let l : s.records ≡ launched f e.records = submit_batch-launched f e h in
      let k = poll_records-launched now e.records s.arena_used s.bytes_completed in
      (
        ap (λ rs. (poll_records f now rs s.arena_used s.bytes_completed).0) l ∙ k.0,
        ap (λ rs. (poll_records f now rs s.arena_used s.bytes_completed).3) l ∙ k.1,
        w.arena ∙ staged-zero _ waits p.none_flying,
        q,
      )
