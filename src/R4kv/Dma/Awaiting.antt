-- ===== src/R4kv/Dma/Awaiting.antt =====
-- Waiting for a transfer in har/crates/r4kv/src/dma.rs.
use remora_lab.Base.{
  ℕ, zero, suc, ap, ◌∙◌, ◌≡◌, true, false, Option, none, some, List, [], ◌∷◌, arith, refl,
  if◌then◌else◌, inl, inr, All, Bool-cases, Option-cases, find, ◌==◌, nat_eq, ◌⊎◌, ◌-◌, wrap_add,
}
use remora_lab.Base.Real.{F64}
use remora_lab.R4kv.Dma.{
  TransferRecord, DmaEngine, poll_completion, poll_records, await_completion, is_in_flight, is_over,
  queued, failed, TransferState,
}

-- The first record of that number.
abbrev pub found : (f : F64) → ℕ → DmaEngine f → Option (TransferRecord f)
found f id e = find (λ r. r.req.id == id) e.records

still-queued : (t : TransferState) → is_over t ≡ false → is_in_flight t ≡ false → t ≡ queued
still-queued t o h = ground arith

module _ (f : F64) where
  abbrev IsLanded : List (TransferRecord f) → Type 0
  IsLanded rs = All (λ r. is_in_flight r.state ≡ false) rs

  poll_records-IsLanded :
      (now : f.Carrier) (rs : List (TransferRecord f)) (used c : ℕ)
      → IsLanded (poll_records f now rs used c).0
  unfolding poll_records
  poll_records-IsLanded now [] used c = tt
  poll_records-IsLanded now (r ∷ rs) used c =
      let ih =
        poll_records-IsLanded now rs (if is_in_flight r.state then used - r.req.bytes else used)
          (if is_in_flight r.state then wrap_add c r.req.bytes else c) in
      ground arith

  poll_records-still :
      (now : f.Carrier) (rs : List (TransferRecord f)) (used c : ℕ)
      → IsLanded rs
      → poll_records f now rs used c ≡ (rs, used, c, [])
  unfolding poll_records
  poll_records-still now [] used c h = refl
  poll_records-still now (r ∷ rs) used c h =
      rw (h.0, poll_records-still now rs used c h.1, poll_records)

  find-IsLanded :
      (id : ℕ) (rs : List (TransferRecord f)) (r : TransferRecord f)
      → IsLanded rs
      → find (λ r. r.req.id == id) rs ≡ some r
      → is_in_flight r.state ≡ false
  find-IsLanded id [] r h e = absurd (cc e)
  find-IsLanded id (x ∷ rs) r h e = ground (arith, find-IsLanded id rs r h.1)

  -- Nothing that is not in flight changes by polling, so the wait for a queued transfer goes on.
  await_completion-stuck :
      (fuel id : ℕ) (now : f.Carrier) (d : DmaEngine f) (r : TransferRecord f)
      → IsLanded d.records
      → found f id d ≡ some r
      → is_over r.state ≡ false
      → await_completion f fuel id now d ≡ none
  unfolding await_completion
  await_completion-stuck zero id now d r h e o = refl
  await_completion-stuck (suc fuel) id now d r h e o =
      let s : (poll_completion f now d).0 ≡ d =
        rw (poll_records-still now d.records d.arena_used d.bytes_completed h, poll_completion)
          refl in
      let same : found f id (poll_completion f now d).0 ≡ some r = ap (found f id) s ∙ e in
      let landed = poll_records-IsLanded now d.records d.arena_used d.bytes_completed in
      rw (same, o, await_completion)
        (await_completion-stuck fuel id now (poll_completion f now d).0 r landed same o)

  -- Waiting ends at the first poll, with any positive fuel: for an unknown transfer as failed, and
  -- for one that was submitted in the state that it has then. But for a transfer that is still queued
  -- it never ends, however much fuel there is, since polling does not submit.
  pub await_completion_lem :
      (fuel id : ℕ) (now : f.Carrier) (e : DmaEngine f)
      → let d = (poll_completion f now e).0 in
        ((found f id d ≡ none) × (await_completion f (suc fuel) id now e ≡ some (d, failed)))
        ⊎ ((r : TransferRecord f) × (found f id d ≡ some r)
            × (is_over r.state ≡ true)
            × (await_completion f (suc fuel) id now e ≡ some (d, r.state)))
        ⊎ ((r : TransferRecord f) × (found f id d ≡ some r)
            × (r.state ≡ queued)
            × (await_completion f (suc fuel) id now e ≡ none))
  unfolding await_completion
  await_completion_lem fuel id now e =
      let d = (poll_completion f now e).0 in
      let landed : IsLanded d.records =
        poll_records-IsLanded now e.records e.arena_used e.bytes_completed in
      elim (Option-cases (found f id d)) [
        | inl n ↦ inl (n, rw (n, await_completion) refl)
        | inr (r, s) ↦ elim (Bool-cases (is_over r.state)) [
          | inl o ↦ inr (inl (r, s, o, rw (s, o, await_completion) refl))
          | inr o ↦ inr (
              inr (
                r,
                s,
                still-queued r.state o (find-IsLanded id d.records r landed s),
                rw (s, o, await_completion) (await_completion-stuck fuel id now d r landed s o),
              ))
        ]
      ]
