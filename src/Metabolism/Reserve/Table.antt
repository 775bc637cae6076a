-- ===== src/Metabolism/Reserve/Table.antt =====
-- The table of accounts of har/crates/har-metabolism/src/reserve.rs.
use remora_lab.Base.{
  ℕ, ◌≡◌, ◌≤◌, true, List, [], ◌∷◌, arith, u64_max, All, if◌then◌else◌, ◌==◌, Option-cases, map,
  inl, inr,
}
use remora_lab.Base.Dict.{
  Dict, lookup, insert, AllValues, AllValues-lookup, AllValues-insert, lookup-insert,
}
use remora_lab.Base.Real.{F64}
use remora_lab.Metabolism.Reserve.{
  ReserveDim, ReserveAccount, ReserveTable, energy_thermal, dim_eq, new_account, commit, release,
  mobilize, settle_debt, collect_accounts, new_table, account, table_commit, table_release,
  table_mobilize, advance,
}
use remora_lab.Metabolism.Reserve.Floor.{
  IsSound, new_account-IsSound, commit-IsSound, release-IsSound, mobilize-IsSound,
  settle_debt-IsSound,
}

-- A call of a method of the table that changes it.
pub data TableOp : Type 0 where
  commit_op release_op : ReserveDim → ℕ → TableOp
  mobilize_op : ReserveDim → ℕ → ℕ → TableOp
  advance_op : ℕ → TableOp

module _ (f : F64) where
  pub apply : TableOp → ReserveTable → ReserveTable
  apply (commit_op dim need) t = (table_commit f t dim need).0
  apply (release_op dim need) t = table_release f t dim need
  apply (mobilize_op dim need now) t = (table_mobilize f t dim need now).0
  apply (advance_op epoch) t = advance f t epoch

  pub run : List TableOp → ReserveTable → ReserveTable
  run [] t = t
  run (op ∷ ops) t = run ops (apply op t)

  -- Every account of the table is sound.
  abbrev pub IsSoundTable : ReserveTable → Type 0
  IsSoundTable t = AllValues (IsSound f) t.accounts

  pub account-IsSound :
      (t : ReserveTable) (dim : ReserveDim) → IsSoundTable t → IsSound f (account f t dim)
  unfolding account
  account-IsSound t dim h = elim (Option-cases (lookup dim t.accounts)) [
    | inl e ↦ rw (e, account) (new_account-IsSound f 0 0 (omega arith))
    | inr (a, e) ↦ rw (e, account) (AllValues-lookup (IsSound f) dim a t.accounts h e)
  ]

  collect_accounts-IsSound :
      (l : List (ReserveDim × ℕ × ℕ)) (d : Dict ReserveDim ReserveAccount)
      → All (λ (c : ReserveDim × ℕ × ℕ). c.1 ≤ u64_max) l
      → AllValues (IsSound f) d
      → AllValues (IsSound f) (collect_accounts f l d)
  unfolding collect_accounts
  collect_accounts-IsSound [] d h k = k
  collect_accounts-IsSound ((dim, c, p) ∷ l) d h k =
      collect_accounts-IsSound l (insert dim (new_account f c p) d) h.1
        (AllValues-insert (IsSound f) dim (new_account f c p) d (new_account-IsSound f c p h.0) k)

  pub new_table-IsSound :
      (l : List (ReserveDim × ℕ × ℕ))
      → All (λ (c : ReserveDim × ℕ × ℕ). c.1 ≤ u64_max) l
      → IsSoundTable (new_table f l)
  unfolding new_table
  new_table-IsSound l h = collect_accounts-IsSound l [] h tt

  settle_all-IsSound :
      (epoch : ℕ) (d : Dict ReserveDim ReserveAccount)
      → AllValues (IsSound f) d
      → AllValues
          (IsSound f)
          (map (λ (p : ReserveDim × ReserveAccount). (p.0, settle_debt f p.1 epoch)) d)
  settle_all-IsSound epoch [] h = tt
  settle_all-IsSound epoch ((k, a) ∷ d) h =
      (settle_debt-IsSound f a epoch h.0, settle_all-IsSound epoch d h.1)

  table_commit-IsSound :
      (t : ReserveTable) (dim : ReserveDim) (need : ℕ)
      → IsSoundTable t
      → IsSoundTable (table_commit f t dim need).0
  unfolding table_commit
  table_commit-IsSound t dim need h =
      let s = commit-IsSound f (account f t dim) need (account-IsSound t dim h) in
      let k = AllValues-insert (IsSound f) dim (commit f (account f t dim) need).0 t.accounts s h in
      ground arith

  table_release-IsSound :
      (t : ReserveTable) (dim : ReserveDim) (need : ℕ)
      → IsSoundTable t
      → IsSoundTable (table_release f t dim need)
  unfolding table_release
  table_release-IsSound t dim need h = elim (Option-cases (lookup dim t.accounts)) [
    | inl e ↦ rw (e, table_release) h
    | inr (a, e) ↦
        let s = AllValues-lookup (IsSound f) dim a t.accounts h e in
        rw (e, table_release)
          (AllValues-insert (IsSound f) dim (release f a need) t.accounts
            (release-IsSound f a need s) h)
  ]

  table_mobilize-IsSound :
      (t : ReserveTable) (dim : ReserveDim) (need now : ℕ)
      → IsSoundTable t
      → IsSoundTable (table_mobilize f t dim need now).0
  unfolding table_mobilize
  table_mobilize-IsSound t dim need now h = elim (Option-cases (lookup dim t.accounts)) [
    | inl e ↦ rw (e, table_mobilize) h
    | inr (a, e) ↦
        let s = AllValues-lookup (IsSound f) dim a t.accounts h e in
        rw (e, table_mobilize)
          (AllValues-insert (IsSound f) dim (mobilize f a need now).0 t.accounts
            (mobilize-IsSound f a need now s) h)
  ]

  advance-IsSound :
      (t : ReserveTable) (epoch : ℕ) → IsSoundTable t → IsSoundTable (advance f t epoch)
  unfolding advance
  advance-IsSound t epoch h = settle_all-IsSound epoch t.accounts h

  apply-IsSound : (op : TableOp) (t : ReserveTable) → IsSoundTable t → IsSoundTable (apply op t)
  unfolding apply
  apply-IsSound (commit_op dim need) t h = table_commit-IsSound t dim need h
  apply-IsSound (release_op dim need) t h = table_release-IsSound t dim need h
  apply-IsSound (mobilize_op dim need now) t h = table_mobilize-IsSound t dim need now h
  apply-IsSound (advance_op epoch) t h = advance-IsSound t epoch h

  -- From a table of sound accounts, any sequence of commitments, releases, mobilizations and epochs
  -- leaves every account sound: its commitments fit in its capacity and its pressure class is that
  -- of its current figures.
  pub run-IsSound :
      (ops : List TableOp) (t : ReserveTable) → IsSoundTable t → IsSoundTable (run ops t)
  unfolding run
  run-IsSound [] t h = h
  run-IsSound (op ∷ ops) t h = run-IsSound ops (apply op t) (apply-IsSound op t h)

  -- A commitment to a dimension other than the energy reserve is that of its account, and leaves
  -- every other account alone; one to the energy reserve always passes and changes nothing.
  pub table_commit-account :
      (t : ReserveTable) (dim j : ReserveDim) (need : ℕ)
      → let (t', done) = table_commit f t dim need in
        (done ≡ (if dim == energy_thermal then true else (commit f (account f t dim) need).1))
        × (account f t' j ≡ (
            if dim == energy_thermal
            then account f t j
            else if dim == j
            then (commit f (account f t dim) need).0
            else account f t j))
  unfolding table_commit account
  table_commit-account t dim j need =
      ground (arith, lookup-insert dim j (commit f (account f t dim) need).0 t.accounts)
