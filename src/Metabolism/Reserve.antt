-- ===== src/Metabolism/Reserve.antt =====
-- har/crates/har-metabolism/src/reserve.rs: the accounts of the reserve, one for each dimension, and
-- the table of them. A quantity is a `u64` in MiB.
pub mod Floor
pub mod Debt
pub mod Table
use remora_lab.Base.{
  ℕ, ◌+◌, ◌-◌, ◌≡◌, ◌↔◌, Bool, true, false, Option, none, some, List, [], ◌∷◌, map, min, arith, ltb,
  leb, nat_beq, nat_eq, PartialEq, ◌==◌, if◌then◌else◌, sat_add, wrap_add,
}
use remora_lab.Base.Dict.{Dict, lookup, insert}
use remora_lab.Base.Real.{F64}

pub data ReserveDim : Type 0 where
  vram ram nvme_read_budget gpu_compute cpu_budget queue_fence_slack energy_thermal : ReserveDim

-- The position of a dimension, by which the derived comparisons go.
abbrev pub dim_index : ReserveDim → ℕ
dim_index vram = 0
dim_index ram = 1
dim_index nvme_read_budget = 2
dim_index gpu_compute = 3
dim_index cpu_budget = 4
dim_index queue_fence_slack = 5
dim_index energy_thermal = 6

pub dim_beq_iff : (a b : ReserveDim) → (nat_beq (dim_index a) (dim_index b) ≡ true) ↔ (a ≡ b)
dim_beq_iff a b = ground arith

instance abbrev pub dim_eq : PartialEq ReserveDim
dim_eq = record { beq = λ a b. nat_beq (dim_index a) (dim_index b); beq_iff = dim_beq_iff }

pub data PressureClass : Type 0 where
  low normal elevated critical : PressureClass

abbrev pub pressure_index : PressureClass → ℕ
pressure_index low = 0
pressure_index normal = 1
pressure_index elevated = 2
pressure_index critical = 3

pub record ReserveAccount : Type 0 where
  pub capacity : ℕ
  pub committed : ℕ
  pub protected_min : ℕ
  pub debt : ℕ
  pub recovery_epoch : ℕ
  pub fail_closed : Bool
  pub pressure : PressureClass

-- `available`: what optional work may still use.
unfoldable pub available : ReserveAccount → ℕ
available a =
    if a.fail_closed then 0 else a.capacity - sat_add (sat_add a.protected_min a.committed) a.debt

unfoldable pub check : ReserveAccount → ℕ → Bool
unfolding available
check a need = leb need (available a)

-- How far the commitments reach into the protected zone: the two `borrow` values of `mobilize`.
unfoldable pub borrowed : ReserveAccount → ℕ
borrowed a = a.committed - (a.capacity - a.protected_min)

unfoldable pub post_action_viable : ReserveAccount → PressureClass → Bool
post_action_viable a target = leb (pressure_index a.pressure) (pressure_index target)

pub record ReserveTable : Type 0 where
  pub accounts : Dict ReserveDim ReserveAccount
  pub epoch : ℕ

module _ (f : F64) where
  unfoldable pub from_ratio : ℕ → ℕ → PressureClass
  from_ratio used capacity =
      let ratio = f.divide (f.of_u64 used) (f.of_u64 capacity) in
      if capacity == 0
      then critical
      else if f.le (f.lit 95 100) ratio
      then critical
      else if f.le (f.lit 8 10) ratio
      then elevated
      else if f.le (f.lit 6 10) ratio
      then normal
      else low

  unfoldable pub new_account : ℕ → ℕ → ReserveAccount
  new_account capacity protected_min = record {
    capacity = capacity;
    committed = 0;
    protected_min = protected_min;
    debt = 0;
    recovery_epoch = 0;
    fail_closed = false;
    pressure = from_ratio 0 capacity;
  }

  unfoldable pub refresh_pressure : ReserveAccount → ReserveAccount
  refresh_pressure a = record a { pressure = from_ratio (sat_add a.committed a.debt) a.capacity }

  unfoldable pub commit : ReserveAccount → ℕ → ReserveAccount × Bool
  unfolding check refresh_pressure
  commit a need =
      if check a need
      then (refresh_pressure (record a { committed = sat_add a.committed need }), true)
      else (a, false)

  unfoldable pub release : ReserveAccount → ℕ → ReserveAccount
  unfolding refresh_pressure
  release a need = refresh_pressure (record a { committed = a.committed - min need a.committed })

  unfoldable pub mobilize : ReserveAccount → ℕ → ℕ → ReserveAccount × Bool
  unfolding borrowed refresh_pressure
  mobilize a need now =
      let after = record a { committed = sat_add a.committed need } in
      if ltb (a.capacity - a.committed) need then (a, false) else (
        refresh_pressure (record after {
          debt = sat_add a.debt (borrowed after - borrowed a);
          recovery_epoch = sat_add now 100;
        }),
        true,
      )

  unfoldable pub settle_debt : ReserveAccount → ℕ → ReserveAccount
  unfolding refresh_pressure
  settle_debt a at_epoch =
      if leb a.recovery_epoch at_epoch
      then refresh_pressure (record a { debt = 0; recovery_epoch = 0 })
      else a

  -- `ReserveTable::new` collects the accounts of its triples; a later one replaces an earlier.
  unfoldable pub collect_accounts :
      List (ReserveDim × ℕ × ℕ) → Dict ReserveDim ReserveAccount → Dict ReserveDim ReserveAccount
  collect_accounts [] acc = acc
  collect_accounts ((dim, capacity, protected) ∷ rest) acc =
      collect_accounts rest (insert dim (new_account capacity protected) acc)

  unfoldable pub new_table : List (ReserveDim × ℕ × ℕ) → ReserveTable
  unfolding collect_accounts new_account
  new_table capacities = record { accounts = collect_accounts capacities []; epoch = 0 }

  unfoldable pub account : ReserveTable → ReserveDim → ReserveAccount
  unfolding new_account
  account t dim = elim (lookup dim t.accounts) [ some a ↦ a | none ↦ new_account 0 0 ]

  unfoldable pub table_check : ReserveTable → ReserveDim → ℕ → Bool
  unfolding account check
  table_check t dim need = check (account t dim) need

  unfoldable pub table_commit : ReserveTable → ReserveDim → ℕ → ReserveTable × Bool
  unfolding account commit
  table_commit t dim need =
      let (a, done) = commit (account t dim) need in
      if dim == energy_thermal
      then (t, true)
      else (record t { accounts = insert dim a t.accounts }, done)

  unfoldable pub table_release : ReserveTable → ReserveDim → ℕ → ReserveTable
  unfolding release
  table_release t dim need = elim (lookup dim t.accounts) [
    | some a ↦ record t { accounts = insert dim (release a need) t.accounts }
    | none ↦ t
  ]

  unfoldable pub table_mobilize : ReserveTable → ReserveDim → ℕ → ℕ → ReserveTable × Bool
  unfolding mobilize
  table_mobilize t dim need now = elim (lookup dim t.accounts) [
    | some a ↦
        let (b, done) = mobilize a need now in
        (record t { accounts = insert dim b t.accounts }, done)
    | none ↦ (t, false)
  ]

  unfoldable pub advance : ReserveTable → ℕ → ReserveTable
  unfolding settle_debt
  advance t epoch = record {
    accounts = map (λ (p : ReserveDim × ReserveAccount). (p.0, settle_debt p.1 epoch)) t.accounts;
    epoch = epoch;
  }

-- The footprint of one account, and 0 for a dimension that is not in the table.
abbrev footprint : Option ReserveAccount → ℕ
footprint none = 0
footprint (some a) = sat_add a.committed a.debt

unfoldable pub total_committed : ReserveTable → ℕ
total_committed t =
    wrap_add (footprint (lookup vram t.accounts)) (footprint (lookup ram t.accounts))
