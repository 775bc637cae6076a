-- ===== src/Lib.antt =====
-- Remora Lab's Hardware-Aware Runtime (har/): the control plane that decides, tick by tick, what
-- memory and how much optional work a local model may use. The metabolism (har/crates/har-metabolism)
-- keeps a reserve of resources, a ledger of spent work and its credits, two clocks and the estimators
-- of the maintenance setpoint and of the surplus, all driven by a controller. The memory crate
-- (har/crates/har-memory, with the residency states of har/crates/har-core/src/lib.rs) keeps the
-- residency state of each resource, a registry of transfers and the budget of video memory. The R4KV
-- crate (har/crates/r4kv) packs pages of the KV cache with checksums and moves them between tiers by a
-- bounded queue of transfers, and the residency
-- crate (har/crates/har-residency) caches expert pages and, in its manager, moves pages between NVMe,
-- RAM and the slots of video memory.
--
-- Which file models which part:
--   Base and its children: Boolean tests, lists, machine words, association lists, signed integers and
--     the floating-point interface, which the components share.
--   Metabolism.Reserve: har/crates/har-metabolism/src/reserve.rs. A method of ReserveTable has the
--     prefix table_ where ReserveAccount has one of the same name. Floor, Debt and Table hold the
--     theorems on accounts and on the table.
--   Metabolism.Ledger: har/crates/har-metabolism/src/ledger.rs. Book runs sequences of calls; Credit and
--     Sequence hold the theorems on credits and on entry numbers.
--   Metabolism.Reclaim, Portion, Surplus, Setpoint, Clock, Salvage, Energy, Baseline, Artifact and
--     Errors: the files of these names in har/crates/har-metabolism/src (Estimate and ClockTicks of
--     common.rs stand in Artifact and in Clock).
--   Metabolism.Controller: controller.rs and snapshot.rs of that crate; observe_block is the method
--     observe. Trace is trace.rs; Invariant and Ticks hold theorems.
--   Memory.State: ResidencyState of har/crates/har-core/src/lib.rs; Memory.Machine and Memory.Registry:
--     har/crates/har-memory/src/lib.rs; Memory.Budget: elastic_budget.rs of that crate, where Ladder,
--     Limits and History hold the theorems; Memory.Pool: pinned_pool.rs of that crate, where Cover,
--     Reserved, Partition, Joined, Keeps and History hold the theorems.
--   R4kv.Dma: har/crates/r4kv/src/dma.rs, the transfer queue between memory tiers; Arena, Polling and
--     Awaiting hold the theorems.
--   R4kv.Crc32c: crc32c.rs of that crate, where Bits and Detection hold the theorems; R4kv.Bytes and R4kv.Page:
--     its page.rs and the formats of lib.rs, where Page.Roundtrip holds the theorems.
--   Residency.Types, State, Attempt, Record and Ticket: har/crates/har-residency/src/types.rs, the
--     identities, the states of a page, errors, records with their replicas and leases, and tickets.
--     A method that can fail is an Attempt: a function to the state that it leaves, also when it
--     fails, and its Result; the ? operator is the do block. Attempt.Respect has the rule by which a
--     block respects a relation that its parts respect.
--   Residency.Slots: the VRAM slots of manager.rs in that crate; Validity, Table, Users and Refusal hold
--     the theorems. Residency.Manager with Calls, Uploads and Evictions: ResidencyManager of the same
--     file. Frame and Run extend a relation from the primitive steps to every method and to sequences
--     of calls; Records, Lifecycle, Soundness, Limits, SlotTable, Refusal and Reads hold the theorems.
--   Residency.Scheduler: har/crates/har-residency/src/scheduler.rs, the wavefront scheduler over the manager:
--     Types has its data, Order select and priority, Run run_one and Works the other methods and sequences of
--     calls. Frame extends a relation from the primitive steps to the methods; Refine, Stages, Outcomes,
--     Fates, Speculation, Failures and Order.Selection hold the theorems. What a run meets outside (the page source, SHA-256,
--     the clocks) is the record Surroundings; a thread that is joined at once is a call.
--   Residency.Remora: har/crates/har-residency/src/remora.rs, the bridge by which the manager's resources reach
--     the controller of the metabolism, and the method observe_remora of the manager.
--   Residency.Mtp: har/crates/har-residency/src/mtp.rs, the slack of the resources and the cost of a union of
--     expert pages; Cost holds the theorem.
--   Residency.ExpertLru: har/crates/har-residency/src/expert_lru.rs, the cache of expert pages; Eviction
--     and Insertion hold the theorems.
--   Metabolism.Tests, Memory.Tests, R4kv.Tests, Residency.Tests and the Tests of Memory.Pool, R4kv.Page,
--     Residency.Manager, Residency.Scheduler and Residency.Remora: the theorems at concrete data.
--
-- How the state and the operations correspond to the code: a method on &mut self is a function from
-- the state to the new state, beside its result; an Err is a value of the component's Result, and a
-- panic or a loop that does not end is none. A HashMap or BTreeMap is an association list of which the
-- first entry for a key counts, and insertion replaces. The u64, u32 and usize fields are native
-- natural numbers; a saturating operation is cut off at the largest word, and a plain one wraps as in
-- the release profile. An i64 is an integer, saturated or wrapped where the code does so. An f64 is a
-- value of the interface F64, whose operations are parameters; what is assumed of them is in IsMonotone,
-- and exact fractions meet it. The hasher of trace.rs is a parameter. Of an error's text the fixed part
-- is kept, and not the values that are printed into it. The bytes of the DMA engine's arena, which the
-- code never reads, are left out, and a usize has 64 bits.
--
-- Fuel: the ladder of commit_idle has the distance from the target to the current budget as fuel, plus
-- one; each rung goes down by at least one byte, as the policy's step is positive. The loop of
-- await_completion has fuel as an argument. The eviction loops of the expert cache have the number of
-- entries plus one as fuel; each round removes an entry.
--
-- Not modelled: har-metabolism's energy_measurement.rs (floating-point integrals of files that the
-- system provides), the rest of har-residency and of r4kv, and the other crates of har/; serialization derives;
-- the conversion of a snapshot to totals.
pub mod Base
pub mod Metabolism
pub mod Memory
pub mod R4kv
pub mod Residency
