-- ===== src/Memory/Pool/Tests.antt =====
-- har/crates/har-memory/src/pinned_pool.rs: tests of the file, and the partition at a concrete run.
use remora_lab.Base.{◌≡◌, ◌∷◌, [], List, refl, arith, ◌^◌, ◌-◌}
use remora_lab.Memory.Errors.{ok}
use remora_lab.Memory.Pool.{PinnedHandle, PinnedPoolConfig, new_pool, acquire}
use remora_lab.Memory.Pool.Partition.{IsPartition}
use remora_lab.Memory.Pool.History.{Call, take, give_back, run_calls, run_calls-IsPartition, fresh}

abbrev config : PinnedPoolConfig
config = record { capacity_bytes = 1024; alignment = 256 }

abbrev first : PinnedHandle
first = record { id = 1; generation = 1; offset = 0; bytes = 100 }

abbrev second : PinnedHandle
second = record { id = 2; generation = 2; offset = 256; bytes = 300 }

abbrev calls : List Call
calls = take 100 ∷ take 300 ∷ give_back first ∷ take 64 ∷ []

new_pool_config : new_pool config ≡ ok (fresh config)
unfolding new_pool
new_pool_config = refl

run_calls-IsPartition_example : IsPartition (run_calls calls (fresh config))
run_calls-IsPartition_example =
    run_calls-IsPartition calls config (fresh config) (omega arith)
      (omega arith, (omega arith, (tt, (omega arith, tt)))) new_pool_config

-- The blocks are joined again once everything is back.
all_back :
    (run_calls (take 100 ∷ take 300 ∷ give_back second ∷ give_back first ∷ []) (fresh config)).free
    ≡ record { start = 0; end = 1024 } ∷ []
unfolding run_calls
all_back = refl

-- Rounding a huge request up wraps around to no bytes at all: the handle says 2^64 - 1 bytes of a
-- region of 1024.
huge_request :
    (acquire (2 ^ 64 - 1) (fresh config)).1
    ≡ ok (record { id = 1; generation = 1; offset = 0; bytes = 2 ^ 64 - 1 })
unfolding acquire
huge_request = refl
