-- ===== src/Memory/Pool/History.antt =====
-- har/crates/har-memory/src/pinned_pool.rs: runs of acquisitions and releases from a new pool.
use mathlib.Core.Path.{subst, sym}
use remora_lab.Base.{
  List, [], ◌∷◌, ◌≡◌, ◌+◌, ◌<◌, ◌==◌, inl, inr, arith, refl, All, ℕ, ◌^◌, ◌*◌, Bool-cases, ◌||◌,
  not, nat_eq,
}
use remora_lab.Memory.Errors.{ok}
use remora_lab.Memory.Pool.{
  PinnedHostPool, PinnedHandle, PinnedPoolConfig, acquire, release, new_pool, validate, insert_free,
  power_from,
}
use remora_lab.Memory.Pool.Partition.{IsPartition}
use remora_lab.Memory.Pool.Keeps.{acquire-IsPartition, release-IsPartition}

pub data Call : Type 0 where
  take : ℕ → Call
  give_back : PinnedHandle → Call

unfoldable pub run_call : Call → PinnedHostPool → PinnedHostPool
unfolding acquire release
run_call (take bytes) p = (acquire bytes p).0
run_call (give_back handle) p = (release handle p).0

unfoldable pub run_calls : List Call → PinnedHostPool → PinnedHostPool
unfolding run_call
run_calls [] p = p
run_calls (c ∷ rest) p = run_calls rest (run_call c p)

-- A request is so small that rounding it up does not wrap around.
abbrev pub IsSmall : (align : ℕ) → Call → Type 0
IsSmall align (take bytes) = bytes + 2 * align < 2 ^ 64
IsSmall align (give_back handle) = Unit

run_call-alignment : (c : Call) (p : PinnedHostPool) → (run_call c p).config ≡ p.config
unfolding run_call acquire release insert_free
run_call-alignment (take bytes) p = ground arith
run_call-alignment (give_back handle) p = ground arith

run_call-IsPartition :
    (c : Call) (p : PinnedHostPool)
    → IsPartition p
    → IsSmall p.config.alignment c
    → IsPartition (run_call c p)
unfolding run_call
run_call-IsPartition (take bytes) p h s = acquire-IsPartition p h bytes s
run_call-IsPartition (give_back handle) p h s = release-IsPartition p h handle

abbrev pub fresh : PinnedPoolConfig → PinnedHostPool
fresh c = record {
  config = c;
  free = record { start = 0; end = c.capacity_bytes } ∷ [];
  in_use = [];
  next_id = 1;
  stats = record { acquisitions = 0; releases = 0; coalesces = 0; peak_in_use_bytes = 0 };
}

new_pool-fresh :
    (c : PinnedPoolConfig) (p : PinnedHostPool)
    → new_pool c ≡ ok p
    → (0 < c.capacity_bytes) × (0 < c.alignment) × (fresh c ≡ p)
unfolding new_pool validate
new_pool-fresh c p h =
    elim (Bool-cases
      (c.capacity_bytes == 0 || (c.alignment == 0 || not (power_from 64 c.alignment)))) [
        | inl e ↦ absurd (ground arith)
        | inr e ↦ (
          ground (arith, nat_eq.beq_iff c.capacity_bytes 0),
          ground (arith, nat_eq.beq_iff c.alignment 0),
          ground arith,
        )
      ]

fresh-IsPartition :
    (c : PinnedPoolConfig)
    → c.capacity_bytes < 2 ^ 64
    → 0 < c.capacity_bytes
    → 0 < c.alignment
    → IsPartition (fresh c)
fresh-IsPartition c small hc ha = record {
  aligned = ha;
  bounded = small;
  filled = (hc, tt);
  entries = tt;
  once = λ n. ground arith;
}

new_pool-IsPartition :
    (c : PinnedPoolConfig) (p : PinnedHostPool)
    → c.capacity_bytes < 2 ^ 64
    → new_pool c ≡ ok p
    → IsPartition p × (p.config ≡ c)
new_pool-IsPartition c p small h =
    subst (λ x. IsPartition x × (x.config ≡ c)) (new_pool-fresh c p h).2
      (fresh-IsPartition c small (new_pool-fresh c p h).0 (new_pool-fresh c p h).1, refl)

run_calls-partitions :
    (calls : List Call) (p : PinnedHostPool)
    → IsPartition p
    → All (IsSmall p.config.alignment) calls
    → IsPartition (run_calls calls p)
unfolding run_calls
run_calls-partitions [] p h s = h
run_calls-partitions (c ∷ rest) p h s =
    run_calls-partitions rest (run_call c p) (run_call-IsPartition c p h s.0)
      (subst (λ x. All (IsSmall x.alignment) rest) (sym (run_call-alignment c p)) s.1)

-- After any acquisitions and releases on a new pool, good or refused, each byte of the region is in
-- exactly one free block or in the reserved range of exactly one live handle, and no byte outside the
-- region is in any; each live handle is kept under its offset, which is aligned, and its bytes lie in
-- its reserved range. The capacity fits in 64 bits, and each request and two alignments do together.
pub run_calls-IsPartition :
    (calls : List Call) (c : PinnedPoolConfig) (p : PinnedHostPool)
    → c.capacity_bytes < 2 ^ 64
    → All (IsSmall c.alignment) calls
    → new_pool c ≡ ok p
    → IsPartition (run_calls calls p)
run_calls-IsPartition calls c p small s h =
    run_calls-partitions calls p (new_pool-IsPartition c p small h).0
      (subst (λ x. All (IsSmall x.alignment) calls) (sym (new_pool-IsPartition c p small h).1) s)
