-- ===== src/Memory/Machine/History.antt =====
-- The event log of the residency machine of har/crates/har-memory/src/lib.rs.
use remora_lab.Base.{
  ℕ, ◌+◌, ◌≡◌, ◌<◌, ◌⊎◌, String, true, false, List, [], ◌∷◌, ◌++◌, length, arith, refl, ◌==◌,
  nat_eq, u64_max, Bool-cases, inl, inr, ◌||◌, ◌∙◌, sym,
}
use remora_lab.Memory.Errors.{ok, IsErr}
use remora_lab.Memory.State.{
  ResidencyState, unavailable, error, state_eq, can_transition_to, ready_vram,
}
use remora_lab.Memory.Machine.{
  MemoryTier, ResidencyRecord, ResidencyEvent, ResidencyMachine, transition, fail, bump_generation,
  require, validate, has_replica, add_replica, has_tier, vram_resident, vram_slot, tier_eq,
  tier_beq_iff,
}

-- The events lead from one state to another by legal transitions, numbered from `k` on.
abbrev pub Leads : ℕ → ResidencyState → List ResidencyEvent → ResidencyState → Type 0
Leads k a [] b = a ≡ b
Leads k a (e ∷ es) b =
    (e.sequence ≡ k) × (e.from ≡ a) × (can_transition_to a e.to ≡ true) × Leads (k + 1) e.to es b

-- The log explains how the machine came to its state from `Unavailable`.
abbrev pub IsLogged : ResidencyMachine → Type 0
IsLogged m = Leads 0 unavailable m.events m.state

Leads-append :
    (k : ℕ) (a b : ResidencyState) (es : List ResidencyEvent) (e : ResidencyEvent)
    → Leads k a es b
    → e.sequence ≡ k + length es
    → e.from ≡ b
    → can_transition_to b e.to ≡ true
    → Leads k a (es ++ e ∷ []) e.to
Leads-append k a b [] e h s f t = (omega arith, f ∙ sym h, rw h t, refl)
Leads-append k a b (x ∷ es) e h s f t =
    (h.0, h.1, h.2, Leads-append (k + 1) x.to b es e h.3 (omega arith) f t)

transition-IsLogged :
    (next : ResidencyState) (reason : String) (m : ResidencyMachine)
    → IsLogged m
    → IsLogged (transition next reason m).0
unfolding transition
transition-IsLogged next reason m h = elim (Bool-cases (can_transition_to m.state next)) [
  | inl legal ↦
      rw (legal, transition)
        (Leads-append 0 unavailable m.state m.events _ h (omega arith) refl legal)
  | inr illegal ↦ rw (illegal, transition) h
]

-- The calls that change a machine.
pub data Op : Type 0 where
  move : ResidencyState → String → Op
  fails : String → Op
  bump : Op

unfoldable pub apply : Op → ResidencyMachine → ResidencyMachine
apply (move next reason) m = (transition next reason m).0
apply (fails reason) m = fail reason m
apply bump m = bump_generation m

unfoldable pub run : List Op → ResidencyMachine → ResidencyMachine
run [] m = m
run (op ∷ ops) m = run ops (apply op m)

apply-IsLogged : (op : Op) (m : ResidencyMachine) → IsLogged m → IsLogged (apply op m)
unfolding apply fail bump_generation
apply-IsLogged (move next reason) m h = transition-IsLogged next reason m h
apply-IsLogged (fails reason) m h = transition-IsLogged error reason m h
apply-IsLogged bump m h = h

-- After any calls on a machine whose log explains its state, it still does: the events are numbered
-- in order, each starts where the one before ended, each is a legal transition, and the last ends
-- in the current state.
pub run-IsLogged : (ops : List Op) (m : ResidencyMachine) → IsLogged m → IsLogged (run ops m)
unfolding run
run-IsLogged [] m h = h
run-IsLogged (op ∷ ops) m h = run-IsLogged ops (apply op m) (apply-IsLogged op m h)

apply-error :
    (op : Op) (m : ResidencyMachine)
    → m.state ≡ error
    → ((apply op m).state ≡ error) × ((apply op m).events ≡ m.events)
unfolding apply fail bump_generation transition can_transition_to
apply-error (move next reason) m h = ground arith
apply-error (fails reason) m h = ground arith
apply-error bump m h = ground arith

-- A failed machine stays failed, and logs nothing more.
pub run-error :
    (ops : List Op) (m : ResidencyMachine)
    → m.state ≡ error
    → ((run ops m).state ≡ error) × ((run ops m).events ≡ m.events)
unfolding run
run-error [] m h = (h, refl)
run-error (op ∷ ops) m h =
    let (s, e) = apply-error op m h in let (s', e') = run-error ops (apply op m) s in (s', e' ∙ e)

-- `require` succeeds exactly in the expected state at the current generation; so after a bump of a
-- countable generation it refuses the generation of before.
pub require-bump :
    (expected : ResidencyState) (m : ResidencyMachine)
    → m.generation < u64_max
    → IsErr (require expected m.generation (bump_generation m))
      × ((require expected (m.generation + 1) (bump_generation m) ≡ ok tt)
          ⊎ (m.state == expected ≡ false))
unfolding require bump_generation
require-bump expected m room = ground arith

has_tier-append :
    (t u : MemoryTier) (us : List MemoryTier)
    → has_tier t (us ++ u ∷ []) ≡ (has_tier t us || u == t)
has_tier-append t u [] = ground arith
has_tier-append t u (v ∷ us) = ground (arith, has_tier-append t u us)

-- A replica that was added is there, and every tier that had the resource still has it.
pub has_replica-add_replica :
    (tier other : MemoryTier) (r : ResidencyRecord)
    → has_replica other (add_replica tier r) ≡ (has_replica other r || tier == other)
unfolding has_replica add_replica
has_replica-add_replica tier other r =
    ground (arith, has_tier-append other tier r.replicas, tier_beq_iff tier other)

-- A record is valid exactly if it has bytes and, in the state READY_VRAM, a replica in VRAM.
pub validate_lem :
    (r : ResidencyRecord)
    → ((validate r ≡ ok tt)
        × (0 < r.bytes)
        × ((r.machine.state == ready_vram ≡ false)
            ⊎ (has_replica vram_resident r ≡ true)
            ⊎ (has_replica vram_slot r ≡ true)))
      ⊎ (IsErr (validate r)
          × ((r.bytes ≡ 0)
              ⊎ ((r.machine.state == ready_vram ≡ true)
                  × (has_replica vram_resident r ≡ false)
                  × (has_replica vram_slot r ≡ false))))
unfolding validate
validate_lem r = ground arith
