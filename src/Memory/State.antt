-- ===== src/Memory/State.antt =====
-- The residency states of har/crates/har-core/src/lib.rs and their transitions.
use remora_lab.Base.{
  nat_eq, ℕ, ◌≡◌, ◌↔◌, Bool, true, false, List, [], ◌∷◌, nat_beq, PartialEq, ◌||◌, ◌==◌, refl,
  if◌then◌else◌, not, nat_beq_iff, sym, ◌∙◌, ap, ◌⊎◌, inl, inr,
}

pub data ResidencyState : Type 0 where
  unavailable indexed read_queued reading ready_host transfer_queued : ResidencyState
  copying_to_vram ready_vram computing evictable evicting error : ResidencyState

abbrev pub state_index : ResidencyState → ℕ
state_index unavailable = 0
state_index indexed = 1
state_index read_queued = 2
state_index reading = 3
state_index ready_host = 4
state_index transfer_queued = 5
state_index copying_to_vram = 6
state_index ready_vram = 7
state_index computing = 8
state_index evictable = 9
state_index evicting = 10
state_index error = 11

abbrev pub state_beq : ResidencyState → ResidencyState → Bool
state_beq a b = nat_beq (state_index a) (state_index b)

abbrev of_index : ℕ → ResidencyState
of_index n =
    if n == 0
    then unavailable
    else if n == 1
    then indexed
    else if n == 2
    then read_queued
    else if n == 3
    then reading
    else if n == 4
    then ready_host
    else if n == 5
    then transfer_queued
    else if n == 6
    then copying_to_vram
    else if n == 7
    then ready_vram
    else if n == 8
    then computing
    else if n == 9
    then evictable
    else if n == 10
    then evicting
    else error

of_index_lem : (a : ResidencyState) → of_index (state_index a) ≡ a
of_index_lem unavailable = refl
of_index_lem _ = refl

pub state_beq_iff : (a b : ResidencyState) → (state_beq a b ≡ true) ↔ (a ≡ b)
state_beq_iff a b = (
  λ h.
      let e : state_index a ≡ state_index b = (nat_beq_iff _ _).0 h in
      sym (of_index_lem a) ∙ (ap of_index e ∙ of_index_lem b),
  λ h. (nat_beq_iff _ _).1 (ap state_index h),
)

instance abbrev pub state_eq : PartialEq ResidencyState
state_eq = record { beq = state_beq; beq_iff = state_beq_iff }

-- The states that the `match` of `can_transition_to` lists for each state.
abbrev pub successors : ResidencyState → List ResidencyState
successors unavailable = indexed ∷ error ∷ []
successors indexed = read_queued ∷ ready_host ∷ error ∷ []
successors read_queued = reading ∷ error ∷ []
successors reading = ready_host ∷ error ∷ []
successors ready_host = transfer_queued ∷ computing ∷ evictable ∷ error ∷ []
successors transfer_queued = copying_to_vram ∷ error ∷ []
successors copying_to_vram = ready_vram ∷ error ∷ []
successors ready_vram = computing ∷ evictable ∷ evicting ∷ error ∷ []
successors computing = ready_host ∷ ready_vram ∷ evictable ∷ error ∷ []
successors evictable = evicting ∷ computing ∷ error ∷ []
successors evicting = ready_host ∷ unavailable ∷ error ∷ []
successors error = []

abbrev pub contains : ResidencyState → List ResidencyState → Bool
contains a [] = false
contains a (b ∷ bs) = a == b || contains a bs

unfoldable pub can_transition_to : ResidencyState → ResidencyState → Bool
can_transition_to a next = contains next (successors a)

-- Every state but the error state can fail, and the error state has no way out.
pub error_absorbs :
    (a : ResidencyState)
    → (can_transition_to a error ≡ not (a == error)) × (can_transition_to error a ≡ false)
unfolding can_transition_to
error_absorbs unavailable = (refl, refl)
error_absorbs _ = (refl, refl)

-- The state READY_VRAM is entered only by a copy to VRAM, or back from a computation.
pub into_ready_vram :
    (a : ResidencyState)
    → can_transition_to a ready_vram ≡ true
    → (a ≡ copying_to_vram) ⊎ (a ≡ computing)
unfolding can_transition_to
into_ready_vram copying_to_vram h = inl refl
into_ready_vram computing h = inr refl
into_ready_vram _ h = absurd (cc h)
