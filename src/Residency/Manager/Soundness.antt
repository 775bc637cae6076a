-- ===== src/Residency/Manager/Soundness.antt =====
-- har/crates/har-residency/src/manager.rs and types.rs: what `validate` asks of a record, and the
-- history that it keeps.
use remora_lab.Base.{
  ne_false, ℕ, ◌≡◌, refl, ap, String, true, Option, some, List, [], ◌∷◌, ◌++◌, arith, Bool-cases,
  inl, inr, ◌==◌, nat_eq, All,
}
use mathlib.Core.Path.{subst₂}
use remora_lab.Base.Dict.{Dict, lookup, All-insert, All-remove}
use remora_lab.Residency.Types.{
  PageId, page_eq, PageLocation, nvme_cold, location_eq, RepresentationId, representation_eq,
  representation,
}
use remora_lab.Residency.State.{ResidencyState, indexed, legal_transition}
use remora_lab.Residency.Record.{
  ResidencyRecord, Replica, HistoryLine, moved, advanced, Label, new_record, transition,
  add_replica, remove_replica, validate_record, validate_replicas, validate_state, label_is_empty,
}
use remora_lab.Residency.Slots.{new_table}
use remora_lab.Residency.Attempt.{ok}
use remora_lab.Residency.Manager.{ResidencyManager, new_manager, new_table}
use remora_lab.Residency.Manager.Evictions.{restart}
use remora_lab.Residency.Manager.Run.{ManagerCall, run, run-Respects}
use remora_lab.Residency.Manager.Records.{RecordMoves, Later, record_moves}

-- A replica stands at its location, and is of the record's generation and representation.
abbrev pub ReplicaIsSound : ℕ → RepresentationId → PageLocation × Replica → Type 0
ReplicaIsSound g i (l, x) =
    (x.explicit_replication ≡ true) × (l ≡ x.location) × (x.generation ≡ g) × (x.representation ≡ i)

-- The history goes by legal transitions from one state to another; a new generation starts as indexed.
abbrev pub Leads : ResidencyState → List HistoryLine → ResidencyState → Type 0
Leads a [] b = a ≡ b
Leads a (moved from to reason ∷ rest) b =
    (a ≡ from) × (legal_transition from to ≡ true) × Leads to rest b
Leads a (advanced g ∷ rest) b = Leads indexed rest b

pub record IsSound (p : PageId) (r : ResidencyRecord) : Type 0 where
  pub page : r.page_id ≡ p
  pub authority : r.authoritative ≡ nvme_cold
  pub replicas : All (ReplicaIsSound r.generation r.representation) r.replicas
  pub history : Leads indexed r.transition_history r.state

Leads-moved :
    (a b c : ResidencyState) (h : List HistoryLine) (t : String)
    → legal_transition b c ≡ true
    → Leads a h b
    → Leads a (h ++ (moved b c t ∷ [])) c
Leads-moved a b c [] t e q = (q, e, refl)
Leads-moved a b c (moved x y u ∷ rest) t e q = (q.0, q.1, Leads-moved y b c rest t e q.2)
Leads-moved a b c (advanced g ∷ rest) t e q = Leads-moved indexed b c rest t e q

Leads-advanced :
    (a b : ResidencyState) (h : List HistoryLine) (g : ℕ)
    → Leads a h b
    → Leads a (h ++ (advanced g ∷ [])) indexed
Leads-advanced a b [] g q = refl
Leads-advanced a b (moved x y u ∷ rest) g q = (q.0, q.1, Leads-advanced y b rest g q.2)
Leads-advanced a b (advanced k ∷ rest) g q = Leads-advanced indexed b rest g q

module _ (p : PageId) (r : ResidencyRecord) (h : IsSound p r) where
  transition-IsSound : (n : ResidencyState) (t : String) → IsSound p (transition n t r).0
  unfolding transition
  transition-IsSound n t = elim (Bool-cases (legal_transition r.state n)) [
    | inr e ↦ rw e h
    | inl e ↦ rw e record {
      page = h.page;
      authority = h.authority;
      replicas = h.replicas;
      history = Leads-moved indexed r.state n r.transition_history t e h.history;
    }
  ]

  add_replica-IsSound :
      (l : PageLocation) (g : ℕ) (id : Label) (c : Option String)
      → IsSound p (add_replica l g id c r).0
  unfolding add_replica
  add_replica-IsSound l g id c = elim (Bool-cases (l == r.authoritative)) [
    | inl e ↦ rw e h
    | inr e ↦ rw e (elim (Bool-cases (g == r.generation)) [
      | inr k ↦ rw k h
      | inl k ↦ rw k (elim (Bool-cases (label_is_empty id)) [
        | inl m ↦ rw m h
        | inr m ↦ rw m record {
          page = h.page;
          authority = h.authority;
          replicas =
              All-insert (ReplicaIsSound r.generation r.representation) l _ r.replicas
                (refl, refl, (nat_eq.beq_iff g r.generation).0 k, refl) h.replicas;
          history = h.history;
        }
      ])
    ])
  ]

  remove_replica-IsSound : (l : PageLocation) → IsSound p (remove_replica l r).0
  unfolding remove_replica
  remove_replica-IsSound l = elim (Bool-cases (l == r.authoritative)) [
    | inl e ↦ rw e h
    | inr e ↦ rw e record {
      page = h.page;
      authority = h.authority;
      replicas = All-remove (ReplicaIsSound r.generation r.representation) l r.replicas h.replicas;
      history = h.history;
    }
  ]

abbrev StaysSound : PageId → ResidencyRecord → ResidencyRecord → Type 0
StaysSound p r s = IsSound p r → IsSound p s

sound : RecordMoves StaysSound IsSound
unfolding new_record restart representation
sound = record {
  stays = λ p r x. x;
  trans = λ p r s t x y z. y (x z);
  begin = λ p r s x y. y x;
  transition = λ p r n t x. transition-IsSound p r x n t;
  add_replica = λ p r l g id c x. add_replica-IsSound p r x l g id c;
  remove_replica = λ p r l x. remove_replica-IsSound p r x l;
  insert_lease = λ p r l x. record {
    page = x.page;
    authority = x.authority;
    replicas = x.replicas;
    history = x.history;
  };
  drop_lease = λ p r l x. record {
    page = x.page;
    authority = x.authority;
    replicas = x.replicas;
    history = x.history;
  };
  created = λ slice g. record { page = refl; authority = refl; replicas = tt; history = refl };
  restart = λ p r g x y z. record {
    page = z.page;
    authority = z.authority;
    replicas = tt;
    history = Leads-advanced indexed r.state r.transition_history g z.history;
  };
}

validate_replicas-IsSound :
    (r : ResidencyRecord) (d : Dict PageLocation Replica)
    → All (ReplicaIsSound r.generation r.representation) d
    → validate_replicas r d ≡ ok tt
unfolding validate_replicas
validate_replicas-IsSound r [] h = refl
validate_replicas-IsSound r ((l, x) ∷ d) h =
    rw
      (
        h.0.0,
        ne_false l x.location h.0.1,
        ne_false x.generation r.generation h.0.2,
        ne_false x.representation r.representation h.0.3,
      )
      (validate_replicas-IsSound r d h.1)

validate_record-IsSound :
    (p : PageId) (r : ResidencyRecord) → IsSound p r → validate_record r ≡ validate_state r
unfolding validate_record
validate_record-IsSound p r h =
    rw
      (
        ne_false r.authoritative nvme_cold h.authority,
        validate_replicas-IsSound r r.replicas h.replicas,
      )
      refl

-- A new manager has no records.
new_manager-records :
    (a b c d e f g : ℕ) (s : ResidencyManager) → new_manager a b c d e f g ≡ ok s → s.records ≡ []
unfolding new_manager new_table
new_manager-records a b c d e f g s h = ground (arith)

-- Whatever the calls on a new manager, also when they fail: each record stands under its own page, its
-- history goes from indexed to its state by legal transitions and new generations, and of what
-- `validate` asks of a record only what it asks of the state can be missing.
pub run-validate_record :
    (a b c d e f g : ℕ) (s : ResidencyManager)
    → new_manager a b c d e f g ≡ ok s
    → (calls : List (ManagerCall × (ℕ → ℕ))) (p : PageId) (r : ResidencyRecord)
    → lookup p (run calls s).records ≡ some r
    → (r.page_id ≡ p)
      × Leads indexed r.transition_history r.state
      × (validate_record r ≡ validate_state r)
run-validate_record a b c d e f g s new calls p r h =
    (x.page, x.history, validate_record-IsSound p r x)
  where
    x : IsSound p r
    x =
        subst₂ (Later StaysSound IsSound p)
          (ap (lookup p) (new_manager-records a b c d e f g s new)) h
          (run-Respects (record_moves sound) calls s p)
