-- ===== src/Residency/Manager/Lifecycle.antt =====
-- har/crates/har-residency/src/manager.rs: the life of a page, as the calls of the manager let it be seen.
use remora_lab.Base.{
  ℕ, ◌≡◌, ◌≢◌, ◌<◌, ◌≤◌, String, true, Option, some, List, [], ◌∷◌, ◌++◌, arith, Bool-cases, inl,
  inr,
}
use mathlib.Core.Path.{subst, subst₂, ap, sym, ◌∙◌, refl}
use mathlib.Core.List.{append-nil, append_assoc}
use remora_lab.Base.Dict.{lookup}
use remora_lab.Residency.Types.{PageId, page_eq}
use remora_lab.Residency.State.{ResidencyState, indexed, failed, in_use, legal_transition}
use remora_lab.Residency.Record.{
  HistoryLine, moved, advanced, ResidencyRecord, new_record, transition, add_replica,
  remove_replica, insert_lease, drop_lease,
}
use remora_lab.Residency.Manager.{ResidencyManager}
use remora_lab.Residency.Manager.Evictions.{restart}
use remora_lab.Residency.Manager.Run.{ManagerCall, run, run-Respects}
use remora_lab.Residency.Manager.Records.{RecordMoves, Later, record_moves}

-- What a page shows: its generation and its state.
abbrev pub Life : Type 0
Life = ℕ × ResidencyState

abbrev pub life : ResidencyRecord → Life
life r = (r.generation, r.state)

-- The specification: a legal transition within a generation, or a later generation of a page that is
-- in no use, which starts anew. Each leaves its line in the history.
pub data LifeStep : Life → HistoryLine → Life → Type 0 where
  move :
      {g : ℕ} {from to : ResidencyState} {reason : String}
      → legal_transition from to ≡ true
      → LifeStep (g, from) (moved from to reason) (g, to)
  renew :
      {g k : ℕ} {from : ResidencyState}
      → g < k
      → from ≢ in_use
      → LifeStep (g, from) (advanced k) (k, indexed)

pub data Lives : Life → List HistoryLine → Life → Type 0 where
  here : {a : Life} → Lives a [] a
  after :
      {a b c : Life} {line : HistoryLine} {lines : List HistoryLine}
      → LifeStep a line b
      → Lives b lines c
      → Lives a (line ∷ lines) c

Lives-append :
    {a b c : Life} {h k : List HistoryLine} → Lives a h b → Lives b k c → Lives a (h ++ k) c
Lives-append here y = y
Lives-append (after x rest) y = after x (Lives-append rest y)

-- A page has lived from the start of some generation on, as its history tells.
abbrev pub Born : PageId → ResidencyRecord → Type 0
Born p r = (g : ℕ) × Lives (g, indexed) r.transition_history (life r)

-- A page lives on as the lines tell that its history has grown by.
abbrev pub LivesOn : PageId → ResidencyRecord → ResidencyRecord → Type 0
LivesOn p r s =
    (lines : List HistoryLine) × (s.transition_history ≡ r.transition_history ++ lines)
    × Lives (life r) lines (life s)

LivesOn-same :
    (p : PageId) (r s : ResidencyRecord)
    → life s ≡ life r
    → s.transition_history ≡ r.transition_history
    → LivesOn p r s
LivesOn-same p r s h k =
    ([], k ∙ sym (append-nil r.transition_history), subst (λ x. Lives (life r) [] x) (sym h) here)

LivesOn-trans :
    (p : PageId) (r s t : ResidencyRecord) → LivesOn p r s → LivesOn p s t → LivesOn p r t
LivesOn-trans p r s t (h, e, x) (k, q, y) =
    (h ++ k, q ∙ ap (λ l. l ++ k) e ∙ append_assoc r.transition_history h k, Lives-append x y)

transition-LivesOn :
    (p : PageId) (r : ResidencyRecord) (n : ResidencyState) (t : String)
    → LivesOn p r (transition n t r).0
unfolding transition
transition-LivesOn p r n t = elim (Bool-cases (legal_transition r.state n)) [
  | inl e ↦ rw e (moved r.state n t ∷ [], refl, after (move e) here)
  | inr e ↦ rw e (LivesOn-same p r r refl refl)
]

add_replica-life :
    (r : ResidencyRecord) (l : _) (g : ℕ) (id : _) (c : Option String)
    → (life (add_replica l g id c r).0 ≡ life r)
      × ((add_replica l g id c r).0.transition_history ≡ r.transition_history)
unfolding add_replica
add_replica-life r l g id c = ground arith

remove_replica-life :
    (r : ResidencyRecord) (l : _)
    → (life (remove_replica l r).0 ≡ life r)
      × ((remove_replica l r).0.transition_history ≡ r.transition_history)
unfolding remove_replica
remove_replica-life r l = ground arith

lives : RecordMoves LivesOn Born
unfolding new_record restart
lives = record {
  stays = λ p r. LivesOn-same p r r refl refl;
  trans = LivesOn-trans;
  begin = λ p r s x y.
      (x.0, subst (λ l. Lives (x.0, indexed) l (life s)) (sym y.1) (Lives-append x.1 y.2));
  transition = transition-LivesOn;
  add_replica = λ p r l g id c.
      LivesOn-same p r (add_replica l g id c r).0 (add_replica-life r l g id c).0
        (add_replica-life r l g id c).1;
  remove_replica = λ p r l.
      LivesOn-same p r (remove_replica l r).0 (remove_replica-life r l).0
        (remove_replica-life r l).1;
  insert_lease = λ p r l. LivesOn-same p r (insert_lease l r) refl refl;
  drop_lease = λ p r l. LivesOn-same p r (drop_lease l r) refl refl;
  created = λ slice g. (g, here);
  restart = λ p r g x y. (advanced g ∷ [], refl, after (renew x y) here);
}

-- Whatever the calls, in any order and also when they fail: a page that is registered stays so, and its
-- history only grows. The lines that it grows by tell how the page came from its generation and state
-- before to those after: each is a legal transition within a generation from the state that the line
-- before it left, or a later generation of a page that was not in use, which starts as indexed. The
-- whole history of a page that is registered meanwhile tells so how it came from indexed.
pub run-Lives :
    (calls : List (ManagerCall × (ℕ → ℕ))) (s : ResidencyManager) (p : PageId)
    → Later LivesOn Born p (lookup p s.records) (lookup p (run calls s).records)
run-Lives calls s p = run-Respects (record_moves lives) calls s p

generation_mono : {a b : Life} {h : List HistoryLine} → Lives a h b → a.0 ≤ b.0
generation_mono here = omega arith
generation_mono (after (move e) rest) = omega (arith, generation_mono rest)
generation_mono (after (renew e n) rest) = omega (arith, generation_mono rest)

failed_stays :
    {a b : Life} {h : List HistoryLine} → Lives a h b → a.1 ≡ failed → a.0 ≡ b.0 → b.1 ≡ failed
unfolding legal_transition
failed_stays here h q = h
failed_stays (after (move {to = to} e) rest) h q =
    absurd (ground (arith, ap (λ x. legal_transition x to) h))
failed_stays (after (renew x n) rest) h q = absurd (omega (arith, generation_mono rest))

-- The two records of a page that is registered before and after.
module _ (calls : List (ManagerCall × (ℕ → ℕ))) (s : ResidencyManager) (p : PageId)
    (r t : ResidencyRecord) (h : lookup p s.records ≡ some r)
    (k : lookup p (run calls s).records ≡ some t) where
  run-Lives_known : LivesOn p r t
  run-Lives_known = subst₂ (Later LivesOn Born p) h k (run-Lives calls s p)

  -- Whatever the calls, the generation of a page does not fall, and a page that failed has failed for
  -- as long as its generation is the same.
  pub run-failed :
      (r.generation ≤ t.generation)
      × (r.state ≡ failed → r.generation ≡ t.generation → t.state ≡ failed)
  run-failed = (generation_mono run-Lives_known.2, failed_stays run-Lives_known.2)
