-- ===== src/Scheduler/Orderless.antt =====
-- The decision does not depend on the order in which the nodes are listed.
use mathlib.Core.HLevel.{hedberg}
use mathlib.Core.List.{Perm, Permᴰ}
use mathlib.Core.List.Permᴰ
use mathlib.Core.Logic.{∥∥₁_elim}
use orchestrator_thesis.Prelude.{
  ◌≡◌, refl, true, some, List, [], ◌∷◌, All, Option, String, ap, subst,
}
use orchestrator_thesis.Names.{String-discrete}
use orchestrator_thesis.Models.{Fraction, NodeState, ServiceSpec}
use orchestrator_thesis.Scheduler.{
  Candidate, ScheduleDecision, key_le, select_min, decide_among, eligible_candidates,
  choose_node_least_load,
}
use orchestrator_thesis.Scheduler.Order.{select_min_least, select_min_member, key_le_antisymm}
use orchestrator_thesis.Scheduler.Choice.{nodes-All, candidates-All}

All-perm : {A : Type 0} (P : A → Type 0) {xs ys : List A} → Permᴰ xs ys → All P xs → All P ys
All-perm P Permᴰ.nil h = tt
All-perm P (Permᴰ.cons e p) h = (subst P e h.0, All-perm P p h.1)
All-perm P (Permᴰ.swap e f) h = (subst P f h.1.0, (subst P e h.0, h.1.1))
All-perm P (Permᴰ.trans p q) h = All-perm P q (All-perm P p h)

-- Whatever holds of all candidates of one list holds of all candidates of the other.
SameCandidates : List Candidate → List Candidate → Type 1
SameCandidates cs ds = (P : Candidate → Type 0) → All P cs → All P ds

-- The least candidate of one list is at most that of the other.
least_le :
    (c d : Candidate) (cs ds : List Candidate)
    → SameCandidates (c ∷ cs) (d ∷ ds)
    → key_le (select_min c cs) (select_min d ds) ≡ true
unfolding SameCandidates
least_le c d cs ds f =
    let P : Candidate → Type 0 = λ x. key_le (select_min c cs) x ≡ true in
    let all = f P (select_min_least c cs) in select_min_member P d ds all.0 all.1

abbrev scheduled : ServiceSpec → String → ScheduleDecision
scheduled spec id = record {
  service_id = spec.service_id;
  selected_node_id = some id;
  status = "scheduled";
  reason = "Least-load selection succeeded";
}

decide_same :
    (spec : ServiceSpec) (cs ds : List Candidate)
    → SameCandidates cs ds
    → SameCandidates ds cs
    → decide_among spec cs ≡ decide_among spec ds
unfolding SameCandidates decide_among
decide_same spec [] [] f g = refl
decide_same spec [] (d ∷ ds) f g = absurd (f (λ _. ⊥) tt).0
decide_same spec (c ∷ cs) [] f g = absurd (g (λ _. ⊥) tt).0
decide_same spec (c ∷ cs) (d ∷ ds) f g = ap (scheduled spec) (
    key_le_antisymm (select_min c cs) (select_min d ds) (least_le c d cs ds f)
      (least_le d c ds cs g))

Option_names-set : IsSet (Option String)
Option_names-set = hlevel (hedberg String-discrete)

module _ (one_minus : Fraction → Fraction) (spec : ServiceSpec) where
  permᴰ-SameCandidates :
      {ns ms : List NodeState}
      → Permᴰ ns ms
      → SameCandidates
          (eligible_candidates one_minus spec ns)
          (eligible_candidates one_minus spec ms)
  unfolding SameCandidates
  permᴰ-SameCandidates {ns} {ms} p P h =
      candidates-All one_minus spec P ms (All-perm _ p (nodes-All one_minus spec P ns h))

  -- Two listings of the same nodes, in whatever order, give the same decision.
  pub choose_node-perm :
      (ns ms : List NodeState)
      → Perm ns ms
      → (choose_node_least_load one_minus spec ns).selected_node_id
        ≡ (choose_node_least_load one_minus spec ms).selected_node_id
  unfolding choose_node_least_load
  choose_node-perm ns ms p = ∥∥₁_elim p (Option_names-set _ _) λ q.
      ap (λ d. d.selected_node_id)
        (decide_same spec _ _ (permᴰ-SameCandidates q) (permᴰ-SameCandidates (Permᴰ.symm q)))
