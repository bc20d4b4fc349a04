-- ===== src/SelfHealing/Guards.antt =====
-- What a report must agree with to be acted on, and that any other report is ignored.
use orchestrator_thesis.Prelude.{
  ℕ, String, false, not, ◌≡◌, refl, inl, inr, Option, some, ◌==◌, eq_iff, Option-cases, Bool-cases,
  if◌then◌else◌,
}
use orchestrator_thesis.Table.{get}
use orchestrator_thesis.Models.{
  ServiceDesiredState, ServiceObservedState, Placement, AgentHealthReport, AgentCrashReport,
  is_stopped,
}
use orchestrator_thesis.Store
use orchestrator_thesis.Store.{Store}
use orchestrator_thesis.World.{Env, World, Action, None, returned, pure, reads, ◌>>=◌}
use orchestrator_thesis.SelfHealing.{
  is_stale, with_current, handle_health_report, handle_crash_report,
}

-- The service is observed, desired and not stopped, placed on the node, and the generation that is
-- named, if any, is the counter's.
pub record IsCurrent (s : Store) (service_id node_id : String) (generation : Option ℕ)
    : Type 0 where
  pub observed : ServiceObservedState
  pub desired : ServiceDesiredState
  pub placement : Placement
  pub is_observed : get s.observed service_id ≡ some observed
  pub is_desired : get s.desired service_id ≡ some desired
  pub not_stopped : is_stopped desired.status ≡ false
  pub is_placed : get s.placement service_id ≡ some placement
  pub on_node : placement.node_id ≡ node_id
  pub fresh : is_stale generation (Store.get_service_generation service_id s) ≡ false

-- Where all three are stored, one of the three tests fails.
guarded :
    (k node_id : String) (generation : Option ℕ)
    (body : ServiceObservedState → ServiceDesiredState → Placement → ℕ → Action None) (w : World)
    → ¬ IsCurrent w.store k node_id generation
    → (o : ServiceObservedState) (d : ServiceDesiredState) (p : Placement)
    → get w.store.observed k ≡ some o
    → get w.store.desired k ≡ some d
    → get w.store.placement k ≡ some p
    → (if is_stopped d.status
          then pure tt
          else if not (p.node_id == node_id)
          then pure tt
          else (reads (Store.get_service_generation k) >>= λ current_gen.
              if is_stale generation current_gen then pure tt else body o d p current_gen))
        w
      ≡ (returned tt, w)
unfolding ◌>>=◌
guarded k node_id generation body w h o d p eo ed ep = elim (Bool-cases (is_stopped d.status)) [
  | inl q ↦ rw q refl
  | inr q ↦ elim (Bool-cases (p.node_id == node_id)) [
    | inr n ↦ rw (q, n) refl
    | inl n ↦ elim (Bool-cases (is_stale generation (Store.get_service_generation k w.store))) [
      | inl f ↦ rw (q, n, f) refl
      | inr f ↦ absurd (
          h (record {
            observed = o;
            desired = d;
            placement = p;
            is_observed = eo;
            is_desired = ed;
            not_stopped = q;
            is_placed = ep;
            on_node = (eq_iff p.node_id node_id).0 n;
            fresh = f;
          }))
    ]
  ]
]

with_current-ignored :
    (k node_id : String) (generation : Option ℕ)
    (body : ServiceObservedState → ServiceDesiredState → Placement → ℕ → Action None) (w : World)
    → ¬ IsCurrent w.store k node_id generation
    → with_current k node_id generation body w ≡ (returned tt, w)
unfolding with_current ◌>>=◌ Store.get_service_observed Store.get_service_desired
    Store.get_placement
with_current-ignored k node_id generation body w h = elim (Option-cases (get w.store.observed k)) [
  | inl e ↦ rw e refl
  | inr (o, eo) ↦ elim (Option-cases (get w.store.desired k)) [
    | inl e ↦ rw (eo, e) refl
    | inr (d, ed) ↦ elim (Option-cases (get w.store.placement k)) [
      | inl e ↦
          rw (eo, ed, e)
            (elim (Bool-cases (is_stopped d.status)) [ inl q ↦ rw q refl | inr q ↦ rw q refl ])
      | inr (p, ep) ↦ rw (eo, ed, ep) (guarded k node_id generation body w h o d p eo ed ep)
    ]
  ]
]

-- A report that the store agrees with reaches the body, with what is stored.
pub with_current-acts :
    (k node_id : String) (generation : Option ℕ)
    (body : ServiceObservedState → ServiceDesiredState → Placement → ℕ → Action None) (w : World)
    (c : IsCurrent w.store k node_id generation)
    → with_current k node_id generation body w
      ≡ body c.observed c.desired c.placement (Store.get_service_generation k w.store) w
unfolding with_current ◌>>=◌ Store.get_service_observed Store.get_service_desired
    Store.get_placement
with_current-acts k node_id generation body w c =
    rw
      (
        c.is_observed,
        c.is_desired,
        c.is_placed,
        c.not_stopped,
        (eq_iff c.placement.node_id node_id).1 c.on_node,
        c.fresh,
      )
      refl

-- A health report that does not agree with the store (on the service being desired and not stopped,
-- on its node, or on its generation) changes nothing at all.
pub handle_health_report-ignored :
    (env : Env) (report : AgentHealthReport) (w : World)
    → ¬ IsCurrent w.store report.service_id report.node_id report.service_generation
    → handle_health_report env report w ≡ (returned tt, w)
unfolding handle_health_report
handle_health_report-ignored env report w h =
    with_current-ignored report.service_id report.node_id report.service_generation _ w h

-- A crash report that does not agree with the store (on the service being desired and not stopped,
-- on its node, or on its generation) changes nothing at all.
pub handle_crash_report-ignored :
    (env : Env) (report : AgentCrashReport) (w : World)
    → ¬ IsCurrent w.store report.service_id report.node_id report.service_generation
    → handle_crash_report env report w ≡ (returned tt, w)
unfolding handle_crash_report
handle_crash_report-ignored env report w h =
    with_current-ignored report.service_id report.node_id report.service_generation _ w h
