-- ===== src/Outcome/Report.antt =====
-- What a healthy report that the store agrees with does.
use orchestrator_thesis.Prelude.{ℕ, String, true, ◌≡◌, refl, ◌∙◌, none, some, arith, eq_iff}
use orchestrator_thesis.Table.{get}
use orchestrator_thesis.Models.{
  ServiceDesiredState, ServiceObservedState, Placement, DeploymentStatus, ServiceHealth,
  AgentHealthReport,
}
use orchestrator_thesis.Store
use orchestrator_thesis.Store.{Store}
use orchestrator_thesis.World.{Env, World, ◌>>=◌}
use orchestrator_thesis.SelfHealing.{report_healthy, health_body, handle_health_report}
use orchestrator_thesis.SelfHealing.Guards.{IsCurrent, with_current-acts}
use orchestrator_thesis.Coherence.{IsCoherent}
use orchestrator_thesis.Outcome.{Yields}

-- All is well with the service: it is not queued, its restarts are counted from 0 again, it is not
-- cooling down, and it is observed to be healthy and to run, without a grace period.
pub record IsWell (k : String) (w : World) : Type 0 where
  pub pending : get w.store.pending k ≡ none
  pub restarts : (Store.get_restart_counter k 0 w.store).count ≡ 0
  pub cooldown : get w.cooldown_until k ≡ none
  pub state : ServiceObservedState
  pub observed : get w.store.observed k ≡ some state
  pub runs : state.status ≡ DeploymentStatus.running
  pub healthy : state.health ≡ ServiceHealth.healthy
  pub ungraced : state.startup_grace_until ≡ none

module _ (env : Env) (report : AgentHealthReport) (w : World) where
  abbrev Current : Type 0
  Current = IsCurrent w.store report.service_id report.node_id report.service_generation

  report_healthy-IsWell :
      (o : ServiceObservedState) (d : ServiceDesiredState)
      → o.service_id ≡ report.service_id
      → Yields
          (report_healthy env report o d)
          w
          (λ _ w'. IsWell report.service_id w' × (w'.calls ≡ w.calls))
  unfolding report_healthy Store.pop_pending_deployment Store.reset_restart_counter
      Store.set_service_observed Store.set_service_desired Store.get_restart_counter ◌>>=◌
  report_healthy-IsWell o d named = record {
    value = tt;
    world = _;
    runs = refl;
    holds = (
      record {
        pending = ground (arith, eq_iff report.service_id report.service_id);
        restarts = ground (arith, eq_iff report.service_id report.service_id);
        cooldown = ground (arith, eq_iff report.service_id report.service_id);
        state = record o {
          health = ServiceHealth.healthy;
          status = DeploymentStatus.running;
          last_reported_at = report.observed_at;
          startup_grace_until = none;
        };
        observed = ground (arith, named, eq_iff o.service_id report.service_id);
        runs = refl;
        healthy = refl;
        ungraced = refl;
      },
      refl,
    );
  }

  healthy_body :
      (o : ServiceObservedState) (d : ServiceDesiredState) (p : Placement) (g : ℕ)
      → report.healthy ≡ true
      → health_body env report o d p g w ≡ report_healthy env report o d w
  unfolding health_body
  healthy_body o d p g healthy = cc healthy

  -- A healthy report that a coherent store agrees with never raises, asks no agent for anything, and
  -- leaves all well with the service: not queued, no restarts counted, no cooldown, and observed to
  -- be healthy and to run.
  pub handle_health_report-IsWell :
      IsCoherent w.store
      → Current
      → report.healthy ≡ true
      → Yields
          (handle_health_report env report)
          w
          (λ _ w'. IsWell report.service_id w' × (w'.calls ≡ w.calls))
  unfolding handle_health_report
  handle_health_report-IsWell c now healthy =
      let y =
        report_healthy-IsWell now.observed now.desired
          ((c.service report.service_id).observed_named now.observed now.is_observed) in
      record {
        value = y.value;
        world = y.world;
        runs =
            with_current-acts report.service_id report.node_id report.service_generation _ w now
            ∙ healthy_body now.observed now.desired now.placement _ healthy
            ∙ y.runs;
        holds = y.holds;
      }
