-- ===== src/Growth/Healing.antt =====
-- The methods of `SelfHealingManager` keep lower bounds of the generations.
use orchestrator_thesis.Prelude.{ℕ, String, true, false, refl, Option, List}
use orchestrator_thesis.Table.{pop}
use orchestrator_thesis.Models.{
  Time, NodeState, ServiceDesiredState, ServiceObservedState, Placement, DeploymentStatus,
  AgentHealthReport, AgentCrashReport,
}
use orchestrator_thesis.World.{Env, Action, None, AgentDeployResponse, modify, finally}
use orchestrator_thesis.SelfHealing.Recovery.{
  set_cooldown, is_in_cooldown, try_acquire_recovery, release_recovery, park, restart_failed,
  restart_succeeded, restart_same_node,
}
use orchestrator_thesis.SelfHealing.Reschedule.{
  exhausted_pending, exhausted_deploy_failed, stop_previous, exhausted_moved, exhausted_move_to,
  reschedule_after_exhausted_restart,
}
use orchestrator_thesis.SelfHealing.Unreachable.{
  unreachable_no_candidate, unreachable_target_missing, unreachable_deploy_failed,
  unreachable_moved, unreachable_move_to, reschedule_from_unreachable_node,
}
use orchestrator_thesis.SelfHealing.{
  with_current, restart_or_reschedule, recover_from_crash, crash_body, handle_crash_report,
  report_healthy, node_missing, recover_from_failures, report_unhealthy, health_body,
  handle_health_report,
}
use orchestrator_thesis.Coherence.Steps.{Ensures-if, Ensures-finally}
use orchestrator_thesis.Growth.{
  Grows, Grows-modify, Grows-bind, Grows-gets, Grows-pure, grows_rules,
}

set_cooldown-Grows :
    (j : String) (n : ℕ) (env : Env) (i : String) (at : Time)
    → Grows j n (modify (set_cooldown env i at))
unfolding set_cooldown
set_cooldown-Grows j n env i at = Grows-modify j n _ (λ w. refl)

try_acquire_recovery-Grows :
    (j : String) (n : ℕ) (i : String) (g : ℕ) → Grows j n (try_acquire_recovery i g)
unfolding try_acquire_recovery
try_acquire_recovery-Grows j n i g = Grows-bind j n _ _ (Grows-gets j n _) λ current.
    Ensures-if _ _ _ (Grows-pure j n false)
      (Grows-bind j n _ _ (Grows-modify j n _ (λ w. refl)) (λ _. Grows-pure j n true))

finally-Grows :
    (j : String) (n : ℕ) (m : Action None) (i : String)
    → Grows j n m
    → Grows j n (finally m (release_recovery i))
unfolding release_recovery
finally-Grows j n m i p = Ensures-finally m (release_recovery i) (λ w. refl) p

forget_cooldown-Grows :
    (j : String) (n : ℕ) (i : String)
    → Grows j n (modify (λ w. record w { cooldown_until = pop w.cooldown_until i }))
forget_cooldown-Grows j n i = Grows-modify j n _ (λ w. refl)

is_in_cooldown-Grows :
    (j : String) (n : ℕ) (id : String) (at : Time) → Grows j n (is_in_cooldown id at)
unfolding is_in_cooldown
is_in_cooldown-Grows j n id at = search (grows_rules) depth 40

park-Grows :
    (j : String) (n : ℕ) (id : String) (id_2 : String) (at : Time) (observed : ServiceObservedState)
    → Grows j n (park id id_2 at observed)
unfolding park
park-Grows j n id id_2 at observed = search (grows_rules) depth 40

restart_failed-Grows :
    (j : String) (n : ℕ) (env : Env) (id : String) (node : NodeState) (at : Time)
    (observed? : Option ServiceObservedState)
    → Grows j n (restart_failed env id node at observed?)
unfolding restart_failed
restart_failed-Grows j n env id node at observed? =
    search (grows_rules, set_cooldown-Grows, park-Grows) depth 40

restart_succeeded-Grows :
    (j : String) (n : ℕ) (env : Env) (id : String) (node : NodeState) (at : Time)
    → Grows j n (restart_succeeded env id node at)
unfolding restart_succeeded
restart_succeeded-Grows j n env id node at = search (grows_rules, set_cooldown-Grows) depth 40

restart_same_node-Grows :
    (j : String) (n : ℕ) (env : Env) (id : String) (node : NodeState) (at : Time)
    → Grows j n (restart_same_node env id node at)
unfolding restart_same_node
restart_same_node-Grows j n env id node at =
    search (grows_rules, restart_failed-Grows, restart_succeeded-Grows) depth 40

exhausted_pending-Grows :
    (j : String) (n : ℕ) (env : Env) (id : String) (id_2 : String) (at : Time)
    (observed? : Option ServiceObservedState) (st : DeploymentStatus) (id_3 : String)
    (id_4 : String)
    → Grows j n (exhausted_pending env id id_2 at observed? st id_3 id_4)
unfolding exhausted_pending
exhausted_pending-Grows j n env id id_2 at observed? st id_3 id_4 =
    search (grows_rules, set_cooldown-Grows, park-Grows) depth 40

exhausted_deploy_failed-Grows :
    (j : String) (n : ℕ) (env : Env) (id : String) (id_2 : String) (node : NodeState) (at : Time)
    (observed? : Option ServiceObservedState)
    → Grows j n (exhausted_deploy_failed env id id_2 node at observed?)
unfolding exhausted_deploy_failed
exhausted_deploy_failed-Grows j n env id id_2 node at observed? =
    search (grows_rules, set_cooldown-Grows, park-Grows) depth 40

stop_previous-Grows :
    (j : String) (n : ℕ) (env : Env) (id : String) (id_2 : String) (node? : Option NodeState)
    → Grows j n (stop_previous env id id_2 node?)
unfolding stop_previous
stop_previous-Grows j n env id id_2 node? = search (grows_rules) depth 40

exhausted_moved-Grows :
    (j : String) (n : ℕ) (env : Env) (id : String) (id_2 : String) (at : Time)
    (node? : Option NodeState) (node : NodeState) (deployed : AgentDeployResponse)
    → Grows j n (exhausted_moved env id id_2 at node? node deployed)
unfolding exhausted_moved
exhausted_moved-Grows j n env id id_2 at node? node deployed =
    search (grows_rules, set_cooldown-Grows, stop_previous-Grows) depth 40 fits 5000

exhausted_move_to-Grows :
    (j : String) (n : ℕ) (env : Env) (desired : ServiceDesiredState) (id : String) (id_2 : String)
    (at : Time) (observed? : Option ServiceObservedState) (nodes : List NodeState) (id_3 : String)
    → Grows j n (exhausted_move_to env desired id id_2 at observed? nodes id_3)
unfolding exhausted_move_to
exhausted_move_to-Grows j n env desired id id_2 at observed? nodes id_3 =
    search
      (grows_rules, exhausted_pending-Grows, exhausted_deploy_failed-Grows, exhausted_moved-Grows)
      depth 40

reschedule_after_exhausted_restart-Grows :
    (j : String) (n : ℕ) (env : Env) (id : String) (id_2 : String) (at : Time)
    → Grows j n (reschedule_after_exhausted_restart env id id_2 at)
unfolding reschedule_after_exhausted_restart
reschedule_after_exhausted_restart-Grows j n env id id_2 at =
    search (grows_rules, exhausted_pending-Grows, exhausted_move_to-Grows) depth 40

unreachable_no_candidate-Grows :
    (j : String) (n : ℕ) (env : Env) (placement : Placement) (at : Time)
    (observed? : Option ServiceObservedState)
    → Grows j n (unreachable_no_candidate env placement at observed?)
unfolding unreachable_no_candidate
unreachable_no_candidate-Grows j n env placement at observed? =
    search (grows_rules, park-Grows) depth 40

unreachable_target_missing-Grows :
    (j : String) (n : ℕ) (env : Env) (placement : Placement) (at : Time)
    (observed? : Option ServiceObservedState)
    → Grows j n (unreachable_target_missing env placement at observed?)
unfolding unreachable_target_missing
unreachable_target_missing-Grows j n env placement at observed? =
    search (grows_rules, park-Grows) depth 40

unreachable_deploy_failed-Grows :
    (j : String) (n : ℕ) (env : Env) (placement : Placement) (node : NodeState) (at : Time)
    (observed? : Option ServiceObservedState)
    → Grows j n (unreachable_deploy_failed env placement node at observed?)
unfolding unreachable_deploy_failed
unreachable_deploy_failed-Grows j n env placement node at observed? =
    search (grows_rules, park-Grows) depth 40

unreachable_moved-Grows :
    (j : String) (n : ℕ) (env : Env) (placement : Placement) (at : Time) (node : NodeState)
    (deployed : AgentDeployResponse)
    → Grows j n (unreachable_moved env placement at node deployed)
unfolding unreachable_moved
unreachable_moved-Grows j n env placement at node deployed = search (grows_rules) depth 40 fits 5000

unreachable_move_to-Grows :
    (j : String) (n : ℕ) (env : Env) (desired : ServiceDesiredState) (placement : Placement)
    (at : Time) (observed? : Option ServiceObservedState) (nodes : List NodeState) (id : String)
    → Grows j n (unreachable_move_to env desired placement at observed? nodes id)
unfolding unreachable_move_to
unreachable_move_to-Grows j n env desired placement at observed? nodes id =
    search
      (
        grows_rules, unreachable_target_missing-Grows, unreachable_deploy_failed-Grows,
        unreachable_moved-Grows,
      )
      depth 40

pub reschedule_from_unreachable_node-Grows :
    (j : String) (n : ℕ) (env : Env) (placement : Placement) (at : Time)
    → Grows j n (reschedule_from_unreachable_node env placement at)
unfolding reschedule_from_unreachable_node
reschedule_from_unreachable_node-Grows j n env placement at =
    search (grows_rules, unreachable_no_candidate-Grows, unreachable_move_to-Grows) depth 40

restart_or_reschedule-Grows :
    (j : String) (n : ℕ) (env : Env) (id : String) (id_2 : String) (at : Time) (count : ℕ)
    (node? : Option NodeState)
    → Grows j n (restart_or_reschedule env id id_2 at count node?)
unfolding restart_or_reschedule
restart_or_reschedule-Grows j n env id id_2 at count node? =
    search (grows_rules, restart_same_node-Grows, reschedule_after_exhausted_restart-Grows) depth 40

recover_from_crash-Grows :
    (j : String) (n : ℕ) (env : Env) (report : AgentCrashReport) (observed : ServiceObservedState)
    (placement : Placement)
    → Grows j n (recover_from_crash env report observed placement)
unfolding recover_from_crash
recover_from_crash-Grows j n env report observed placement =
    search (grows_rules, restart_or_reschedule-Grows) depth 40

crash_body-Grows :
    (j : String) (n : ℕ) (env : Env) (report : AgentCrashReport) (observed : ServiceObservedState)
    (desired : ServiceDesiredState) (placement : Placement) (count : ℕ)
    → Grows j n (crash_body env report observed desired placement count)
unfolding crash_body
crash_body-Grows j n env report observed desired placement count =
    search (grows_rules, try_acquire_recovery-Grows, finally-Grows, recover_from_crash-Grows) depth
      40

with_current-Grows :
    (j : String) (n : ℕ) (k node_id : String) (generation : Option ℕ)
    (body : ServiceObservedState → ServiceDesiredState → Placement → ℕ → Action None)
    → ((o : ServiceObservedState) (d : ServiceDesiredState) (p : Placement) (g : ℕ)
        → Grows j n (body o d p g))
    → Grows j n (with_current k node_id generation body)
unfolding with_current
with_current-Grows j n k node_id generation body f = search (grows_rules, f) depth 40

pub handle_crash_report-Grows :
    (j : String) (n : ℕ) (env : Env) (report : AgentCrashReport)
    → Grows j n (handle_crash_report env report)
unfolding handle_crash_report
handle_crash_report-Grows j n env report =
    search (grows_rules, with_current-Grows, crash_body-Grows) depth 40

report_healthy-Grows :
    (j : String) (n : ℕ) (env : Env) (report : AgentHealthReport) (observed : ServiceObservedState)
    (desired : ServiceDesiredState)
    → Grows j n (report_healthy env report observed desired)
unfolding report_healthy
report_healthy-Grows j n env report observed desired =
    search (grows_rules, forget_cooldown-Grows) depth 40

node_missing-Grows :
    (j : String) (n : ℕ) (env : Env) (report : AgentHealthReport) (observed : ServiceObservedState)
    → Grows j n (node_missing env report observed)
unfolding node_missing
node_missing-Grows j n env report observed =
    search (grows_rules, set_cooldown-Grows, park-Grows) depth 40

recover_from_failures-Grows :
    (j : String) (n : ℕ) (env : Env) (report : AgentHealthReport) (observed : ServiceObservedState)
    (placement : Placement)
    → Grows j n (recover_from_failures env report observed placement)
unfolding recover_from_failures
recover_from_failures-Grows j n env report observed placement =
    search (grows_rules, node_missing-Grows, restart_or_reschedule-Grows) depth 40

report_unhealthy-Grows :
    (j : String) (n : ℕ) (env : Env) (report : AgentHealthReport) (observed : ServiceObservedState)
    (placement : Placement) (count : ℕ)
    → Grows j n (report_unhealthy env report observed placement count)
unfolding report_unhealthy
report_unhealthy-Grows j n env report observed placement count =
    search
      (
        grows_rules, try_acquire_recovery-Grows, finally-Grows, is_in_cooldown-Grows,
        recover_from_failures-Grows,
      )
      depth 40

health_body-Grows :
    (j : String) (n : ℕ) (env : Env) (report : AgentHealthReport) (observed : ServiceObservedState)
    (desired : ServiceDesiredState) (placement : Placement) (count : ℕ)
    → Grows j n (health_body env report observed desired placement count)
unfolding health_body
health_body-Grows j n env report observed desired placement count =
    search (grows_rules, report_healthy-Grows, report_unhealthy-Grows) depth 40

pub handle_health_report-Grows :
    (j : String) (n : ℕ) (env : Env) (report : AgentHealthReport)
    → Grows j n (handle_health_report env report)
unfolding handle_health_report
handle_health_report-Grows j n env report =
    search (grows_rules, with_current-Grows, health_body-Grows) depth 40
