-- ===== src/Coherence/Manager.antt =====
-- The operations of `ServiceManager` keep the invariant.
use orchestrator_thesis.Prelude.{ℕ, String, ◌≡◌, refl, subst, Bool, false, Option, List}
use orchestrator_thesis.Models.{ServiceSpec, ServiceDesiredState, NodeState, Placement}
use orchestrator_thesis.World.{Env, AgentDeployResponse, ◌>>=◌}
use orchestrator_thesis.ServiceManager.{
  placement_failed, deploy_failed, record_deployment, deploy_on, deploy_anew, deploy,
}
use orchestrator_thesis.ServiceManager.Commands.{
  stop_on_agent, stop_desired, stop, restart_on, restart, retry_pending_deployment,
}
use orchestrator_thesis.Coherence.{At, Ensures, Safe}
use orchestrator_thesis.Coherence.Logic.{
  coherence_rules, part_rules, Ensures-weaken, Ensures-first, Ensures-observe_and_clear,
  Keeps-reads, bounds,
}

placement_failed-Ensures :
    (env : Env) (service : ServiceSpec) (reason : String)
    → Ensures
        (Safe service.service_id)
        (placement_failed env service reason)
        (Safe service.service_id)
unfolding placement_failed
placement_failed-Ensures env service reason = search (coherence_rules) depth 30

deploy_failed-Ensures :
    (env : Env) (service : ServiceSpec) (node : NodeState) (message : String)
    → Ensures
        (Safe service.service_id)
        (deploy_failed env service node message)
        (Safe service.service_id)
unfolding deploy_failed
deploy_failed-Ensures env service node message = search (coherence_rules) depth 30

record_deployment-Ensures :
    (env : Env) (desired : ServiceDesiredState) (node : NodeState) (result : AgentDeployResponse)
    → Ensures
        (Safe desired.service.service_id)
        (record_deployment env desired node result)
        (Safe desired.service.service_id)
unfolding record_deployment
record_deployment-Ensures env desired node result = search coherence_rules depth 40

deploy_on-Ensures :
    (env : Env) (desired : ServiceDesiredState) (nodes : List NodeState) (id : String)
    → Ensures
        (Safe desired.service.service_id)
        (deploy_on env desired nodes id)
        (Safe desired.service.service_id)
unfolding deploy_on
deploy_on-Ensures env desired nodes id =
    search (coherence_rules, deploy_failed-Ensures, record_deployment-Ensures) depth 40

deploy_anew-Ensures :
    (env : Env) (service : ServiceSpec)
    → Ensures (Safe service.service_id) (deploy_anew env service) (Safe service.service_id)
unfolding deploy_anew
deploy_anew-Ensures env service =
    search (coherence_rules, placement_failed-Ensures, deploy_on-Ensures) depth 40

-- Whatever else is known of the service.
deploy_anew-At :
    (n : ℕ) (b : Bool) (env : Env) (service : ServiceSpec)
    → Ensures (At service.service_id n b) (deploy_anew env service) (Safe service.service_id)
deploy_anew-At n b env service = Ensures-weaken _ n b _ (deploy_anew-Ensures env service)

pub deploy-Ensures :
    (env : Env) (service : ServiceSpec)
    → Ensures (Safe service.service_id) (deploy env service) (Safe service.service_id)
unfolding deploy
deploy-Ensures env service = search (coherence_rules, deploy_anew-At) depth 40

stop_on_agent-Ensures :
    (k : String) (n : ℕ) (b : Bool) (env : Env) (i : String) (p : Option Placement)
    → Ensures (At k n b) (stop_on_agent env i p) (At k n b)
unfolding stop_on_agent
stop_on_agent-Ensures k n b env i p = search part_rules depth 40

stop_desired-Ensures :
    (k : String) (n : ℕ) (b : Bool) (env : Env) (d : Option ServiceDesiredState)
    → Ensures (At k n b) (stop_desired env d) (At k n b)
unfolding stop_desired
stop_desired-Ensures k n b env d = search part_rules depth 40

pub stop-Ensures : (env : Env) (k : String) → Ensures (Safe k) (stop env k) (Safe k)
unfolding stop
stop-Ensures env k = Ensures-first k 0 false _ _ (Keeps-reads k 0 false _) λ p.
    Ensures-first k 0 false _ _ (stop_on_agent-Ensures k 0 false env k p) λ _.
      Ensures-observe_and_clear k 0 false _ _ refl (search bounds) refl
        λ _. search (coherence_rules, stop_desired-Ensures) depth 40 fits 5000

pub restart-Ensures : (env : Env) (k : String) → Ensures (Safe k) (restart env k) (Safe k)
unfolding restart restart_on ◌>>=◌
restart-Ensures env k = search coherence_rules depth 40 fits 20000

deploy-Ensures_at :
    (env : Env) (k : String) (service : ServiceSpec)
    → service.service_id ≡ k
    → Ensures (Safe k) (deploy env service) (Safe k)
deploy-Ensures_at env k service e =
    subst (λ i. Ensures (Safe i) (deploy env service) (Safe i)) e (deploy-Ensures env service)

pub retry-Ensures :
    (env : Env) (k : String) → Ensures (Safe k) (retry_pending_deployment env k) (Safe k)
unfolding retry_pending_deployment ◌>>=◌
retry-Ensures env k = search (coherence_rules, deploy-Ensures_at) depth 40
