-- ===== src/Growth/Manager.antt =====
-- The methods of `ServiceManager` keep lower bounds of the generations.
use orchestrator_thesis.Prelude.{ℕ, String, Option, List}
use orchestrator_thesis.Models.{
  ServiceSpec, NodeState, ServiceDesiredState, ServiceObservedState, Placement,
}
use orchestrator_thesis.World.{Env, AgentDeployResponse}
use orchestrator_thesis.ServiceManager.{
  placement_failed, deploy_failed, record_deployment, deploy_on, deploy_anew, deploy,
}
use orchestrator_thesis.ServiceManager.Commands.{
  stop_on_agent, stop_desired, stop, restart_on, restart, retry_pending_deployment,
}
use orchestrator_thesis.Growth.{Grows, grows_rules}

placement_failed-Grows :
    (j : String) (n : ℕ) (env : Env) (spec : ServiceSpec) (id : String)
    → Grows j n (placement_failed env spec id)
unfolding placement_failed
placement_failed-Grows j n env spec id = search (grows_rules) depth 40

deploy_failed-Grows :
    (j : String) (n : ℕ) (env : Env) (spec : ServiceSpec) (node : NodeState) (id : String)
    → Grows j n (deploy_failed env spec node id)
unfolding deploy_failed
deploy_failed-Grows j n env spec node id = search (grows_rules) depth 40

record_deployment-Grows :
    (j : String) (n : ℕ) (env : Env) (desired : ServiceDesiredState) (node : NodeState)
    (deployed : AgentDeployResponse)
    → Grows j n (record_deployment env desired node deployed)
unfolding record_deployment
record_deployment-Grows j n env desired node deployed = search (grows_rules) depth 40

deploy_on-Grows :
    (j : String) (n : ℕ) (env : Env) (desired : ServiceDesiredState) (nodes : List NodeState)
    (id : String)
    → Grows j n (deploy_on env desired nodes id)
unfolding deploy_on
deploy_on-Grows j n env desired nodes id =
    search (grows_rules, deploy_failed-Grows, record_deployment-Grows) depth 40

deploy_anew-Grows :
    (j : String) (n : ℕ) (env : Env) (spec : ServiceSpec) → Grows j n (deploy_anew env spec)
unfolding deploy_anew
deploy_anew-Grows j n env spec =
    search (grows_rules, placement_failed-Grows, deploy_on-Grows) depth 40

pub deploy-Grows :
    (j : String) (n : ℕ) (env : Env) (spec : ServiceSpec) → Grows j n (deploy env spec)
unfolding deploy
deploy-Grows j n env spec = search (grows_rules, deploy_anew-Grows) depth 40

stop_on_agent-Grows :
    (j : String) (n : ℕ) (env : Env) (id : String) (placement? : Option Placement)
    → Grows j n (stop_on_agent env id placement?)
unfolding stop_on_agent
stop_on_agent-Grows j n env id placement? = search (grows_rules) depth 40

stop_desired-Grows :
    (j : String) (n : ℕ) (env : Env) (desired? : Option ServiceDesiredState)
    → Grows j n (stop_desired env desired?)
unfolding stop_desired
stop_desired-Grows j n env desired? = search (grows_rules) depth 40

pub stop-Grows : (j : String) (n : ℕ) (env : Env) (id : String) → Grows j n (stop env id)
unfolding stop
stop-Grows j n env id =
    search (grows_rules, stop_on_agent-Grows, stop_desired-Grows) depth 40 fits 5000

restart_on-Grows :
    (j : String) (n : ℕ) (env : Env) (id : String) (node : NodeState)
    (observed? : Option ServiceObservedState)
    → Grows j n (restart_on env id node observed?)
unfolding restart_on
restart_on-Grows j n env id node observed? = search (grows_rules) depth 40

pub restart-Grows : (j : String) (n : ℕ) (env : Env) (id : String) → Grows j n (restart env id)
unfolding restart
restart-Grows j n env id = search (grows_rules, restart_on-Grows) depth 40

pub retry_pending_deployment-Grows :
    (j : String) (n : ℕ) (env : Env) (id : String) → Grows j n (retry_pending_deployment env id)
unfolding retry_pending_deployment
retry_pending_deployment-Grows j n env id = search (grows_rules, deploy-Grows) depth 40
