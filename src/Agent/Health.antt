-- ===== src/Agent/Health.antt =====
-- `health_check_all` of agent/app/services/workload_manager.py and what it calls.
pub mod Attempts
pub mod Reports
use orchestrator_thesis.Prelude.{
  ℕ, zero, suc, ◌+◌, String, Bool, true, false, ◌&&◌, Option, none, some, List, [], ◌∷◌, ◌==◌, leb,
  ltb, if◌then◌else◌,
}
use orchestrator_thesis.Decimal.{◌<>◌, show}
use orchestrator_thesis.Models.{AgentHealthReport}
use orchestrator_thesis.Agent.{
  other_error, WorkloadRecord, WorkloadStatus, ContainerInfo, is_checked,
}
use orchestrator_thesis.Agent.State.{list_workloads}
use orchestrator_thesis.Agent.Adapter.{
  AgentEnv, AgentWorld, AgentAction, on_docker, HttpReply, status_code, http_error, other_exception,
}
use orchestrator_thesis.Agent.Workloads.{save}
use orchestrator_thesis.Effect.{pure, raise, gets, modify, ◌>>=◌, ◌>>◌}

-- `200 <= status_code < 300`; not for an `HTTPError`, which is caught.
unfoldable pub is_ok : HttpReply → Bool
is_ok (status_code code) = leb 200 code && ltb code 300
is_ok http_error = false
is_ok (other_exception message) = false

-- The URL of `_resolve_internal_health_url`.
abbrev pub health_url : WorkloadRecord → String → String
health_url workload container_ip =
    "http://"
    <> container_ip
    <> ":"
    <> show workload.service.internal_port
    <> workload.service.health_endpoint

module _ {D : Type 0} where
  -- What is not caught is raised.
  unfoldable pub uncaught : HttpReply → AgentAction D HttpReply
  uncaught (other_exception message) = raise (other_error message)
  uncaught reply = pure reply

  -- `client.get(url)`, with an `HTTPError` as a value for `except`
  unfoldable pub http_get : AgentEnv D → String → AgentAction D HttpReply
  unfolding uncaught
  http_get env url = do
    reply ← gets (λ w. env.http_get w.requests url)
    modify (λ w. record w { requests = url ∷ w.requests })
    uncaught reply

  -- The attempts of `_check_workload_health` that are left.
  unfoldable pub check_attempts : AgentEnv D → ℕ → String → AgentAction D Bool
  unfolding http_get is_ok
  check_attempts env zero url = pure false
  check_attempts env (suc left) url = do
    reply ← http_get env url
    if is_ok reply then pure true else check_attempts env left url

  unfoldable pub check_workload_health : AgentEnv D → String → AgentAction D Bool
  unfolding check_attempts
  check_workload_health env url = check_attempts env env.settings.health_check_retries url

  -- The address of the container, asked of docker where the record has none, and then recorded.
  unfoldable pub resolve_container_ip : AgentEnv D → WorkloadRecord → AgentAction D (Option String)
  resolve_container_ip env workload = elim workload.container_ip [
    | some container_ip ↦ pure (some container_ip)
    | none ↦ do
      refreshed ← on_docker (env.adapter.inspect workload.service.service_id)
      elim refreshed [
        | none ↦ pure none
        | some container ↦ elim container.container_ip [
          | none ↦ pure none
          | some container_ip ↦ do
            save env (record workload { container_ip = some container_ip })
            pure (some container_ip)
        ]
      ]
  ]

  -- The record after a check.
  abbrev pub checked_record : AgentEnv D → WorkloadRecord → Bool → WorkloadRecord
  checked_record env workload true = record workload {
    status = WorkloadStatus.running;
    health_failures = 0;
    last_health_check_at = some env.now;
    last_healthy_at = some env.now;
    last_unhealthy_at = none;
  }
  checked_record env workload false = record workload {
    health_failures = workload.health_failures + 1;
    status = WorkloadStatus.unhealthy;
    last_health_check_at = some env.now;
    last_unhealthy_at = some env.now;
  }

  abbrev pub report_of : AgentEnv D → WorkloadRecord → Bool → AgentHealthReport
  report_of env updated is_healthy = record {
    node_id = env.settings.node_id;
    service_id = updated.service.service_id;
    healthy = is_healthy;
    consecutive_failures = updated.health_failures;
    observed_at = env.now;
    service_generation = none;
  }

  -- One workload at its address.
  unfoldable pub check_at : AgentEnv D → WorkloadRecord → String → AgentAction D AgentHealthReport
  unfolding save check_workload_health
  check_at env workload container_ip = do
    let located = record workload { container_ip = some container_ip }
    is_healthy ← check_workload_health env (health_url workload container_ip)
    let updated = checked_record env located is_healthy
    save env updated
    pure (report_of env updated is_healthy)

  -- The body of the loop: a report, or none for a workload that is skipped.
  unfoldable pub check_workload :
      AgentEnv D → WorkloadRecord → AgentAction D (Option AgentHealthReport)
  unfolding resolve_container_ip check_at
  check_workload env workload =
      if is_checked workload.status
      then (do
        container_ip? ← resolve_container_ip env workload
        elim container_ip? [
          | none ↦ pure none
          | some container_ip ↦ do report ← check_at env workload container_ip; pure (some report)
        ])
      else pure none

  unfoldable pub check_each :
      AgentEnv D → List WorkloadRecord → AgentAction D (List AgentHealthReport)
  unfolding check_workload
  check_each env [] = pure []
  check_each env (workload ∷ workloads) = do
    report? ← check_workload env workload
    reports ← check_each env workloads
    pure (elim report? [ none ↦ reports | some report ↦ report ∷ reports ])

  unfoldable pub health_check_all : AgentEnv D → AgentAction D (List AgentHealthReport)
  unfolding check_each
  health_check_all env = do workloads ← gets (λ w. list_workloads w.state); check_each env workloads
