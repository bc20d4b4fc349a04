-- ===== src/Agent/Health/Reports.antt =====
-- The report of a health check of agent/app/services/workload_manager.py and the record after it.
use orchestrator_thesis.Prelude.{
  ℕ, ◌+◌, String, ◌≡◌, refl, sym, ap, ◌∙◌, Bool, true, false, some, List,
}
use orchestrator_thesis.Models.{AgentHealthReport}
use orchestrator_thesis.Agent.{
  other_error, WorkloadRecord, WorkloadStatus, running, unhealthy, AgentLocalState,
}
use orchestrator_thesis.Agent.State.{upsert_workload, get_workload}
use orchestrator_thesis.Agent.Adapter.{AgentEnv, AgentWorld, other_exception}
use orchestrator_thesis.Agent.Workloads.{save}
use orchestrator_thesis.Agent.Workloads.Results.{get_workload-upsert_workload}
use orchestrator_thesis.Agent.Health.{checked_record, report_of, check_at, health_url}
use orchestrator_thesis.Agent.Health.Attempts.{check_workload_health-IsChecked}
use orchestrator_thesis.Effect.Ends.{Ends, Ends-mono, Ends-bind, Ends-modify, Ends-pure}

-- The count of failures and the status after a check.
abbrev pub failures_after : ℕ → Bool → ℕ
failures_after failures true = 0
failures_after failures false = failures + 1

abbrev pub status_after : Bool → WorkloadStatus
status_after true = running
status_after false = unhealthy

-- The report says of the service what the record then says, and both count the failures on from the
-- record before.
pub record IsReported (node_id : String) (before : WorkloadRecord) (report : AgentHealthReport)
    (s : AgentLocalState) : Type 0 where
  pub after : WorkloadRecord
  pub known : get_workload before.service.service_id s ≡ some after
  pub status : after.status ≡ status_after report.healthy
  pub failures : after.health_failures ≡ failures_after before.health_failures report.healthy
  pub counted : report.consecutive_failures ≡ after.health_failures
  pub same_service : report.service_id ≡ before.service.service_id
  pub from_node : report.node_id ≡ node_id

checked_record-IsReported :
    {D : Type 0} (env : AgentEnv D) (r : WorkloadRecord) (ok : Bool) (s : AgentLocalState)
    → IsReported env.settings.node_id r
        (report_of env (checked_record env r ok) ok)
        (upsert_workload env.now (checked_record env r ok) s)
checked_record-IsReported env r true s = record {
  after = checked_record env r true;
  known = get_workload-upsert_workload env.now (checked_record env r true) s;
  status = refl;
  failures = refl;
  counted = refl;
  same_service = refl;
  from_node = refl;
}
checked_record-IsReported env r false s = record {
  after = checked_record env r false;
  known = get_workload-upsert_workload env.now (checked_record env r false) s;
  status = refl;
  failures = refl;
  counted = refl;
  same_service = refl;
  from_node = refl;
}

again :
    {D : Type 0} (env : AgentEnv D) (r located : WorkloadRecord)
    (same : located.service ≡ r.service)
    → located.health_failures ≡ r.health_failures
    → (ok : Bool) (s : AgentLocalState)
    → IsReported env.settings.node_id r
        (report_of env (checked_record env located ok) ok)
        (upsert_workload env.now (checked_record env located ok) s)
again env r located same counts ok s =
    let i = checked_record-IsReported env located ok s in
    record {
      after = i.after;
      known =
          ap
            (λ v.
              get_workload v.service_id (upsert_workload env.now (checked_record env located ok) s))
            (sym same)
          ∙ i.known;
      status = i.status;
      failures = i.failures ∙ ap (λ n. failures_after n ok) counts;
      counted = i.counted;
      same_service = i.same_service ∙ ap (λ v. v.service_id) same;
      from_node = i.from_node;
    }

-- A check of a workload at an address that returns gives a report that names the node and the service,
-- counts no failure if the service is healthy and else one more than were on record, and the record
-- then has that count and the status that goes with it. It raises only an exception of a request that
-- is not an `HTTPError`, and then no record has changed.
pub check_at-IsReported :
    {D : Type 0} (env : AgentEnv D) (r : WorkloadRecord) (container_ip : String) (w : AgentWorld D)
    → Ends
        (λ (report : AgentHealthReport) (w' : AgentWorld D).
          IsReported env.settings.node_id r report w'.state)
        (λ e w'.
          ((message : String) × (requests : List String) × (env.http_get requests
                (health_url r container_ip)
              ≡ other_exception message)
            × (e ≡ other_error message))
          × (w'.state ≡ w.state))
        (check_at env r container_ip)
        w
unfolding check_at save
check_at-IsReported {D} env r container_ip w =
    let located : WorkloadRecord = record r { container_ip = some container_ip } in
    Ends-bind _ _ _ _ _ (
      Ends-mono (check_workload_health-IsChecked env (health_url r container_ip) w)
        (λ ok w' checked.
          Ends-bind _ _ _ _ _
            (Ends-modify _ _ _ _ (Ends-pure _ _ _ _ (again env r located refl refl ok w'.state))))
        (λ e w' broken. (
          (broken.message, _, broken.replied, broken.same),
          ap (λ (v : AgentWorld D). v.state) broken.ends,
        )))
