-- ===== src/Agent/Workloads/Results.antt =====
-- What deploy, stop and restart of agent/app/services/workload_manager.py leave on record.
use orchestrator_thesis.Prelude.{
  ℕ, String, ◌≡◌, refl, ap, ◌∙◌, subst, inl, inr, true, Option, none, some, eq_refl, arith,
  Option-cases,
}
use orchestrator_thesis.Models.{ServiceSpec}
use orchestrator_thesis.Agent.{
  AgentLocalState, WorkloadRecord, WorkloadStatus, running, AgentError, ContainerInfo,
  ExecuteResponse, is_running,
}
use orchestrator_thesis.Agent.State.{upsert_workload, get_workload, list_workloads}
use orchestrator_thesis.Agent.Adapter.{AgentEnv, AgentWorld, on_docker}
use orchestrator_thesis.Agent.Ports.Choice.{
  ensure_published_port-same_id, ensure_published_port-kept,
}
use orchestrator_thesis.Agent.Workloads.{
  already_running, deploy_unless, save, settle, deployed_record, deploy_container, deploy, response,
}
use orchestrator_thesis.Effect.{Outcome, returned, raised, Effect, pure, gets, bind_returned}
use orchestrator_thesis.Effect.Ends.{
  Ends, Comes-either, Ends-bind, Ends-option, Ends-gets, Ends-modify, Ends-pure, Ends-raise,
}

-- The workload is on record with a status, no failures, and a container id.
pub record IsRecorded (s : AgentLocalState) (service_id : String) (status : WorkloadStatus)
    (container_id : Option String) : Type 0 where
  pub workload : WorkloadRecord
  pub known : get_workload service_id s ≡ some workload
  pub has_status : workload.status ≡ status
  pub has_id : workload.container_id ≡ container_id

is_running-true : (s : WorkloadStatus) → is_running s ≡ true → s ≡ running
is_running-true running h = refl
is_running-true WorkloadStatus.stopped h = ground arith
is_running-true WorkloadStatus.pending h = ground arith
is_running-true WorkloadStatus.unhealthy h = ground arith

already_running-some :
    (current : Option WorkloadRecord) (existing : Option ContainerInfo) (id : String)
    → already_running current existing ≡ some id
    → (r : WorkloadRecord) × (current ≡ some r) × (r.status ≡ running) × (r.container_id ≡ some id)
unfolding already_running
already_running-some none existing id h = ground arith
already_running-some (some r) none id h = ground arith
already_running-some (some r) (some c) id h = elim (Option-cases r.container_id) [
  | inl e ↦ ground (arith, e)
  | inr (known, e) ↦ (r, refl, is_running-true r.status (ground (arith, e)), ground (arith, e))
]

pub get_workload-upsert_workload :
    (now : ℕ) (r : WorkloadRecord) (s : AgentLocalState)
    → get_workload r.service.service_id (upsert_workload now r s) ≡ some r
unfolding get_workload upsert_workload
get_workload-upsert_workload now r s = rw (eq_refl r.service.service_id) refl

already_running-shown :
    (r : WorkloadRecord) (c : ContainerInfo) (id : String)
    → r.status ≡ running
    → r.container_id ≡ some id
    → c.container_id ≡ id
    → already_running (some r) (some c) ≡ some id
unfolding already_running
already_running-shown r c id runs named same = rw (named, runs, same, eq_refl id) refl

module _ {D : Type 0} where
  pub Ends-on_docker :
      {A : Type 0} (Q : A → AgentWorld D → Type 0) (F : AgentError → AgentWorld D → Type 0)
      (w : AgentWorld D) (call : Effect AgentError D A)
      → ((a : A) (d : D) → Q a (record w { docker = d }))
      → ((e : AgentError) (d : D) → F e (record w { docker = d }))
      → Ends Q F (on_docker call) w
  unfolding on_docker
  Ends-on_docker Q F w call h k = record {
    at = Comes-either Q F (call w.docker).0 _ (λ a _. h a _) (λ e _. k e _);
  }

  Ends-settle :
      {A : Type 0} (Q : A → AgentWorld D → Type 0) (F : AgentError → AgentWorld D → Type 0)
      (w : AgentWorld D) (r : Outcome AgentError A)
      → ((a : A) → r ≡ returned a → Q a w)
      → ((e : AgentError) → F e w)
      → Ends Q F (settle r) w
  unfolding settle
  Ends-settle Q F w (returned a) h k = Ends-pure Q F w a (h a refl)
  Ends-settle Q F w (raised e) h k = Ends-raise Q F w e (k e)

  -- An exception leaves the records as they were.
  abbrev pub Unchanged : AgentWorld D → AgentError → AgentWorld D → Type 0
  Unchanged w e w' = w'.state ≡ w.state

  -- The service is on record as running in the container of the answer.
  abbrev pub RunsIn : String → ExecuteResponse → AgentWorld D → Type 0
  RunsIn service_id reply w = IsRecorded w.state service_id running (some reply.container_id)

  deploy_container-IsRecorded :
      (env : AgentEnv D) (service : ServiceSpec) (w w0 : AgentWorld D)
      → w.state ≡ w0.state
      → Ends (RunsIn service.service_id) (Unchanged w0) (deploy_container env service) w
  unfolding deploy_container save
  deploy_container-IsRecorded env service w w0 same = Ends-bind _ _ _ _ _ (
      Ends-on_docker _ _ _ _
        (λ container d. Ends-bind _ _ _ _ _ (
          Ends-modify _ _ _ _ (
            Ends-pure _ _ _ _ (record {
              workload = deployed_record env service container;
              known =
                  get_workload-upsert_workload env.now (deployed_record env service container)
                    w.state;
              has_status = refl;
              has_id = refl;
            }))))
        (λ _ _. same))

  -- A deployment that returns leaves the service on record as running, in the container that the
  -- answer names; one that raises leaves the records as they were.
  pub deploy-IsRecorded :
      (env : AgentEnv D) (service : ServiceSpec) (w : AgentWorld D)
      → Ends (RunsIn service.service_id) (Unchanged w) (deploy env service) w
  unfolding deploy
  deploy-IsRecorded env service w = Ends-bind _ _ _ _ _ (
      Ends-gets _ _ _ _ (
        Ends-bind _ _ _ _ _ (
          Ends-settle _ _ _ _
            (λ service_with_port ported. Ends-bind _ _ _ _ _ (
              Ends-gets _ _ _ _ (
                Ends-bind _ _ _ _ _ (
                  Ends-on_docker _ _ _ _
                    (λ existing_local d.
                      Ends-option _ _ _
                        (already_running (get_workload service.service_id w.state) existing_local) _
                        _
                        (λ _.
                          subst
                            (λ id.
                              Ends (RunsIn id) (Unchanged w)
                                (deploy_container env service_with_port) (record w { docker = d }))
                            (ensure_published_port-same_id env.crc32 env.settings service _ ported)
                            (deploy_container-IsRecorded env service_with_port _ w refl))
                        (λ container_id e.
                          let (r, known, runs, named) =
                            already_running-some _ existing_local container_id e in
                          Ends-pure _ _ _ _ (record {
                            workload = r;
                            known = known;
                            has_status = runs;
                            has_id = named;
                          })))
                    (λ _ _. refl)))))
            (λ _. refl))))

  -- The container of the answer, as docker shows it then.
  pub record IsShown (env : AgentEnv D) (service_id container_id : String) (w : AgentWorld D)
      : Type 0 where
    pub container : ContainerInfo
    pub docker : D
    pub shows : env.adapter.inspect service_id w.docker ≡ (returned (some container), docker)
    pub same : container.container_id ≡ container_id

  -- Asked again for a service with a port that runs as recorded, in a container that docker still
  -- shows, deploy answers at once and changes no record.
  pub deploy-again :
      (env : AgentEnv D) (service : ServiceSpec) (w : AgentWorld D) (port : ℕ)
      (container_id : String)
      → service.published_port ≡ some port
      → IsRecorded w.state service.service_id running (some container_id)
      → (shown : IsShown env service.service_id container_id w)
      → deploy env service w ≡ (
        returned (response env.settings service.service_id container_id "already_running"),
        record w { docker = shown.docker },
      )
  unfolding deploy on_docker settle gets pure
  deploy-again env service w port container_id ported known shown =
      let r = known.workload in
      let w' : AgentWorld D = record w { docker = shown.docker } in
      let found : already_running (get_workload service.service_id w.state) (some shown.container)
          ≡ some container_id =
        ap (λ o. already_running o (some shown.container)) known.known
        ∙ already_running-shown r shown.container container_id known.has_status known.has_id
            shown.same in
      bind_returned _ _ w {a = list_workloads w.state} {s' = w} refl
      ∙ bind_returned _ _ w {s' = w} (
          ap (λ o. settle o w) (ensure_published_port-kept env.crc32 env.settings service _ ported))
      ∙ bind_returned _ _ w {a = get_workload service.service_id w.state} {s' = w} refl
      ∙ bind_returned _ _ w {s' = w'} (ap (λ r. (r.0, record w { docker = r.1 })) shown.shows)
      ∙ ap (λ o. deploy_unless env service.service_id service o w') found
