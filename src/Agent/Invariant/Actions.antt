-- ===== src/Agent/Invariant/Actions.antt =====
-- The agent's workload manager keeps its records sound.
use orchestrator_thesis.Prelude.{
  String, ◌≡◌, refl, sym, ap, subst, Bool, true, false, Option, some, List, [], ◌∷◌, arith, All,
}
use orchestrator_thesis.Names.{All-sorted}
use orchestrator_thesis.Table.{Table, All-values}
use orchestrator_thesis.Models.{ServiceSpec}
use orchestrator_thesis.Agent.{AgentLocalState, WorkloadRecord, AgentError, is_checked}
use orchestrator_thesis.Agent.State.{get_workload, list_workloads}
use orchestrator_thesis.Agent.Adapter.{AgentEnv, AgentWorld, AgentAction, on_docker}
use orchestrator_thesis.Agent.Workloads.{
  already_running, save, settle, deployed_record, deploy_container, deploy, stop_workload, stop,
  restart_workload, restart, inspect_each, get_local_state,
}
use orchestrator_thesis.Agent.Health.{
  check_workload_health, resolve_container_ip, checked_record, check_at, check_workload, check_each,
  health_check_all,
}
use orchestrator_thesis.Agent.Health.Attempts.{check_workload_health-IsChecked}
use orchestrator_thesis.Agent.Invariant.{IsSound, IsKept, upsert_workload-IsKept}
use orchestrator_thesis.Effect.{Outcome, returned, raised, Effect, gets}
use orchestrator_thesis.Effect.Ends.{Ends, Ends-mono, Comes}
use orchestrator_thesis.Effect.Keeps.{
  Keeps, Keeps-pure, Keeps-raise, Keeps-gets, Keeps-modify, Keeps-bind, Keeps-option, Keeps-if,
  Holds-unit,
}

-- The invariant, of the state that an action runs in.
abbrev pub KeptIn : (D : Type 0) → AgentWorld D → Type 0
KeptIn D w = IsKept w.state

-- The action keeps it.
abbrev pub KeepsSound : {D A : Type 0} → AgentAction D A → Type 0
KeepsSound {D} m = Keeps (KeptIn D) m (λ _. Unit)

list_workloads-IsSound :
    (s : AgentLocalState) → IsKept s → All (λ r. IsSound r.service.service_id r) (list_workloads s)
unfolding list_workloads get_workload
list_workloads-IsSound s kept = All-sorted _ _ _ (
    All-values _ s.workloads
      (λ k r h. let sound = kept.at k r h in subst (λ j. IsSound j r) (sym sound.keyed) sound))

module _ {D : Type 0} (env : AgentEnv D) where
  on_docker-KeepsSound : {A : Type 0} (call : Effect AgentError D A) → KeepsSound (on_docker call)
  unfolding on_docker
  on_docker-KeepsSound call = record { at = λ w h. (h, Holds-unit (call w.docker).0) }

  save-KeepsSound : (r : WorkloadRecord) → IsSound r.service.service_id r → KeepsSound (save env r)
  unfolding save
  save-KeepsSound r sound =
      Keeps-modify _ _ (λ w h. upsert_workload-IsKept env.now r w.state sound h)

  settle-KeepsSound : {A : Type 0} (r : Outcome AgentError A) → KeepsSound (settle {D = D} r)
  unfolding settle
  settle-KeepsSound (returned a) = Keeps-pure _ _ a tt
  settle-KeepsSound (raised e) = Keeps-raise _ _ e

  known :
      (service_id : String)
      → Keeps
          (KeptIn D)
          (gets {E = AgentError} (λ w. get_workload service_id w.state))
          (λ o. (r : WorkloadRecord) → o ≡ some r → IsSound service_id r)
  known service_id = Keeps-gets _ _ _ (λ w h r e. h.at service_id r e)

  deploy_container-KeepsSound : (service : ServiceSpec) → KeepsSound (deploy_container env service)
  unfolding deploy_container
  deploy_container-KeepsSound service =
      Keeps-bind _ _ _ _ _ (on_docker-KeepsSound _) (λ container _.
        Keeps-bind _ _ _ _ _
          (save-KeepsSound (deployed_record env service container)
            (record { keyed = refl; contained = refl; fits = refl }))
          (λ _ _. Keeps-pure _ _ _ tt))

  -- deploy keeps it.
  pub deploy-KeepsSound : (service : ServiceSpec) → KeepsSound (deploy env service)
  unfolding deploy
  deploy-KeepsSound service =
      Keeps-bind _ _ _ (λ _. Unit) _ (Keeps-gets _ _ _ (λ _ _. tt))
        (λ workloads _. Keeps-bind _ _ _ _ _ (settle-KeepsSound _) (λ service_with_port _.
          Keeps-bind _ _ _ _ _ (known service.service_id) (λ current sound.
            Keeps-bind _ _ _ _ _ (on_docker-KeepsSound _) (λ existing_local _.
              Keeps-option _ _ (already_running current existing_local) _ _
                (λ _. deploy_container-KeepsSound service_with_port)
                (λ container_id _. Keeps-pure _ _ _ tt)))))

  stop_workload-KeepsSound :
      (service_id : String) (current : WorkloadRecord)
      → IsSound service_id current
      → KeepsSound (stop_workload env service_id current)
  unfolding stop_workload
  stop_workload-KeepsSound service_id current sound =
      Keeps-bind _ _ _ _ _ (on_docker-KeepsSound _) (λ _ _.
        Keeps-bind _ _ _ _ _
          (save-KeepsSound _ (record { keyed = refl; contained = sound.contained; fits = refl }))
          (λ _ _. Keeps-pure _ _ _ tt))

  -- stop keeps it.
  pub stop-KeepsSound : (service_id : String) → KeepsSound (stop env service_id)
  unfolding stop
  stop-KeepsSound service_id = Keeps-bind _ _ _ _ _ (known service_id) (λ current sound.
      Keeps-option _ _ current _ _ (λ _. Keeps-pure _ _ _ tt)
        (λ r e. stop_workload-KeepsSound service_id r (sound r e)))

  restart_workload-KeepsSound :
      (service_id : String) (current : WorkloadRecord)
      → IsSound service_id current
      → KeepsSound (restart_workload env service_id current)
  unfolding restart_workload
  restart_workload-KeepsSound service_id current sound =
      Keeps-bind _ _ _ _ _ (on_docker-KeepsSound _) (λ _ _.
        Keeps-bind _ _ _ _ _
          (save-KeepsSound _ (record { keyed = refl; contained = sound.contained; fits = refl }))
          (λ _ _. Keeps-pure _ _ _ tt))

  -- restart keeps it.
  pub restart-KeepsSound : (service_id : String) → KeepsSound (restart env service_id)
  unfolding restart
  restart-KeepsSound service_id = Keeps-bind _ _ _ _ _ (known service_id) (λ current sound.
      Keeps-option _ _ current _ _ (λ _. Keeps-raise _ _ _)
        (λ r e. restart_workload-KeepsSound service_id r (sound r e)))

  resolve_container_ip-KeepsSound :
      (r : WorkloadRecord)
      → IsSound r.service.service_id r
      → KeepsSound (resolve_container_ip env r)
  unfolding resolve_container_ip
  resolve_container_ip-KeepsSound r sound =
      Keeps-option _ _ r.container_ip _ _
        (λ _. Keeps-bind _ _ _ _ _ (on_docker-KeepsSound _) (λ refreshed _.
          Keeps-option _ _ refreshed _ _ (λ _. Keeps-pure _ _ _ tt)
            (λ container _.
              Keeps-option _ _ container.container_ip _ _ (λ _. Keeps-pure _ _ _ tt)
                (λ ip _.
                  Keeps-bind _ _ _ _ _
                    (save-KeepsSound _
                      (record { keyed = refl; contained = sound.contained; fits = sound.fits }))
                    (λ _ _. Keeps-pure _ _ _ tt)))))
        (λ _ _. Keeps-pure _ _ _ tt)

  checked_record-IsSound :
      (r : WorkloadRecord) (ok : Bool)
      → IsSound r.service.service_id r
      → IsSound (checked_record env r ok).service.service_id (checked_record env r ok)
  checked_record-IsSound r true sound = record {
    keyed = refl;
    contained = sound.contained;
    fits = refl;
  }
  checked_record-IsSound r false sound = record {
    keyed = refl;
    contained = sound.contained;
    fits = omega arith;
  }

  -- A health check changes no record.
  Checked-state :
      (url : String) (w : AgentWorld D)
      → Ends
          (λ (ok : Bool) w'. w'.state ≡ w.state)
          (λ e w'. w'.state ≡ w.state)
          (check_workload_health env url)
          w
  Checked-state url w =
      Ends-mono (check_workload_health-IsChecked env url w)
        (λ ok w' c. ap (λ (v : AgentWorld D). v.state) c.ends)
        (λ e w' b. ap (λ (v : AgentWorld D). v.state) b.ends)

  same_state :
      (w : AgentWorld D) (r : Outcome AgentError Bool × AgentWorld D)
      → Comes (λ ok w'. w'.state ≡ w.state) (λ e w'. w'.state ≡ w.state) r
      → r.1.state ≡ w.state
  same_state w (returned ok, w') h = h
  same_state w (raised e, w') h = h

  checks-KeepsSound : (url : String) → KeepsSound (check_workload_health env url)
  checks-KeepsSound url = record {
    at = λ w h.
        let r = check_workload_health env url w in
        (subst IsKept (sym (same_state w r (Checked-state url w).at)) h, Holds-unit r.0);
  }

  check_at-KeepsSound :
      (r : WorkloadRecord) (container_ip : String)
      → IsSound r.service.service_id r
      → KeepsSound (check_at env r container_ip)
  unfolding check_at
  check_at-KeepsSound r container_ip sound = Keeps-bind _ _ _ _ _ (checks-KeepsSound _) (λ ok _.
      Keeps-bind _ _ _ _ _
        (save-KeepsSound _ (
          checked_record-IsSound (record r { container_ip = some container_ip }) ok
            (record { keyed = refl; contained = sound.contained; fits = sound.fits })))
        (λ _ _. Keeps-pure _ _ _ tt))

  check_workload-KeepsSound :
      (r : WorkloadRecord) → IsSound r.service.service_id r → KeepsSound (check_workload env r)
  unfolding check_workload
  check_workload-KeepsSound r sound =
      Keeps-if _ _ (is_checked r.status) _ _
        (λ _. Keeps-bind _ _ _ _ _ (resolve_container_ip-KeepsSound r sound) (λ ip? _.
          Keeps-option _ _ ip? _ _ (λ _. Keeps-pure _ _ _ tt)
            (λ ip _.
              Keeps-bind _ _ _ _ _ (check_at-KeepsSound r ip sound) (λ _ _. Keeps-pure _ _ _ tt))))
        (λ _. Keeps-pure _ _ _ tt)

  check_each-KeepsSound :
      (rs : List WorkloadRecord)
      → All (λ r. IsSound r.service.service_id r) rs
      → KeepsSound (check_each env rs)
  unfolding check_each
  check_each-KeepsSound [] h = Keeps-pure _ _ _ tt
  check_each-KeepsSound (r ∷ rs) h =
      Keeps-bind _ _ _ _ _ (check_workload-KeepsSound r h.0)
        (λ _ _. Keeps-bind _ _ _ _ _ (check_each-KeepsSound rs h.1) (λ _ _. Keeps-pure _ _ _ tt))

  -- health_check_all keeps it.
  pub health_check_all-KeepsSound : KeepsSound (health_check_all env)
  unfolding health_check_all
  health_check_all-KeepsSound =
      Keeps-bind _ _ _ (λ rs. All (λ r. IsSound r.service.service_id r) rs) _
        (Keeps-gets _ _ _ (λ w h. list_workloads-IsSound w.state h)) check_each-KeepsSound

  inspect_each-KeepsSound :
      (workload_of : String → Option WorkloadRecord) (ids : List String)
      (found : Table WorkloadRecord)
      → KeepsSound (inspect_each env workload_of ids found)
  unfolding inspect_each
  inspect_each-KeepsSound workload_of [] found = Keeps-pure _ _ _ tt
  inspect_each-KeepsSound workload_of (id ∷ ids) found =
      Keeps-bind _ _ _ _ _ (on_docker-KeepsSound _)
        (λ container? _. inspect_each-KeepsSound workload_of ids _)

  -- get_local_state keeps it.
  pub get_local_state-KeepsSound : KeepsSound (get_local_state env)
  unfolding get_local_state
  get_local_state-KeepsSound =
      Keeps-bind _ _ _ (λ _. Unit) _ (Keeps-gets _ _ _ (λ _ _. tt))
        (λ state _.
          Keeps-bind _ _ _ _ _ (inspect_each-KeepsSound _ _ _) (λ _ _. Keeps-pure _ _ _ tt))
