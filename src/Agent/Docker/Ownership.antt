-- ===== src/Agent/Docker/Ownership.antt =====
-- The calls of agent/app/adapters/docker_adapter.py change no container but the service's own.
use orchestrator_thesis.Prelude.{
  ℕ, String, ◌≡◌, refl, sym, subst, true, ◌&&◌, Option, none, some, List, [], ◌∷◌, ◌==◌, inl, inr,
  Bool-cases, arith,
}
use orchestrator_thesis.Models.{ServiceSpec}
use orchestrator_thesis.Agent.{AgentError, api_error, docker_adapter_error}
use orchestrator_thesis.Agent.Watcher.{is_text}
use orchestrator_thesis.Agent.Docker.{
  RunRequest, Filter, DockerEnv, on_api_error, catching, find_container, find_container_by_name,
  container_id, container_ip, published_port, describe, run_container, deploy_new, deploy_over,
  deploy_sync, stop_sync, restart_sync, inspect_sync, adapter_of,
}
use orchestrator_thesis.Agent.Containers.{Container, is_owned, first_owned}
use orchestrator_thesis.Effect.{Outcome, returned, raised, Effect, ◌>>=◌}
use orchestrator_thesis.Effect.Keeps.{
  Keeps, Holds, Keeps-pure, Keeps-raise, Keeps-bind, Keeps-option, Keeps-if,
}

-- `P` says of docker's state what no client may change who only lists, shows and runs containers of
-- its own node, and changes ones with the labels of the node and the service. Showing a container
-- anew does not change its labels.
pub record IsRespected {D : Type 0} (P : D → Type 0) (env : DockerEnv D) (service_id : String)
    : Type 0 where
  pub lists : (filter : Filter) → Keeps P (env.sdk.list filter) (λ _. Unit)
  pub shows :
      (c : Container) → Keeps P (env.sdk.reload c) (λ (shown : Container). shown.labels ≡ c.labels)
  pub runs :
      (request : RunRequest)
      → request.node_id ≡ env.node_id
      → request.service_id ≡ service_id
      → Keeps P (env.sdk.run request) (λ _. Unit)
  pub removes :
      (c : Container)
      → is_owned env.node_id service_id c ≡ true
      → Keeps P (env.sdk.remove c) (λ _. Unit)
  pub stops :
      (c : Container)
      → is_owned env.node_id service_id c ≡ true
      → Keeps P (env.sdk.stop c) (λ _. Unit)
  pub restarts :
      (c : Container)
      → is_owned env.node_id service_id c ≡ true
      → Keeps P (env.sdk.restart c) (λ _. Unit)

first_owned-is_owned :
    (node_id service_id : String) (cs : List Container) (c : Container)
    → first_owned node_id service_id cs ≡ some c
    → is_owned node_id service_id c ≡ true
unfolding first_owned
first_owned-is_owned node_id service_id [] c h = absurd (cc h)
first_owned-is_owned node_id service_id (x ∷ xs) c h =
    elim (Bool-cases (is_owned node_id service_id x)) [
      | inl e ↦
          let same : x ≡ c = ground (arith, e, h) in
          subst (λ y. is_owned node_id service_id y ≡ true) same e
      | inr e ↦ first_owned-is_owned node_id service_id xs c (ground (arith, e, h))
    ]

still :
    (node_id service_id : String) (c shown : Container)
    → shown.labels ≡ c.labels
    → is_owned node_id service_id c ≡ true
    → is_owned node_id service_id shown ≡ true
still node_id service_id c shown same owned =
    let Owned : (String → Option String) → Type 0 = λ labels.
      (is_text (labels "orchestrator.managed") "true"
        && is_text (labels "orchestrator.service_id") service_id
        && is_text (labels "orchestrator.node_id") node_id)
      ≡ true in
    subst Owned (sym same) owned

module _ {D : Type 0} (P : D → Type 0) where
  caught :
      {A : Type 0} (Q : A → Type 0) (f : String → String → AgentError)
      (r : Outcome AgentError A × D)
      → P r.1 × Holds Q r.0
      → P (on_api_error f r).1 × Holds Q (on_api_error f r).0
  unfolding on_api_error
  caught Q f (returned a, d) h = h
  caught Q f (raised (api_error message explanation), d) h = (h.0, tt)
  caught Q f (raised (docker_adapter_error message), d) h = h
  caught Q f (raised (AgentError.docker_error message), d) h = h
  caught Q f (raised (AgentError.key_error message), d) h = h
  caught Q f (raised (AgentError.value_error message), d) h = h
  caught Q f (raised (AgentError.other_error message), d) h = h

  Keeps-catching :
      {A : Type 0} (Q : A → Type 0) (m : Effect AgentError D A) (f : String → String → AgentError)
      → Keeps P m Q
      → Keeps P (catching m f) Q
  unfolding catching
  Keeps-catching Q m f k = record { at = λ d p. caught Q f (m d) (k.at d p) }

module _ {D : Type 0} (P : D → Type 0) (env : DockerEnv D) (service_id : String)
    (respected : IsRespected P env service_id) where
  -- The call keeps `P`.
  abbrev KeepsAll : {A : Type 0} → Effect AgentError D A → Type 0
  KeepsAll m = Keeps P m (λ _. Unit)

  found :
      Keeps P
        (find_container env service_id)
        (λ o. (c : Container) → o ≡ some c → is_owned env.node_id service_id c ≡ true)
  unfolding find_container
  found =
      Keeps-bind _ _ _ _ _ (respected.lists _)
        (λ cs _. Keeps-pure _ _ _ (λ c e. first_owned-is_owned env.node_id service_id cs c e))

  describe-Keeps : (internal_port : ℕ) (c : Container) → KeepsAll (describe env internal_port c)
  unfolding describe container_id container_ip published_port
  describe-Keeps internal_port c =
      Keeps-bind _ _ _ _ _
        (Keeps-option _ _ c.id _ _ (λ _. Keeps-raise _ _ _)
          (λ id _.
            Keeps-if _ _ (id == "") _ _ (λ _. Keeps-raise _ _ _)
              (λ _. Keeps-pure _ (λ _. Unit) _ tt)))
        (λ id _.
          Keeps-bind _ _ _ _ _
            (Keeps-bind _ _ _ _ _ (respected.shows c) (λ _ _. Keeps-pure _ (λ _. Unit) _ tt))
            (λ ip _.
              Keeps-bind _ _ _ _ _
                (Keeps-bind _ _ _ _ _ (respected.shows c) (λ _ _. Keeps-pure _ (λ _. Unit) _ tt))
                (λ port _. Keeps-pure _ _ _ tt)))

  module _ (service : ServiceSpec) (own : service.service_id ≡ service_id) where
    deploy_new-Keeps : KeepsAll (deploy_new env service)
    unfolding deploy_new find_container_by_name run_container
    deploy_new-Keeps =
        Keeps-bind _ _ _ _ _
          (Keeps-bind _ _ _ _ _ (respected.lists _) (λ _ _. Keeps-pure _ (λ _. Unit) _ tt))
          (λ occupied _.
            Keeps-option _ _ occupied _ _
              (λ _. Keeps-catching P _ _ _ (
                Keeps-bind _ _ _ _ _ (respected.runs _ refl own) (λ created _.
                  Keeps-bind _ _ _ _ _ (respected.shows created)
                    (λ c _. describe-Keeps service.internal_port c))))
              (λ _ _. Keeps-raise _ _ _))

    deploy_over-Keeps :
        (c : Container)
        → is_owned env.node_id service_id c ≡ true
        → KeepsAll (deploy_over env service c)
    unfolding deploy_over
    deploy_over-Keeps c owned = Keeps-bind _ _ _ _ _ (respected.shows c) (λ shown same.
        Keeps-if _ _ (shown.status == "running") _ _
          (λ _. describe-Keeps service.internal_port shown)
          (λ _.
            Keeps-bind _ _ _ _ _
              (Keeps-catching P _ _ _
                (respected.removes shown (still env.node_id service_id c shown same owned)))
              (λ _ _. deploy_new-Keeps)))

  own_call :
      {A : Type 0} (absent : Effect AgentError D A) (call : Container → Effect AgentError D A)
      → KeepsAll absent
      → ((c : Container) → is_owned env.node_id service_id c ≡ true → KeepsAll (call c))
      → KeepsAll (find_container env service_id >>= λ o. elim o [ none ↦ absent | some c ↦ call c ])
  own_call absent call h k =
      Keeps-bind _ _ _ _ _ found
        (λ o owned. Keeps-option _ _ o _ _ (λ _. h) (λ c e. k c (owned c e)))

  -- Where docker keeps something through listing, showing and running a node's containers for a
  -- service and through changing its own, no method of the adapter for that service breaks it.
  pub adapter_of-Keeps :
      (service : ServiceSpec)
      → service.service_id ≡ service_id
      → Keeps P ((adapter_of env).deploy service) (λ _. Unit)
        × Keeps P ((adapter_of env).stop service_id) (λ _. Unit)
        × Keeps P ((adapter_of env).restart service_id) (λ _. Unit)
        × Keeps P ((adapter_of env).inspect service_id) (λ _. Unit)
  unfolding adapter_of deploy_sync stop_sync restart_sync inspect_sync
  adapter_of-Keeps service own = (
    subst
        (λ id.
          Keeps P
            (find_container env id >>= λ o. elim o [
              | none ↦ deploy_new env service
              | some c ↦ deploy_over env service c
            ])
            (λ _. Unit))
        (sym own)
        (own_call _ (deploy_over env service) (deploy_new-Keeps service own)
          (deploy_over-Keeps service own)),
    own_call _ _ (Keeps-pure _ _ _ tt)
        (λ c owned. Keeps-catching P _ _ _ (respected.stops c owned)),
    own_call _ _ (Keeps-raise _ _ _)
        (λ c owned. Keeps-catching P _ _ _ (respected.restarts c owned)),
    own_call _ _ (Keeps-pure _ _ _ tt) (λ c owned.
        Keeps-bind _ _ _ _ _ (respected.shows c)
          (λ shown _. Keeps-bind _ _ _ _ _ (describe-Keeps 0 shown) (λ _ _. Keeps-pure _ _ _ tt))),
  )
