-- ===== src/Outcome/Restart.antt =====
-- What an unhealthy report that the store agrees with does where a restart is called for.
use orchestrator_thesis.Prelude.{
  ℕ, ◌+◌, ◌≤◌, ◌*◌, max, String, Bool, true, false, ◌||◌, not, ◌≡◌, refl, ap, sym, ◌∙◌, subst, none,
  some, arith, List, ◌∷◌, eq_iff, leb, ltb, or_else,
}
use orchestrator_thesis.Table.{get, put}
use orchestrator_thesis.Models.{
  Time, seconds, RecoveryRecord, EventType, Detail, ServiceDesiredState, ServiceObservedState,
  NodeState, Placement, DeploymentStatus, ServiceHealth, AgentHealthReport, find_node,
}
use orchestrator_thesis.Store
use orchestrator_thesis.Store.{Store}
use orchestrator_thesis.World.{
  writes, modify, append_event, Env, ◌>>◌, World, None, Call, answer, returned, ◌>>=◌,
}
use orchestrator_thesis.SelfHealing.Recovery.{
  is_in_startup_grace, is_in_cooldown, try_acquire_recovery, is_recovering, is_before,
  release_recovery, restart_same_node, restart_succeeded, set_cooldown, restarted_observed,
}
use orchestrator_thesis.SelfHealing.{
  report_unhealthy, recover_from_failures, restart_or_reschedule, health_body, handle_health_report,
}
use orchestrator_thesis.SelfHealing.Guards.{IsCurrent, with_current-acts}
use orchestrator_thesis.Coherence.{IsCoherent}
use orchestrator_thesis.Outcome.{
  Yields, Yields-reads, Yields-writes, Yields-bind, Yields-pure, Yields-if, Yields-on_option,
  Yields-request, Yields-modify, Yields-updates, Yields-answer, Yields-some, Yields-gets,
  Yields-finally, Yields-in,
}

-- A test that holds does not fail.
passed : {b : Bool} → b ≡ true → ¬ (not b ≡ true)
passed {b = true} e f = cc
passed {b = false} e f = cc

failed : {b : Bool} → b ≡ false → ¬ (b ≡ true)
failed e f = cc

some_inj : {A : Type 0} {a b : A} → some a ≡ some b → a ≡ b
some_inj {a = a} e = ap (λ o. or_else o a) e

-- The service was asked to restart on the node, once: its generation is one more, it is observed to
-- run under that generation with a new grace period, and it is cooling down.
pub record IsRestarted (env : Env) (k : String) (node : NodeState) (at : Time) (w w' : World)
    : Type 0 where
  pub asked : w'.calls ≡ Call.restart node.agent_url k ∷ w.calls
  pub generation :
      Store.get_service_generation k w'.store ≡ Store.get_service_generation k w.store + 1
  pub state : ServiceObservedState
  pub observed : get w'.store.observed k ≡ some state
  pub runs : state.status ≡ DeploymentStatus.running
  pub current : state.service_generation ≡ Store.get_service_generation k w'.store
  pub graced :
      state.startup_grace_until ≡ some (at + seconds env.settings.startup_grace_period_seconds)
  pub cooling :
      get w'.cooldown_until k
      ≡ some (
          at
          + seconds (
              env.settings.reconciliation_interval_seconds
              * max 1 env.settings.cooldown_intervals_after_recovery))

module _ (env : Env) (k : String) (node : NodeState) (at : Time) (o : ServiceObservedState)
    (named : o.service_id ≡ k) where
  abbrev renewed : World → ServiceObservedState → World
  renewed w o' = record w {
    store =
        Store.set_service_observed
          (restarted_observed env o' (Store.increment_service_generation k w.store).1 at)
          (Store.increment_service_generation k w.store).0;
  }

  write_again :
      (w : World) (o' : ServiceObservedState)
      → o' ≡ o
      → Yields
          (writes (
            Store.set_service_observed
              (restarted_observed env o' (Store.increment_service_generation k w.store).1 at)))
          (record w { store = (Store.increment_service_generation k w.store).0 })
          (λ _ v. v ≡ renewed w o)
  unfolding ◌>>=◌
  write_again w o' same = record {
    value = tt;
    world = renewed w o';
    runs = refl;
    holds = ap (renewed w) same;
  }

  -- The end of a restart, from the world in which the new state is written.
  finish-IsRestarted :
      (r : RecoveryRecord) (t : EventType) (message : String) (details : List (String × Detail))
      (w w0 : World)
      → w.calls ≡ Call.restart node.agent_url k ∷ w0.calls
      → Store.get_service_generation k w.store ≡ Store.get_service_generation k w0.store
      → Yields
          (writes (Store.add_recovery_record r)
            >> (append_event env t message details >> modify (set_cooldown env k at)))
          (renewed w o)
          (λ _ w'. IsRestarted env k node at w0 w')
  unfolding Store.set_service_observed Store.increment_service_generation
      Store.get_service_generation Store.add_recovery_record append_event Store.append_event
      set_cooldown ◌>>=◌
  finish-IsRestarted r t message details w w0 asked same = record {
    value = tt;
    world = _;
    runs = refl;
    holds = record {
      asked = asked;
      generation = ground (arith, same, eq_iff k k);
      state = restarted_observed env o (Store.increment_service_generation k w.store).1 at;
      observed = ground (arith, named, eq_iff o.service_id k);
      runs = refl;
      current = ground (arith, eq_iff k k);
      graced = refl;
      cooling = ground (arith, eq_iff k k);
    };
  }

  restart_succeeded-IsRestarted :
      (w w0 : World)
      → get w.store.observed k ≡ some o
      → w.calls ≡ Call.restart node.agent_url k ∷ w0.calls
      → Store.get_service_generation k w.store ≡ Store.get_service_generation k w0.store
      → Yields (restart_succeeded env k node at) w (λ _ w'. IsRestarted env k node at w0 w')
  unfolding restart_succeeded Store.get_service_observed Store.increment_service_generation
  restart_succeeded-IsRestarted w w0 e asked same =
      let found : ¬ (get w.store.observed k ≡ none) = λ n. cc in
      Yields-updates w _ _ _ (
        Yields-reads _ _ _ _ (
          Yields-bind _ _ (λ _ v. v ≡ renewed w o) _ _
            (Yields-on_option _ _ (get w.store.observed k) _ _ (λ n. absurd (found n))
              λ o' e'. write_again w o' (some_inj (sym e' ∙ e)))
            λ _ w1 e1. Yields-in e1 (finish-IsRestarted _ _ _ _ w w0 asked same)))

  restart_same_node-IsRestarted :
      (w : World)
      → get w.store.observed k ≡ some o
      → env.remote.restart w.calls node.agent_url k ≡ returned (answer tt)
      → Yields (restart_same_node env k node at) w (λ _ w'. IsRestarted env k node at w w')
  unfolding restart_same_node Store.get_service_observed
  restart_same_node-IsRestarted w e done = Yields-reads w _ _ _ (
      Yields-request w _ _ _ _ _ done
        ((Yields-answer _ _ _ _ _ (restart_succeeded-IsRestarted _ w e refl refl))))

module _ (env : Env) (report : AgentHealthReport) (node : NodeState) (w : World) where
  -- The store agrees with the report, which is an unhealthy one past the grace period with the
  -- failures that the settings ask for; the service neither cools down nor is recovered; a restart
  -- is left, and the agent of the node answers it.
  pub record MayRestart : Type 0 where
    pub now : IsCurrent w.store report.service_id report.node_id report.service_generation
    pub unhealthy : report.healthy ≡ false
    pub ungraced : is_in_startup_grace now.observed report.observed_at ≡ false
    pub failures : env.settings.health_check_retries ≤ report.consecutive_failures
    pub uncooled : is_before report.observed_at (get w.cooldown_until report.service_id) ≡ false
    pub unclaimed :
        is_recovering
          (get w.active_recovery report.service_id)
          (Store.get_service_generation report.service_id w.store)
        ≡ false
    pub node_known : find_node (Store.list_nodes w.store) report.node_id ≡ some node
    pub restarts_left :
        (Store.get_restart_counter report.service_id env.now w.store).count + 1
        ≤ env.settings.max_restart_attempts
    pub answered :
        env.remote.restart w.calls node.agent_url report.service_id ≡ returned (answer tt)

  -- What the report leads to: one restart, and the recovery is over.
  abbrev pub Restarted : None → World → Type 0
  Restarted a w' =
      IsRestarted env report.service_id node report.observed_at w w'
      × (get w'.active_recovery report.service_id ≡ none)

  -- The world when the restart is asked for.
  abbrev counted : World → World
  counted v = record v {
    store = (Store.increment_restart_counter report.service_id env.now v.store).0;
  }

  released-Restarted :
      (o : ServiceObservedState) (w1 : World)
      → o.service_id ≡ report.service_id
      → get w1.store.observed report.service_id ≡ some o
      → w1.calls ≡ w.calls
      → w1.store.service_generation ≡ w.store.service_generation
      → env.remote.restart w.calls node.agent_url report.service_id ≡ returned (answer tt)
      → Yields
          (restart_same_node env report.service_id node report.observed_at)
          (counted w1)
          (λ a w'. Restarted a (release_recovery report.service_id w'))
  unfolding release_recovery Store.increment_restart_counter Store.get_service_generation
  released-Restarted o w1 named observed calls generation answered =
      let y =
        restart_same_node-IsRestarted env report.service_id node report.observed_at o named
          (counted w1) observed
          (subst (λ c. env.remote.restart c node.agent_url report.service_id ≡ returned (answer tt))
            (sym calls) answered) in
      record {
        value = y.value;
        world = y.world;
        runs = y.runs;
        holds = (
          record {
            asked =
                y.holds.asked ∙ ap (λ c. Call.restart node.agent_url report.service_id ∷ c) calls;
            generation =
                y.holds.generation ∙ ap (λ g. or_else (get g report.service_id) 0 + 1) generation;
            state = y.holds.state;
            observed = y.holds.observed;
            runs = y.holds.runs;
            current = y.holds.current;
            graced = y.holds.graced;
            cooling = y.holds.cooling;
          },
          ground (arith, eq_iff report.service_id report.service_id),
        );
      }

  -- The `try` past the guards.
  recover-Restarted :
      (stale o : ServiceObservedState) (p : Placement) (w1 : World)
      → MayRestart
      → o.service_id ≡ report.service_id
      → p.node_id ≡ report.node_id
      → get w1.store.observed report.service_id ≡ some o
      → w1.calls ≡ w.calls
      → w1.store.service_generation ≡ w.store.service_generation
      → w1.store.nodes ≡ w.store.nodes
      → w1.store.restart_counter ≡ w.store.restart_counter
      → Yields
          (recover_from_failures env report stale p)
          w1
          (λ a w'. Restarted a (release_recovery report.service_id w'))
  unfolding recover_from_failures restart_or_reschedule Store.list_nodes
      Store.increment_restart_counter Store.get_restart_counter
  recover-Restarted stale o p w1 m named on_node observed calls generation nodes counter =
      let found : find_node (Store.list_nodes w1.store) p.node_id ≡ some node =
        rw (on_node, nodes) m.node_known in
      let count = (Store.get_restart_counter report.service_id env.now w1.store).count + 1 in
      let few : leb count env.settings.max_restart_attempts ≡ true =
        ground (arith, m.restarts_left, counter) in
      Yields-reads w1 _ _ _ (
        rw found (
          Yields-some _ _ _ _ _ (
            Yields-updates _ _ _ _ (
              Yields-if _ _ _ _ _ (λ t. absurd (passed few t))
                λ _.
                  Yields-some _ _ _ _ _
                    (released-Restarted o w1 named observed calls generation m.answered)))))

  -- The service is claimed for its recovery.
  claimed :
      (g : ℕ) (v : World)
      → is_recovering (get v.active_recovery report.service_id) g ≡ false
      → Yields (try_acquire_recovery report.service_id g) v (λ b v'.
        (b ≡ true)
        × (v' ≡ record v { active_recovery = put v.active_recovery report.service_id g }))
  unfolding try_acquire_recovery
  claimed g v e = Yields-gets v _ _ _ (
      Yields-if v _ (is_recovering (get v.active_recovery report.service_id) g) _ _
        (λ t. absurd (failed e t)) λ _. Yields-modify v _ _ _ (Yields-pure _ _ true (refl, refl)))

  body-Restarted :
      (d : ServiceDesiredState) (g : ℕ) (c : IsCoherent w.store) (m : MayRestart)
      (unclaimed : is_recovering (get w.active_recovery report.service_id) g ≡ false)
      → Yields (health_body env report m.now.observed d m.now.placement g) w Restarted
  unfolding health_body report_unhealthy is_in_cooldown Store.set_service_observed
  body-Restarted d g c m unclaimed =
      let named = (c.service report.service_id).observed_named m.now.observed m.now.is_observed in
      let patient : (ltb report.consecutive_failures env.settings.health_check_retries
            || is_before report.observed_at (get w.cooldown_until report.service_id))
          ≡ false =
        ground (arith, m.failures, m.uncooled) in
      Yields-if w _ _ _ _ (λ t. absurd (failed m.unhealthy t))
        λ _.
          Yields-if w _ _ _ _ (λ t. absurd (failed m.ungraced t))
            λ _. Yields-writes w _ _ _ (
              Yields-gets _ _ _ _ (
                Yields-if _ _
                  (ltb report.consecutive_failures env.settings.health_check_retries
                    || is_before report.observed_at (get w.cooldown_until report.service_id))
                  _ _ (λ t. absurd (failed patient t))
                  λ _. Yields-bind _ _ _ _ _ (claimed g _ unclaimed) λ b w1 h.
                    Yields-if w1 _ _ _ _ (λ t. absurd (passed h.0 t))
                      λ _. Yields-in h.1 (
                        Yields-finally _ _ _ _ (
                          recover-Restarted m.now.observed
                            (record m.now.observed {
                              health = ServiceHealth.unhealthy;
                              last_reported_at = report.observed_at;
                            })
                            m.now.placement _ m named m.now.on_node
                            (ground
                              (arith, named, eq_iff m.now.observed.service_id report.service_id))
                            refl refl refl refl))))

  -- In a coherent store, an unhealthy report that agrees with it, past the grace period and with
  -- enough failures, while the service neither cools down nor is recovered, its node is known and a
  -- restart is left, leads to one request, the restart on that node. If the agent answers it, the
  -- handler returns, the generation is one more, the service is observed to run under the new
  -- generation with a new grace period and is cooling down, and its recovery is over.
  pub handle_health_report-IsRestarted :
      IsCoherent w.store → MayRestart → Yields (handle_health_report env report) w Restarted
  unfolding handle_health_report
  handle_health_report-IsRestarted c m =
      let y = body-Restarted m.now.desired _ c m m.unclaimed in
      record {
        value = y.value;
        world = y.world;
        runs =
            with_current-acts report.service_id report.node_id report.service_generation _ w m.now
            ∙ y.runs;
        holds = y.holds;
      }
