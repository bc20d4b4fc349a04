-- ===== src/Coherence/Rules.antt =====
-- Every update of the store that the actions make keeps the invariant.
use orchestrator_thesis.Prelude.{
  ℕ, ◌≤◌, String, ◌≡◌, Bool, true, false, ◌||◌, not, length, List, arith, eq_iff,
}
use orchestrator_thesis.Table.{Table}
use orchestrator_thesis.Models.{
  ServiceObservedState, ServiceDesiredState, Placement, PendingDeployment, RecoveryRecord,
  RestartCounter, NodeState, EventRecord, is_running,
}
use orchestrator_thesis.Store
use orchestrator_thesis.Store.{Store}
use orchestrator_thesis.Coherence.{At}

-- The store with other nodes, counters, logs and locks.
abbrev pub aside :
    Store
    → Table NodeState
    → Table RestartCounter
    → List EventRecord
    → List RecoveryRecord
    → Table ℕ
    → ℕ
    → Store
aside s nodes counters events history locks made = record s {
  nodes = nodes;
  restart_counter = counters;
  events = events;
  recovery_history = history;
  service_locks = locks;
  locks_made = made;
}

-- An update of the store that leaves every service in order leaves the store coherent.
module _ (k : String) (n : ℕ) (b : Bool) where
  pub At-set_service_observed :
      (o : ServiceObservedState) (s : Store)
      → o.service_id ≡ k
      → o.service_generation ≤ n
      → (b || not (is_running o.status)) ≡ true
      → At k n b s
      → At k n b (Store.set_service_observed o s)
  unfolding Store.set_service_observed Store.get_service_generation
  At-set_service_observed o s named bound runs a = record {
    coherent = record {
      service = λ j. record {
        desired_named = (a.coherent.service j).desired_named;
        observed_named =
            λ p e. ground (arith, (a.coherent.service j).observed_named p, eq_iff o.service_id j);
        placement_named = (a.coherent.service j).placement_named;
        pending_named = (a.coherent.service j).pending_named;
        fresh = λ p e. ground (arith, (a.coherent.service j).fresh p, eq_iff o.service_id j);
        placed = λ p e r. ground (arith, (a.coherent.service j).placed p, eq_iff o.service_id j);
      };
      events = a.coherent.events;
      history = a.coherent.history;
    };
    reached = a.reached;
    known_placed = a.known_placed;
  }

  pub At-set_service_desired :
      (d : ServiceDesiredState) (s : Store) → At k n b s → At k n b (Store.set_service_desired d s)
  unfolding Store.set_service_desired Store.get_service_generation
  At-set_service_desired d s a = record {
    coherent = record {
      service = λ j. record {
        desired_named = λ p e.
            ground (arith, (a.coherent.service j).desired_named p, eq_iff d.service.service_id j);
        observed_named = (a.coherent.service j).observed_named;
        placement_named = (a.coherent.service j).placement_named;
        pending_named = (a.coherent.service j).pending_named;
        fresh = (a.coherent.service j).fresh;
        placed = (a.coherent.service j).placed;
      };
      events = a.coherent.events;
      history = a.coherent.history;
    };
    reached = a.reached;
    known_placed = a.known_placed;
  }

  pub At-set_placement :
      (p : Placement) (s : Store)
      → p.service_id ≡ k
      → At k n b s
      → At k n true (Store.set_placement p s)
  unfolding Store.set_placement Store.get_service_generation
  At-set_placement p s named a = record {
    coherent = record {
      service = λ j. record {
        desired_named = (a.coherent.service j).desired_named;
        observed_named = (a.coherent.service j).observed_named;
        placement_named =
            λ q e. ground (arith, (a.coherent.service j).placement_named q, eq_iff p.service_id j);
        pending_named = (a.coherent.service j).pending_named;
        fresh = (a.coherent.service j).fresh;
        placed = λ o e r. ground (arith, (a.coherent.service j).placed o, eq_iff p.service_id j);
      };
      events = a.coherent.events;
      history = a.coherent.history;
    };
    reached = a.reached;
    known_placed = λ _. ground (arith, eq_iff p.service_id k);
  }

  pub At-set_pending_deployment :
      (p : PendingDeployment) (s : Store) → At k n b s → At k n b (Store.set_pending_deployment p s)
  unfolding Store.set_pending_deployment Store.get_service_generation
  At-set_pending_deployment p s a = record {
    coherent = record {
      service = λ j. record {
        desired_named = (a.coherent.service j).desired_named;
        observed_named = (a.coherent.service j).observed_named;
        placement_named = (a.coherent.service j).placement_named;
        pending_named =
            λ q e. ground (arith, (a.coherent.service j).pending_named q, eq_iff p.service_id j);
        fresh = (a.coherent.service j).fresh;
        placed = (a.coherent.service j).placed;
      };
      events = a.coherent.events;
      history = a.coherent.history;
    };
    reached = a.reached;
    known_placed = a.known_placed;
  }

  pub At-pop_pending_deployment :
      (i : String) (s : Store) → At k n b s → At k n b (Store.pop_pending_deployment i s)
  unfolding Store.pop_pending_deployment Store.get_service_generation
  At-pop_pending_deployment i s a = record {
    coherent = record {
      service = λ j. record {
        desired_named = (a.coherent.service j).desired_named;
        observed_named = (a.coherent.service j).observed_named;
        placement_named = (a.coherent.service j).placement_named;
        pending_named = λ q e. ground (arith, (a.coherent.service j).pending_named q);
        fresh = (a.coherent.service j).fresh;
        placed = (a.coherent.service j).placed;
      };
      events = a.coherent.events;
      history = a.coherent.history;
    };
    reached = a.reached;
    known_placed = a.known_placed;
  }

  -- A service that is observed not to run may lose its placement.
  pub At-clear_placement :
      (o : ServiceObservedState) (s : Store)
      → o.service_id ≡ k
      → o.service_generation ≤ n
      → is_running o.status ≡ false
      → At k n b s
      → At k n false (Store.clear_placement k (Store.set_service_observed o s))
  unfolding Store.clear_placement Store.set_service_observed Store.get_service_generation
  At-clear_placement o s named bound idle a = record {
    coherent = record {
      service = λ j. record {
        desired_named = (a.coherent.service j).desired_named;
        observed_named =
            λ p e. ground (arith, (a.coherent.service j).observed_named p, eq_iff o.service_id j);
        placement_named = λ p e. ground (arith, (a.coherent.service j).placement_named p);
        pending_named = (a.coherent.service j).pending_named;
        fresh = λ p e. ground (arith, (a.coherent.service j).fresh p, eq_iff o.service_id j);
        placed = λ p e r.
            ground (arith, (a.coherent.service j).placed p, eq_iff o.service_id j, eq_iff k j);
      };
      events = a.coherent.events;
      history = a.coherent.history;
    };
    reached = a.reached;
    known_placed = λ e. cc;
  }

  -- The new generation is reached.
  pub At-increment_service_generation :
      (s : Store)
      → At k n b s
      → At k (Store.increment_service_generation k s).1 b (Store.increment_service_generation k s).0
  unfolding Store.increment_service_generation
  At-increment_service_generation s a = record {
    coherent = record {
      service = λ j. record {
        desired_named = (a.coherent.service j).desired_named;
        observed_named = (a.coherent.service j).observed_named;
        placement_named = (a.coherent.service j).placement_named;
        pending_named = (a.coherent.service j).pending_named;
        fresh = λ o e. ground (arith, (a.coherent.service j).fresh o, eq_iff k j);
        placed = (a.coherent.service j).placed;
      };
      events = a.coherent.events;
      history = a.coherent.history;
    };
    reached = ground (arith, eq_iff k k);
    known_placed = a.known_placed;
  }

  -- Updates that concern no service.
  pub At-aside :
      (s : Store) (nodes : Table NodeState) (counters : Table RestartCounter)
      (events : List EventRecord) (history : List RecoveryRecord) (locks : Table ℕ) (made : ℕ)
      → At k n b s
      → length events ≤ s.event_log_max_items
      → length history ≤ s.event_log_max_items
      → At k n b (aside s nodes counters events history locks made)
  unfolding Store.get_service_generation
  At-aside s nodes counters events history locks made a e h = record {
    coherent = record {
      service = λ j. record {
        desired_named = (a.coherent.service j).desired_named;
        observed_named = (a.coherent.service j).observed_named;
        placement_named = (a.coherent.service j).placement_named;
        pending_named = (a.coherent.service j).pending_named;
        fresh = (a.coherent.service j).fresh;
        placed = (a.coherent.service j).placed;
      };
      events = e;
      history = h;
    };
    reached = a.reached;
    known_placed = a.known_placed;
  }

  -- What is known may be forgotten.
  pub At-weaken : (m : ℕ) (s : Store) → m ≤ n → At k n b s → At k m false s
  At-weaken m s h a = record {
    coherent = a.coherent;
    reached = omega (arith, a.reached);
    known_placed = λ e. cc;
  }
