-- ===== src/Tests/Runs.antt =====
-- The theorems, applied at the runs of the service "web".
use mathlib.Core.List.{Perm, Permᴰ}
use orchestrator_thesis.Prelude.{
  String, true, false, ◌≡◌, ◌≢◌, ◌↔◌, refl, ap, or_else, ◌∙◌, none, some, [], ◌∷◌, arith, All, Any,
  ◌==◌, eq_iff,
}
use orchestrator_thesis.Table.{get, put, empty, values}
use orchestrator_thesis.Names.{sorted}
use orchestrator_thesis.Models.{NodeState, Placement, DeploymentStatus, ServiceHealth, find_node}
use orchestrator_thesis.Scheduler.{choose_node_least_load}
use orchestrator_thesis.Scheduler.Choice.{
  IsEligible, IsLeastLoaded, choose_node-IsLeastLoaded, choose_node-none_iff,
}
use orchestrator_thesis.Scheduler.Orderless.{choose_node-perm}
use orchestrator_thesis.Address.{
  is_space, lower_code, lower_is, lstrip, rstrip, normalize_node_address, strip, is_unknown,
}
use orchestrator_thesis.Address.Normal.{normalize_stable}
use orchestrator_thesis.Store
use orchestrator_thesis.Store.{
  new_store, acquire_service_lock, upsert_node_heartbeat, list_events, append_event,
}
use orchestrator_thesis.Store.Locks.{IsLocked, new_store-IsLocked, acquire_service_lock-exclusive}
use orchestrator_thesis.Store.Heartbeat.{IsBeating, upsert_node_heartbeat-IsBeating}
use orchestrator_thesis.Store.Logs.{list_events-append_event}
use orchestrator_thesis.World.{Env, World, returned, Call, write_all, ◌>>=◌}
use orchestrator_thesis.Ingress.{
  attempts, write_file, render_upstream_file, sync_ingress, sync_service, resolve_target,
}
use orchestrator_thesis.Outcome.Ends.{Ends}
use orchestrator_thesis.Ingress.Frame.{IsOrderly, Quiet, sync_ingress-Quiet}
use orchestrator_thesis.Ingress.Reload.{IsResolved, reload-unretried}
use orchestrator_thesis.ServiceManager.{deploy, roll_back, observed_state}
use orchestrator_thesis.ServiceManager.Commands.{stop, stop_on_agent, stop_desired}
use orchestrator_thesis.SelfHealing.{handle_health_report, handle_crash_report}
use orchestrator_thesis.SelfHealing.Guards.{
  IsCurrent, handle_health_report-ignored, handle_crash_report-ignored,
}
use orchestrator_thesis.SelfHealing.Recovery.{is_in_startup_grace}
use orchestrator_thesis.SelfHealing.Reschedule.{reschedule_after_exhausted_restart}
use orchestrator_thesis.SelfHealing.Unreachable.{reschedule_from_unreachable_node}
use orchestrator_thesis.SelfHealing.Target.{IsElsewhere}
use orchestrator_thesis.SelfHealing.Target.Moves.{reschedule-IsElsewhere}
use orchestrator_thesis.Reconciler.{run_once}
use orchestrator_thesis.Coherence.{IsCoherent}
use orchestrator_thesis.Coherence.Rules.{
  At-set_service_observed, At-set_service_desired, At-set_placement,
}
use orchestrator_thesis.Coherence.Loops.{to_Safe, upsert_node_heartbeat-IsCoherent}
use orchestrator_thesis.Controller.{new_world, Reach, start, then, heartbeat, deployed, reconciled}
use orchestrator_thesis.Controller.Invariant.{new_store-IsCoherent, Reach-IsCoherent}
use orchestrator_thesis.Growth.Reach.{Run-handle_health_report}
use orchestrator_thesis.Controller.{next, done, stopped}
use orchestrator_thesis.Prelude.{◌<◌}
use orchestrator_thesis.Outcome.{Yields}
use orchestrator_thesis.Outcome.Stop.{IsStopped, stop-IsStopped, stop-handle_health_report}
use orchestrator_thesis.Outcome.Deploy.{IsSettled, deploy-IsSettled, deploy-deploy}
use orchestrator_thesis.Outcome.Report.{IsWell, handle_health_report-IsWell}
use orchestrator_thesis.Outcome.Restart.{MayRestart, Restarted, handle_health_report-IsRestarted}
use orchestrator_thesis.Tests.{
  one_minus, web, settings, env, node_of, two_nodes, placement, desired, observed, one_node,
  web_store, web_world, report_of, crash_on, known_node, room_world, placed_on, started,
}

-- The controller hears of a node, deploys "web" there, and reconciles.
abbrev deployed_web : World
deployed_web =
    (deploy env web (record (new_world 5) {
      store = upsert_node_heartbeat "n1" "http://agent:9000" none 95_000_000 (new_store 5);
    })).1

Reach-deployed : Reach (run_once env deployed_web).1
Reach-deployed =
    then
      (then (then (start 5) (heartbeat _ "n1" "http://agent:9000" none 95_000_000))
        (deployed _ env web))
      (reconciled _ env)

Reach-IsCoherent_example : IsCoherent (run_once env deployed_web).1.store
Reach-IsCoherent_example = Reach-IsCoherent Reach-deployed

web_store-IsCoherent : IsCoherent web_store
web_store-IsCoherent =
    let known =
      upsert_node_heartbeat-IsCoherent "n1" "http://agent:9000" (some " 10.0.0.1 ") 95_000_000 _
        (new_store-IsCoherent 5) in
    (At-set_service_observed "web" 0 true observed _ refl (omega arith) refl (
      At-set_service_desired "web" 0 true desired _
        (At-set_placement "web" 0 false placement _ refl (to_Safe "web" one_node known)))).coherent

-- The report comes from the node that "web" runs on.
web_current : IsCurrent web_store "web" "n1" (some 0)
unfolding Store.set_service_observed Store.set_service_desired Store.set_placement
    Store.upsert_node_heartbeat new_store Store.get_service_generation
web_current = record {
  observed = observed;
  desired = desired;
  placement = placement;
  is_observed = refl;
  is_desired = refl;
  not_stopped = refl;
  is_placed = refl;
  on_node = refl;
  fresh = refl;
}

-- "n2" does not run "web".
elsewhere : ¬ IsCurrent web_store "web" "n2" (some 0)
unfolding Store.set_service_observed Store.set_service_desired Store.set_placement
elsewhere c =
    let same = ap (λ o. or_else o placement) c.is_placed in
    let equal = (eq_iff "n1" "n2").1 (ap (λ (p : Placement). p.node_id) same ∙ c.on_node) in cc

handle_health_report-ignored_example :
    handle_health_report env (report_of "n2" false) web_world ≡ (returned tt, web_world)
handle_health_report-ignored_example =
    handle_health_report-ignored env (report_of "n2" false) web_world elsewhere

handle_crash_report-ignored_example :
    handle_crash_report env (crash_on "n2") web_world ≡ (returned tt, web_world)
handle_crash_report-ignored_example =
    handle_crash_report-ignored env (crash_on "n2") web_world elsewhere

handle_health_report-IsWell_example :
    Yields
      (handle_health_report env (report_of "n1" true))
      web_world
      (λ _ w'. IsWell "web" w' × (w'.calls ≡ []))
handle_health_report-IsWell_example =
    handle_health_report-IsWell env (report_of "n1" true) web_world web_store-IsCoherent web_current
      refl

-- "web" was recovered before and has cooled down.
abbrev cooled_world : World
cooled_world = record web_world { cooldown_until = put empty "web" 50_000_000 }

web_may_restart : MayRestart env (report_of "n1" false) known_node cooled_world
unfolding Store.set_service_observed Store.set_service_desired Store.set_placement
    Store.upsert_node_heartbeat new_store Store.get_service_generation Store.get_restart_counter
    web_current is_in_startup_grace find_node Store.list_nodes values sorted
web_may_restart = record {
  now = web_current;
  unhealthy = refl;
  ungraced = refl;
  failures = omega arith;
  uncooled = refl;
  unclaimed = refl;
  node_known = refl;
  restarts_left = omega arith;
  answered = refl;
}

handle_health_report-IsRestarted_example :
    Yields
      (handle_health_report env (report_of "n1" false))
      cooled_world
      (Restarted env (report_of "n1" false) known_node cooled_world)
handle_health_report-IsRestarted_example =
    handle_health_report-IsRestarted env (report_of "n1" false) known_node cooled_world
      web_store-IsCoherent web_may_restart

stop-IsStopped_example :
    Ends (IsOrderly env) (stop env "web") web_world (λ o w'. IsStopped env "web" w')
stop-IsStopped_example = stop-IsStopped env "web" web_world web_store-IsCoherent

web_stopped : stop env "web" web_world ≡ (
  returned (observed_state env "web" DeploymentStatus.stopped ServiceHealth.unknown none none),
  (stop env "web" web_world).1,
)
unfolding stop Store.get_service_desired Store.set_service_observed Store.set_service_desired
    Store.set_placement Store.upsert_node_heartbeat new_store find_node Store.list_nodes values
    sorted Store.get_placement Store.clear_placement Store.pop_pending_deployment
    Store.reset_restart_counter append_event sync_ingress stop_on_agent stop_desired
    Store.get_service_observed write_file orchestrator_thesis.World.append_event ◌>>=◌
web_stopped = refl

stop-handle_health_report_example :
    handle_health_report env (report_of "n1" true) (stop env "web" web_world).1
    ≡ (returned tt, (stop env "web" web_world).1)
stop-handle_health_report_example =
    stop-handle_health_report env env "web" (report_of "n1" true) web_world _ _ web_store-IsCoherent
      web_stopped refl

deploy-IsSettled_example : Ends (IsOrderly env) (deploy env web) web_world (IsSettled "web")
deploy-IsSettled_example = deploy-IsSettled one_minus env refl refl web web_world

-- The first deployment places "web" on "n2".
room_deployed :
    deploy env web room_world ≡ (returned (placed_on "n2"), (deploy env web room_world).1)
unfolding deploy choose_node_least_load new_store find_node Store.list_nodes values sorted
    Store.get_service_observed Store.set_service_observed Store.set_service_desired
    Store.set_placement Store.pop_pending_deployment Store.reset_restart_counter append_event
    sync_ingress ◌>>=◌ roll_back write_all orchestrator_thesis.World.append_event
    Store.get_placement attempts
room_deployed = refl

deploy-deploy_example :
    deploy env web (deploy env web room_world).1
    ≡ (returned (placed_on "n2"), (deploy env web room_world).1)
deploy-deploy_example =
    deploy-deploy one_minus env env refl refl web room_world (deploy env web room_world).1
      (placed_on "n2") room_deployed refl

chosen_n2 : (choose_node_least_load one_minus web two_nodes).selected_node_id ≡ some "n2"
unfolding choose_node_least_load
chosen_n2 = refl

choose_node-IsLeastLoaded_example : Any (IsLeastLoaded one_minus web two_nodes "n2") two_nodes
choose_node-IsLeastLoaded_example = choose_node-IsLeastLoaded one_minus web two_nodes "n2" chosen_n2

choose_node-none_iff_example :
    ((choose_node_least_load one_minus web two_nodes).selected_node_id ≡ none)
    ↔ All (λ n. ¬ IsEligible one_minus web n) two_nodes
choose_node-none_iff_example = choose_node-none_iff one_minus web two_nodes

swapped : Perm two_nodes (node_of "n2" 400_000 ∷ node_of "n1" 500_000 ∷ [])
swapped = ∣ Permᴰ.swap refl refl ∣₁

choose_node-perm_example :
    (choose_node_least_load one_minus web two_nodes).selected_node_id
    ≡ (choose_node_least_load one_minus web
        (node_of "n2" 400_000 ∷ node_of "n1" 500_000 ∷ [])).selected_node_id
choose_node-perm_example = choose_node-perm one_minus web two_nodes _ swapped

padded : normalize_node_address (some " 10.0.0.1 ") ≡ some "10.0.0.1"
unfolding normalize_node_address strip is_unknown is_space lower_code lower_is lstrip rstrip
padded = refl

normalize_stable_example :
    (normalize_node_address (some "10.0.0.1") ≡ some "10.0.0.1")
    × (is_unknown "10.0.0.1" ≡ false)
    × (strip "10.0.0.1" ≡ "10.0.0.1")
normalize_stable_example = normalize_stable (some " 10.0.0.1 ") "10.0.0.1" padded

n1_not_n2 : ◌≢◌ {A = String} "n1" "n2"
n1_not_n2 e = let h = (eq_iff "n1" "n2").1 e in cc

upsert_node_heartbeat-IsBeating_example :
    ((n : NodeState) × (get
          (upsert_node_heartbeat "n1" "http://agent:9000" none 7 one_node).nodes
          "n1"
        ≡ some n)
      × IsBeating "http://agent:9000" none 7 (get one_node.nodes "n1") n)
    × (get (upsert_node_heartbeat "n1" "http://agent:9000" none 7 one_node).nodes "n2"
        ≡ get one_node.nodes "n2")
upsert_node_heartbeat-IsBeating_example =
    upsert_node_heartbeat-IsBeating "n1" "n2" "http://agent:9000" none 7 one_node n1_not_n2

acquire_service_lock-exclusive_example :
    (acquire_service_lock "n1" (acquire_service_lock "n1" (new_store 5)).0
      ≡ acquire_service_lock "n1" (new_store 5))
    × ((acquire_service_lock "n2" (acquire_service_lock "n1" (new_store 5)).0).1
        ≢ (acquire_service_lock "n1" (new_store 5)).1)
    × IsLocked (acquire_service_lock "n1" (new_store 5)).0
acquire_service_lock-exclusive_example =
    acquire_service_lock-exclusive "n1" "n2" (new_store 5) n1_not_n2 (new_store-IsLocked 5)

list_events-append_event_example :
    list_events 3 (append_event started web_store) ≡ started ∷ list_events 2 web_store
unfolding Store.set_service_observed Store.set_service_desired Store.set_placement
    upsert_node_heartbeat new_store
list_events-append_event_example = list_events-append_event 2 started web_store (omega arith)

sync_ingress-Quiet_example : Quiet env (sync_ingress env "web" "service_stopped")
sync_ingress-Quiet_example = sync_ingress-Quiet env "web" "service_stopped"

-- "web" is not observed, so that the ingress has no target for it.
no_target : IsResolved env "web" none (new_world 5) (new_world 5)
unfolding resolve_target new_store Store.get_service_observed Store.get_placement ◌>>=◌
no_target = record { enabled = refl; active = refl; resolved = refl }

no_target_again :
    IsResolved env "web" none
      (sync_service env "web" "a" (new_world 5)).1
      (sync_service env "web" "a" (new_world 5)).1
unfolding sync_service new_store Store.get_service_observed Store.get_placement append_event ◌>>=◌
    write_file orchestrator_thesis.World.append_event
no_target_again = record { enabled = refl; active = refl; resolved = refl }

written_anew : ("" == render_upstream_file settings none) ≡ false
unfolding render_upstream_file
written_anew = refl

reload-unretried_example :
    ((sync_service env "web" "a" (new_world 5)).1.calls ≡ Call.reload_nginx ∷ [])
    × (sync_service env "web" "b" (sync_service env "web" "a" (new_world 5)).1
        ≡ (returned tt, (sync_service env "web" "a" (new_world 5)).1))
reload-unretried_example =
    reload-unretried env env "web" "a" "b" none (new_world 5) (new_world 5) _ no_target refl refl
      written_anew refl refl no_target_again refl refl

-- "web" has been moved once, and is stopped then.
abbrev moved_world : World
moved_world = record web_world { store = (Store.increment_service_generation "web" web_store).0 }

moved_once : 0 < Store.get_service_generation "web" moved_world.store
unfolding Store.increment_service_generation Store.get_service_generation Store.set_service_observed
    Store.set_service_desired Store.set_placement Store.upsert_node_heartbeat new_store
moved_once = omega arith

Run-handle_health_report_example :
    handle_health_report env (report_of "n1" true) (stop env "web" moved_world).1
    ≡ (returned tt, (stop env "web" moved_world).1)
Run-handle_health_report_example =
    Run-handle_health_report moved_world (stop env "web" moved_world).1 env (report_of "n1" true) 0
      refl moved_once (next (done moved_world) (stopped moved_world env "web"))

-- "web" has to leave "n1".
reschedule-IsElsewhere_example :
    IsElsewhere "web" "n1"
      (some placement)
      (reschedule_after_exhausted_restart env "web" "n1" 99_000_000 web_world).1.store
    × IsElsewhere "web" "n1"
        (some placement)
        (reschedule_from_unreachable_node env placement 99_000_000 web_world).1.store
unfolding Store.set_service_observed Store.set_service_desired Store.set_placement
reschedule-IsElsewhere_example =
    reschedule-IsElsewhere one_minus env placement 99_000_000 web_world refl
