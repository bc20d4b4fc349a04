-- ===== src/Ingress/Reload.antt =====
-- The upstream file and the reload of nginx.
use orchestrator_thesis.Prelude.{
  String, ◌≡◌, refl, ◌∙◌, Bool, true, false, Option, none, some, eq_refl, eq_iff, ◌==◌,
  if◌then◌else◌, or_else, not, List, ◌∷◌, sym, subst, ap,
}
use orchestrator_thesis.Models.{EventType, Detail}
use orchestrator_thesis.World.{
  Env, World, Action, None, Result, Call, Reply, answer, fault, returned, pure, request, on_reply,
  append_event, gets, ◌>>=◌,
}
use orchestrator_thesis.Ingress.Frame.{bind_returned}
use orchestrator_thesis.Ingress.{
  ingress_updated, resolve_target, render_upstream_file, write_upstream_config, write_file,
  sync_service, reload_and_log,
}

-- The file has the content for this target already.
abbrev pub IsWritten : Env → Option String → World → Type 0
IsWritten env target w = w.upstream_file ≡ some (render_upstream_file env.settings target)

-- The service is the one that the ingress serves, and this is what was found out about it.
pub record IsResolved (env : Env) (id : String) (target : Option String) (w w' : World)
    : Type 0 where
  pub enabled : env.settings.ingress_enabled ≡ true
  pub active : id ≡ env.settings.ingress_active_service_id
  pub resolved :
      resolve_target env id w ≡ (returned (record { should_update = true; target = target }), w')

written-same :
    (env : Env) (target : Option String) (w : World)
    → env.files.read_error w ≡ none
    → IsWritten env target w
    → write_upstream_config env target w ≡ (returned false, w)
unfolding write_upstream_config ◌>>=◌
written-same env target w readable h =
    rw (readable, h, eq_refl (render_upstream_file env.settings target)) refl

-- Two tests that are passed, and one.
both_passed :
    (b c : Bool) (m : Action None) (w : World)
    → b ≡ true
    → c ≡ true
    → (if not b then pure tt else if not c then pure tt else m) w ≡ m w
both_passed true c m w e f = one_passed c m w f
  where
    one_passed :
        (c : Bool) (m : Action None) (w : World) → c ≡ true → (if not c then pure tt else m) w ≡ m w
    one_passed true m w f = refl
    one_passed false m w f = cc
both_passed false c m w e f = cc

-- What is left of a synchronisation once the service is resolved.
sync_service-resolved :
    (env : Env) (id reason : String) (target : Option String) (w w' : World)
    → IsResolved env id target w w'
    → sync_service env id reason w
      ≡ (write_upstream_config env target >>= λ changed.
            if not changed then pure tt else reload_and_log env id reason target)
          w'
unfolding sync_service
sync_service-resolved env id reason target w w' h =
    both_passed _ _ _ w h.enabled ((eq_iff id env.settings.ingress_active_service_id).1 h.active)
    ∙ bind_returned (resolve_target env id) _ w h.resolved

-- If the file can be read and has the content for the target that a synchronisation finds, the synchronisation ends
-- there: it neither reloads nginx nor logs anything.
pub sync_service-unchanged :
    (env : Env) (id reason : String) (target : Option String) (w w' : World)
    → IsResolved env id target w w'
    → env.files.read_error w' ≡ none
    → IsWritten env target w'
    → sync_service env id reason w ≡ (returned tt, w')
unfolding pure
sync_service-unchanged env id reason target w w' h readable written =
    sync_service-resolved env id reason target w w' h
    ∙ bind_returned (write_upstream_config env target) _ w'
        (written-same env target w' readable written)

file-written :
    (env : Env) (content : String) (w : World)
    → env.files.write_error w ≡ none
    → write_file env content w ≡ (returned tt, record w { upstream_file = some content })
unfolding write_file
file-written env content w writable = rw (writable, write_file) refl

written-new :
    (env : Env) (target : Option String) (w : World)
    → env.files.read_error w ≡ none
    → env.files.write_error w ≡ none
    → (or_else w.upstream_file "" == render_upstream_file env.settings target) ≡ false
    → write_upstream_config env target w ≡ (
      returned true,
      record w { upstream_file = some (render_upstream_file env.settings target) },
    )
unfolding write_upstream_config gets pure ◌>>=◌
written-new env target w readable writable h =
    rw (readable, h)
      (bind_returned (write_file env (render_upstream_file env.settings target)) (λ _. pure true) w
        (file-written env _ w writable))

-- The world in which nginx is asked to reload.
abbrev asking : World → World
asking w = record w { calls = Call.reload_nginx ∷ w.calls }

-- One request to reload, and the file as it is.
record IsAsked (w : World) (r : Result None × World) : Type 0 where
  pub calls : r.1.calls ≡ Call.reload_nginx ∷ w.calls
  pub file : r.1.upstream_file ≡ w.upstream_file

if_passed : (b : Bool) (m n : Action None) (w : World) → b ≡ true → (if b then m else n) w ≡ m w
if_passed true m n w e = refl
if_passed false m n w e = cc

-- Whatever the answer, all that is left to do is to log it.
replied-IsAsked :
    (reply : Reply (Unit {0})) (w : World) (f : String → Action None) (g : Unit {0} → Action None)
    → ((message : String) → IsAsked w (f message (asking w)))
    → ((u : Unit {0}) → IsAsked w (g u (asking w)))
    → IsAsked w (on_reply reply f g (asking w))
unfolding on_reply
replied-IsAsked (fault message) w f g p q = p message
replied-IsAsked (answer u) w f g p q = q u

logged-IsAsked :
    (env : Env) (message : String) (details : List (String × Detail)) (w : World)
    → IsAsked w (append_event env EventType.ingress message details (asking w))
unfolding append_event
logged-IsAsked env message details w = record { calls = refl; file = refl }

reload_and_log-IsAsked :
    (env : Env) (id reason : String) (target : Option String) (w : World)
    → env.settings.nginx_reload_enabled ≡ true
    → IsAsked w (reload_and_log env id reason target w)
unfolding reload_and_log ingress_updated request
reload_and_log-IsAsked env id reason target w on =
    subst (IsAsked w)
      (sym (
        if_passed _ _ _ w on
        ∙ bind_returned
            (request (λ calls. returned (env.remote.reload_nginx calls)) Call.reload_nginx) _ w
            refl))
      (replied-IsAsked (env.remote.reload_nginx w.calls) w _ _ (λ message. logged-IsAsked env _ _ w)
        (λ u. logged-IsAsked env _ _ w))

-- A reload that fails is not made up for: a synchronisation that can read and write the file and
-- changes it asks nginx once to reload, and whatever nginx answers, the next synchronisation that
-- finds the same target and can read the file, unchanged, neither asks again nor logs anything.
pub reload-unretried :
    (env env' : Env) (id reason reason' : String) (target : Option String) (w w' v : World)
    → IsResolved env id target w w'
    → env.files.read_error w' ≡ none
    → env.files.write_error w' ≡ none
    → (or_else w'.upstream_file "" == render_upstream_file env.settings target) ≡ false
    → env.settings.nginx_reload_enabled ≡ true
    → env'.settings ≡ env.settings
    → IsResolved env' id target (sync_service env id reason w).1 v
    → env'.files.read_error v ≡ none
    → v.upstream_file ≡ (sync_service env id reason w).1.upstream_file
    → ((sync_service env id reason w).1.calls ≡ Call.reload_nginx ∷ w'.calls)
      × (sync_service env' id reason' (sync_service env id reason w).1 ≡ (returned tt, v))
reload-unretried env env' id reason reason' target w w' v h readable writable new on same h'
      readable' file =
    let content = render_upstream_file env.settings target in
    let w1 : World = record w' { upstream_file = some content } in
    let run =
      sync_service-resolved env id reason target w w' h
      ∙ bind_returned (write_upstream_config env target) _ w'
          (written-new env target w' readable writable new) in
    let asked : IsAsked w1 (sync_service env id reason w) =
      subst (IsAsked w1) (sym run) (reload_and_log-IsAsked env id reason target w1 on) in
    (
      asked.calls,
      sync_service-unchanged env' id reason' target _ v h' readable'
          (file ∙ asked.file ∙ ap (λ s. some (render_upstream_file s target)) (sym same)),
    )
