-- ===== src/Agent/Health/Attempts.antt =====
-- How often agent/app/services/workload_manager.py asks a container for its health.
use orchestrator_thesis.Prelude.{
  ℕ, zero, suc, ◌-◌, ◌≤◌, ◌<◌, String, ◌≡◌, refl, ap, subst, Bool, true, false, ◌&&◌, leb, ltb,
  List, ◌∷◌, arith, if◌then◌else◌,
}
use orchestrator_thesis.Agent.Adapter.{
  AgentEnv, AgentWorld, AgentAction, HttpReply, status_code, http_error, other_exception,
}
use orchestrator_thesis.Agent.{AgentError, other_error}
use orchestrator_thesis.Agent.Health.{
  is_ok, uncaught, http_get, check_attempts, check_workload_health,
}
use orchestrator_thesis.Effect.{Outcome, returned, raised, raise, ◌>>=◌, pure}
use orchestrator_thesis.Effect.Ends.{Ends, Comes, Ends-if, Ends-pure}

-- The requests after `n` more for a URL.
abbrev pub asked : ℕ → String → List String → List String
asked zero url requests = requests
asked (suc n) url requests = asked n url (url ∷ requests)

-- Whether the answer to the request number `i`, from 0, is good.
abbrev pub answers : {D : Type 0} → AgentEnv D → String → List String → ℕ → Bool
answers env url requests i = is_ok (env.http_get (asked i url requests) url)

-- What `limit` attempts that return come to: `made` requests, of which all but the last are answered badly, and
-- the last one too where the check fails, which it does only when there is no attempt left.
pub record IsChecked {D : Type 0} (env : AgentEnv D) (limit : ℕ) (url : String) (w : AgentWorld D)
    (ok : Bool) (w' : AgentWorld D) : Type 0 where
  pub made : ℕ
  pub at_most : made ≤ limit
  pub ends : w' ≡ record w { requests = asked made url w.requests }
  pub bad : (i : ℕ) → suc i < made → answers env url w.requests i ≡ false
  pub good : ok ≡ true → (0 < made) × (answers env url w.requests (made - 1) ≡ true)
  pub failed :
      ok ≡ false → (made ≡ limit) × ((i : ℕ) → i < limit → answers env url w.requests i ≡ false)

-- `made` requests, of which all but the last are answered badly, and the last one raises: what is
-- raised is its exception, which is not an `HTTPError`.
pub record IsBroken {D : Type 0} (env : AgentEnv D) (limit : ℕ) (url : String) (w : AgentWorld D)
    (e : AgentError) (w' : AgentWorld D) : Type 0 where
  pub before : ℕ
  pub at_most : before < limit
  pub ends : w' ≡ record w { requests = asked (suc before) url w.requests }
  pub bad : (i : ℕ) → i < before → answers env url w.requests i ≡ false
  pub message : String
  pub replied : env.http_get (asked before url w.requests) url ≡ other_exception message
  pub same : e ≡ other_error message

module _ {D : Type 0} (env : AgentEnv D) (url : String) where
  -- What holds of the first request, and of the others as those after it, holds of all.
  from_first :
      (limit : ℕ) (requests : List String)
      → answers env url requests 0 ≡ false
      → ((i : ℕ) → i < limit → answers env url (url ∷ requests) i ≡ false)
      → (i : ℕ) → i < suc limit
      → answers env url requests i ≡ false
  from_first limit requests first rest zero h = first
  from_first limit requests first rest (suc i) h = rest i (omega (arith, h))

  after :
      (limit : ℕ) (w : AgentWorld D) (ok : Bool) (w' : AgentWorld D)
      → answers env url w.requests 0 ≡ false
      → IsChecked env limit url (record w { requests = url ∷ w.requests }) ok w'
      → IsChecked env (suc limit) url w ok w'
  after limit w ok w' first c = record {
    made = suc c.made;
    at_most = omega (arith, c.at_most);
    ends = c.ends;
    bad = λ i h.
        from_first (c.made - 1) w.requests first (λ j k. c.bad j (omega (arith, k))) i
          (omega (arith, h));
    good = λ e.
        let (some_made, good) = c.good e in
        let same : suc (c.made - 1) ≡ suc c.made - 1 = omega (arith, some_made) in
        (omega arith, subst (λ n. answers env url w.requests n ≡ true) same good);
    failed = λ e. (ap suc (c.failed e).0, from_first limit w.requests first (c.failed e).1);
  }

  after_raise :
      (limit : ℕ) (w : AgentWorld D) (e : AgentError) (w' : AgentWorld D)
      → answers env url w.requests 0 ≡ false
      → IsBroken env limit url (record w { requests = url ∷ w.requests }) e w'
      → IsBroken env (suc limit) url w e w'
  after_raise limit w e w' first b = record {
    before = suc b.before;
    at_most = omega (arith, b.at_most);
    ends = b.ends;
    bad = λ i h. from_first b.before w.requests first (λ j k. b.bad j (omega (arith, k))) i h;
    message = b.message;
    replied = b.replied;
    same = b.same;
  }

  -- What the attempts come to in each case.
  abbrev Checks : ℕ → AgentWorld D → AgentAction D Bool → Type 0
  Checks limit w m = Ends (IsChecked env limit url w) (IsBroken env limit url w) m w

  abbrev next : AgentWorld D → AgentWorld D
  next w = record w { requests = url ∷ w.requests }

  good-IsChecked :
      (limit : ℕ) (w : AgentWorld D)
      → answers env url w.requests 0 ≡ true
      → IsChecked env (suc limit) url w true (next w)
  good-IsChecked limit w e = record {
    made = 1;
    at_most = omega arith;
    ends = refl;
    bad = λ i h. absurd (omega (arith, h));
    good = λ _. (omega arith, e);
    failed = λ f. absurd (cc f);
  }

  -- What the later attempts come to, after a bad answer.
  weaken :
      (limit : ℕ) (w : AgentWorld D)
      → answers env url w.requests 0 ≡ false
      → (r : Outcome AgentError Bool × AgentWorld D)
      → Comes (IsChecked env limit url (next w)) (IsBroken env limit url (next w)) r
      → Comes (IsChecked env (suc limit) url w) (IsBroken env (suc limit) url w) r
  weaken limit w first (returned ok, w') h = after limit w ok w' first h
  weaken limit w first (raised e, w') h = after_raise limit w e w' first h

  reply-cases :
      (limit : ℕ) (w : AgentWorld D) (reply : HttpReply)
      → env.http_get w.requests url ≡ reply
      → Ends
          (IsChecked env limit url (next w))
          (IsBroken env limit url (next w))
          (check_attempts env limit url)
          (next w)
      → Ends
          (IsChecked env (suc limit) url w)
          (IsBroken env (suc limit) url w)
          (uncaught reply >>= λ r. if is_ok r then pure true else check_attempts env limit url)
          (next w)
  unfolding uncaught raise pure is_ok ◌>>=◌
  reply-cases limit w (other_exception message) e rest = record {
    at = record {
      before = 0;
      at_most = omega arith;
      ends = refl;
      bad = λ i h. absurd (omega (arith, h));
      message = message;
      replied = e;
      same = refl;
    };
  }
  reply-cases limit w http_error e rest = record {
    at = weaken limit w (rw e refl) (check_attempts env limit url (next w)) rest.at;
  }
  reply-cases limit w (status_code code) e rest =
      Ends-if _ _ (next w) (leb 200 code && ltb code 300) (pure true) _
        (λ ok. Ends-pure _ _ _ _ (good-IsChecked limit w (rw e ok)))
        (λ ok. record {
          at = weaken limit w (rw e ok) (check_attempts env limit url (next w)) rest.at;
        })

  attempts-IsChecked :
      (limit : ℕ) (w : AgentWorld D) → Checks limit w (check_attempts env limit url)
  unfolding check_attempts http_get ◌>>=◌
  attempts-IsChecked zero w = record {
    at = record {
      made = 0;
      at_most = omega arith;
      ends = refl;
      bad = λ i h. absurd (omega (arith, h));
      good = λ e. absurd (cc e);
      failed = λ e. (refl, λ i h. absurd (omega (arith, h)));
    };
  }
  attempts-IsChecked (suc limit) w = record {
    at =
        (reply-cases limit w (env.http_get w.requests url) refl
          (attempts-IsChecked limit (next w))).at;
  }

-- A health check of a container makes at most the set number of requests and changes nothing else. If
-- it returns, it is good at the first good answer, and fails only after that number of bad ones. It
-- raises only an exception of the last request that is not an `HTTPError`, after bad answers only.
pub check_workload_health-IsChecked :
    {D : Type 0} (env : AgentEnv D) (url : String) (w : AgentWorld D)
    → Ends
        (IsChecked env env.settings.health_check_retries url w)
        (IsBroken env env.settings.health_check_retries url w)
        (check_workload_health env url)
        w
unfolding check_workload_health
check_workload_health-IsChecked env url w =
    attempts-IsChecked env url env.settings.health_check_retries w
