-- ===== src/Authorization/Cache/Laws.antt =====
-- Which policy an evaluation answers by (backend/src/authorization/native-policy-evaluator.ts).
use xander.Prelude.{
  ℕ, ◌+◌, ◌*◌, ◌<◌, ◌≡◌, refl, sym, ◌∙◌, ap, false, Option, none, some, List, [], ◌∷◌, inl, inr,
  ◌⊎◌, Bool-cases, All, arith,
}
use xander.Authorization.Request.{AuthorizationRequest, AuthorizationOutcome}
use xander.Authorization.Rules.{evaluate_rules}
use xander.Authorization.Cache.{
  Policy, CachedPolicy, loaded_policy, LoadMoments, is_fresh, load_active_rules, reset_policy_cache,
  evaluate, CacheStep, cache_step, run_cache,
}

abbrev pub IsEvaluated : CacheStep → Type 0
IsEvaluated CacheStep.reset = ⊥
IsEvaluated (CacheStep.evaluated m now request) = Unit

abbrev pub IsLoadBy : LoadMoments → CacheStep → Type 0
IsLoadBy used CacheStep.reset = ⊥
IsLoadBy used (CacheStep.evaluated m now request) = m ≡ used

-- One of the steps is this load, and the cache was not reset after it.
abbrev pub HasLoaded : LoadMoments → List CacheStep → Type 0
HasLoaded used [] = ⊥
HasLoaded used (s ∷ steps) = (IsLoadBy used s × All IsEvaluated steps) ⊎ HasLoaded used steps

-- What a load finds in the cache, or takes from the database.
abbrev Loaded : ℕ → LoadMoments → Option CachedPolicy → CachedPolicy → Type 0
Loaded ttl m cache c =
    (c ≡ loaded_policy m.active_policy m.ended_at)
    ⊎ ((cache ≡ some c) × (m.begun_at < c.loaded_at_ms + ttl * 1000))

load_active_rules-Loaded :
    (ttl : ℕ) (m : LoadMoments) (cache : Option CachedPolicy)
    → Loaded ttl m cache (load_active_rules false ttl m cache).0
      × ((load_active_rules false ttl m cache).1 ≡ some (load_active_rules false ttl m cache).0)
unfolding load_active_rules
load_active_rules-Loaded ttl m none = (inl refl, refl)
load_active_rules-Loaded ttl m (some c) = elim (Bool-cases (is_fresh ttl m.begun_at c)) [
  | inl hit ↦ rw hit (inr (refl, unfold is_fresh in ground arith), refl)
  | inr missed ↦ rw missed (inl refl, refl)
]

-- Where what is cached after the steps comes from: the cache before them, never reset, or a load.
abbrev Comes : List CacheStep → Option CachedPolicy → CachedPolicy → Type 0
Comes steps cache c =
    ((cache ≡ some c) × All IsEvaluated steps)
    ⊎ ((used : LoadMoments) × (c ≡ loaded_policy used.active_policy used.ended_at)
        × HasLoaded used steps)

evaluated-Comes :
    (ttl : ℕ) (m : LoadMoments) (now : ℕ) (request : AuthorizationRequest) (steps : List CacheStep)
    (cache : Option CachedPolicy) (c : CachedPolicy)
    → (load_active_rules false ttl m cache).1 ≡ some c
    → All IsEvaluated steps
    → Comes (CacheStep.evaluated m now request ∷ steps) cache c
evaluated-Comes ttl m now request steps cache c e all =
    let (from, kept) = load_active_rules-Loaded ttl m cache in
    let same : (load_active_rules false ttl m cache).0 ≡ c = cc (sym kept ∙ e) in
    elim from [
      | inl anew ↦ inr (m, sym same ∙ anew, inl (refl, all))
      | inr (there, fresh) ↦ inl (there ∙ ap some same, (tt, all))
    ]

run_cache-Comes :
    (ttl : ℕ) (steps : List CacheStep) (cache : Option CachedPolicy) (c : CachedPolicy)
    → run_cache ttl steps cache ≡ some c
    → Comes steps cache c
unfolding run_cache cache_step evaluate reset_policy_cache
run_cache-Comes ttl [] cache c e = inl (e, tt)
run_cache-Comes ttl (CacheStep.reset ∷ steps) cache c e =
    elim (run_cache-Comes ttl steps none c e) [
      | inl (h, all) ↦ absurd (cc h)
      | inr (used, from, loaded) ↦ inr (used, from, inr loaded)
    ]
run_cache-Comes ttl (CacheStep.evaluated m now request ∷ steps) cache c e =
    elim (run_cache-Comes ttl steps (load_active_rules false ttl m cache).1 c e) [
      | inl (h, all) ↦ evaluated-Comes ttl m now request steps cache c h all
      | inr (used, from, loaded) ↦ inr (used, from, inr loaded)
    ]

-- What the rules of a policy answer; without a policy there are no rules.
abbrev pub answer_by : Option Policy → AuthorizationRequest → ℕ → AuthorizationOutcome
answer_by none request now =
    evaluate_rules [] request (record { policy_id = none; policy_version = "none"; now = now })
answer_by (some policy) request now =
    evaluate_rules policy.rules request
      (record { policy_id = some policy.id; policy_version = policy.version; now = now })

abbrev answer_cached : CachedPolicy → AuthorizationRequest → ℕ → AuthorizationOutcome
answer_cached c request now =
    evaluate_rules c.rules request
      (record { policy_id = c.policy_id; policy_version = c.version; now = now })

loaded-answer :
    (p : Option Policy) (n : ℕ) (request : AuthorizationRequest) (now : ℕ)
    → answer_cached (loaded_policy p n) request now ≡ answer_by p request now
unfolding loaded_policy
loaded-answer none n request now = refl
loaded-answer (some p) n request now = refl

cached-answer :
    (c : CachedPolicy) (used : LoadMoments) (request : AuthorizationRequest) (now : ℕ)
    → c ≡ loaded_policy used.active_policy used.ended_at
    → answer_cached c request now ≡ answer_by used.active_policy request now
cached-answer c used request now e =
    ap (λ k. answer_cached k request now) e
    ∙ loaded-answer used.active_policy used.ended_at request now

loaded_policy-stamp : (p : Option Policy) (n : ℕ) → (loaded_policy p n).loaded_at_ms ≡ n
unfolding loaded_policy
loaded_policy-stamp none n = refl
loaded_policy-stamp (some p) n = refl

-- The load that an evaluation after the steps may use: its own, or one of the steps that was not
-- reset since and ended less than the time to live before.
abbrev pub IsRecent : ℕ → List CacheStep → LoadMoments → LoadMoments → Type 0
IsRecent ttl_seconds steps m used =
    (used ≡ m) ⊎ (HasLoaded used steps × (m.begun_at < used.ended_at + ttl_seconds * 1000))

-- After any evaluations and resets since the process started, an evaluation answers by the rules of
-- the policy that one load took from the database: its own load, or an earlier one that ended less
-- than the time to live before and after which the cache was not reset.
pub evaluate-IsRecent :
    (ttl : ℕ) (steps : List CacheStep) (m : LoadMoments) (now : ℕ) (request : AuthorizationRequest)
    → (used : LoadMoments) × IsRecent ttl steps m used
      × ((evaluate ttl m now request (run_cache ttl steps none)).0
          ≡ answer_by used.active_policy request now)
unfolding evaluate
evaluate-IsRecent ttl steps m now request =
    let cache = run_cache ttl steps none in
    let c = (load_active_rules false ttl m cache).0 in
    elim (load_active_rules-Loaded ttl m cache).0 [
      | inl anew ↦ (m, inl refl, cached-answer c m request now anew)
      | inr (there, fresh) ↦ elim (run_cache-Comes ttl steps none c there) [
        | inl (h, all) ↦ absurd (cc h)
        | inr (used, from, loaded) ↦
            let stamp =
              ap (λ (k : CachedPolicy). k.loaded_at_ms) from
              ∙ loaded_policy-stamp used.active_policy used.ended_at in
            (used, inr (loaded, ground arith), cached-answer c used request now from)
      ]
    ]
