-- ===== src/Authorization/Cache/Tests.antt =====
-- A policy that was published after the last load, and the theorem about the cache.
use xander.Prelude.{◌≡◌, refl, false, some, none, List, [], ◌∷◌}
use xander.Authorization.Rules.Tests.{plain, request}
use xander.Authorization.Cache.{
  Policy, LoadMoments, CacheStep, loaded_policy, is_fresh, load_active_rules, reset_policy_cache,
  evaluate, cache_step, run_cache,
}
use xander.Authorization.Cache.Laws.{IsRecent, answer_by, evaluate-IsRecent}

abbrev old_policy : Policy
old_policy = record { id = "p1"; version = "v2.0"; rules = plain ∷ [] }

abbrev new_policy : Policy
new_policy = record { id = "p2"; version = "v2.1"; rules = [] }

abbrev first_load : LoadMoments
first_load = record { begun_at = 1000; active_policy = some old_policy; ended_at = 1010 }

abbrev second_load : LoadMoments
second_load = record { begun_at = 200000; active_policy = some new_policy; ended_at = 200010 }

abbrev steps : List CacheStep
steps = CacheStep.evaluated first_load 1020 request ∷ []

-- Within the time to live the old policy answers, after it the new one, and after a reset too.
still_old : (load_active_rules false 300 second_load (run_cache 300 steps none)).0.version ≡ "v2.0"
unfolding run_cache cache_step evaluate load_active_rules is_fresh loaded_policy
still_old = refl

then_new : (load_active_rules false 100 second_load (run_cache 100 steps none)).0.version ≡ "v2.1"
unfolding run_cache cache_step evaluate load_active_rules is_fresh loaded_policy
then_new = refl

after_reset :
    (load_active_rules false 300 second_load (
      run_cache 300
        (CacheStep.evaluated first_load 1020 request ∷ CacheStep.reset ∷ [])
        none)).0.version
    ≡ "v2.1"
unfolding run_cache cache_step evaluate load_active_rules is_fresh loaded_policy reset_policy_cache
after_reset = refl

evaluate-IsRecent_example :
    (used : LoadMoments) × IsRecent 300 steps second_load used
    × ((evaluate 300 second_load 200020 request (run_cache 300 steps none)).0
        ≡ answer_by used.active_policy request 200020)
evaluate-IsRecent_example = evaluate-IsRecent 300 steps second_load 200020 request
