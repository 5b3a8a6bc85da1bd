-- ===== src/Incidents/Recommendation/Laws.antt =====
-- The investigator may tighten the deterministic decision and never loosen it
-- (`reconcileRecommendation` of backend/src/incidents/incident-types.ts).
use xander.Prelude.{
  ℕ, zero, suc, ◌≡◌, ◌≤◌, ◌<◌, ◌↔◌, refl, String, Bool, true, false, ◌&&◌, Option, none, some,
  arith, Bool-cases, inl, inr, ltb,
}
use xander.Prelude.Dictionary.{number, not_a_number, rank_or-In, Rank-cases}
use xander.Incidents.Severity.{RecommendedAction}
use xander.Incidents.Recommendation.{
  action_ranks, rank_of, action_rank, Reconciliation, action_at, reconcile_ranks,
  reconcile_recommendation,
}

rank_of-action_at : (n : ℕ) → n ≤ 3 → rank_of (action_at (number n)) ≡ n
unfolding action_at
rank_of-action_at zero h = refl
rank_of-action_at (suc zero) h = refl
rank_of-action_at (suc (suc zero)) h = refl
rank_of-action_at (suc (suc (suc zero))) h = refl
rank_of-action_at (suc (suc (suc (suc n)))) h = absurd (omega arith)

action_rank-le : (a : String) (n : ℕ) → action_rank a ≡ number n → n ≤ 3
unfolding action_rank
action_rank-le a n h = let found = rank_or-In action_ranks 3 a n h in ground arith

-- How a reconciliation relates to the decision that stands without a recommendation.
pub record IsTightening (base r : Reconciliation) : Type 0 where
  pub never_looser : rank_of base.action ≤ rank_of r.action
  pub changed : (r.ai_changed_outcome ≡ true) ↔ (rank_of base.action < rank_of r.action)
  pub widening_ignored : (r.ai_changed_outcome && r.ai_attempted_to_widen) ≡ false

reconcile_ranks-IsTightening :
    (f a : ℕ)
    → f ≤ 3
    → a ≤ 3
    → IsTightening
        (record {
          action = action_at (number f);
          ai_changed_outcome = false;
          ai_attempted_to_widen = false;
        })
        (reconcile_ranks (number f) (number a))
unfolding reconcile_ranks
reconcile_ranks-IsTightening f a hf ha =
    let ef = rank_of-action_at f hf in
    let ea = rank_of-action_at a ha in
    elim (Bool-cases (ltb f a)) [
      | inl above ↦
          rw above (record {
            never_looser = ground arith;
            changed = ground arith;
            widening_ignored = refl;
          })
      | inr below ↦
          rw below (record {
            never_looser = ground arith;
            changed = ground arith;
            widening_ignored = refl;
          })
    ]

unmoved-IsTightening :
    (action : RecommendedAction) (widen : Bool)
    → IsTightening
        (record { action = action; ai_changed_outcome = false; ai_attempted_to_widen = false })
        (record { action = action; ai_changed_outcome = false; ai_attempted_to_widen = widen })
unmoved-IsTightening action widen = record {
  never_looser = omega arith;
  changed = ground arith;
  widening_ignored = refl;
}

-- Whatever the investigator recommends, in whatever words, the action is at least as restrictive as
-- the one that stands without a recommendation; the outcome is reported as changed exactly if the
-- action is stricter, and then no attempt to widen is reported.
pub reconcile_recommendation-IsTightening :
    (deterministic : String) (recommendation : Option String)
    → IsTightening
        (reconcile_recommendation deterministic none)
        (reconcile_recommendation deterministic recommendation)
unfolding reconcile_recommendation
reconcile_recommendation-IsTightening d none =
    unmoved-IsTightening (action_at (action_rank d)) false
reconcile_recommendation-IsTightening d (some r) = elim (Rank-cases (action_rank d)) [
  | inl e ↦ elim (Rank-cases (action_rank r)) [
    | inl n ↦
        rw (e, n) (unfold reconcile_ranks in unmoved-IsTightening (action_at not_a_number) false)
    | inr (a, n) ↦
        rw (e, n) (unfold reconcile_ranks in unmoved-IsTightening (action_at not_a_number) false)
  ]
  | inr (f, ef) ↦ elim (Rank-cases (action_rank r)) [
    | inl e ↦
        rw (ef, e) (unfold reconcile_ranks in unmoved-IsTightening (action_at (number f)) false)
    | inr (a, ea) ↦
        rw (ef, ea)
          (reconcile_ranks-IsTightening f a (action_rank-le d f ef) (action_rank-le r a ea))
  ]
]
