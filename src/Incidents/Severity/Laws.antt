-- ===== src/Incidents/Severity/Laws.antt =====
-- The three tables of severities agree (backend/src/incidents/incident-types.ts).
use xander.Prelude.{ℕ, ◌≡◌, sym, ap, ◌∙◌, ◌≢◌, ◌≤◌, ◌↔◌, ◌⊎◌, refl, String, arith, eq_iff, inl, inr}
use xander.Prelude.Dictionary.{read, rank_or, rank_or-In, number}
use xander.Incidents.Severity.{
  Mitigation, severity_ranks, severity_rank, initial_mitigation, deterministic_action,
}
use xander.Incidents.Recommendation.{rank_of}

low-rank : severity_rank "LOW" ≡ number 0
unfolding severity_rank read rank_or
low-rank = refl

medium-rank : severity_rank "MEDIUM" ≡ number 1
unfolding severity_rank read rank_or
medium-rank = refl

high-rank : severity_rank "HIGH" ≡ number 2
unfolding severity_rank read rank_or
high-rank = refl

-- None of the three names below the most serious one.
abbrev Unranked : String → Type 0
Unranked s = (s ≢ "LOW") × (s ≢ "MEDIUM") × (s ≢ "HIGH")

known :
    (s : String) (n : ℕ)
    → severity_rank s ≡ number n
    → ((s ≡ "LOW") × (n ≡ 0))
      ⊎ (((s ≡ "MEDIUM") × (n ≡ 1)) ⊎ (((s ≡ "HIGH") × (n ≡ 2)) ⊎ (Unranked s × (n ≡ 3))))
known s n h =
    let rest : n ≡ 3 → Unranked s × (n ≡ 3) = λ e. (
      (
        (λ a. cc (sym low-rank ∙ (rw (← a) h ∙ ap number e))),
        (λ a. cc (sym medium-rank ∙ (rw (← a) h ∙ ap number e))),
        (λ a. cc (sym high-rank ∙ (rw (← a) h ∙ ap number e))),
      ),
      e,
    ) in
    elim (rank_or-In severity_ranks 3 s n (unfold severity_rank in h)) [
      | inl e ↦ inr (inr (inr (rest e)))
      | inr (inl e) ↦ inl (ap (λ (p : String × ℕ). p.0) e, ap (λ (p : String × ℕ). p.1) e)
      | inr (inr (inl e)) ↦
          inr (inl (ap (λ (p : String × ℕ). p.0) e, ap (λ (p : String × ℕ). p.1) e))
      | inr (inr (inr (inl e))) ↦
          inr (inr (inl (ap (λ (p : String × ℕ). p.0) e, ap (λ (p : String × ℕ). p.1) e)))
      | inr (inr (inr (inr (inl e)))) ↦ inr (inr (inr (rest (ap (λ (p : String × ℕ). p.1) e))))
      | inr (inr (inr (inr (inr none_left)))) ↦ absurd none_left
    ]

-- What a severity justifies follows its rank: the deterministic action is as restrictive as the
-- severity is serious, an incident is contained exactly from rank 2 on, and its actor loses
-- everything exactly at rank 3. A severity that is not known has rank 3.
pub severity_rank-action :
    (s : String) (n : ℕ)
    → severity_rank s ≡ number n
    → (rank_of (deterministic_action s) ≡ n)
      × ((initial_mitigation s ≢ Mitigation.none_taken) ↔ (2 ≤ n))
      × ((initial_mitigation s ≡ Mitigation.revoke) ↔ (n ≡ 3))
unfolding deterministic_action initial_mitigation
severity_rank-action s n h = elim (known s n h) [
  | inl (e, en) ↦ rw (e, en) (ground arith)
  | inr (inl (e, en)) ↦ rw (e, en) (ground arith)
  | inr (inr (inl (e, en))) ↦ rw (e, en) (ground arith)
  | inr (inr (inr (ne, en))) ↦ ground (arith, eq_iff s "LOW", eq_iff s "MEDIUM", eq_iff s "HIGH")
]
