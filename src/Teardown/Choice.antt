-- ===== src/Teardown/Choice.antt =====
-- What `aggregateDecisions` of internal/teardown/manager.go chooses.
use roost_keeper.Prelude.{
  ◌≡◌, ◌⊎◌, ◌∷◌, ◌≤ℤ◌, ℕ, ℤ, List, Option, negsuc, none, some, [], inl, inr, arith, Bool-cases, All,
  ltb_ℤ,
}
use mathlib.Core.Path.{subst}
use roost_keeper.Teardown.{Decision, aggregate_decisions, highest, or_first}

-- a score is at most -1, or at most that of a decision
abbrev Beaten : Decision → ℤ → Type 0
Beaten out score = (score ≤ℤ negsuc 0) ⊎ (score ≤ℤ out.score)

-- the scores that the loop has passed are beaten in the end
highest_score :
    (score : ℤ) (best : Option Decision) (ds : List Decision) (d : Decision)
    → Beaten (or_first d best) score
    → Beaten (or_first d (highest score best ds)) score
      × All (λ x. Beaten (or_first d (highest score best ds)) x.score) ds
highest_score score best [] d h = (h, tt)
highest_score score best (x ∷ ds) d h = elim (Bool-cases (ltb_ℤ score x.score)) [
  | inl better ↦
      let (a, b) = highest_score x.score (some x) ds d (inr (omega arith)) in
      let same : highest x.score (some x) ds ≡ highest score best (x ∷ ds) = ground arith in
      subst (λ o. Beaten (or_first d o) score × All (λ y. Beaten (or_first d o) y.score) (x ∷ ds))
        same (ground (arith, a, better), (a, b))
  | inr worse ↦
      let (a, b) = highest_score score best ds d h in
      let same : highest score best ds ≡ highest score best (x ∷ ds) = ground arith in
      subst (λ o. Beaten (or_first d o) score × All (λ y. Beaten (or_first d o) y.score) (x ∷ ds))
        same (a, (ground (arith, a, worse), b))
]

-- Among the decisions of the evaluators, `aggregateDecisions` chooses one whose score is at least
-- that of every other, as far as scores are not negative.
pub aggregate_decisions-score :
    (now : ℕ) (d : Decision) (ds : List Decision)
    → All
        (λ x. (x.score ≤ℤ negsuc 0) ⊎ (x.score ≤ℤ (aggregate_decisions now (d ∷ ds)).score))
        (d ∷ ds)
unfolding aggregate_decisions
aggregate_decisions-score now d ds =
    (highest_score (negsuc 0) none (d ∷ ds) d (inl (omega arith))).1
