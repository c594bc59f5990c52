-- ===== src/Breaker/Spec.antt =====
-- What a circuit breaker promises, without clocks, machine integers and logs: the abstract
-- machine that circuit_breaker.go implements.
use roost_keeper.Prelude.{
  ◌+◌, ◌≡◌, ◌||◌, ◌∷◌, if◌then◌else◌, ℕ, List, Bool, true, false, [], refl, arith, ltb, leb,
}

-- closed with so many failures in a row, open, or half-open with so many successes
pub data Phase : Type 0 where
  counting : ℕ → Phase
  failing : Phase
  probing : ℕ → Phase

-- a result comes in: `fails` failures in a row open the breaker, `succeeds` successes close it
unfoldable pub observe : ℕ → ℕ → Bool → Phase → Phase
observe fails succeeds true (counting n) = counting 0
observe fails succeeds false (counting n) = if ltb (n + 1) fails then counting (n + 1) else failing
observe fails succeeds true (probing m) =
    if ltb (m + 1) succeeds then probing (m + 1) else counting 0
observe fails succeeds false (probing m) = failing
observe fails succeeds b failing = failing

unfoldable pub observe_all : ℕ → ℕ → List Bool → Phase → Phase
observe_all fails succeeds [] p = p
observe_all fails succeeds (b ∷ bs) p = observe_all fails succeeds bs (observe fails succeeds b p)

-- the time limit of the phase has passed
abbrev pub time_out : Phase → Phase
time_out (counting n) = counting n
time_out failing = probing 0
time_out (probing m) = failing

abbrev pub is_failing : Phase → Bool
is_failing failing = true
is_failing _ = false

-- the longest run of failures, when `n` failures stand before the results
unfoldable pub reaches : ℕ → ℕ → List Bool → Bool
reaches fails n [] = false
reaches fails n (true ∷ bs) = reaches fails 0 bs
reaches fails n (false ∷ bs) = leb fails (n + 1) || reaches fails (n + 1) bs

observe_all-failing :
    (fails succeeds : ℕ) (bs : List Bool) → observe_all fails succeeds bs failing ≡ failing
unfolding observe_all observe
observe_all-failing fails succeeds [] = refl
observe_all-failing fails succeeds (true ∷ bs) = observe_all-failing fails succeeds bs
observe_all-failing fails succeeds (false ∷ bs) = observe_all-failing fails succeeds bs

-- from a closed phase, results alone open the breaker exactly when they reach a run of `fails`
pub observe_all-reaches :
    (fails succeeds n : ℕ) (bs : List Bool)
    → is_failing (observe_all fails succeeds bs (counting n)) ≡ reaches fails n bs
unfolding observe_all observe reaches
observe_all-reaches fails succeeds n [] = refl
observe_all-reaches fails succeeds n (true ∷ bs) = observe_all-reaches fails succeeds 0 bs
observe_all-reaches fails succeeds n (false ∷ bs) =
    ground
      (arith, observe_all-failing fails succeeds bs, observe_all-reaches fails succeeds (n + 1) bs)
