-- ===== src/Workflow/Graph/Restore/Chain.antt =====
-- The search for the last retry of a task.
use cloudify_common.Prelude.{
  ℕ, zero, suc, ◌≡◌, ◌<◌, none, some, ok, arith, Option-cases, inl, inr, nat_eq,
}
use cloudify_common.Prelude.Dict.{Dict, get}
use cloudify_common.Workflow.Graph.Restore.{last_retry}

-- The tasks that a chain of retries leads to.
pub data IsRetriedBy (retries : Dict ℕ ℕ) : ℕ → ℕ → Type 0 where
  itself : (task : ℕ) → IsRetriedBy retries task task
  later :
      (task next last : ℕ)
      → get task retries ≡ some next
      → IsRetriedBy retries next last
      → IsRetriedBy retries task last

module _ (retries : Dict ℕ ℕ) (rank : ℕ → ℕ)
    (falls : (task next : ℕ) → get task retries ≡ some next → rank next < rank task) where
  -- Where retries run in no circle, that is where a rank falls from each task to its retry, fuel
  -- above the rank of a task finds the end of its chain of retries, which was not retried.
  pub last_retry-IsRetriedBy :
      (fuel target : ℕ)
      → rank target < fuel
      → (last : ℕ) × (last_retry fuel retries target ≡ ok last)
        × IsRetriedBy retries target last
        × (get last retries ≡ none)
  unfolding last_retry
  last_retry-IsRetriedBy zero target enough = elim enough [ ]
  last_retry-IsRetriedBy (suc fuel) target enough = elim (Option-cases (get target retries)) [
    | inl end ↦ (target, ground arith, itself target, end)
    | inr (next, retried) ↦
        let (last, found, chain, end) =
          last_retry-IsRetriedBy fuel next (let less = falls target next retried in omega arith) in
        (last, ground arith, later target next last retried chain, end)
  ]
