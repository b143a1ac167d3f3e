-- ===== src/Routing/Pending.antt =====
-- The pending requests of app/guardian/approval_routing.py, counted by deal and stage.
use chumma.Base.{
  ℕ, ◌+◌, ◌≡◌, ap, Bool, true, false, ◌&&◌, some, List, [], ◌∷◌, arith, ◌==◌, if◌then◌else◌, sum_of,
}
use chumma.Enums.{ApprovalState, Stage}
use chumma.State.{ApprovalRequest}
use chumma.State.Tables.{find_row, modify_row}
use chumma.Routing.{is_pending_for, supersede_all}

abbrev pub is_stage : Stage → Stage → Bool
is_stage Stage.sales_manager Stage.sales_manager = true
is_stage Stage.finance Stage.finance = true
is_stage _ _ = false

abbrev pub pending_at : ℕ → Stage → ApprovalRequest → ℕ
pending_at k s r = if is_pending_for k r && is_stage s r.required_level then 1 else 0

-- How many requests of a deal wait at a stage.
abbrev pub waiting : ℕ → Stage → List ApprovalRequest → ℕ
waiting k s rs = sum_of (pending_at k s) rs

-- How many should, by the deal's approval state.
abbrev pub expected : ApprovalState → Stage → ℕ
expected ApprovalState.pending_manager Stage.sales_manager = 1
expected ApprovalState.pending_finance Stage.finance = 1
expected _ _ = 0

-- A change of the row found under a key moves a sum by that row's part.
module _ {A : Type 0} (id_of : A → ℕ) (f : A → ℕ) (k : ℕ) (g : A → A) (x : A) where
  pub sum_of-modify_row :
      (xs : List A)
      → find_row id_of k xs ≡ some x
      → sum_of f (modify_row id_of k g xs) + f x ≡ sum_of f xs + f (g x)
  sum_of-modify_row [] e = cc
  sum_of-modify_row (y ∷ xs) e = step (sum_of-modify_row xs) (id_of y == k) e
    where
      step :
          (find_row id_of k xs ≡ some x
            → sum_of f (modify_row id_of k g xs) + f x ≡ sum_of f xs + f (g x))
          → (b : Bool) → (if b then some y else find_row id_of k xs) ≡ some x
          → sum_of f (if b then g y ∷ xs else y ∷ modify_row id_of k g xs) + f x
            ≡ f y + sum_of f xs + f (g x)
      step rest true e = let same : y ≡ x = cc in omega (arith, ap f same, ap (λ z. f (g z)) same)
      step rest false e = omega (arith, rest e)

pub waiting-supersede_all :
    (k : ℕ) (now : ℕ) (j : ℕ) (s : Stage) (rs : List ApprovalRequest)
    → waiting j s (supersede_all k now rs) ≡ (if k == j then 0 else waiting j s rs)
waiting-supersede_all k now j s [] = ground arith
waiting-supersede_all k now j s (r ∷ rs) = ground (arith, waiting-supersede_all k now j s rs)
