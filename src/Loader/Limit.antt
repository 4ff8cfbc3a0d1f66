-- ===== src/Loader/Limit.antt =====
-- rust/crates/mcfreeze-loader/src/source.rs: `limit_sources`, a budget of rows that concurrent
-- sources share. The budget is a 64-bit word in two's complement; each source takes its two atomic
-- steps on it, and the steps of the sources are interleaved in any order.
use mcfreeze.Base.{ℕ, ◌+◌, ◌-◌, ◌%◌, ◌^◌, List, [], ◌∷◌, ◌++◌, Bool, Option, none, some, ltb, leb}
use mcfreeze.Base.{◌==◌, ◌||◌, ◌&&◌, if◌then◌else◌, length, take, ◌≡◌}
use mcfreeze.Loader.{LoaderError, LoadResult, loaded, refused, panicked}

-- An `i64` that is not positive.
abbrev pub is_spent : ℕ → Bool
is_spent word = word == 0 || leb (2 ^ 63) word

-- Where a `LimitedSource` stands: between two calls, at the await of its upstream behind the check
-- of the budget, or at its end.
pub data Phase : Type 0 where
  idle waiting ended : Phase
  failed : LoaderError → Phase

-- The budget, the sources, the batches that the upstreams delivered and those that were passed on.
pub record Limited (A : Type 0) : Type 0 where
  pub remaining : ℕ
  pub phases : ℕ → Phase
  pub fetched : List (List A)
  pub drawn : List (List A)

unfoldable pub set_phase : ℕ → Phase → (ℕ → Phase) → ℕ → Phase
set_phase i phase phases j = if i == j then phase else phases j

module _ {A : Type 0} where
  -- `take_from_budget`: what the caller gets of a batch of rows, and the budget that is left.
  unfoldable pub take_from_budget : ℕ → List A → Option (List A) × ℕ
  take_from_budget remaining batch =
      let n = length batch % 2 ^ 64 in
      let remaining' = (remaining + (2 ^ 64 - n)) % 2 ^ 64 in
      if is_spent remaining
      then (none, remaining')
      else if ltb n (2 ^ 63) && ltb remaining n
      then (some (take remaining batch), remaining')
      else (some batch, remaining')

  -- The start of `next_batch`: the check of the budget.
  unfoldable pub check_budget : ℕ → Limited A → Limited A
  unfolding set_phase
  check_budget i s = record s {
    phases = set_phase i (if is_spent s.remaining then ended else waiting) s.phases;
  }

  -- What the caller is passed on.
  abbrev pub pass_on : ℕ → List A → Limited A → Option (List A) × ℕ → Limited A
  pass_on i batch s (none, remaining) = record {
    remaining = remaining;
    phases = set_phase i ended s.phases;
    fetched = s.fetched ++ (batch ∷ []);
    drawn = s.drawn;
  }
  pass_on i batch s (some part, remaining) = record {
    remaining = remaining;
    phases = set_phase i idle s.phases;
    fetched = s.fetched ++ (batch ∷ []);
    drawn = s.drawn ++ (part ∷ []);
  }

  -- The rest of `next_batch`, on what the upstream answers.
  unfoldable pub receive_batch : ℕ → LoadResult (Option (List A)) → Limited A → Limited A
  unfolding set_phase take_from_budget
  receive_batch i (loaded (some batch)) s = pass_on i batch s (take_from_budget s.remaining batch)
  receive_batch i (loaded none) s = record s { phases = set_phase i ended s.phases }
  receive_batch i (refused e) s = record s { phases = set_phase i (failed e) s.phases }
  receive_batch i panicked s = record s { phases = set_phase i ended s.phases }

  -- One atomic step of one of the sources.
  pub data LimitStep : Limited A → Limited A → Type 0 where
    check : (i : ℕ) (s : Limited A) → s.phases i ≡ idle → LimitStep s (check_budget i s)
    receive :
        (i : ℕ) (answer : LoadResult (Option (List A))) (s : Limited A)
        → s.phases i ≡ waiting
        → LimitStep s (receive_batch i answer s)

  -- `limit_sources`: the budget that the sources share.
  unfoldable pub limit_sources : ℕ → Limited A
  limit_sources limit = record {
    remaining = if ltb limit (2 ^ 63) then limit else 2 ^ 63 - 1;
    phases = λ _. idle;
    fetched = [];
    drawn = [];
  }

  -- The states that a capped load comes to.
  pub data IsReached (limit : ℕ) : Limited A → Type 0 where
    started : IsReached limit (limit_sources limit)
    stepped : (s s' : Limited A) → IsReached limit s → LimitStep s s' → IsReached limit s'
