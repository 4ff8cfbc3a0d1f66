-- ===== src/Loader/Capped.antt =====
-- The budget of `limit_sources`, over all interleavings of the sources.
use mcfreeze.Base.{ℕ, ◌+◌, ◌-◌, ◌%◌, ◌^◌, ◌<◌, ◌≤◌, ◌≡◌, refl, ap, ◌∙◌, List, [], ◌∷◌, ◌++◌}
use mcfreeze.Base.{min, if◌then◌else◌, subst, true, false, Option, none, some, ltb, ◌==◌, ◌&&◌}
use mcfreeze.Base.{length, arith}
use mcfreeze.Base.{append-nil, length-append, length-take, Bool-cases, ◌⊎◌, inl, inr}
use mathlib.Core.List.{flatten}
use mcfreeze.Loader.{loaded, refused, panicked}
use mcfreeze.Loader.Limit.{is_spent, take_from_budget, waiting, ended, Limited, set_phase}
use mcfreeze.Loader.Limit.{check_budget}
use mcfreeze.Loader.Limit.{pass_on, receive_batch, check, receive, limit_sources}
use mcfreeze.Loader.Limit.{IsReached, started, stepped}

module _ {A : Type 0} where
  -- The rows of batches.
  unfoldable pub rows : List (List A) → ℕ
  rows batches = length (flatten batches)

  rows-snoc :
      (batches : List (List A)) (batch : List A)
      → rows (batches ++ (batch ∷ [])) ≡ rows batches + length batch
  unfolding rows flatten
  rows-snoc [] batch = ap length (append-nil batch) ∙ omega arith
  rows-snoc (b ∷ batches) batch = omega (
    arith,
    length-append b (flatten (batches ++ (batch ∷ []))),
    length-append b (flatten batches),
    rows-snoc batches batch,
  )

  -- The rows that a caller is given.
  pub got_rows : Option (List A) → ℕ
  got_rows none = 0
  got_rows (some part) = length part

-- The budget that is left, and the rows passed on, while `fetched` rows were delivered.
abbrev IsBudget : ℕ → ℕ → ℕ → ℕ → Type 0
IsBudget limit fetched remaining drawn =
    ((fetched ≤ limit) × (remaining + fetched ≡ limit) × (drawn ≡ fetched))
    ⊎ ((limit < fetched) × (remaining + fetched ≡ limit + 2 ^ 64) × (drawn ≡ limit))

-- The rows that `limit_sources` admits: the limit, as far as an `i64` holds it.
pub row_cap : ℕ → ℕ
row_cap limit = min limit (2 ^ 63 - 1)

row_cap-lt : (limit : ℕ) → row_cap limit < 2 ^ 63
unfolding row_cap
row_cap-lt limit = omega arith

row_cap-le : (limit : ℕ) → row_cap limit ≤ limit
unfolding row_cap
row_cap-le limit = omega arith

started-IsBudget :
    (A : Type 0) (limit : ℕ)
    → IsBudget
        (row_cap limit)
        (rows (limit_sources {A = A} limit).fetched)
        (limit_sources {A = A} limit).remaining
        (rows (limit_sources {A = A} limit).drawn)
unfolding row_cap rows limit_sources flatten
started-IsBudget A limit =
    elim (Bool-cases (ltb limit (2 ^ 63)))
      as (λ _.
        IsBudget (row_cap limit) (rows (limit_sources {A = A} limit).fetched)
          (limit_sources {A = A} limit).remaining (rows (limit_sources {A = A} limit).drawn)) [
            | inl fits ↦ rw fits (inl (omega arith, ground arith, refl))
            | inr wide ↦ rw wide (inl (omega arith, ground arith, refl))
          ]

module _ {A : Type 0} where
  take_from_budget-IsBudget :
      (limit fetched remaining drawn : ℕ) (batch : List A)
      → limit < 2 ^ 63
      → fetched + length batch < 2 ^ 63
      → IsBudget limit fetched remaining drawn
      → IsBudget limit
          (fetched + length batch)
          (take_from_budget remaining batch).1
          (drawn + got_rows (take_from_budget remaining batch).0)
  unfolding take_from_budget got_rows
  take_from_budget-IsBudget limit fetched remaining drawn batch below few (inl (le, left, all)) =
      elim (Bool-cases (is_spent remaining)) [
        | inl spent ↦
            let zero_left : remaining ≡ 0 = ground arith in
            rw spent (elim (Bool-cases (ltb 0 (length batch))) [
              | inl some_rows ↦ inr (ground arith, ground arith, ground arith)
              | inr no_rows ↦ inl (ground arith, ground arith, ground arith)
            ])
        | inr some_left ↦
            elim (Bool-cases
              (ltb (length batch % 2 ^ 64) (2 ^ 63) && ltb remaining (length batch % 2 ^ 64))) [
                | inl partly ↦
                    rw (some_left, partly)
                      (inr
                        (ground arith, ground arith, ground (arith, length-take remaining batch)))
                | inr whole ↦ rw (some_left, whole) (inl (ground arith, ground arith, ground arith))
              ]
      ]
  take_from_budget-IsBudget limit fetched remaining drawn batch below few (inr (gt, left, all)) =
      let spent : is_spent remaining ≡ true = ground arith in
      rw spent (inr (omega arith, omega arith, omega arith))

  pass_on-rows :
      (i : ℕ) (batch : List A) (s : Limited A) (got : Option (List A) × ℕ)
      → (rows (pass_on i batch s got).drawn ≡ rows s.drawn + got_rows got.0)
        × (rows (pass_on i batch s got).fetched ≡ rows s.fetched + length batch)
        × ((pass_on i batch s got).remaining ≡ got.1)
  unfolding got_rows
  pass_on-rows i batch s (none, remaining) = (omega arith, rows-snoc s.fetched batch, refl)
  pass_on-rows i batch s (some part, remaining) =
      (rows-snoc s.drawn part, rows-snoc s.fetched batch, refl)

  reached-IsBudget :
      (limit : ℕ) (s : Limited A)
      → IsReached limit s
      → rows s.fetched < 2 ^ 63
      → IsBudget (row_cap limit) (rows s.fetched) s.remaining (rows s.drawn)
  unfolding check_budget receive_batch
  reached-IsBudget limit s started few = started-IsBudget A limit
  reached-IsBudget limit s (stepped s0 _ h (check i _ rests)) few = reached-IsBudget limit s0 h few
  reached-IsBudget limit s (stepped s0 _ h (receive i (loaded (some batch)) _ waits)) few =
      let got = take_from_budget s0.remaining batch in
      let (given, came, left) = pass_on-rows i batch s0 got in
      let few' : rows s0.fetched + length batch < 2 ^ 63 = subst (λ z. z < 2 ^ 63) came few in
      rw (came, left, given)
        (take_from_budget-IsBudget (row_cap limit) (rows s0.fetched) s0.remaining (rows s0.drawn)
          batch (row_cap-lt limit) few' (reached-IsBudget limit s0 h (omega (arith, few'))))
  reached-IsBudget limit s (stepped s0 _ h (receive i (loaded none) _ waits)) few =
      reached-IsBudget limit s0 h few
  reached-IsBudget limit s (stepped s0 _ h (receive i (refused e) _ waits)) few =
      reached-IsBudget limit s0 h few
  reached-IsBudget limit s (stepped s0 _ h (receive i panicked _ waits)) few =
      reached-IsBudget limit s0 h few

  -- A cap on rows is exact, in whatever order concurrent sources check the budget and take from it.
  -- In any state of a capped load whose upstreams delivered fewer than 2 ^ 63 rows so far, the rows
  -- that were passed on are the lesser of the cap and of the rows delivered, so never more than the
  -- limit; and a source that then starts another `next_batch` is at its end exactly if the cap was
  -- reached, and goes on to its upstream otherwise. The cap is the limit, or 2 ^ 63 - 1 if that is
  -- less.
  pub limit_sources-row_cap :
      (limit : ℕ) (s : Limited A) (i : ℕ)
      → IsReached limit s
      → rows s.fetched < 2 ^ 63
      → (rows s.drawn ≡ min (rows s.fetched) (row_cap limit))
        × (rows s.drawn ≤ limit)
        × ((check_budget i s).phases i
            ≡ (if ltb (rows s.drawn) (row_cap limit) then waiting else ended))
  unfolding check_budget set_phase
  limit_sources-row_cap limit s i h few =
      let budget = reached-IsBudget limit s h few in
      let capped : rows s.drawn ≡ min (rows s.fetched) (row_cap limit) = ground (arith, budget) in
      let same : (i == i) ≡ true = ground arith in
      (
        capped,
        omega (arith, row_cap-le limit),
        rw same (elim (Bool-cases (ltb (rows s.drawn) (row_cap limit))) [
          | inl short ↦
              let left : is_spent s.remaining ≡ false = ground (arith, budget, row_cap-lt limit) in
              rw (short, left) refl
          | inr reached ↦
              let spent : is_spent s.remaining ≡ true = ground (arith, budget, row_cap-lt limit) in
              rw (reached, spent) refl
        ]),
      )
