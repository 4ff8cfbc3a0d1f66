-- ===== src/V5/Builder/Pinned.antt =====
-- `ensure_plan`: the plan of a snapshot is immutable, and a fresh one is one that the builder needs.
use mcfreeze.Base.{ℕ, ◌+◌, ◌*◌, ◌%◌, ◌^◌, ◌≤◌, ◌<◌, ◌≡◌, refl, sym, ap, ◌∙◌, List, Option}
use mcfreeze.Base.{Bool-cases, ltb, ◌-◌, none, some, Bytes, ◌⊎◌, inl, inr, arith, subst}
use mcfreeze.Error.{IoError, Result, ok, err, panic, stuck, ◌>>=◌}
use mcfreeze.V5.Compress.{Zstd}
use mcfreeze.V5.Meta.{validate_block_size}
use mcfreeze.V5.Meta.Coherence.{validate_block_size_iff}
use mcfreeze.V5.Builder.{Plan}
use mcfreeze.V5.Builder.Bounds.{auto_tune_block_size-Covers, pow-le}
use mcfreeze.V5.Builder.Radix.{two_pow-add}
use mcfreeze.V5.Builder.Built.{IsPlanned}
use mcfreeze.V5.Builder.Planning.{Root, V5Builder, State, load_or_derive, keep_plan}
use mcfreeze.V5.Builder.Planning.{plan_with, ensure_plan, block_size_of}
use mcfreeze.V5.Builder.Plans.{load_or_derive-IsPinned, derive_plan-IsPinned}

keep_plan-ok :
    (b : V5Builder) (run : Result Plan × Root) (p : Plan) (st : State)
    → keep_plan b run ≡ (ok p, st)
    → run ≡ (ok p, st.root)
unfolding keep_plan
keep_plan-ok b (ok q, root) p st h =
    let k : Path (Result Plan × State)
        (ok q, record { builder = record b { plan = some q }; root = root }) (ok p, st) =
      h in
    let same : q ≡ p = cc in
    let left : root ≡ st.root = ap (λ (x : Result Plan × State). x.1.root) k in
    ap (λ (x : Plan). (ok x, root)) same ∙ ap (λ r. (ok p, r)) left
keep_plan-ok b (err e, root) p st h =
    let k : Path (Result Plan × State) (err e, record { builder = b; root = root }) (ok p, st) =
      h in
    cc
keep_plan-ok b (panic, root) p st h =
    let k : Path (Result Plan × State) (panic, record { builder = b; root = root }) (ok p, st) =
      h in
    cc
keep_plan-ok b (stuck, root) p st h =
    let k : Path (Result Plan × State) (stuck, record { builder = b; root = root }) (ok p, st) =
      h in
    cc

-- A block size that validates is large, aligned and fits a word of 32 bits.
validated : (n : ℕ) → validate_block_size n ≡ ok tt → (4096 ≤ n) × (n < 2 ^ 32) × (n % 8 ≡ 0)
validated n h =
    let (k, lt, e, large) = (validate_block_size_iff n).0 h in
    let twelve : 12 ≤ k = elim (Bool-cases (ltb k 12)) [
      | inl small ↦ absurd (omega (arith, pow-le k 11 (ground (arith, small)), e, large))
      | inr more ↦ ground (arith, more)
    ] in
    let eight : 2 ^ k ≡ 2 ^ (k - 3) * 2 ^ 3 =
      ap (λ m. 2 ^ m) (let s : k ≡ (k - 3) + 3 = omega arith in s) ∙ two_pow-add (k - 3) 3 in
    (large, omega (arith, e, pow-le k 31 (omega arith)), omega (arith, e, eight))

module _ (xxh64 : Bytes → ℕ → ℕ) {Level CCtx DCtx : Type 0} (api : Zstd Level CCtx DCtx)
    (level : Level) (from_samples : List Bytes → ℕ → IoError ⊎ Bytes) where
  chosen_valid :
      (override : Option ℕ) (hist : List ℕ) (n : ℕ)
      → ((m : ℕ) → override ≡ some m → validate_block_size m ≡ ok tt)
      → block_size_of xxh64 api level from_samples override hist ≡ ok n
      → validate_block_size n ≡ ok tt
  unfolding block_size_of
  chosen_valid none hist n configured h =
      let (b, e, valid, _) = auto_tune_block_size-Covers hist in
      let k : Path (Result ℕ) (ok b) (ok n) = sym e ∙ h in
      let same : b ≡ n = cc in subst (λ m. validate_block_size m ≡ ok tt) same valid
  chosen_valid (some m) hist n configured h =
      let k : Path (Result ℕ) (ok m) (ok n) = h in
      let same : m ≡ n = cc in subst (λ z. validate_block_size z ≡ ok tt) same (configured m refl)

  loaded_plan :
      (b : V5Builder) (root : Root) (st : State) (p : Plan)
      → b.plan ≡ none
      → ensure_plan xxh64 api level from_samples (record { builder = b; root = root }) ≡ (ok p, st)
      → load_or_derive xxh64 api level from_samples root.plan_file b root ≡ (ok p, st.root)
  unfolding ensure_plan plan_with
  loaded_plan b root st p none_yet h =
      keep_plan-ok b (load_or_derive xxh64 api level from_samples root.plan_file b root) p st (
        sym (
          ap (λ o. plan_with xxh64 api level from_samples o (record { builder = b; root = root }))
            none_yet)
        ∙ h)

  -- The plan of a snapshot is decided once. When a process obtained a plan, another process, with
  -- any configuration of its own and nothing in memory, obtains the same plan from the files that
  -- the first left: it changes none of them, and the dictionary that the plan names is accepted.
  pub ensure_plan-pinned :
      (b b' : V5Builder) (root : Root) (st : State) (p : Plan)
      → b.plan ≡ none
      → b'.plan ≡ none
      → ensure_plan xxh64 api level from_samples (record { builder = b; root = root }) ≡ (ok p, st)
      → ensure_plan xxh64 api level from_samples (record { builder = b'; root = st.root })
        ≡ (ok p, record { builder = record b' { plan = some p }; root = st.root })
  unfolding ensure_plan plan_with load_or_derive keep_plan
  ensure_plan-pinned b b' root st p none_yet none_yet' h =
      let (on_disk, (dict, loaded)) =
        load_or_derive-IsPinned xxh64 api level from_samples root.plan_file b root st.root p refl
          (loaded_plan b root st p none_yet h) in
      ap (λ o. plan_with xxh64 api level from_samples o (record { builder = b'; root = st.root }))
        none_yet'
      ∙ ap (λ o. keep_plan b' (load_or_derive xxh64 api level from_samples o b' st.root)) on_disk
      ∙ ap (λ (r : Result (Option Bytes)). keep_plan b' ((r >>= λ _. ok p), st.root)) loaded

  -- A plan that is made, for a configuration whose block size validates where it has one, has a
  -- block size that validates and half of it as its threshold, which are the sizes that a build
  -- needs.
  pub ensure_plan-IsPlanned :
      (b : V5Builder) (root : Root) (st : State) (p : Plan)
      → b.plan ≡ none
      → root.plan_file ≡ none
      → ((n : ℕ) → b.block_size_override ≡ some n → validate_block_size n ≡ ok tt)
      → ensure_plan xxh64 api level from_samples (record { builder = b; root = root }) ≡ (ok p, st)
      → IsPlanned p × (validate_block_size p.block_size ≡ ok tt)
  unfolding load_or_derive
  ensure_plan-IsPlanned b root st p none_yet no_file configured h =
      let derived =
        sym (ap (λ o. load_or_derive xxh64 api level from_samples o b root) no_file)
        ∙ loaded_plan b root st p none_yet h in
      let (_, (hist, chosen), half) =
        derive_plan-IsPinned xxh64 api level from_samples b root st.root p derived in
      let valid = chosen_valid b.block_size_override hist p.block_size configured chosen in
      let (large, word, aligned) = validated p.block_size valid in
      ((large, word, aligned, half), valid)
