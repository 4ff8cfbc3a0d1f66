-- ===== src/V5/Builder/Config.antt =====
-- rust/crates/mcfreeze-format/src/v5/builder.rs: `V5Builder::new`, on the configuration of
-- builder.rs in the same crate, whose paths and buffer sizes are left out.
use mcfreeze.Base.{ℕ, ◌*◌, ◌≡◌, ap, ◌∙◌, sym, List, Bool, Option, none, some, Bytes, ◌⊎◌}
use mcfreeze.Error.{IoError, Result, ok, ◌>>=◌, ◌>>◌, >>=-eq-ok}
use mcfreeze.Layout
use mcfreeze.Layout.{Layout, new_fields}
use mcfreeze.V5.Compress.{Zstd, Mode}
use mcfreeze.V5.Meta.{validate_block_size}
use mcfreeze.V5.Builder.{Plan}
use mcfreeze.V5.Builder.Built.{IsPlanned}
use mcfreeze.V5.Builder.Planning.{Root, V5Builder, State, ensure_plan}
use mcfreeze.V5.Builder.Pinned.{ensure_plan-IsPlanned}

abbrev pub default_bucket_bytes : ℕ
default_bucket_bytes = 128 * 1024 * 1024

pub record BuilderConfig : Type 0 where
  pub n_partitions : ℕ
  pub verify_seed : ℕ
  pub block_size : Option ℕ
  pub bucket_bytes : Option ℕ
  pub sketch : Bool
  pub compression : Mode
  pub min_compress_len : ℕ

unfoldable pub check_override : Option ℕ → Result (Unit {0})
check_override none = ok tt
check_override (some block_size) = validate_block_size block_size

abbrev pub or_default : Option ℕ → ℕ → ℕ
or_default none n = n
or_default (some m) n = m

-- `V5Builder::new`: the layout of the partitions, and a builder that has planned nothing.
unfoldable pub new_builder : BuilderConfig → Result (Layout × V5Builder)
unfolding check_override
new_builder config =
    check_override config.block_size
    >> (Layout.new config.n_partitions >>= λ layout.
        let b : V5Builder = record {
          verify_seed = config.verify_seed;
          block_size_override = config.block_size;
          bucket_bytes = or_default config.bucket_bytes default_bucket_bytes;
          sketch = config.sketch;
          compression = config.compression;
          min_compress_len = config.min_compress_len;
          plan = none;
          done = none;
        } in
        ok (layout, b))

check_override-some :
    (o : Option ℕ) (n : ℕ) → o ≡ some n → check_override o ≡ ok tt → validate_block_size n ≡ ok tt
unfolding check_override
check_override-some o n e h = sym (ap check_override e) ∙ h

-- A builder that was made has planned nothing, and its block size validates where it has one.
new_builder-fields :
    (config : BuilderConfig) (layout : Layout) (b : V5Builder)
    → new_builder config ≡ ok (layout, b)
    → (b.plan ≡ none)
      × (b.block_size_override ≡ config.block_size)
      × (check_override config.block_size ≡ ok tt)
      × (layout.n_partitions ≡ config.n_partitions)
unfolding new_builder
new_builder-fields config layout b h =
    let (u, checked, later) = >>=-eq-ok (check_override config.block_size) _ h in
    let (l, made, e) = >>=-eq-ok (Layout.new config.n_partitions) _ later in
    let same_layout : l ≡ layout = cc in
    (cc, cc, checked, ap (λ (z : Layout). z.n_partitions) (sym same_layout) ∙ (new_fields made).0)

module _ (xxh64 : Bytes → ℕ → ℕ) {Level CCtx DCtx : Type 0} (api : Zstd Level CCtx DCtx)
    (level : Level) (from_samples : List Bytes → ℕ → IoError ⊎ Bytes) where
  -- A configuration that is accepted makes a plan that can be built. When `V5Builder::new` accepts
  -- a configuration and its builder obtains a plan where there was none, the layout has the number
  -- of partitions of the configuration, and the plan has a block size that validates and half of it
  -- as its threshold, which are the sizes that a build needs.
  pub new_builder-ensure_plan :
      (config : BuilderConfig) (layout : Layout) (b : V5Builder) (root : Root) (st : State)
      (p : Plan)
      → new_builder config ≡ ok (layout, b)
      → root.plan_file ≡ none
      → ensure_plan xxh64 api level from_samples (record { builder = b; root = root }) ≡ (ok p, st)
      → (layout.n_partitions ≡ config.n_partitions)
        × IsPlanned p
        × (validate_block_size p.block_size ≡ ok tt)
  new_builder-ensure_plan config layout b root st p made no_file h =
      let (none_yet, same, checked, partitions) = new_builder-fields config layout b made in
      let valid =
        ensure_plan-IsPlanned xxh64 api level from_samples b root st p none_yet no_file
          (λ n e. check_override-some config.block_size n (sym same ∙ e) checked) h in
      (partitions, valid.0, valid.1)
