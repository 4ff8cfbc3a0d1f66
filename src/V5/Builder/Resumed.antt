-- ===== src/V5/Builder/Resumed.antt =====
-- The sentinel of a build: what a later process does with a root whose index is complete.
use mcfreeze.Base.{ℕ, ◌≡◌, refl, ap, ◌∙◌, sym, List, Option, none, some, Bytes, String, ◌⊎◌}
use mcfreeze.Base.{subst}
use mcfreeze.Error.{IoError, Result, ok}
use mcfreeze.V5.Compress.{Zstd}
use mcfreeze.V5.Builder.{Plan, PartitionBuildDone}
use mcfreeze.V5.Builder.Arrival.{FrameRef}
use mcfreeze.V5.Builder.Partition.{and_then-eq-ok, ◌⨾◌}
use mcfreeze.V5.Builder.Planning.{IndexDone, Root, V5Builder, State, ensure_plan, load_dict, lift}
use mcfreeze.V5.Builder.Phases.{sweep_transients, finish_index, finalize_with, finalize, meta_of}
use mcfreeze.V5.Builder.Phases.{build_all, build_with, build, index_of}

-- A complete index: the sentinel and the builder's memory agree, and the keys are counted.
record IsIndexed (n : ℕ) (st : State) : Type 0 where
  pub done : IndexDone
  pub on_disk : st.root.index_done ≡ some done
  pub in_memory : st.builder.done ≡ some done
  pub counted : done.n_keys ≡ n

-- What a process has that finds the sentinel.
abbrev resumed_state : V5Builder → IndexDone → Root → State
resumed_state b done root = record {
  builder = record b { done = some done };
  root = sweep_transients root;
}

finish_index-IsIndexed :
    (p : Plan) (ds : List PartitionBuildDone) (st st' : State) (n : ℕ)
    → finish_index p ds st ≡ (ok n, st')
    → IsIndexed n st'
unfolding finish_index
finish_index-IsIndexed p ds st st' n h =
    let done = index_of p ds in
    let after : State = record {
      builder = record (st.builder) { done = some done };
      root = record (st.root) { index_done = some done; plan_file = none };
    } in
    let k : Path (Result ℕ × State) (ok done.n_keys, after) (ok n, st') = h in
    let same : after ≡ st' = ap (λ r. r.1) k in
    let res : Path (Result ℕ) (ok done.n_keys) (ok n) = ap (λ r. r.0) k in
    let count : done.n_keys ≡ n = cc in
    subst (λ s. IsIndexed n s) same
      (record { done = done; on_disk = refl; in_memory = refl; counted = count })

module _ (xxh64 : Bytes → ℕ → ℕ) (sort : List FrameRef → List FrameRef)
    (try_from : List ℕ → String ⊎ (Bytes × Bytes)) {Level CCtx DCtx : Type 0}
    (api : Zstd Level CCtx DCtx) (level : Level)
    (from_samples : List Bytes → ℕ → IoError ⊎ Bytes) where
  build_with-IsIndexed :
      (o : Option IndexDone) (st st' : State) (n : ℕ)
      → st.root.index_done ≡ o
      → build_with xxh64 sort try_from api level from_samples o st ≡ (ok n, st')
      → IsIndexed n st'
  unfolding build_with sweep_transients
  build_with-IsIndexed (some done) st st' n there h =
      let after : State = record {
        builder = record (st.builder) { done = some done };
        root = sweep_transients st.root;
      } in
      let k : Path (Result ℕ × State) (ok done.n_keys, after) (ok n, st') = h in
      let same : after ≡ st' = ap (λ r. r.1) k in
      let res : Path (Result ℕ) (ok done.n_keys) (ok n) = ap (λ r. r.0) k in
      let count : done.n_keys ≡ n = cc in
      subst (λ s. IsIndexed n s) same
        (record { done = done; on_disk = there; in_memory = refl; counted = count })
  build_with-IsIndexed none st st' n there h =
      let (p, s, planned, later) =
        and_then-eq-ok (ensure_plan xxh64 api level from_samples st)
          (λ p. λ s.
            ((lift (load_dict xxh64 p.dict_checksum s.root.dict_bin)
                  ⨾ build_all xxh64 sort try_from api level from_samples p)
                ⨾ finish_index p)
              s)
          n st' h in
      let (ds, s', built, finished) =
        and_then-eq-ok
          ((lift (load_dict xxh64 p.dict_checksum s.root.dict_bin)
              ⨾ build_all xxh64 sort try_from api level from_samples p)
            s)
          (finish_index p) n st' later in
      finish_index-IsIndexed p ds s' st' n finished

  build-IsIndexed :
      (st st' : State) (n : ℕ)
      → build xxh64 sort try_from api level from_samples st ≡ (ok n, st')
      → IsIndexed n st'
  unfolding build
  build-IsIndexed st st' n h = build_with-IsIndexed st.root.index_done st st' n refl h

  -- A build that has completed is not done again. When a process has built, another process, with
  -- any configuration of its own, builds from the same root to the same number of keys, with
  -- nothing but the transient files swept; and when it has the same verification seed, it finalizes
  -- to the metadata to which the first would have.
  pub build-resumes :
      (st st' : State) (n : ℕ) (b : V5Builder)
      → build xxh64 sort try_from api level from_samples st ≡ (ok n, st')
      → b.verify_seed ≡ st'.builder.verify_seed
      → (resumed : State) × (build xxh64 sort try_from api level from_samples
            (record { builder = b; root = st'.root })
          ≡ (ok n, resumed))
        × (resumed.root ≡ sweep_transients st'.root)
        × ((finalize resumed).0 ≡ ok tt)
        × ((finalize resumed).1.root.meta_json ≡ (finalize st').1.root.meta_json)
  unfolding build build_with finalize finalize_with
  build-resumes st st' n b h same_seed =
      let i = build-IsIndexed st st' n h in
      let skip =
        ap
          (λ o.
            build_with xxh64 sort try_from api level from_samples o
              (record { builder = b; root = st'.root }))
          i.on_disk in
      let seeded = ap (λ seed. some (meta_of seed i.done)) same_seed in
      (
        resumed_state b i.done st'.root,
        skip ∙ ap (λ k. (ok k, resumed_state b i.done st'.root)) i.counted,
        refl,
        refl,
        seeded ∙ sym (ap (λ o. (finalize_with o st').1.root.meta_json) i.in_memory),
      )
