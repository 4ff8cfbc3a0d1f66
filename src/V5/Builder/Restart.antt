-- ===== src/V5/Builder/Restart.antt =====
-- What a build that was interrupted, or that is run again, comes to.
use mcfreeze.Base.{Option-cases, inl, inr, subst, ℕ, ◌≡◌, refl, sym, ap, ◌∙◌, List, Option, none}
use mcfreeze.Base.{some, Bytes, String, ◌⊎◌}
use mcfreeze.Error.{Result, ok, err, panic, stuck, ◌>>=◌}
use mcfreeze.V5.Compress.{Zstd}
use mcfreeze.V5.Builder.{Dir, Plan, PartitionBuildDone, read, remove_bucket_files, remove_outputs}
use mcfreeze.V5.Builder.{sweep_partition_transients}
use mcfreeze.V5.Builder.Arrival.{FrameRef}
use mcfreeze.V5.Builder.Partition.{build_partition, build_unless, build_output, settle, publish}
use mcfreeze.V5.Builder.Partition.{Output}

-- What a build begins with, of what it keeps.
reset_to :
    (a b : Dir)
    → a.arrival_bin ≡ b.arrival_bin
    → a.arrival_stats ≡ b.arrival_stats
    → a.build_done ≡ b.build_done
    → remove_bucket_files (remove_outputs a) ≡ remove_bucket_files (remove_outputs b)
unfolding remove_bucket_files remove_outputs
reset_to a b ea es ed = cc

-- A directory after a build: the marker is there, and the transient files are gone.
IsDone : PartitionBuildDone → Dir → Type 0
IsDone done dir = (dir.build_done ≡ some done) × (sweep_partition_transients dir ≡ dir)

settle-IsDone :
    (r : Result Output) (dir dir' : Dir) (done : PartitionBuildDone)
    → settle r dir ≡ (ok done, dir')
    → IsDone done dir'
unfolding settle publish sweep_partition_transients remove_bucket_files IsDone
settle-IsDone (ok out) dir dir' done h =
    let k : Path (Result PartitionBuildDone × Dir) (ok out.done, publish out dir) (ok done, dir') =
      h in
    let made : out.done ≡ done = cc in
    let left : publish out dir ≡ dir' = ap (λ (r : Result PartitionBuildDone × Dir). r.1) k in
    (
      sym (ap (λ (d : Dir). d.build_done) left) ∙ ap some made,
      subst (λ (d : Dir). sweep_partition_transients d ≡ d) left refl,
    )
settle-IsDone (err e) dir dir' done h =
    let k : Path (Result PartitionBuildDone × Dir) (err e, dir) (ok done, dir') = h in cc
settle-IsDone panic dir dir' done h =
    let k : Path (Result PartitionBuildDone × Dir) (panic, dir) (ok done, dir') = h in cc
settle-IsDone stuck dir dir' done h =
    let k : Path (Result PartitionBuildDone × Dir) (stuck, dir) (ok done, dir') = h in cc

swept :
    (dir : Dir)
    → sweep_partition_transients (sweep_partition_transients dir) ≡ sweep_partition_transients dir
unfolding sweep_partition_transients remove_bucket_files
swept dir = refl

swept_done : (dir : Dir) → (sweep_partition_transients dir).build_done ≡ dir.build_done
unfolding sweep_partition_transients remove_bucket_files
swept_done dir = refl

module _ (xxh64 : Bytes → ℕ → ℕ) (sort : List FrameRef → List FrameRef)
    (try_from : List ℕ → String ⊎ (Bytes × Bytes)) {Level CCtx DCtx : Type 0}
    (api : Zstd Level CCtx DCtx) (level : Level) where
  build_partition-done :
      (plan : Plan) (dict : Option Bytes) (bucket_bytes : ℕ) (dir : Dir) (done : PartitionBuildDone)
      → IsDone done dir
      → build_partition xxh64 sort try_from api level plan dict bucket_bytes dir ≡ (ok done, dir)
  unfolding build_partition IsDone
  build_partition-done plan dict bucket_bytes dir done h =
      ap (λ o. build_unless xxh64 sort try_from api level plan dict bucket_bytes o dir) h.0
      ∙ (unfold build_unless in ap (λ d. (ok done, d)) h.1)

  build_partition-IsDone :
      (plan : Plan) (dict : Option Bytes) (bucket_bytes : ℕ) (dir dir' : Dir)
      (done : PartitionBuildDone)
      → build_partition xxh64 sort try_from api level plan dict bucket_bytes dir ≡ (ok done, dir')
      → IsDone done dir'
  unfolding build_partition build_unless IsDone
  build_partition-IsDone plan dict bucket_bytes dir dir' done h =
      elim (Option-cases dir.build_done) [
        | inl fresh ↦
            settle-IsDone
              (read (remove_bucket_files (remove_outputs dir)).arrival_bin
                >>= build_output xxh64 sort try_from api level plan dict bucket_bytes)
              (remove_bucket_files (remove_outputs dir)) dir' done
              (sym (
                  ap (λ o. build_unless xxh64 sort try_from api level plan dict bucket_bytes o dir)
                    fresh)
                ∙ h)
        | inr (old, there) ↦
            let k : Path (Result PartitionBuildDone × Dir) (ok old, sweep_partition_transients dir)
                (ok done, dir') =
              sym (
                ap (λ o. build_unless xxh64 sort try_from api level plan dict bucket_bytes o dir)
                  there)
              ∙ h in
            let same : old ≡ done = cc in
            let left : sweep_partition_transients dir ≡ dir' =
              ap (λ (r : Result PartitionBuildDone × Dir). r.1) k in
            (
              sym (ap (λ (d : Dir). d.build_done) left) ∙ swept_done dir ∙ there ∙ ap some same,
              subst (λ (d : Dir). sweep_partition_transients d ≡ d) left (swept dir),
            )
      ]

  -- A build can be interrupted and repeated. Take two directories with the same arrival log and
  -- `arrival.stats` and without `build.done`, that differ in what a crashed build left of outputs,
  -- an old sketch among them that the build itself may not write, and of buckets. If the one builds,
  -- the other builds to the same directory and the same `build.done`; and building that directory
  -- again, with any plan, dictionary and bucket size, gives the same marker and changes nothing.
  pub build_partition-resumes :
      (plan plan' : Plan) (dict dict' : Option Bytes) (bucket_bytes bucket_bytes' : ℕ)
      (a b dir' : Dir) (done : PartitionBuildDone)
      → a.arrival_bin ≡ b.arrival_bin
      → a.arrival_stats ≡ b.arrival_stats
      → a.build_done ≡ none
      → b.build_done ≡ none
      → build_partition xxh64 sort try_from api level plan dict bucket_bytes a ≡ (ok done, dir')
      → (build_partition xxh64 sort try_from api level plan dict bucket_bytes b ≡ (ok done, dir'))
        × (build_partition xxh64 sort try_from api level plan' dict' bucket_bytes' dir'
            ≡ (ok done, dir'))
  unfolding build_partition build_unless IsDone
  build_partition-resumes plan plan' dict dict' bucket_bytes bucket_bytes' a b dir' done ea es na nb
        h =
      (
        ap (λ o. build_unless xxh64 sort try_from api level plan dict bucket_bytes o b) nb
            ∙ ap
                (λ (d : Dir).
                  settle
                    (read d.arrival_bin
                      >>= build_output xxh64 sort try_from api level plan dict bucket_bytes)
                    d)
                (sym (reset_to a b ea es (na ∙ sym nb)))
            ∙ sym
                (ap (λ o. build_unless xxh64 sort try_from api level plan dict bucket_bytes o a) na)
            ∙ h,
        build_partition-done plan' dict' bucket_bytes' dir' done
            (build_partition-IsDone plan dict bucket_bytes a dir' done h),
      )
