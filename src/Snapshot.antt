-- ===== src/Snapshot.antt =====
-- rust/crates/mcfreeze-format/src/snapshot.rs: an opened snapshot of either format. The descriptor
-- that it keeps is left out.
use mcfreeze.Base.{ℕ, List, Bytes, Bool}
use mcfreeze.Error.{Result}
use mcfreeze.Layout.{Layout}
use mcfreeze.V4.Reader.{PartitionReader, v4_get}
use mcfreeze.V5.Compress.{Zstd}
use mcfreeze.V5.Reader.{SnapshotReader, GetOutcome, get}

pub data Inner (DCtx : Type 0) : Type 0 where
  v4_reader : Layout → List PartitionReader → Inner DCtx
  v5_reader : SnapshotReader DCtx → Inner DCtx

-- `Snapshot::get`. A V5 reader gets its contexts back.
unfoldable pub snapshot_get :
    (Bytes → ℕ → ℕ)
    → (Bytes → Bytes → ℕ → Bool)
    → {Level CCtx DCtx : Type 0} → Zstd Level CCtx DCtx
    → Inner DCtx
    → Bytes
    → Result GetOutcome × Inner DCtx
snapshot_get xxh64 filter api (v4_reader layout parts) key =
    (v4_get xxh64 layout parts key, v4_reader layout parts)
snapshot_get xxh64 filter api (v5_reader reader) key =
    let (outcome, codec) = get xxh64 filter api reader key in
    (outcome, v5_reader (record reader { codec = codec }))
