-- ===== src/V5/Examples/Lookups.antt =====
-- Lookups in a reader of one partition with the blocks of two entries.
use mathlib.Core.List.{flatten}
use mcfreeze.Base.{ℕ, ◌≡◌, ◌≢◌, refl, [], ◌∷◌, Bytes, Bool}
use mcfreeze.Base.{true, none, some, arith, Elem, inl, inr, map, replicate, ap}
use mcfreeze.Data.{fingerprint, verify_fingerprint}
use mcfreeze.Layout.{partition_of}
use mcfreeze.Error.{ok}
use mcfreeze.V5.Sketch.{contains}
use mcfreeze.Base.Words.{to_le_bytes, from_le_bytes}
use mcfreeze.V5.Block.{record_vfp}
use mcfreeze.V5.Block.Seal.{seal}
use mcfreeze.V5.Block.Pack.{Entry, recs, group_fences}
use mcfreeze.V5.Block.Refine.{groups, assemble-groups}
use mcfreeze.V5.Compress.{Decompressor, compress}
use mcfreeze.V5.Reader.{Partition, SnapshotReader, hit, miss, get, resolve}
use mcfreeze.V5.Reader.Held.{Admits}
use mcfreeze.V5.Reader.Assembled.{Serves, get-assemble, get-absent, get-stored}
use mcfreeze.V5.Examples.{add_hash, first_entry, entries, entries-CanHold}
use mcfreeze.V5.Examples.Codec.{zero_codec, zero_codec-IsLossless}

abbrev codec : Decompressor (Unit {0})
codec = record { dict = none; pool = tt ∷ [] }

abbrev part : Partition
part = record {
  fences = group_fences (groups 64 entries);
  blocks = flatten (map (λ g. seal add_hash 64 (recs g)) (groups 64 entries));
  heap = [];
  sketch = some (record { buf = replicate 36 0 });
}

abbrev reader : SnapshotReader (Unit {0})
reader = record {
  partitions = part ∷ [];
  layout = record { n_partitions = 1; partition_mask = 0 };
  verify_seed = 4;
  block_size = 64;
  codec = some codec;
}

abbrev pub filter_all : Bytes → Bytes → ℕ → Bool
filter_all descriptor fingerprints fp = true

serves :
    (key : Bytes)
    → partition_of reader.layout (fingerprint add_hash key) ≡ 0
    → Serves add_hash reader key entries part
serves key routed = record {
  aligned = omega arith;
  large = omega arith;
  small = omega arith;
  entries = entries-CanHold;
  sorted = ((omega arith, tt), (tt, tt));
  blocks = map (λ g. seal add_hash 64 (recs g)) (groups 64 entries);
  written =
      (assemble-groups add_hash 64 entries (omega arith) (omega arith) (omega arith)
        entries-CanHold).0;
  file = refl;
  routed = rw routed refl;
}

unique :
    (e : Entry)
    → Elem e entries
    → record_vfp e.rec ≡ record_vfp first_entry.rec
    → e.rec ≡ first_entry.rec
unfolding record_vfp
unique e (inl same) h = ap (λ (x : Entry). x.rec) same
unique e (inr (inl same)) h = absurd (omega (arith, h, ap (λ (x : Entry). record_vfp x.rec) same))
unique e (inr (inr none_left)) h = absurd none_left

admits : Admits filter_all part 514
unfolding contains
admits sketch given = refl

get-assemble_example :
    get add_hash filter_all zero_codec reader (1 ∷ (2 ∷ []))
    ≡ resolve add_hash filter_all zero_codec part (some codec) first_entry.rec
unfolding fingerprint verify_fingerprint partition_of record_vfp from_le_bytes
get-assemble_example =
    get-assemble add_hash filter_all zero_codec reader (1 ∷ (2 ∷ [])) entries part first_entry
      (serves (1 ∷ (2 ∷ [])) refl) (inl refl) refl refl unique admits

get-stored_example :
    get add_hash filter_all zero_codec reader (1 ∷ (2 ∷ []))
    ≡ (ok (hit (replicate 7 0)), some codec)
unfolding fingerprint verify_fingerprint partition_of record_vfp compress to_le_bytes from_le_bytes
get-stored_example =
    get-stored add_hash filter_all zero_codec reader (1 ∷ (2 ∷ [])) entries part first_entry
      (record { ctx = tt; min_compress_len = 4 }) codec (replicate 7 0)
      (some (160 ∷ (7 ∷ (0 ∷ (0 ∷ (0 ∷ [])))))) (serves (1 ∷ (2 ∷ [])) refl) (inl refl) refl refl
      unique admits refl ((λ e. cc), (zero_codec-IsLossless, tt)) (omega arith) refl (refl, refl)

absent : (e : Entry) → Elem e entries → record_vfp e.rec ≢ verify_fingerprint add_hash (9 ∷ []) 4
unfolding record_vfp verify_fingerprint from_le_bytes
absent e (inl same) h = absurd (omega (arith, h, ap (λ (x : Entry). record_vfp x.rec) same))
absent e (inr (inl same)) h = absurd (omega (arith, h, ap (λ (x : Entry). record_vfp x.rec) same))
absent e (inr (inr none_left)) h = absurd none_left

get-absent_example :
    (paid : Bool) × (get add_hash filter_all zero_codec reader (9 ∷ [])
      ≡ (ok (miss paid), some codec))
unfolding fingerprint partition_of from_le_bytes
get-absent_example =
    get-absent add_hash filter_all zero_codec reader (9 ∷ []) entries part (serves (9 ∷ []) refl)
      absent
