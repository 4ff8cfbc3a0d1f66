-- ===== src/V5/Reader/Assembled.antt =====
-- Lookups in a partition whose files are what an assembler wrote.
use mathlib.Core.List.{flatten}
use mcfreeze.Base.{ℕ, ◌%◌, ◌^◌, ◌≤◌, ◌<◌, ◌≡◌, ◌≢◌, refl, sym, ap, ◌∙◌, List}
use mcfreeze.Base.{map, All, Elem, IsSorted, Option, some, get_elem?, subst, arith, Bytes, Bool}
use mcfreeze.Base.{true, length, ◌==◌, ==_iff}
use mcfreeze.Data.{fingerprint, verify_fingerprint, pread}
use mcfreeze.Error.{Result, ok}
use mcfreeze.Layout.{partition_of}
use mcfreeze.V5.Block.{Record, inline_record, stub_record, record_vfp, checksum32}
use mcfreeze.V5.Block.Seal.{seal}
use mcfreeze.V5.Block.Pack.{Entry, recs, group_fences}
use mcfreeze.V5.Block.Refine.{CanHold, assemble, groups, assemble-groups}
use mcfreeze.V5.Compress.{Zstd, Decompressor, Compressor, compress, decode}
use mcfreeze.V5.Compress.RoundTrip.{stored_bytes, is_compressed, IsReady, IsLossless, decode-stored}
use mcfreeze.V5.Block.{max_value_len}
use mcfreeze.V5.Reader.{Partition, SnapshotReader, hit, miss, get, resolve, read_stub}
use mcfreeze.V5.Reader.Locate.{fps}
use mcfreeze.V5.Reader.Held.{Holds, All-at, Admits}
use mcfreeze.V5.Reader.Get.{get_in-found, get_in-none}

-- A reader whose partition for the key has the fences and the blocks that `assemble` makes of the
-- entries, which come in the order of their fingerprints and each fit a block.
pub record Serves (xxh64 : Bytes → ℕ → ℕ) {DCtx : Type 0} (reader : SnapshotReader DCtx)
    (key : Bytes) (es : List Entry) (part : Partition) : Type 0 where
  pub aligned : reader.block_size % 8 ≡ 0
  pub large : 28 ≤ reader.block_size
  pub small : reader.block_size < 2 ^ 62
  pub entries : All (CanHold reader.block_size) es
  pub sorted : IsSorted (fps es)
  pub blocks : List Bytes
  pub written : assemble xxh64 reader.block_size es ≡ ok (part.fences, blocks)
  pub file : part.blocks ≡ flatten blocks
  pub routed :
      get_elem? reader.partitions (partition_of reader.layout (fingerprint xxh64 key)) ≡ some part

ok-pair :
    {A B : Type 0} (a : A) (b : B) (a' : A) (b' : B)
    → Path (Result (A × B)) (ok (a, b)) (ok (a', b'))
    → (a ≡ a') × (b ≡ b')
ok-pair a b a' b' h = (cc, cc)

module _ (xxh64 : Bytes → ℕ → ℕ) {DCtx : Type 0} (reader : SnapshotReader DCtx) (key : Bytes)
    (es : List Entry) (part : Partition) (s : Serves xxh64 reader key es part) where
  flat : flatten (groups reader.block_size es) ≡ es
  flat = (assemble-groups xxh64 reader.block_size es s.aligned s.large s.small s.entries).1

  held : Holds xxh64 reader.block_size (groups reader.block_size es) part
  held =
      let n = reader.block_size in
      let (made, flat', good) = assemble-groups xxh64 n es s.aligned s.large s.small s.entries in
      let sealed = map (λ g. seal xxh64 n (recs g)) (groups n es) in
      let (ef, eb) =
        ok-pair part.fences s.blocks (group_fences (groups n es)) sealed (sym s.written ∙ made) in
      record {
        small = omega (arith, s.small);
        fences = ef;
        blocks = s.file ∙ ap flatten eb;
        fits = good;
        storable = λ e mem. (All-at (CanHold n) es e s.entries (subst (Elem e) flat' mem)).0;
        sorted = subst (λ zs. IsSorted (fps zs)) (sym flat') s.sorted;
      }

-- A key whose entry was assembled is found: `get` resolves the entry's record. The reader serves
-- what `assemble` made of sorted entries that each fit a block. The entry has the key's
-- fingerprints, no other record has its verification fingerprint, and the sketch, if any, admits the
-- key.
pub get-assemble :
    (xxh64 : Bytes → ℕ → ℕ) (filter : Bytes → Bytes → ℕ → Bool) {Level CCtx DCtx : Type 0}
    (api : Zstd Level CCtx DCtx) (reader : SnapshotReader DCtx) (key : Bytes) (es : List Entry)
    (part : Partition) (e : Entry)
    → Serves xxh64 reader key es part
    → Elem e es
    → e.fp ≡ fingerprint xxh64 key
    → record_vfp e.rec ≡ verify_fingerprint xxh64 key reader.verify_seed
    → ((e' : Entry) → Elem e' es → record_vfp e'.rec ≡ record_vfp e.rec → e'.rec ≡ e.rec)
    → Admits filter part (fingerprint xxh64 key)
    → get xxh64 filter api reader key ≡ resolve xxh64 filter api part reader.codec e.rec
unfolding get
get-assemble xxh64 filter api reader key es part e s mem efp evfp unique admits =
    let found =
      get_in-found xxh64 filter api reader.block_size
        (verify_fingerprint xxh64 key reader.verify_seed) (groups reader.block_size es) part
        (held xxh64 reader key es part s) (fingerprint xxh64 key) reader.codec e
        (subst (Elem e) (sym (flat xxh64 reader key es part s)) mem) efp evfp
        (λ e' mem' same.
          unique e' (subst (Elem e') (flat xxh64 reader key es part s) mem') (same ∙ sym evfp))
        admits in
    rw (s.routed, get) found

-- A key without an entry is a miss, never an error or another key's value. The reader serves what
-- `assemble` made of sorted entries that each fit a block, and none of them has the key's
-- verification fingerprint.
pub get-absent :
    (xxh64 : Bytes → ℕ → ℕ) (filter : Bytes → Bytes → ℕ → Bool) {Level CCtx DCtx : Type 0}
    (api : Zstd Level CCtx DCtx) (reader : SnapshotReader DCtx) (key : Bytes) (es : List Entry)
    (part : Partition)
    → Serves xxh64 reader key es part
    → ((e : Entry) → Elem e es → record_vfp e.rec ≢ verify_fingerprint xxh64 key reader.verify_seed)
    → (paid : Bool) × (get xxh64 filter api reader key ≡ (ok (miss paid), reader.codec))
unfolding get
get-absent xxh64 filter api reader key es part s absent =
    let (paid, missed) =
      get_in-none xxh64 filter api reader.block_size
        (verify_fingerprint xxh64 key reader.verify_seed) (groups reader.block_size es) part
        (held xxh64 reader key es part s) (fingerprint xxh64 key) reader.codec
        (λ e mem. absent e (subst (Elem e) (flat xxh64 reader key es part s) mem)) in
    (paid, rw (s.routed, get) missed)

-- The stored bytes of a record, inline or in the heap under their checksum, and its flag.
abbrev pub Stores : (Bytes → ℕ → ℕ) → Partition → Record → Bytes → Bool → Type 0
Stores xxh64 part (inline_record vfp value flag) stored compressed =
    (value ≡ stored) × (flag ≡ compressed)
Stores xxh64 part (stub_record vfp stub flag) stored compressed =
    (pread part.heap stub.heap_offset stub.stored_len ≡ ok stored)
    × (stub.value_checksum ≡ checksum32 xxh64 stored)
    × (flag ≡ compressed)

==-self : (n : ℕ) → (n == n) ≡ true
==-self n = (==_iff n n).1 refl

pub resolve-stored :
    (xxh64 : Bytes → ℕ → ℕ) (filter : Bytes → Bytes → ℕ → Bool) {Level CCtx DCtx : Type 0}
    (api : Zstd Level CCtx DCtx) (part : Partition) (r : Record) (stored value : Bytes)
    (compressed : Bool) (codec : Option (Decompressor DCtx))
    → Stores xxh64 part r stored compressed
    → decode api stored compressed codec ≡ (ok value, codec)
    → resolve xxh64 filter api part codec r ≡ (ok (hit value), codec)
unfolding resolve
resolve-stored xxh64 filter api part (inline_record vfp v flag) stored value compressed codec h e =
    rw h.0 (rw h.1 (rw e refl))
resolve-stored xxh64 filter api part (stub_record vfp stub flag) stored value compressed codec h e =
    rw (h.0, resolve, read_stub)
      (rw h.1 (rw (==-self (checksum32 xxh64 stored)) (rw h.2 (rw e refl))))

-- A key whose value was stored is a hit with that value, and the reader's contexts are as before.
-- The reader serves what `assemble` made of sorted entries that each fit a block. One of them has
-- the key's fingerprints; no other record has its verification fingerprint; the sketch, if any,
-- admits the key. The value, of at most MAX_VALUE_LEN bytes, went through `compress`, its bytes are
-- in the record or in the heap under their checksum, and the reader's contexts are lossless for the
-- writer's.
pub get-stored :
    (xxh64 : Bytes → ℕ → ℕ) (filter : Bytes → Bytes → ℕ → Bool) {Level CCtx DCtx : Type 0}
    (api : Zstd Level CCtx DCtx) (reader : SnapshotReader DCtx) (key : Bytes) (es : List Entry)
    (part : Partition) (e : Entry) (c : Compressor CCtx) (d : Decompressor DCtx) (value : Bytes)
    (r : Option Bytes)
    → Serves xxh64 reader key es part
    → Elem e es
    → e.fp ≡ fingerprint xxh64 key
    → record_vfp e.rec ≡ verify_fingerprint xxh64 key reader.verify_seed
    → ((e' : Entry) → Elem e' es → record_vfp e'.rec ≡ record_vfp e.rec → e'.rec ≡ e.rec)
    → Admits filter part (fingerprint xxh64 key)
    → reader.codec ≡ some d
    → IsReady api (IsLossless api c.ctx) d
    → length value ≤ max_value_len
    → compress api c value ≡ ok r
    → Stores xxh64 part e.rec (stored_bytes api value r) (is_compressed api r)
    → get xxh64 filter api reader key ≡ (ok (hit value), some d)
get-stored xxh64 filter api reader key es part e c d value r s mem efp evfp unique admits codec
      ready room made stores =
    get-assemble xxh64 filter api reader key es part e s mem efp evfp unique admits
    ∙ ap (λ k. resolve xxh64 filter api part k e.rec) codec
    ∙ resolve-stored xxh64 filter api part e.rec (stored_bytes api value r) value
        (is_compressed api r) (some d) stores (decode-stored api c value r d made room ready).0
