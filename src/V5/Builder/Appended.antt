-- ===== src/V5/Builder/Appended.antt =====
-- What a run of an appender leaves in the arrival log and in its marker.
use mcfreeze.Base.{ℕ, ◌+◌, ◌^◌, ◌≤◌, ◌<◌, ◌≡◌, ◌≢◌, refl, sym, ap, ◌∙◌}
use mcfreeze.Base.{List, [], ◌∷◌, ◌++◌, map, arith, Bytes, true}
use mcfreeze.Base.{append_assoc, append-nil, All, length, length-append, ltb, le→ltb, length-set}
use mcfreeze.Base.{length-replicate, set, get_or}
use mcfreeze.Data.{verify_fingerprint}
use mcfreeze.Error.{ok}
use mcfreeze.V5.Block.{max_value_len, encoded_len, align8, header_len}
use mcfreeze.V5.Block.Encoding.{align8_lem}
use mcfreeze.V5.Builder.{Dir, Io}
use mcfreeze.V5.Builder.Sizes.{bit_len, count_in, hist_buckets}
use mcfreeze.V5.Builder.Bounds.{bit_len-le}
use mcfreeze.V5.Builder.Arrival.{V5Appender, append, appender, parse_frames}
use mcfreeze.V5.Builder.Arrival.{frame_header, FrameRef}
use mcfreeze.V5.Builder.Frames.{Frame, IsFrame, frame, log, view, refs_from, length-frame}
use mcfreeze.V5.Builder.Frames.{parse_frames-log, view-refs_from}

-- One call of `append`.
pub record Item : Type 0 where
  pub key : Bytes
  pub fp : ℕ
  pub value : Bytes

-- The calls of a loader, up to the first that fails.
unfoldable pub append_all : (Bytes → ℕ → ℕ) → List Item → Io V5Appender (Unit {0})
append_all xxh64 [] a = (ok tt, a)
append_all xxh64 (i ∷ items) a =
    let (r, a') = append xxh64 i.key i.fp i.value a in
    elim r [ ok _ ↦ append_all xxh64 items a' | r' ↦ (r', a') ]

abbrev pub frame_of : (Bytes → ℕ → ℕ) → ℕ → Item → Frame
frame_of xxh64 seed i = record {
  fp = i.fp;
  vfp = verify_fingerprint xxh64 i.key seed;
  value = i.value;
}

-- A value that the format admits falls into one of the histogram's buckets.
encoded_len-bits : (n : ℕ) → n ≤ max_value_len → bit_len 64 (encoded_len n) < 33
unfolding encoded_len
encoded_len-bits n h =
    let e = align8_lem (header_len + n) (omega arith) in
    omega (arith, bit_len-le 64 (align8 (header_len + n)) 32 (omega (arith, e)) (omega arith))

-- What a run adds to an appender: the bytes of its frames, and their count and size.
pub record Adds (xxh64 : Bytes → ℕ → ℕ) (items : List Item) (a a' : V5Appender) : Type 0 where
  pub out : a'.out ≡ a.out ++ log (map (frame_of xxh64 a.verify_seed) items)
  pub seed : a'.verify_seed ≡ a.verify_seed
  pub n_keys : a'.n_keys ≡ a.n_keys + length items
  pub data_bytes : a'.data_bytes + length a.out ≡ a.data_bytes + length a'.out
  pub hist : length a'.hist ≡ length a.hist

abbrev pub IsAdmitted : Item → Type 0
IsAdmitted i = length i.value ≤ max_value_len

pub append-Adds :
    (xxh64 : Bytes → ℕ → ℕ) (i : Item) (a : V5Appender)
    → IsAdmitted i
    → length a.hist ≡ hist_buckets
    → (a' : V5Appender) × (append xxh64 i.key i.fp i.value a ≡ (ok tt, a'))
      × Adds xxh64 (i ∷ []) a a'
unfolding append count_in log frame
append-Adds xxh64 i a h hist =
    let f = frame_of xxh64 a.verify_seed i in
    let bucket = bit_len 64 (encoded_len (length i.value)) in
    let hist' = set a.hist bucket (get_or a.hist bucket 0 + 1) in
    let counted : (ltb bucket (length a.hist)) ≡ true =
      ground (arith, encoded_len-bits (length i.value) h, hist) in
    (
      record {
        out = a.out ++ frame f;
        verify_seed = a.verify_seed;
        n_keys = a.n_keys + 1;
        data_bytes = a.data_bytes + (frame_header + length i.value);
        hist = hist';
      },
      rw (le→ltb max_value_len (length i.value) h, counted) refl,
      record {
        out = ap (λ zs. a.out ++ zs) (sym (append-nil (frame f)));
        seed = refl;
        n_keys = refl;
        data_bytes = omega (arith, length-append a.out (frame f), length-frame f);
        hist = length-set a.hist bucket (get_or a.hist bucket 0 + 1);
      },
    )

pub Adds-out :
    (xxh64 : Bytes → ℕ → ℕ) (i : Item) (items : List Item) (a a1 a2 : V5Appender)
    → a1.out ≡ a.out ++ log (frame_of xxh64 a.verify_seed i ∷ [])
    → a1.verify_seed ≡ a.verify_seed
    → a2.out ≡ a1.out ++ log (map (frame_of xxh64 a1.verify_seed) items)
    → a2.out ≡ a.out ++ log (map (frame_of xxh64 a.verify_seed) (i ∷ items))
unfolding log
Adds-out xxh64 i items a a1 a2 out1 seed out2 =
    out2
    ∙ ap (λ zs. zs ++ log (map (frame_of xxh64 a1.verify_seed) items)) out1
    ∙ ap
        (λ s.
          (a.out ++ (frame (frame_of xxh64 a.verify_seed i) ++ []))
          ++ log (map (frame_of xxh64 s) items))
        seed
    ∙ simp (append_assoc, append-nil)

pub append_all-Adds :
    (xxh64 : Bytes → ℕ → ℕ) (items : List Item) (a : V5Appender)
    → All IsAdmitted items
    → length a.hist ≡ hist_buckets
    → (a' : V5Appender) × (append_all xxh64 items a ≡ (ok tt, a')) × Adds xxh64 items a a'
unfolding append_all log
append_all-Adds xxh64 [] a h hist = (
  a,
  refl,
  record {
    out = sym (append-nil a.out);
    seed = refl;
    n_keys = omega arith;
    data_bytes = omega arith;
    hist = refl;
  },
)
append_all-Adds xxh64 (i ∷ items) a h hist =
    let (a1, e1, d1) = append-Adds xxh64 i a h.0 hist in
    let (a2, e2, d2) = append_all-Adds xxh64 items a1 h.1 (d1.hist ∙ hist) in
    (
      a2,
      ap (λ r. elim r.0 [ ok _ ↦ append_all xxh64 items r.1 | r' ↦ (r', r.1) ]) e1 ∙ e2,
      record {
        out = Adds-out xxh64 i items a a1 a2 d1.out d1.seed d2.out;
        seed = d2.seed ∙ d1.seed;
        n_keys = omega (arith, d1.n_keys, d2.n_keys);
        data_bytes = omega (arith, d1.data_bytes, d2.data_bytes);
        hist = d2.hist ∙ d1.hist;
      },
    )

-- An item with a value that the format admits and a 64-bit fingerprint.
abbrev pub IsItem : Item → Type 0
IsItem i = (i.fp < 2 ^ 64) × (length i.value ≤ max_value_len)

pub verify_fingerprint-lt :
    (xxh64 : Bytes → ℕ → ℕ) (key : Bytes) (seed : ℕ)
    → ((bytes : Bytes) (s : ℕ) → xxh64 bytes s < 2 ^ 64)
    → (verify_fingerprint xxh64 key seed ≢ 0) × (verify_fingerprint xxh64 key seed < 2 ^ 64)
unfolding verify_fingerprint
verify_fingerprint-lt xxh64 key seed bounded = (ground arith, ground (arith, bounded key seed))

pub frames-IsFrame :
    (xxh64 : Bytes → ℕ → ℕ) (seed : ℕ) (items : List Item)
    → ((bytes : Bytes) (s : ℕ) → xxh64 bytes s < 2 ^ 64)
    → All IsItem items
    → All IsAdmitted items × All IsFrame (map (frame_of xxh64 seed) items)
frames-IsFrame xxh64 seed [] bounded h = (tt, tt)
frames-IsFrame xxh64 seed (i ∷ items) bounded h =
    let (admitted, framed) = frames-IsFrame xxh64 seed items bounded h.1 in
    (
      (h.0.1, admitted),
      ((h.0.0, (verify_fingerprint-lt xxh64 i.key seed bounded).1, h.0.1), framed),
    )

-- A run of the appender of a partition over any items within the format's limits succeeds: the
-- histogram is never indexed out of bounds. Its log parses into one reference to each item, in the
-- order of arrival, that stands for the item's fingerprint, the verification fingerprint of its
-- key, and its value; the counters are the number of items and the length of the log. The hash
-- returns 64-bit words.
pub append_all-parse_frames :
    (xxh64 : Bytes → ℕ → ℕ) (seed : ℕ) (dir : Dir) (items : List Item)
    → ((bytes : Bytes) (s : ℕ) → xxh64 bytes s < 2 ^ 64)
    → All IsItem items
    → (a : V5Appender) × (frames : List FrameRef) × (append_all xxh64 items (appender seed dir).0
        ≡ (ok tt, a))
      × (parse_frames a.out ≡ ok frames)
      × (map (view a.out) frames ≡ map (frame_of xxh64 seed) items)
      × (a.n_keys ≡ length items)
      × (a.data_bytes ≡ length a.out)
unfolding appender
append_all-parse_frames xxh64 seed dir items bounded h =
    let fs = map (frame_of xxh64 seed) items in
    let (admitted, framed) = frames-IsFrame xxh64 seed items bounded h in
    let (a, run, adds) =
      append_all-Adds xxh64 items (appender seed dir).0 admitted
        (length-replicate {A = ℕ} hist_buckets 0) in
    let out : a.out ≡ log fs = adds.out in
    (
      a,
      refs_from 0 fs,
      run,
      ap parse_frames out ∙ parse_frames-log fs framed,
      ap (λ b. map (view b) (refs_from 0 fs)) out ∙ view-refs_from fs framed,
      adds.n_keys ∙ omega arith,
      omega (arith, adds.data_bytes),
    )
