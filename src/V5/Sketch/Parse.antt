-- ===== src/V5/Sketch/Parse.antt =====
-- What `parse` lets through.
use mcfreeze.Base.{ℕ, ◌+◌, ◌-◌, ◌*◌, ◌%◌, ◌^◌, ◌≡◌, ◌<◌, ◌≤◌, true}
use mcfreeze.Base.{length, Bytes, arith, ◌↔◌}
use mcfreeze.Base.{ap, ◌∙◌}
use mcfreeze.Base.Words.{is_power_of_two, is_power_of_two_sound}
use mcfreeze.Base.Words.{is_power_of_two_complete}
use native.Mathlib.Nat.{one-le-pow}
use mcfreeze.Error.{ok}
use mcfreeze.V5.Sketch.{Sketch, parse, segment_length, segment_length_mask, segment_count_length}
use mcfreeze.V5.Sketch.{descriptor_len}

-- The fields are consistent.
abbrev pub IsDescribed : Bytes → Type 0
IsDescribed buf =
    (descriptor_len ≤ length buf)
    × ((k : ℕ) × (k < 32) × (segment_length buf ≡ 2 ^ k))
    × (segment_length_mask buf ≡ segment_length buf - 1)
    × (segment_count_length buf % segment_length buf ≡ 0)
    × (length buf ≡ descriptor_len + segment_count_length buf + 2 * segment_length buf)

parse-ok :
    (buf : Bytes) (s : Sketch)
    → parse buf ≡ ok s
    → (descriptor_len ≤ length buf)
      × (is_power_of_two 32 (segment_length buf) ≡ true)
      × (segment_length_mask buf ≡ segment_length buf - 1)
      × (segment_count_length buf % segment_length buf ≡ 0)
      × (length buf - descriptor_len ≡ segment_count_length buf + 2 * segment_length buf)
unfolding parse
parse-ok buf s h =
    (ground (arith, h), ground (arith, h), ground (arith, h), ground (arith, h), ground (arith, h))

pub parse-IsDescribed : (buf : Bytes) → IsDescribed buf → parse buf ≡ ok (record { buf = buf })
unfolding parse
parse-IsDescribed buf d =
    let (k, lt, e) = d.1 in
    let power : is_power_of_two 32 (segment_length buf) ≡ true =
      ap (is_power_of_two 32) e ∙ is_power_of_two_complete 32 k lt in
    ground (arith, power, d, one-le-pow k 2)

-- `Sketch::parse` accepts exactly the buffers whose descriptor is consistent: a segment length that
-- is a power of two below 2^32, its mask, a segment count length that is a multiple of it, and as
-- many fingerprint bytes as the two call for.
pub parse_iff : (buf : Bytes) → ((s : Sketch) × (parse buf ≡ ok s)) ↔ IsDescribed buf
parse_iff buf = (
  λ h.
      let (s, e) = h in
      let (long, power, mask, count, whole) = parse-ok buf s e in
      (long, is_power_of_two_sound 32 (segment_length buf) power, mask, count, omega arith),
  λ d. (record { buf = buf }, parse-IsDescribed buf d),
)
