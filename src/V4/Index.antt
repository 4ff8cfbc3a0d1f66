-- ===== src/V4/Index.antt =====
-- rust/crates/mcfreeze-format/src/v4/index.rs: Robin Hood insertion into a table of buckets and the
-- probe of a group. A loop is in fuel. An insertion that fails leaves a table that its caller
-- throws away: only the error is kept.
pub mod Slots
pub mod Displace
pub mod Insert
use mcfreeze.Base.{ℕ, zero, suc, ◌+◌, ◌-◌, ◌*◌, ◌%◌, ◌/◌, ◌^◌, List, [], ◌∷◌, Bool, true, false}
use mcfreeze.Base.{not}
use mcfreeze.Base.{ltb, ◌==◌, if◌then◌else◌, length, get_or, set, bit_and}
use mcfreeze.Error.{Error, Result, ok, err, panic, stuck, offset_overflow, psl_overflow}
use mcfreeze.Data.{compact_fingerprint}

-- `u32::MAX - 1`
abbrev pub max_offset : ℕ
max_offset = 2 ^ 32 - 2

abbrev pub max_psl : ℕ
max_psl = 255

abbrev pub value_alignment : ℕ
value_alignment = 64

pub record Bucket : Type 0 where
  pub fingerprint : ℕ
  pub offset : ℕ

-- `Bucket::default()`
abbrev pub default_bucket : Bucket
default_bucket = record { fingerprint = 0; offset = 0 }

-- `Bucket::new`
unfoldable pub new_bucket : ℕ → ℕ → Result Bucket
new_bucket fingerprint aligned_offset =
    if ltb max_offset aligned_offset
    then err (offset_overflow aligned_offset)
    else ok (record { fingerprint = fingerprint; offset = aligned_offset % 2 ^ 32 })

abbrev pub is_empty : Bucket → Bool
is_empty b = b.fingerprint == 0

unfoldable pub byte_offset : Bucket → ℕ
byte_offset b = b.offset * value_alignment

unfoldable pub n_occupied : List Bucket → ℕ
n_occupied [] = 0
n_occupied (b ∷ bs) = (if is_empty b then 0 else 1) + n_occupied bs

-- The locals of `insert`.
pub record Insertion : Type 0 where
  pub table : List Bucket
  pub psls : List ℕ
  pub pos : ℕ
  pub psl : ℕ
  pub cur : Bucket

abbrev pub slot : List Bucket → ℕ → Bucket
slot table pos = get_or table pos default_bucket

abbrev pub psl_at : List ℕ → ℕ → ℕ
psl_at psls pos = get_or psls pos 0

-- The swap with a bucket that is nearer to its home.
unfoldable pub displace : Insertion → Insertion
displace s =
    if ltb (psl_at s.psls s.pos) s.psl
    then record s {
      table = set s.table s.pos s.cur;
      psls = set s.psls s.pos s.psl;
      psl = psl_at s.psls s.pos;
      cur = slot s.table s.pos;
    }
    else s

-- The next place, one further from home.
unfoldable pub advance : Insertion → Insertion
advance s = record s { pos = (s.pos + 1) % length s.table; psl = s.psl + 1 }

unfoldable pub insert_loop : ℕ → Insertion → Result (List Bucket × List ℕ)
insert_loop zero s = stuck
insert_loop (suc fuel) s = elim (is_empty (slot s.table s.pos)) [
  | true ↦ ok (set s.table s.pos s.cur, set s.psls s.pos s.psl)
  | false ↦
      let s' = displace s in
      elim (s'.psl == max_psl) [
        | true ↦ err (psl_overflow s'.psl (n_occupied s'.table) (length s'.table))
        | false ↦ insert_loop fuel (advance s')
      ]
]

abbrev pub start : List Bucket → List ℕ → Bucket → Insertion
start table psls entry = record {
  table = table;
  psls = psls;
  pos = entry.fingerprint % length table;
  psl = 0;
  cur = entry;
}

-- A remainder by the length of an empty table panics. Each round adds one to the sum of the probe
-- lengths, which stay below 256.
unfoldable pub insert : List Bucket → List ℕ → Bucket → Result (List Bucket × List ℕ)
insert table psls entry =
    if length table == 0
    then panic
    else insert_loop (256 * (length table + 1)) (start table psls entry)

-- `home_position`
unfoldable pub home_position : ℕ → ℕ → ℕ
home_position fingerprint n = compact_fingerprint fingerprint % n

-- `aligned_size`
unfoldable pub aligned_size : ℕ → ℕ
aligned_size size = bit_and (size + value_alignment - 1) (2 ^ 64 - 1 - (value_alignment - 1))
