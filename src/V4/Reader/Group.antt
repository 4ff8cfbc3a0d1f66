-- ===== src/V4/Reader/Group.antt =====
-- What a probe of a group and the tries of its offsets find.
use mcfreeze.Base.{ℕ, zero, suc, ◌+◌, ◌*◌, ◌%◌, ◌<◌, ◌≤◌, ◌≡◌, refl, ap, ◌∙◌, List}
use mcfreeze.Base.{◌∷◌, Bool, true, false, ◌⊎◌, inl, inr, arith, Bool-cases, ==_iff, ◌==◌, length}
use mcfreeze.Base.{Option, none, some, Bytes, if◌then◌else◌}
use mcfreeze.Error.{Result, ok}
use mcfreeze.V4.Index.{Bucket, slot, is_empty, value_alignment}
use mcfreeze.V4.Index.Displace.{IsOccupied}
use mcfreeze.V4.Reader.{no_match, probe_from, read_and_verify, try_offsets}

-- Reads at the buckets of a compact fingerprint verify as the value or not at all.
abbrev pub Verifies : Bytes → ℕ → Bytes → ℕ → Type 0
Verifies file vfp value offset =
    (read_and_verify file (offset * value_alignment) vfp ≡ ok none)
    ⊎ (read_and_verify file (offset * value_alignment) vfp ≡ ok (some value))

module _ (file : Bytes) (vfp : ℕ) (value : Bytes) where
  try-skip :
      (os : List ℕ) (had : Bool)
      → try_offsets file vfp (no_match ∷ os) had ≡ try_offsets file vfp os had
  unfolding try_offsets
  try-skip os had = refl

  try-miss :
      (o : ℕ) (os : List ℕ) (had : Bool)
      → (o == no_match) ≡ false
      → read_and_verify file (o * value_alignment) vfp ≡ ok none
      → try_offsets file vfp (o ∷ os) had ≡ try_offsets file vfp os true
  unfolding try_offsets
  try-miss o os had ne e = rw (ne, try_offsets) (rw e refl)

  try-hit :
      (o : ℕ) (os : List ℕ) (had : Bool)
      → (o == no_match) ≡ false
      → read_and_verify file (o * value_alignment) vfp ≡ ok (some value)
      → try_offsets file vfp (o ∷ os) had ≡ ok (some value, true)
  unfolding try_offsets
  try-hit o os had ne e = rw (ne, try_offsets) (rw e refl)

  -- A try ends with the value, or goes on with the rest.
  abbrev EndsOrGoes : Result (Option Bytes × Bool) → List ℕ → Type 0
  EndsOrGoes r os = (r ≡ ok (some value, true)) ⊎ ((had : Bool) × (r ≡ try_offsets file vfp os had))

  try_first :
      (o : ℕ) (os : List ℕ) (had : Bool)
      → Verifies file vfp value o
      → EndsOrGoes (try_offsets file vfp (o ∷ os) had) os
  try_first o os had good = elim (Bool-cases (o == no_match)) [
    | inl skip ↦
        let e : o ≡ no_match = (==_iff o no_match).0 skip in
        inr (had, ap (λ (k : ℕ). try_offsets file vfp (k ∷ os) had) e ∙ try-skip os had)
    | inr ne ↦ elim good [
      | inl missed ↦ inr (true, try-miss o os had ne missed)
      | inr found ↦ inl (try-hit o os had ne found)
    ]
  ]

  module _ (table : List Bucket) (cfp start : ℕ)
      (good : (q : ℕ)
        → IsOccupied table (q % length table)
        → (slot table (q % length table)).fingerprint ≡ cfp
        → Verifies file vfp value (slot table (q % length table)).offset) where
    abbrev place : ℕ → ℕ
    place i = (start + i) % length table

    abbrev head : ℕ → ℕ
    head i = let b = slot table (place i) in if b.fingerprint == cfp then b.offset else no_match

    probe_from-occupied :
        (k i : ℕ)
        → IsOccupied table (place i)
        → (probe_from (suc k) table cfp start i).offsets
            ≡ head i ∷ (probe_from k table cfp start (suc i)).offsets
          × (probe_from (suc k) table cfp start i).done
            ≡ (probe_from k table cfp start (suc i)).done
    unfolding probe_from
    probe_from-occupied k i occ = rw occ (refl, refl)

    try_head :
        (i : ℕ) (os : List ℕ) (had : Bool)
        → IsOccupied table (place i)
        → EndsOrGoes (try_offsets file vfp (head i ∷ os) had) os
    try_head i os had occ = elim (Bool-cases ((slot table (place i)).fingerprint == cfp)) [
      | inl same ↦ rw same (
          try_first (slot table (place i)).offset os had
            (good (start + i) occ ((==_iff (slot table (place i)).fingerprint cfp).0 same)))
      | inr other ↦ rw other (inr (had, try-skip os had))
    ]

    head-match :
        (i : ℕ) (b : Bucket) → slot table (place i) ≡ b → b.fingerprint ≡ cfp → head i ≡ b.offset
    head-match i b here same =
        let e : ((slot table (place i)).fingerprint == cfp) ≡ true =
          (==_iff (slot table (place i)).fingerprint cfp).1
            (ap (λ (x : Bucket). x.fingerprint) here ∙ same) in
        rw e (ap (λ (x : Bucket). x.offset) here)

    -- Places that are all occupied: the probe goes on, and no wrong value comes of it.
    pub probe_from-past :
        (k i : ℕ) (had : Bool)
        → ((m : ℕ) → i ≤ m → m < i + k → IsOccupied table (place m))
        → ((probe_from k table cfp start i).done ≡ false)
          × ((try_offsets file vfp (probe_from k table cfp start i).offsets had
                ≡ ok (some value, true))
              ⊎ ((had' : Bool) × (try_offsets file vfp (probe_from k table cfp start i).offsets had
                    ≡ ok (none, had'))))
    unfolding probe_from try_offsets
    probe_from-past zero i had occ = (refl, inr (had, refl))
    probe_from-past (suc k) i had occ =
        let os = (probe_from k table cfp start (suc i)).offsets in
        let here = occ i (omega arith) (omega arith) in
        let (offs, done) = probe_from-occupied k i here in
        let later = λ (h : Bool).
          probe_from-past k (suc i) h (λ m le lt. occ m (omega arith) (omega arith)) in
        let first = ap (λ (l : List ℕ). try_offsets file vfp l had) offs in
        (
          done ∙ (later had).0,
          elim (try_head i os had here) [
            | inl e ↦ inl (first ∙ e)
            | inr (h, e) ↦ elim (later h).1 [
              | inl e' ↦ inl (first ∙ e ∙ e')
              | inr (h', e') ↦ inr (h', first ∙ e ∙ e')
            ]
          ],
        )

    -- A bucket within the group, behind occupied places, is found.
    pub probe_from-found :
        (k i m : ℕ) (had : Bool) (b : Bucket)
        → i ≤ m
        → m < i + k
        → ((j : ℕ) → i ≤ j → j < m → IsOccupied table (place j))
        → slot table (place m) ≡ b
        → is_empty b ≡ false
        → b.fingerprint ≡ cfp
        → (b.offset == no_match) ≡ false
        → read_and_verify file (b.offset * value_alignment) vfp ≡ ok (some value)
        → try_offsets file vfp (probe_from k table cfp start i).offsets had ≡ ok (some value, true)
    probe_from-found zero i m had b le lt occ here full same ne found = absurd (omega arith)
    probe_from-found (suc k) i m had b le lt occ here full same ne found =
        let os = (probe_from k table cfp start (suc i)).offsets in
        elim (Bool-cases (i == m)) [
          | inl at_last ↦
              let b_here : slot table (place i) ≡ b =
                ap (λ (x : ℕ). slot table (place x)) ((==_iff i m).0 at_last) ∙ here in
              let (offs, _) = probe_from-occupied k i (ap is_empty b_here ∙ full) in
              ap (λ (l : List ℕ). try_offsets file vfp l had)
                (offs ∙ ap (λ (x : ℕ). x ∷ os) (head-match i b b_here same))
              ∙ try-hit b.offset os had ne found
          | inr before ↦
              let here_occ = occ i (omega arith) (ground (arith, before, le)) in
              let (offs, _) = probe_from-occupied k i here_occ in
              let first = ap (λ (l : List ℕ). try_offsets file vfp l had) offs in
              elim (try_head i os had here_occ) [
                | inl e ↦ first ∙ e
                | inr (h, e) ↦
                    first
                    ∙ e
                    ∙ probe_from-found k (suc i) m h b (ground (arith, before, le)) (omega arith)
                        (λ j le' lt'. occ j (omega arith) lt') here full same ne found
              ]
        ]
