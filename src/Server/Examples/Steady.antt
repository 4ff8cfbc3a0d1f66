-- ===== src/Server/Examples/Steady.antt =====
-- The parsers of the examples make decisions that more input does not change.
use mcfreeze.Base.{ℕ, ◌≡◌, ◌≢◌, refl, sym, ap, ◌∙◌, [], ◌∷◌, ◌++◌}
use mcfreeze.Base.{◌==◌, ◌⊎◌, inl, inr, Bytes, arith}
use mcfreeze.Base.{Bool-cases}
use mcfreeze.Server.Protocol.Parser.{IResult, parsed, incomplete, failed, spent}
use mcfreeze.Server.Protocol.Stable.{IsSteady, IResult-cases, ▷-IsSteady}
use mcfreeze.Server.Protocol.Stable.{parsed-IsSteady}
use mcfreeze.Server.Examples.Streams.{match_bytes, tag_bytes, until_bytes, until_step, before}

pub match_bytes-consumes :
    (t i rest : Bytes) (u : Unit {0}) → match_bytes t i ≡ parsed rest u → i ≡ t ++ rest
unfolding match_bytes
match_bytes-consumes [] i rest u h = cc
match_bytes-consumes (c ∷ t) [] rest u h = cc
match_bytes-consumes (c ∷ t) (b ∷ i) rest u h = elim (Bool-cases (c == b)) [
  | inl same ↦
      let k : match_bytes t i ≡ parsed rest u = rw same at h in
      let e : c ≡ b = ground (arith, same) in
      ap (λ z. z ∷ i) (sym e) ∙ ap (λ z. c ∷ z) (match_bytes-consumes t i rest u k)
  | inr other ↦
      let k : Path (IResult (Unit {0})) failed (parsed rest u) = rw other at h in absurd cc
]

match_bytes-parsed_more :
    (t i more rest : Bytes) (u : Unit {0})
    → match_bytes t i ≡ parsed rest u
    → match_bytes t (i ++ more) ≡ parsed (rest ++ more) u
unfolding match_bytes
match_bytes-parsed_more [] i more rest u h = cc
match_bytes-parsed_more (c ∷ t) [] more rest u h = cc
match_bytes-parsed_more (c ∷ t) (b ∷ i) more rest u h = elim (Bool-cases (c == b)) [
  | inl same ↦
      let k : match_bytes t i ≡ parsed rest u = rw same at h in
      rw same (match_bytes-parsed_more t i more rest u k)
  | inr other ↦
      let k : Path (IResult (Unit {0})) failed (parsed rest u) = rw other at h in absurd cc
]

match_bytes-failed_more :
    (t i more : Bytes) → match_bytes t i ≡ failed → match_bytes t (i ++ more) ≡ failed
unfolding match_bytes
match_bytes-failed_more [] i more h = cc
match_bytes-failed_more (c ∷ t) [] more h = cc
match_bytes-failed_more (c ∷ t) (b ∷ i) more h = elim (Bool-cases (c == b)) [
  | inl same ↦
      let k : match_bytes t i ≡ failed = rw same at h in
      rw same (match_bytes-failed_more t i more k)
  | inr other ↦ rw other refl
]

match_bytes_ends : (t i : Bytes) → match_bytes t i ≢ spent
unfolding match_bytes
match_bytes_ends [] i h = cc
match_bytes_ends (c ∷ t) [] h = cc
match_bytes_ends (c ∷ t) (b ∷ i) h = elim (Bool-cases (c == b)) [
  | inl same ↦ match_bytes_ends t i (let k : match_bytes t i ≡ spent = rw same at h in k)
  | inr other ↦ let k : Path (IResult (Unit {0})) failed spent = rw other at h in absurd cc
]

pub match_bytes-IsSteady : (t : Bytes) → IsSteady (match_bytes t)
match_bytes-IsSteady t = record {
  parsed_more = match_bytes-parsed_more t;
  failed_more = match_bytes-failed_more t;
  consumes = λ i rest u h. (t, match_bytes-consumes t i rest u h);
  ends = match_bytes_ends t;
}

pub tag_bytes-IsSteady : (t : Bytes) → IsSteady (tag_bytes t)
unfolding tag_bytes
tag_bytes-IsSteady t =
    ▷-IsSteady (match_bytes t) (λ _. λ rest. parsed rest t) (match_bytes-IsSteady t)
      (λ _. parsed-IsSteady t)

module _ (b : ℕ) where
  pub before-parsed :
      (r : IResult Bytes) (rest a : Bytes)
      → before b r ≡ parsed rest a
      → (bs : Bytes) × (r ≡ parsed rest bs) × (b ∷ bs ≡ a)
  before-parsed (parsed rest' bs) rest a h =
      let k : Path (IResult Bytes) (parsed rest' (b ∷ bs)) (parsed rest a) = h in
      let e : rest' ≡ rest = cc in (bs, ap (λ z. parsed z bs) e, cc)
  before-parsed incomplete rest a h = cc
  before-parsed failed rest a h = cc
  before-parsed spent rest a h = cc

  pub before-failed : (r : IResult Bytes) → before b r ≡ failed → r ≡ failed
  before-failed (parsed rest bs) h = cc
  before-failed incomplete h = cc
  before-failed failed h = refl
  before-failed spent h = cc

  pub before-spent : (r : IResult Bytes) → before b r ≡ spent → r ≡ spent
  before-spent (parsed rest bs) h = cc
  before-spent incomplete h = cc
  before-spent failed h = cc
  before-spent spent h = refl

until_bytes_here :
    (t i rest : Bytes) (u : Unit {0})
    → match_bytes t i ≡ parsed rest u
    → until_bytes t i ≡ parsed i []
unfolding until_bytes
until_bytes_here t [] rest u h = ap (λ m. until_step m [] incomplete) h
until_bytes_here t (b ∷ i) rest u h = ap (λ m. until_step m (b ∷ i) (before b (until_bytes t i))) h

-- A search goes on behind a byte, or ends at it.
until_bytes_round :
    (t : Bytes) (b : ℕ) (i : Bytes)
    → ((rest : Bytes) × (u : Unit {0}) × (match_bytes t (b ∷ i) ≡ parsed rest u))
      ⊎ ((until_bytes t (b ∷ i) ≡ incomplete)
          ⊎ ((match_bytes t (b ∷ i) ≡ failed)
              × (until_bytes t (b ∷ i) ≡ before b (until_bytes t i))))
unfolding until_bytes
until_bytes_round t b i =
    let step = λ (m : IResult (Unit {0})). until_step m (b ∷ i) (before b (until_bytes t i)) in
    elim (IResult-cases (match_bytes t (b ∷ i))) [
      | inl (rest, u, e) ↦ inl (rest, u, e)
      | inr (inl e) ↦ inr (inl (ap step e))
      | inr (inr (inl e)) ↦ inr (inr (e, ap step e))
      | inr (inr (inr e)) ↦ inr (inl (ap step e))
    ]

until_bytes-parsed_more :
    (t i more rest a : Bytes)
    → until_bytes t i ≡ parsed rest a
    → until_bytes t (i ++ more) ≡ parsed (rest ++ more) a
unfolding until_bytes
until_bytes-parsed_more t [] more rest a h =
    let step = λ (m : IResult (Unit {0})). until_step m [] incomplete in
    elim (IResult-cases (match_bytes t [])) [
      | inl (left, u, e) ↦
          let k : Path (IResult Bytes) (parsed [] []) (parsed rest a) = sym (ap step e) ∙ h in
          let e1 : [] ≡ rest = cc in
          let e2 : [] ≡ a = cc in
          until_bytes_here t more (left ++ more) u
            ((match_bytes-IsSteady t).parsed_more [] more left u e)
          ∙ ap (λ z. parsed (z ++ more) []) e1
          ∙ ap (λ z. parsed (rest ++ more) z) e2
      | inr (inl e) ↦
          let k : Path (IResult Bytes) incomplete (parsed rest a) = sym (ap step e) ∙ h in absurd cc
      | inr (inr (inl e)) ↦
          let k : Path (IResult Bytes) incomplete (parsed rest a) = sym (ap step e) ∙ h in absurd cc
      | inr (inr (inr e)) ↦
          let k : Path (IResult Bytes) incomplete (parsed rest a) = sym (ap step e) ∙ h in absurd cc
    ]
until_bytes-parsed_more t (b ∷ i) more rest a h = elim (until_bytes_round t b i) [
  | inl (left, u, e) ↦
      let k : Path (IResult Bytes) (parsed (b ∷ i) []) (parsed rest a) =
        sym (until_bytes_here t (b ∷ i) left u e) ∙ h in
      let e1 : b ∷ i ≡ rest = cc in
      let e2 : [] ≡ a = cc in
      until_bytes_here t (b ∷ (i ++ more)) (left ++ more) u
        ((match_bytes-IsSteady t).parsed_more (b ∷ i) more left u e)
      ∙ ap (λ z. parsed (z ++ more) []) e1
      ∙ ap (λ z. parsed (rest ++ more) z) e2
  | inr (inl e) ↦ let k : Path (IResult Bytes) incomplete (parsed rest a) = sym e ∙ h in absurd cc
  | inr (inr (e, e')) ↦
      let (bs, found, joined) = before-parsed b (until_bytes t i) rest a (sym e' ∙ h) in
      ap (λ m. until_step m (b ∷ (i ++ more)) (before b (until_bytes t (i ++ more))))
        ((match_bytes-IsSteady t).failed_more (b ∷ i) more e)
      ∙ ap (before b) (until_bytes-parsed_more t i more rest bs found)
      ∙ ap (λ z. parsed (rest ++ more) z) joined
]

until_bytes-consumes :
    (t i rest a : Bytes) → until_bytes t i ≡ parsed rest a → (used : Bytes) × (i ≡ used ++ rest)
unfolding until_bytes
until_bytes-consumes t [] rest a h =
    let step = λ (m : IResult (Unit {0})). until_step m [] incomplete in
    elim (IResult-cases (match_bytes t [])) [
      | inl (left, u, e) ↦
          let k : Path (IResult Bytes) (parsed [] []) (parsed rest a) = sym (ap step e) ∙ h in
          let e1 : [] ≡ rest = cc in ([], e1)
      | inr (inl e) ↦
          let k : Path (IResult Bytes) incomplete (parsed rest a) = sym (ap step e) ∙ h in absurd cc
      | inr (inr (inl e)) ↦
          let k : Path (IResult Bytes) incomplete (parsed rest a) = sym (ap step e) ∙ h in absurd cc
      | inr (inr (inr e)) ↦
          let k : Path (IResult Bytes) incomplete (parsed rest a) = sym (ap step e) ∙ h in absurd cc
    ]
until_bytes-consumes t (b ∷ i) rest a h = elim (until_bytes_round t b i) [
  | inl (left, u, e) ↦
      let k : Path (IResult Bytes) (parsed (b ∷ i) []) (parsed rest a) =
        sym (until_bytes_here t (b ∷ i) left u e) ∙ h in
      let e1 : b ∷ i ≡ rest = cc in ([], e1)
  | inr (inl e) ↦ let k : Path (IResult Bytes) incomplete (parsed rest a) = sym e ∙ h in absurd cc
  | inr (inr (e, e')) ↦
      let (bs, found, joined) = before-parsed b (until_bytes t i) rest a (sym e' ∙ h) in
      let (used, cut) = until_bytes-consumes t i rest bs found in (b ∷ used, ap (λ z. b ∷ z) cut)
]

until_bytes-decides : (t i : Bytes) → (until_bytes t i ≢ failed) × (until_bytes t i ≢ spent)
unfolding until_bytes
until_bytes-decides t [] =
    elim (match_bytes t [])
      as (λ m. (until_step m [] incomplete ≢ failed) × (until_step m [] incomplete ≢ spent)) [
        | parsed _ _ ↦ (λ h. cc, λ h. cc)
        | incomplete ↦ (λ h. cc, λ h. cc)
        | failed ↦ (λ h. cc, λ h. cc)
        | spent ↦ (λ h. cc, λ h. cc)
      ]
until_bytes-decides t (b ∷ i) =
    let ih = until_bytes-decides t i in
    let later = before b (until_bytes t i) in
    elim (match_bytes t (b ∷ i))
      as (λ m. (until_step m (b ∷ i) later ≢ failed) × (until_step m (b ∷ i) later ≢ spent)) [
        | parsed _ _ ↦ (λ h. cc, λ h. cc)
        | incomplete ↦ (λ h. cc, λ h. cc)
        | failed ↦ (
          λ h. ih.0 (before-failed b (until_bytes t i) h),
          λ h. ih.1 (before-spent b (until_bytes t i) h),
        )
        | spent ↦ (λ h. cc, λ h. cc)
      ]

pub until_bytes-IsSteady : (t : Bytes) → IsSteady (until_bytes t)
until_bytes-IsSteady t = record {
  parsed_more = until_bytes-parsed_more t;
  failed_more = λ i more h. absurd ((until_bytes-decides t i).0 h);
  consumes = until_bytes-consumes t;
  ends = λ i. (until_bytes-decides t i).1;
}
