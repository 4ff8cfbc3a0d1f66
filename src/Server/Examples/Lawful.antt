-- ===== src/Server/Examples/Lawful.antt =====
-- The parsers of the examples have the documented behaviour of those of nom.
use mcfreeze.Base.{ℕ, ◌<◌, ◌≡◌, ◌≢◌, refl, ap, ◌∙◌, [], ◌∷◌, ◌++◌, Bool}
use mcfreeze.Base.{true, false, ◌==◌, inl, inr, Bytes, All, length, arith}
use mcfreeze.Base.{Bool-cases, subst, if◌then◌else◌, length-append}
use mcfreeze.Server.Protocol.Parser.{IResult, parsed, failed, spent, ◌▷◌}
use mcfreeze.Server.Protocol.Stable.{IsSteady, IsStreaming, is_space, ▷-IsSteady}
use mcfreeze.Server.Protocol.Stable.{parsed-IsSteady, failed-IsSteady, ▷-parsed}
use mcfreeze.Server.Examples.Streams.{match_bytes, tag_bytes, before, run_bytes}
use mcfreeze.Server.Examples.Streams.{span_bytes, streaming, optional, or_else, first_of, is_digit}
use mcfreeze.Server.Examples.Steady.{tag_bytes-IsSteady, until_bytes-IsSteady, match_bytes-consumes}
use mcfreeze.Server.Examples.Steady.{before-parsed, before-failed, before-spent}

module _ (f : ℕ → Bool) where
  span_bytes-parsed_more :
      (i more rest a : Bytes)
      → span_bytes f i ≡ parsed rest a
      → span_bytes f (i ++ more) ≡ parsed (rest ++ more) a
  unfolding span_bytes
  span_bytes-parsed_more [] more rest a h = cc
  span_bytes-parsed_more (b ∷ i) more rest a h = elim (Bool-cases (f b)) [
    | inl inside ↦
        let k : before b (span_bytes f i) ≡ parsed rest a = rw inside at h in
        let (bs, found, joined) = before-parsed b (span_bytes f i) rest a k in
        rw inside (
          ap (before b) (span_bytes-parsed_more i more rest bs found)
          ∙ ap (λ z. parsed (rest ++ more) z) joined)
    | inr outside ↦
        let k : Path (IResult Bytes) (parsed (b ∷ i) []) (parsed rest a) = rw outside at h in
        let e1 : b ∷ i ≡ rest = cc in
        let e2 : [] ≡ a = cc in
        rw outside (ap (λ z. parsed (z ++ more) []) e1 ∙ ap (λ z. parsed (rest ++ more) z) e2)
  ]

  span_bytes-consumes : (i rest a : Bytes) → span_bytes f i ≡ parsed rest a → i ≡ a ++ rest
  unfolding span_bytes
  span_bytes-consumes [] rest a h = cc
  span_bytes-consumes (b ∷ i) rest a h = elim (Bool-cases (f b)) [
    | inl inside ↦
        let k : before b (span_bytes f i) ≡ parsed rest a = rw inside at h in
        let (bs, found, joined) = before-parsed b (span_bytes f i) rest a k in
        ap (λ z. b ∷ z) (span_bytes-consumes i rest bs found) ∙ ap (λ z. z ++ rest) joined
    | inr outside ↦
        let k : Path (IResult Bytes) (parsed (b ∷ i) []) (parsed rest a) = rw outside at h in
        let e1 : b ∷ i ≡ rest = cc in let e2 : [] ≡ a = cc in subst (λ z. b ∷ i ≡ z ++ rest) e2 e1
  ]

  span_bytes-decides : (i : Bytes) → (span_bytes f i ≢ failed) × (span_bytes f i ≢ spent)
  unfolding span_bytes
  span_bytes-decides [] = (λ h. cc, λ h. cc)
  span_bytes-decides (b ∷ i) =
      elim (f b)
        as (λ y.
          ((if y then before b (span_bytes f i) else parsed (b ∷ i) []) ≢ failed)
          × ((if y then before b (span_bytes f i) else parsed (b ∷ i) []) ≢ spent)) [
            | true ↦ (
              λ h. (span_bytes-decides i).0 (before-failed b (span_bytes f i) h),
              λ h. (span_bytes-decides i).1 (before-spent b (span_bytes f i) h),
            )
            | false ↦ (λ h. cc, λ h. cc)
          ]

  span_bytes-IsSteady : IsSteady (span_bytes f)
  span_bytes-IsSteady = record {
    parsed_more = span_bytes-parsed_more;
    failed_more = λ i more h. absurd ((span_bytes-decides i).0 h);
    consumes = λ i rest a h. (a, span_bytes-consumes i rest a h);
    ends = λ i. (span_bytes-decides i).1;
  }

  run_bytes-IsSteady : IsSteady (run_bytes f)
  unfolding run_bytes
  run_bytes-IsSteady =
      ▷-IsSteady (span_bytes f)
        (λ bs. λ rest. elim bs [ [] ↦ failed | (x ∷ xs) ↦ parsed rest (x ∷ xs) ])
        span_bytes-IsSteady
        (λ bs.
          elim bs
            as (λ (z : Bytes).
              IsSteady {A = Bytes}
                (λ rest. elim z [ [] ↦ failed | (x ∷ xs) ↦ parsed rest (x ∷ xs) ])) [
                  | [] ↦ failed-IsSteady
                  | (x ∷ xs) ↦ parsed-IsSteady (x ∷ xs)
                ])

  span_bytes_run :
      (c : ℕ) (xs rest : Bytes)
      → All (λ b. f b ≡ true) xs
      → f c ≡ false
      → span_bytes f (xs ++ (c ∷ rest)) ≡ parsed (c ∷ rest) xs
  unfolding span_bytes
  span_bytes_run c [] rest h outside = rw outside refl
  span_bytes_run c (x ∷ xs) rest h outside =
      rw h.0 (ap (before x) (span_bytes_run c xs rest h.1 outside))

  run_bytes_run :
      (x c : ℕ) (xs rest : Bytes)
      → All (λ b. f b ≡ true) (x ∷ xs)
      → f c ≡ false
      → run_bytes f ((x ∷ xs) ++ (c ∷ rest)) ≡ parsed (c ∷ rest) (x ∷ xs)
  unfolding run_bytes
  run_bytes_run x c xs rest h outside =
      ap (λ m. m ▷ λ bs. λ r. elim bs [ [] ↦ failed | (y ∷ ys) ↦ parsed r (y ∷ ys) ])
        (span_bytes_run c (x ∷ xs) rest h outside)

  run_bytes_refuses : (c : ℕ) (rest : Bytes) → f c ≡ false → run_bytes f (c ∷ rest) ≡ failed
  unfolding run_bytes
  run_bytes_refuses c rest outside =
      ap (λ m. m ▷ λ bs. λ r. elim bs [ [] ↦ failed | (y ∷ ys) ↦ parsed r (y ∷ ys) ])
        (span_bytes_run c [] rest tt outside)

  run_of :
      (bs left rest a : Bytes)
      → Path
          (IResult Bytes)
          (elim bs [ [] ↦ failed | (x ∷ xs) ↦ parsed left (x ∷ xs) ])
          (parsed rest a)
      → (left ≡ rest) × (0 < length bs)
  run_of [] left rest a h = absurd cc
  run_of (x ∷ xs) left rest a h = (cc, omega arith)

  run_bytes_moves : (i rest a : Bytes) → run_bytes f i ≡ parsed rest a → length rest < length i
  unfolding run_bytes
  run_bytes_moves i rest a h =
      let (left, bs, e, e') = ▷-parsed (span_bytes f i) _ rest a h in
      let (same, some_bytes) = run_of bs left rest a e' in
      let cut = ap length (span_bytes-consumes i left bs e) in
      subst (λ z. length z < length i) same (omega (arith, cut, some_bytes, length-append bs left))

match_bytes_whole : (t rest : Bytes) → match_bytes t (t ++ rest) ≡ parsed rest tt
unfolding match_bytes
match_bytes_whole [] rest = refl
match_bytes_whole (c ∷ t) rest =
    let same : (c == c) ≡ true = ground arith in rw same (match_bytes_whole t rest)

pub streaming-IsStreaming : IsStreaming streaming
unfolding tag_bytes match_bytes
streaming-IsStreaming = record {
  tag-IsSteady = tag_bytes-IsSteady;
  take_until-IsSteady = until_bytes-IsSteady;
  take_while1-IsSteady = run_bytes-IsSteady;
  space1-IsSteady = run_bytes-IsSteady is_space;
  digit1-IsSteady = run_bytes-IsSteady is_digit;
  tag_whole = λ t rest. ap (λ m. m ▷ λ _. λ r. parsed r t) (match_bytes_whole t rest);
  tag_consumes = λ t i rest a h.
      let (left, u, e, e') = ▷-parsed (match_bytes t i) (λ _. λ r. parsed r t) rest a h in
      let k : Path (IResult Bytes) (parsed left t) (parsed rest a) = e' in
      let same : left ≡ rest = cc in match_bytes-consumes t i left u e ∙ ap (λ z. t ++ z) same;
  tag_empty = λ c t. refl;
  space1_moves = run_bytes_moves is_space;
  take_while1_run = run_bytes_run;
  space1_run = λ c rest h. run_bytes_run is_space 32 c [] rest (refl, tt) h;
  space1_refuses = run_bytes_refuses is_space;
  opt_parsed = λ p i rest a h. ap (λ r. optional r i) h;
  opt_failed = λ p i h. ap (λ r. optional r i) h;
  opt_incomplete = λ p i h. ap (λ r. optional r i) h;
  preceded_lem = λ p q i. refl;
  alt_none = λ i. refl;
  alt_parsed = λ p ps i rest a h. ap (λ r. or_else r (first_of ps i)) h;
  alt_incomplete = λ p ps i h. ap (λ r. or_else r (first_of ps i)) h;
  alt_failed = λ p ps i h. ap (λ r. or_else r (first_of ps i)) h;
  map_res_lem = λ p f i. refl;
}
