-- ===== src/Server/Protocol/Stable.antt =====
-- What the streaming parsers of nom promise, and that the parsers of the meta protocol keep it: a
-- decision that is made on a part of the input stands when more of it arrives.
use mcfreeze.Base.{ℕ, ◌<◌, ◌≡◌, ◌≢◌, refl, sym, ap, ◌∙◌, List, [], ◌∷◌, ◌++◌, Bool, true}
use mcfreeze.Base.{false, ◌==◌, ◌||◌, ◌⊎◌, inl, inr, Option, none, some, Bytes, All, append_assoc}
use mcfreeze.Base.{length}
use mcfreeze.Server.Protocol.Parser.{IResult, parsed, incomplete, failed, spent, Parser, Nom, ◌▷◌}

abbrev pub is_space : ℕ → Bool
is_space c = (c == 32) || (c == 9)

-- A parser whose decisions more input does not change.
pub record IsSteady {A : Type 0} (p : Parser A) : Type 0 where
  pub parsed_more :
      (i more rest : Bytes) (a : A) → p i ≡ parsed rest a → p (i ++ more) ≡ parsed (rest ++ more) a
  pub failed_more : (i more : Bytes) → p i ≡ failed → p (i ++ more) ≡ failed
  pub consumes :
      (i rest : Bytes) (a : A) → p i ≡ parsed rest a → (used : Bytes) × (i ≡ used ++ rest)
  pub ends : (i : Bytes) → p i ≢ spent

-- The documented behaviour of the parsers and combinators, as far as the parser needs it.
pub record IsStreaming (nom : Nom) : Type 1 where
  pub tag-IsSteady : (t : Bytes) → IsSteady (nom.tag t)
  pub take_until-IsSteady : (t : Bytes) → IsSteady (nom.take_until t)
  pub take_while1-IsSteady : (f : ℕ → Bool) → IsSteady (nom.take_while1 f)
  pub space1-IsSteady : IsSteady nom.space1
  pub digit1-IsSteady : IsSteady nom.digit1
  pub tag_whole : (t rest : Bytes) → nom.tag t (t ++ rest) ≡ parsed rest t
  pub tag_consumes : (t i rest a : Bytes) → nom.tag t i ≡ parsed rest a → i ≡ t ++ rest
  pub tag_empty : (c : ℕ) (t : Bytes) → nom.tag (c ∷ t) [] ≡ incomplete
  pub space1_moves : (i rest a : Bytes) → nom.space1 i ≡ parsed rest a → length rest < length i
  pub take_while1_run :
      (f : ℕ → Bool) (x c : ℕ) (xs rest : Bytes)
      → All (λ b. f b ≡ true) (x ∷ xs)
      → f c ≡ false
      → nom.take_while1 f ((x ∷ xs) ++ (c ∷ rest)) ≡ parsed (c ∷ rest) (x ∷ xs)
  pub space1_run :
      (c : ℕ) (rest : Bytes)
      → is_space c ≡ false
      → nom.space1 (32 ∷ (c ∷ rest)) ≡ parsed (c ∷ rest) (32 ∷ [])
  pub space1_refuses : (c : ℕ) (rest : Bytes) → is_space c ≡ false → nom.space1 (c ∷ rest) ≡ failed
  pub opt_parsed :
      {A : Type 0} (p : Parser A) (i rest : Bytes) (a : A)
      → p i ≡ parsed rest a
      → nom.opt p i ≡ parsed rest (some a)
  pub opt_failed :
      {A : Type 0} (p : Parser A) (i : Bytes) → p i ≡ failed → nom.opt p i ≡ parsed i none
  pub opt_incomplete :
      {A : Type 0} (p : Parser A) (i : Bytes) → p i ≡ incomplete → nom.opt p i ≡ incomplete
  pub preceded_lem :
      {A B : Type 0} (p : Parser A) (q : Parser B) (i : Bytes) → nom.preceded p q i ≡ (p i ▷ λ _. q)
  pub alt_none : {A : Type 0} (i : Bytes) → nom.alt {A = A} [] i ≡ failed
  pub alt_parsed :
      {A : Type 0} (p : Parser A) (ps : List (Parser A)) (i rest : Bytes) (a : A)
      → p i ≡ parsed rest a
      → nom.alt (p ∷ ps) i ≡ parsed rest a
  pub alt_incomplete :
      {A : Type 0} (p : Parser A) (ps : List (Parser A)) (i : Bytes)
      → p i ≡ incomplete
      → nom.alt (p ∷ ps) i ≡ incomplete
  pub alt_failed :
      {A : Type 0} (p : Parser A) (ps : List (Parser A)) (i : Bytes)
      → p i ≡ failed
      → nom.alt (p ∷ ps) i ≡ nom.alt ps i
  pub map_res_lem :
      {A B : Type 0} (p : Parser A) (f : A → Option B) (i : Bytes)
      → nom.map_res p f i
        ≡ (p i ▷ λ a. λ rest. elim (f a) [ none ↦ failed | some b ↦ parsed rest b ])

pub IResult-cases :
    {A : Type 0} (r : IResult A)
    → ((rest : Bytes) × (a : A) × (r ≡ parsed rest a))
      ⊎ ((r ≡ incomplete) ⊎ ((r ≡ failed) ⊎ (r ≡ spent)))
IResult-cases (parsed rest a) = inl (rest, a, refl)
IResult-cases incomplete = inr (inl refl)
IResult-cases failed = inr (inr (inl refl))
IResult-cases spent = inr (inr (inr refl))

module _ {A B : Type 0} where
  pub ▷-parsed :
      (m : IResult A) (k : A → Parser B) (rest : Bytes) (b : B)
      → (m ▷ k) ≡ parsed rest b
      → (left : Bytes) × (a : A) × (m ≡ parsed left a) × (k a left ≡ parsed rest b)
  ▷-parsed (parsed left a) k rest b h = (left, a, refl, h)
  ▷-parsed incomplete k rest b h = cc
  ▷-parsed failed k rest b h = cc
  ▷-parsed spent k rest b h = cc

  pub ▷-failed :
      (m : IResult A) (k : A → Parser B)
      → (m ▷ k) ≡ failed
      → (m ≡ failed) ⊎ ((left : Bytes) × (a : A) × (m ≡ parsed left a) × (k a left ≡ failed))
  ▷-failed (parsed left a) k h = inr (left, a, refl, h)
  ▷-failed incomplete k h = cc
  ▷-failed failed k h = inl refl
  ▷-failed spent k h = cc

  pub ▷-spent :
      (m : IResult A) (k : A → Parser B)
      → (m ▷ k) ≡ spent
      → (m ≡ spent) ⊎ ((left : Bytes) × (a : A) × (m ≡ parsed left a) × (k a left ≡ spent))
  ▷-spent (parsed left a) k h = inr (left, a, refl, h)
  ▷-spent incomplete k h = cc
  ▷-spent failed k h = cc
  ▷-spent spent k h = inl refl

  -- One parser after another.
  pub ▷-IsSteady :
      (p : Parser A) (k : A → Parser B)
      → IsSteady p
      → ((a : A) → IsSteady (k a))
      → IsSteady (λ i. p i ▷ k)
  ▷-IsSteady p k sp sk = record {
    parsed_more = λ i more rest b h.
        let (left, a, e, e') = ▷-parsed (p i) k rest b h in
        ap (λ m. m ▷ k) (sp.parsed_more i more left a e) ∙ (sk a).parsed_more left more rest b e';
    failed_more = λ i more h. elim (▷-failed (p i) k h) [
      | inl e ↦ ap (λ m. m ▷ k) (sp.failed_more i more e)
      | inr (left, a, e, e') ↦
          ap (λ m. m ▷ k) (sp.parsed_more i more left a e) ∙ (sk a).failed_more left more e'
    ];
    consumes = λ i rest b h.
        let (left, a, e, e') = ▷-parsed (p i) k rest b h in
        let (used, cut) = sp.consumes i left a e in
        let (used', cut') = (sk a).consumes left rest b e' in
        (used ++ used', cut ∙ ap (λ z. used ++ z) cut' ∙ sym (append_assoc used used' rest));
    ends = λ i h. elim (▷-spent (p i) k h) [
      | inl e ↦ sp.ends i e
      | inr (left, a, e, e') ↦ (sk a).ends left e'
    ];
  }

pub parsed-IsSteady : {A : Type 0} (a : A) → IsSteady (λ i. parsed i a)
parsed-IsSteady a = record {
  parsed_more = λ i more rest b h. cc;
  failed_more = λ i more h. cc;
  consumes = λ i rest b h. let e : i ≡ rest = cc in ([], e);
  ends = λ i h. cc;
}

pub failed-IsSteady : {A : Type 0} → IsSteady {A = A} (λ i. failed)
failed-IsSteady = record {
  parsed_more = λ i more rest b h. cc;
  failed_more = λ i more h. refl;
  consumes = λ i rest b h. cc;
  ends = λ i h. cc;
}

-- Parsers that agree on every input.
pub IsSteady-eq :
    {A : Type 0} (p q : Parser A) → ((i : Bytes) → q i ≡ p i) → IsSteady p → IsSteady q
IsSteady-eq p q same s = record {
  parsed_more =
      λ i more rest a h. same (i ++ more) ∙ s.parsed_more i more rest a (sym (same i) ∙ h);
  failed_more = λ i more h. same (i ++ more) ∙ s.failed_more i more (sym (same i) ∙ h);
  consumes = λ i rest a h. s.consumes i rest a (sym (same i) ∙ h);
  ends = λ i h. s.ends i (sym (same i) ∙ h);
}
