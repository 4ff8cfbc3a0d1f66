-- ===== src/Server/Protocol/Steady.antt =====
-- The parsers of the meta protocol keep the promise of the parsers that they are made of.
use mcfreeze.Base.{ℕ, ◌+◌, ◌<◌, ◌≡◌, ◌≢◌, sym, ap, ◌∙◌, List, [], ◌∷◌, ◌++◌}
use mcfreeze.Base.{◌⊎◌, inl, inr, Option, none, some, Bytes, length, length-append, arith, subst}
use mcfreeze.Server.Protocol.Parser.{IResult, parsed, incomplete, failed, spent, Parser, Nom, ◌▷◌}
use mcfreeze.Server.Protocol.Stable.{IsSteady, IsStreaming, IResult-cases, ▷-IsSteady, ▷-parsed}
use mcfreeze.Server.Protocol.Stable.{parsed-IsSteady, failed-IsSteady, IsSteady-eq}

-- A parser that takes bytes of what it accepts.
abbrev pub IsMoving : {A : Type 0} → Parser A → Type 0
IsMoving {A} p = (i rest : Bytes) (a : A) → p i ≡ parsed rest a → length rest < length i

module _ (nom : Nom) (laws : IsStreaming nom) where
  pub opt-cases :
      {A : Type 0} (p : Parser A) (i : Bytes)
      → IsSteady p
      → ((rest : Bytes) × (a : A) × (p i ≡ parsed rest a) × (nom.opt p i ≡ parsed rest (some a)))
        ⊎ (((p i ≡ incomplete) × (nom.opt p i ≡ incomplete))
            ⊎ ((p i ≡ failed) × (nom.opt p i ≡ parsed i none)))
  opt-cases p i s = elim (IResult-cases (p i)) [
    | inl (rest, a, e) ↦ inl (rest, a, e, laws.opt_parsed p i rest a e)
    | inr (inl e) ↦ inr (inl (e, laws.opt_incomplete p i e))
    | inr (inr (inl e)) ↦ inr (inr (e, laws.opt_failed p i e))
    | inr (inr (inr e)) ↦ absurd (s.ends i e)
  ]

  pub opt-IsSteady : {A : Type 0} (p : Parser A) → IsSteady p → IsSteady (nom.opt p)
  opt-IsSteady p s = record {
    parsed_more = λ i more rest o h. elim (opt-cases p i s) [
      | inl (left, a, e, eo) ↦
          let later =
            laws.opt_parsed p (i ++ more) (left ++ more) a (s.parsed_more i more left a e) in
          let same : parsed left (some a) ≡ parsed rest o = sym eo ∙ h in cc
      | inr (inl (e, eo)) ↦ cc
      | inr (inr (e, eo)) ↦ let later = laws.opt_failed p (i ++ more) (s.failed_more i more e) in cc
    ];
    failed_more = λ i more h. elim (opt-cases p i s) [
      | inl (left, a, e, eo) ↦ cc
      | inr (inl (e, eo)) ↦ cc
      | inr (inr (e, eo)) ↦ cc
    ];
    consumes = λ i rest o h. elim (opt-cases p i s) [
      | inl (left, a, e, eo) ↦
          let same : left ≡ rest = cc in
          subst (λ z. (used : Bytes) × (i ≡ used ++ z)) same (s.consumes i left a e)
      | inr (inl (e, eo)) ↦ cc
      | inr (inr (e, eo)) ↦ let same : i ≡ rest = cc in ([], same)
    ];
    ends = λ i h. elim (opt-cases p i s) [
      | inl (left, a, e, eo) ↦ cc
      | inr (inl (e, eo)) ↦ cc
      | inr (inr (e, eo)) ↦ cc
    ];
  }

  pub preceded-IsSteady :
      {A B : Type 0} (p : Parser A) (q : Parser B)
      → IsSteady p
      → IsSteady q
      → IsSteady (nom.preceded p q)
  preceded-IsSteady p q sp sq =
      IsSteady-eq (λ i. p i ▷ λ _. q) (nom.preceded p q) (laws.preceded_lem p q)
        (▷-IsSteady p (λ _. q) sp (λ _. sq))

  pub map_res-IsSteady :
      {A B : Type 0} (p : Parser A) (f : A → Option B) → IsSteady p → IsSteady (nom.map_res p f)
  map_res-IsSteady {A} {B} p f sp =
      let k : A → Parser B = λ a rest. elim (f a) [ none ↦ failed | some b ↦ parsed rest b ] in
      IsSteady-eq (λ i. p i ▷ k) (nom.map_res p f) (laws.map_res_lem p f)
        (▷-IsSteady p k sp (λ a.
          elim (f a)
            as (λ o. IsSteady {A = B} (λ rest. elim o [ none ↦ failed | some b ↦ parsed rest b ])) [
              | none ↦ failed-IsSteady
              | some b ↦ parsed-IsSteady b
            ]))

  pub alt-IsSteady :
      {A : Type 0} (p : Parser A) (ps : List (Parser A))
      → IsSteady p
      → IsSteady (nom.alt ps)
      → IsSteady (nom.alt (p ∷ ps))
  alt-IsSteady p ps sp sps = record {
    parsed_more = λ i more rest a h. elim (IResult-cases (p i)) [
      | inl (left, b, e) ↦
          let now = laws.alt_parsed p ps i left b e in
          let later =
            laws.alt_parsed p ps (i ++ more) (left ++ more) b (sp.parsed_more i more left b e) in
          let same : parsed left b ≡ parsed rest a = sym now ∙ h in cc
      | inr (inl e) ↦ let now = laws.alt_incomplete p ps i e in cc
      | inr (inr (inl e)) ↦
          let now = laws.alt_failed p ps i e in
          laws.alt_failed p ps (i ++ more) (sp.failed_more i more e)
          ∙ sps.parsed_more i more rest a (sym now ∙ h)
      | inr (inr (inr e)) ↦ absurd (sp.ends i e)
    ];
    failed_more = λ i more h. elim (IResult-cases (p i)) [
      | inl (left, b, e) ↦ let now = laws.alt_parsed p ps i left b e in cc
      | inr (inl e) ↦ let now = laws.alt_incomplete p ps i e in cc
      | inr (inr (inl e)) ↦
          let now = laws.alt_failed p ps i e in
          laws.alt_failed p ps (i ++ more) (sp.failed_more i more e)
          ∙ sps.failed_more i more (sym now ∙ h)
      | inr (inr (inr e)) ↦ absurd (sp.ends i e)
    ];
    consumes = λ i rest a h. elim (IResult-cases (p i)) [
      | inl (left, b, e) ↦
          let now = laws.alt_parsed p ps i left b e in
          let same : left ≡ rest = cc in
          subst (λ z. (used : Bytes) × (i ≡ used ++ z)) same (sp.consumes i left b e)
      | inr (inl e) ↦ let now = laws.alt_incomplete p ps i e in cc
      | inr (inr (inl e)) ↦ sps.consumes i rest a (sym (laws.alt_failed p ps i e) ∙ h)
      | inr (inr (inr e)) ↦ absurd (sp.ends i e)
    ];
    ends = λ i h. elim (IResult-cases (p i)) [
      | inl (left, b, e) ↦ let now = laws.alt_parsed p ps i left b e in cc
      | inr (inl e) ↦ let now = laws.alt_incomplete p ps i e in cc
      | inr (inr (inl e)) ↦ sps.ends i (sym (laws.alt_failed p ps i e) ∙ h)
      | inr (inr (inr e)) ↦ absurd (sp.ends i e)
    ];
  }

  pub alt_nil-IsSteady : {A : Type 0} → IsSteady (nom.alt {A = A} [])
  alt_nil-IsSteady = IsSteady-eq (λ i. failed) (nom.alt []) laws.alt_none failed-IsSteady

  tag-IsMoving : (c : ℕ) (t : Bytes) → IsMoving (nom.tag (c ∷ t))
  tag-IsMoving c t i rest a h =
      let lens : length i ≡ length ((c ∷ t) ++ rest) =
        ap length (laws.tag_consumes (c ∷ t) i rest a h) in
      omega (arith, lens, length-append (c ∷ t) rest)

  alt-IsMoving :
      {A : Type 0} (p : Parser A) (ps : List (Parser A))
      → ((i : Bytes) → p i ≢ spent)
      → IsMoving p
      → IsMoving (nom.alt ps)
      → IsMoving (nom.alt (p ∷ ps))
  alt-IsMoving p ps ends mp mps i rest a h = elim (IResult-cases (p i)) [
    | inl (left, b, e) ↦
        let now = laws.alt_parsed p ps i left b e in
        let same : left ≡ rest = cc in subst (λ z. length z < length i) same (mp i left b e)
    | inr (inl e) ↦ let now = laws.alt_incomplete p ps i e in cc
    | inr (inr (inl e)) ↦ mps i rest a (sym (laws.alt_failed p ps i e) ∙ h)
    | inr (inr (inr e)) ↦ absurd (ends i e)
  ]

  alt_nil-IsMoving : {A : Type 0} → IsMoving (nom.alt {A = A} [])
  alt_nil-IsMoving {A} i rest a h =
      let bad : Path (IResult A) failed (parsed rest a) = sym (laws.alt_none i) ∙ h in absurd cc

  -- A parser that decides for good, and that takes bytes of what it accepts.
  abbrev pub Reads : {A : Type 0} → Parser A → Type 0
  Reads p = IsSteady p × IsMoving p

  pub tag-Reads : (c : ℕ) (t : Bytes) → Reads (nom.tag (c ∷ t))
  tag-Reads c t = (laws.tag-IsSteady (c ∷ t), tag-IsMoving c t)

  pub alt-Reads :
      {A : Type 0} (p : Parser A) (ps : List (Parser A))
      → Reads p
      → Reads (nom.alt ps)
      → Reads (nom.alt (p ∷ ps))
  alt-Reads p ps (sp, mp) (sps, mps) = (alt-IsSteady p ps sp sps, alt-IsMoving p ps sp.ends mp mps)

  pub alt_nil-Reads : {A : Type 0} → Reads (nom.alt {A = A} [])
  alt_nil-Reads = (alt_nil-IsSteady, alt_nil-IsMoving)

  pub ▷-Reads :
      {A B : Type 0} (p : Parser A) (k : A → Parser B)
      → Reads p
      → ((a : A) → IsSteady (k a))
      → Reads (λ i. p i ▷ k)
  ▷-Reads p k (sp, mp) sk = (
    ▷-IsSteady p k sp sk,
    λ i rest b h.
        let (left, a, e, e') = ▷-parsed (p i) k rest b h in
        let (used, cut) = (sk a).consumes left rest b e' in
        let lens : length left ≡ length used + length rest =
          ap length cut ∙ length-append used rest in
        omega (arith, mp i left a e, lens),
  )
