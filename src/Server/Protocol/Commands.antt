-- ===== src/Server/Protocol/Commands.antt =====
-- `parse_command`: its decisions stand when more input arrives, and what it consumes is not empty.
use mcfreeze.Base.{ℕ, zero, suc, ◌+◌, ◌<◌, ◌≡◌, ◌≢◌, refl, sym, ap, ◌∙◌, [], ◌∷◌, ◌++◌}
use mcfreeze.Base.{◌⊎◌, inl, inr, Option, none, some, Bytes, length, length-append, arith, subst}
use mcfreeze.Base.{append_assoc}
use mcfreeze.Server.Protocol.{MgFlags, Command, mg, version, quit, write_rejected}
use mcfreeze.Server.Protocol.Parser.{IResult, parsed, failed, spent, Parser, Nom, ◌▷◌}
use mcfreeze.Server.Protocol.Parser.{token, crlf_parser, flags_loop, flag_of, flag_round}
use mcfreeze.Server.Protocol.Parser.{parse_mg, is_token}
use mcfreeze.Server.Protocol.Parser.{parse_version, parse_quit, parse_ms, parse_md_ma, nom_parse}
use mcfreeze.Server.Protocol.Parser.{no_flags, line_end, parse_usize, from_utf8}
use mcfreeze.Server.Protocol.Stable.{IsSteady, IsStreaming, IResult-cases, ▷-IsSteady, ▷-parsed}
use mcfreeze.Server.Protocol.Stable.{▷-failed, ▷-spent, parsed-IsSteady}
use mcfreeze.Server.Protocol.Steady.{opt-IsSteady, preceded-IsSteady, map_res-IsSteady}
use mcfreeze.Server.Protocol.Steady.{Reads, tag-Reads, alt-Reads, alt_nil-Reads, ▷-Reads}

module _ (nom : Nom) (laws : IsStreaming nom) where
  token-IsSteady : IsSteady (token nom)
  unfolding token
  token-IsSteady = laws.take_while1-IsSteady is_token

  crlf_parser-IsSteady : IsSteady (crlf_parser nom)
  unfolding crlf_parser
  crlf_parser-IsSteady =
      ▷-IsSteady (nom.tag line_end) (λ _. λ rest. parsed rest tt) (laws.tag-IsSteady line_end)
        (λ _. parsed-IsSteady tt)

  abbrev flag_parser : Parser (Option Bytes)
  flag_parser = nom.opt (nom.preceded nom.space1 (token nom))

  flag_parser-IsSteady : IsSteady flag_parser
  flag_parser-IsSteady =
      opt-IsSteady nom laws (nom.preceded nom.space1 (token nom))
        (preceded-IsSteady nom laws nom.space1 (token nom) laws.space1-IsSteady token-IsSteady)

  -- A flag takes bytes of the input.
  flag_parser_moves :
      (i rest tok : Bytes) → flag_parser i ≡ parsed rest (some tok) → length rest < length i
  flag_parser_moves i rest tok h =
      let p = nom.preceded nom.space1 (token nom) in
      let sp =
        preceded-IsSteady nom laws nom.space1 (token nom) laws.space1-IsSteady token-IsSteady in
      elim (IResult-cases (p i)) [
        | inl (left, a, e) ↦
            let now = laws.opt_parsed p i left a e in
            let same : left ≡ rest = cc in
            let split : (nom.space1 i ▷ λ _. token nom) ≡ parsed left a =
              sym (laws.preceded_lem nom.space1 (token nom) i) ∙ e in
            let (l, s, first, second) = ▷-parsed (nom.space1 i) (λ _. token nom) left a split in
            let (used, cut) = token-IsSteady.consumes l left a second in
            let lens : length l ≡ length used + length left =
              ap length cut ∙ length-append used left in
            subst (λ z. length z < length i) same
              (omega (arith, laws.space1_moves i l s first, lens))
        | inr (inl e) ↦ let now = laws.opt_incomplete p i e in cc
        | inr (inr (inl e)) ↦ let now = laws.opt_failed p i e in cc
        | inr (inr (inr e)) ↦ absurd (sp.ends i e)
      ]

  -- What a round of the loop over the flags does with what it got.
  abbrev loop_body : ℕ → MgFlags → Bytes → Option Bytes → Parser MgFlags
  loop_body fuel flags = flag_round (flags_loop nom fuel) flags

  flags_loop-round :
      (fuel : ℕ) (flags : MgFlags) (i : Bytes)
      → flags_loop nom (suc fuel) flags i ≡ (flag_parser i ▷ loop_body fuel flags i)
  unfolding flags_loop token
  flags_loop-round fuel flags i = refl

  -- A parse of the flags ends at once or goes on behind a flag.
  abbrev Rounds : ℕ → MgFlags → Bytes → Bytes → MgFlags → Type 0
  Rounds fuel flags i rest a =
      ((left : Bytes) × (flag_parser i ≡ parsed left none) × (i ≡ rest) × (flags ≡ a))
      ⊎ ((left : Bytes) × (tok : Bytes) × (flag_parser i ≡ parsed left (some tok))
          × (flags_loop nom fuel (flag_of tok flags) left ≡ parsed rest a))

  round_of :
      (fuel : ℕ) (flags : MgFlags) (i rest : Bytes) (a : MgFlags) (left : Bytes)
      (got : Option Bytes)
      → flag_parser i ≡ parsed left got
      → loop_body fuel flags i got left ≡ parsed rest a
      → Rounds fuel flags i rest a
  unfolding flag_round
  round_of fuel flags i rest a left none e h =
      let k : Path (IResult MgFlags) (parsed i flags) (parsed rest a) = h in inl (left, e, cc, cc)
  round_of fuel flags i rest a left (some tok) e h = inr (left, tok, e, h)

  flags_loop-Rounds :
      (fuel : ℕ) (flags : MgFlags) (i rest : Bytes) (a : MgFlags)
      → flags_loop nom (suc fuel) flags i ≡ parsed rest a
      → Rounds fuel flags i rest a
  flags_loop-Rounds fuel flags i rest a h =
      let (left, got, e, e') =
        ▷-parsed (flag_parser i) (loop_body fuel flags i) rest a
          (sym (flags_loop-round fuel flags i) ∙ h) in
      round_of fuel flags i rest a left got e e'

  more_left :
      (i left more : Bytes) (fuel : ℕ)
      → length left < length i
      → length (i ++ more) < suc fuel
      → length (left ++ more) < fuel
  more_left i left more fuel h k =
      omega (arith, length-append i more, length-append left more, h, k)

  flags_loop-parsed_more :
      (fuel fuel' : ℕ) (flags : MgFlags) (i more rest : Bytes) (a : MgFlags)
      → length i < fuel
      → length (i ++ more) < fuel'
      → flags_loop nom fuel flags i ≡ parsed rest a
      → flags_loop nom fuel' flags (i ++ more) ≡ parsed (rest ++ more) a
  unfolding flag_round
  flags_loop-parsed_more zero fuel' flags i more rest a lt lt' h = absurd (omega arith)
  flags_loop-parsed_more (suc fuel) zero flags i more rest a lt lt' h = absurd (omega arith)
  flags_loop-parsed_more (suc fuel) (suc fuel') flags i more rest a lt lt' h =
      elim (flags_loop-Rounds fuel flags i rest a h) [
        | inl (left, e, there, same) ↦
            flags_loop-round fuel' flags (i ++ more)
            ∙ ap (λ m. m ▷ loop_body fuel' flags (i ++ more))
                (flag_parser-IsSteady.parsed_more i more left none e)
            ∙ ap (λ z. parsed (z ++ more) flags) there
            ∙ ap (λ z. parsed (rest ++ more) z) same
        | inr (left, tok, e, e') ↦
            let shorter = flag_parser_moves i left tok e in
            flags_loop-round fuel' flags (i ++ more)
            ∙ ap (λ m. m ▷ loop_body fuel' flags (i ++ more))
                (flag_parser-IsSteady.parsed_more i more left (some tok) e)
            ∙ flags_loop-parsed_more fuel fuel' (flag_of tok flags) left more rest a
                (omega (arith, shorter, lt)) (more_left i left more fuel' shorter lt') e'
      ]

  flags_loop-failed_more :
      (fuel fuel' : ℕ) (flags : MgFlags) (i more : Bytes)
      → length i < fuel
      → length (i ++ more) < fuel'
      → flags_loop nom fuel flags i ≡ failed
      → flags_loop nom fuel' flags (i ++ more) ≡ failed
  unfolding flag_round
  flags_loop-failed_more zero fuel' flags i more lt lt' h = absurd (omega arith)
  flags_loop-failed_more (suc fuel) zero flags i more lt lt' h = absurd (omega arith)
  flags_loop-failed_more (suc fuel) (suc fuel') flags i more lt lt' h =
      let split = sym (flags_loop-round fuel flags i) ∙ h in
      elim (▷-failed (flag_parser i) (loop_body fuel flags i) split) [
        | inl e ↦
            flags_loop-round fuel' flags (i ++ more)
            ∙ ap (λ m. m ▷ loop_body fuel' flags (i ++ more))
                (flag_parser-IsSteady.failed_more i more e)
        | inr (left, none, e, e') ↦
            let k : Path (IResult MgFlags) (parsed i flags) failed = e' in cc
        | inr (left, some tok, e, e') ↦
            let shorter = flag_parser_moves i left tok e in
            flags_loop-round fuel' flags (i ++ more)
            ∙ ap (λ m. m ▷ loop_body fuel' flags (i ++ more))
                (flag_parser-IsSteady.parsed_more i more left (some tok) e)
            ∙ flags_loop-failed_more fuel fuel' (flag_of tok flags) left more
                (omega (arith, shorter, lt)) (more_left i left more fuel' shorter lt') e'
      ]

  flags_loop-consumes :
      (fuel : ℕ) (flags : MgFlags) (i rest : Bytes) (a : MgFlags)
      → length i < fuel
      → flags_loop nom fuel flags i ≡ parsed rest a
      → (used : Bytes) × (i ≡ used ++ rest)
  flags_loop-consumes zero flags i rest a lt h = absurd (omega arith)
  flags_loop-consumes (suc fuel) flags i rest a lt h =
      elim (flags_loop-Rounds fuel flags i rest a h) [
        | inl (left, e, there, same) ↦ ([], there)
        | inr (left, tok, e, e') ↦
            let (used, cut) = flag_parser-IsSteady.consumes i left (some tok) e in
            let (used', cut') =
              flags_loop-consumes fuel (flag_of tok flags) left rest a
                (omega (arith, flag_parser_moves i left tok e, lt)) e' in
            (used ++ used', cut ∙ ap (λ z. used ++ z) cut' ∙ sym (append_assoc used used' rest))
      ]

  flags_loop_ends :
      (fuel : ℕ) (flags : MgFlags) (i : Bytes)
      → length i < fuel
      → flags_loop nom fuel flags i ≢ spent
  unfolding flag_round
  flags_loop_ends zero flags i lt h = absurd (omega arith)
  flags_loop_ends (suc fuel) flags i lt h =
      let split = sym (flags_loop-round fuel flags i) ∙ h in
      elim (▷-spent (flag_parser i) (loop_body fuel flags i) split) [
        | inl e ↦ flag_parser-IsSteady.ends i e
        | inr (left, none, e, e') ↦ let k : Path (IResult MgFlags) (parsed i flags) spent = e' in cc
        | inr (left, some tok, e, e') ↦
            flags_loop_ends fuel (flag_of tok flags) left
              (omega (arith, flag_parser_moves i left tok e, lt)) e'
      ]

  -- With a round for each byte of the input and one more.
  flags_loop-IsSteady : IsSteady (λ i. flags_loop nom (suc (length i)) no_flags i)
  flags_loop-IsSteady = record {
    parsed_more = λ i more rest a h.
        flags_loop-parsed_more (suc (length i)) (suc (length (i ++ more))) no_flags i more rest a
          (omega arith) (omega arith) h;
    failed_more = λ i more h.
        flags_loop-failed_more (suc (length i)) (suc (length (i ++ more))) no_flags i more
          (omega arith) (omega arith) h;
    consumes = λ i rest a h. flags_loop-consumes (suc (length i)) no_flags i rest a (omega arith) h;
    ends = λ i h. flags_loop_ends (suc (length i)) no_flags i (omega arith) h;
  }

  parse_mg-Reads : Reads nom laws (parse_mg nom)
  unfolding parse_mg
  parse_mg-Reads =
      ▷-Reads nom laws (nom.tag (109 ∷ (103 ∷ []))) _ (tag-Reads nom laws 109 (103 ∷ [])) (λ _.
        ▷-IsSteady nom.space1 _ laws.space1-IsSteady (λ _.
          ▷-IsSteady (token nom) _ token-IsSteady (λ key.
            ▷-IsSteady (λ i. flags_loop nom (suc (length i)) no_flags i) _ flags_loop-IsSteady
              (λ flags.
                ▷-IsSteady (crlf_parser nom) _ crlf_parser-IsSteady
                  (λ _. parsed-IsSteady (mg key flags))))))

  -- The end of a line.
  crlf-IsSteady : (cmd : Command) → IsSteady (λ i. crlf_parser nom i ▷ λ _. λ i. parsed i cmd)
  crlf-IsSteady cmd = ▷-IsSteady (crlf_parser nom) _ crlf_parser-IsSteady (λ _. parsed-IsSteady cmd)

  parse_version-Reads : Reads nom laws (parse_version nom)
  unfolding parse_version
  parse_version-Reads =
      ▷-Reads nom laws (nom.tag _) _ (tag-Reads nom laws _ _) (λ _. crlf-IsSteady version)

  parse_quit-Reads : Reads nom laws (parse_quit nom)
  unfolding parse_quit
  parse_quit-Reads =
      ▷-Reads nom laws (nom.tag _) _ (tag-Reads nom laws _ _) (λ _. crlf-IsSteady quit)

  -- The rest of a line, and its end.
  line-IsSteady :
      (cmd : Command)
      → IsSteady
          (λ i. nom.take_until line_end i ▷ λ _. λ i. crlf_parser nom i ▷ λ _. λ i. parsed i cmd)
  line-IsSteady cmd =
      ▷-IsSteady (nom.take_until line_end) _ (laws.take_until-IsSteady line_end)
        (λ _. crlf-IsSteady cmd)

  parse_ms-Reads : Reads nom laws (parse_ms nom)
  unfolding parse_ms
  parse_ms-Reads = ▷-Reads nom laws (nom.tag _) _ (tag-Reads nom laws _ _) (λ _.
      ▷-IsSteady nom.space1 _ laws.space1-IsSteady (λ _.
        ▷-IsSteady (token nom) _ token-IsSteady (λ _.
          ▷-IsSteady nom.space1 _ laws.space1-IsSteady (λ _.
            ▷-IsSteady (nom.map_res (nom.map_res nom.digit1 from_utf8) parse_usize) _
              (map_res-IsSteady nom laws (nom.map_res nom.digit1 from_utf8) parse_usize
                (map_res-IsSteady nom laws nom.digit1 from_utf8 laws.digit1-IsSteady))
              (λ data_len. line-IsSteady (write_rejected data_len))))))

  parse_md_ma-Reads : Reads nom laws (parse_md_ma nom)
  unfolding parse_md_ma
  parse_md_ma-Reads =
      ▷-Reads nom laws (nom.alt (nom.tag (109 ∷ (100 ∷ [])) ∷ (nom.tag (109 ∷ (97 ∷ [])) ∷ []))) _
        (alt-Reads nom laws (nom.tag _) _ (tag-Reads nom laws _ _)
          (alt-Reads nom laws (nom.tag _) [] (tag-Reads nom laws _ _) (alt_nil-Reads nom laws)))
        (λ _. line-IsSteady (write_rejected 0))

  pub nom_parse-Reads : Reads nom laws (nom_parse nom)
  unfolding nom_parse
  nom_parse-Reads = alt-Reads nom laws (parse_mg nom) _ parse_mg-Reads (
      alt-Reads nom laws (parse_version nom) _ parse_version-Reads (
        alt-Reads nom laws (parse_quit nom) _ parse_quit-Reads (
          alt-Reads nom laws (parse_ms nom) _ parse_ms-Reads
            (alt-Reads nom laws (parse_md_ma nom) [] parse_md_ma-Reads (alt_nil-Reads nom laws)))))
