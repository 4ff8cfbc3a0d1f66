-- ===== src/Server/Protocol/Printed.antt =====
-- Lookups as clients write them, and what the parser makes of them.
use mcfreeze.Base.{ℕ, zero, suc, ◌<◌, ◌≡◌, refl, ap, ◌∙◌, List, [], ◌∷◌, ◌++◌, Bool, true}
use mcfreeze.Base.{false, ◌==◌, ◌||◌, Bytes, All, length, arith}
use mcfreeze.Base.{length-append}
use mcfreeze.Server.Protocol.{MgFlags, mg}
use mcfreeze.Server.Protocol.Parser.{parsed, Nom, ◌▷◌, token, crlf_parser, flags_loop}
use mcfreeze.Server.Protocol.Parser.{flag_of, flag_round, parse_mg, is_token, nom_parse, no_flags}
use mcfreeze.Server.Protocol.Parser.{line_end, ready, parse_command}
use mcfreeze.Server.Protocol.Stable.{IsStreaming}
use mcfreeze.Server.Protocol.Drained.{parse_command-ready}

-- Bytes above the space, and at least one of them.
pub record IsVisible (t : Bytes) : Type 0 where
  pub nonempty : 0 < length t
  pub visible : All (λ b. 32 < b) t

-- The flags of a line, its end, and what follows it.
pub line_tail : List Bytes → Bytes → Bytes
line_tail [] rest = 13 ∷ (10 ∷ rest)
line_tail (t ∷ ts) rest = 32 ∷ (t ++ line_tail ts rest)

-- `mg <key> <flags>`
pub mg_line : Bytes → List Bytes → Bytes → Bytes
unfolding line_tail
mg_line key toks rest = 109 ∷ (103 ∷ (32 ∷ (key ++ line_tail toks rest)))

-- Whether a flag of the list begins with a letter.
pub has_flag : ℕ → List Bytes → Bool
has_flag c [] = false
has_flag c ([] ∷ ts) = has_flag c ts
has_flag c ((b ∷ bs) ∷ ts) = (b == c) || has_flag c ts

pub flags_in : List Bytes → MgFlags
unfolding has_flag
flags_in toks = record {
  v = has_flag 118 toks;
  t = has_flag 116 toks;
  h = has_flag 104 toks;
  k = has_flag 107 toks;
}

fold_flags : List Bytes → MgFlags → MgFlags
fold_flags [] flags = flags
fold_flags (t ∷ ts) flags = fold_flags ts (flag_of t flags)

join_flags : MgFlags → MgFlags → MgFlags
join_flags f g = record { v = f.v || g.v; t = f.t || g.t; h = f.h || g.h; k = f.k || g.k }

fold_flags_lem :
    (toks : List Bytes) (flags : MgFlags) → fold_flags toks flags ≡ join_flags flags (flags_in toks)
unfolding fold_flags join_flags flags_in has_flag flag_of
fold_flags_lem [] flags = ground arith
fold_flags_lem ([] ∷ ts) flags = fold_flags_lem ts flags
fold_flags_lem ((b ∷ bs) ∷ ts) flags = ground (arith, fold_flags_lem ts (flag_of (b ∷ bs) flags))

fold_flags-none : (toks : List Bytes) → fold_flags toks no_flags ≡ flags_in toks
unfolding join_flags flags_in
fold_flags-none toks = fold_flags_lem toks no_flags

tokens_of : (t : Bytes) → All (λ b. 32 < b) t → All (λ b. is_token b ≡ true) t
tokens_of [] h = tt
tokens_of (b ∷ bs) h = (ground (arith, h.0), tokens_of bs h.1)

module _ (nom : Nom) (laws : IsStreaming nom) where
  token-line_tail :
      (t : Bytes) (toks : List Bytes) (rest : Bytes)
      → IsVisible t
      → token nom (t ++ line_tail toks rest) ≡ parsed (line_tail toks rest) t
  unfolding token line_tail
  token-line_tail [] toks rest h = absurd (omega (arith, h.nonempty))
  token-line_tail (x ∷ xs) [] rest h =
      laws.take_while1_run is_token x 13 xs (10 ∷ rest) (tokens_of (x ∷ xs) h.visible) refl
  token-line_tail (x ∷ xs) (t ∷ ts) rest h =
      laws.take_while1_run is_token x 32 xs (t ++ line_tail ts rest) (tokens_of (x ∷ xs) h.visible)
        refl

  space1-visible :
      (t more : Bytes) → IsVisible t → nom.space1 (32 ∷ (t ++ more)) ≡ parsed (t ++ more) (32 ∷ [])
  space1-visible [] more h = absurd (omega (arith, h.nonempty))
  space1-visible (x ∷ xs) more h =
      let above : 32 < x = h.visible.0 in laws.space1_run x (xs ++ more) (ground (arith, above))

  flags_loop-line_tail :
      (fuel : ℕ) (toks : List Bytes) (flags : MgFlags) (rest : Bytes)
      → All IsVisible toks
      → length toks < fuel
      → flags_loop nom fuel flags (line_tail toks rest)
        ≡ parsed (13 ∷ (10 ∷ rest)) (fold_flags toks flags)
  unfolding flags_loop flag_round line_tail fold_flags token
  flags_loop-line_tail zero toks flags rest h lt = absurd (omega arith)
  flags_loop-line_tail (suc fuel) [] flags rest h lt =
      let p = nom.preceded nom.space1 (token nom) in
      let i = line_tail [] rest in
      ap (λ m. m ▷ flag_round (flags_loop nom fuel) flags i)
        (laws.opt_failed p i (
          laws.preceded_lem nom.space1 (token nom) i
          ∙ ap (λ m. m ▷ λ _. token nom) (laws.space1_refuses 13 (10 ∷ rest) refl)))
  flags_loop-line_tail (suc fuel) (t ∷ ts) flags rest h lt =
      let p = nom.preceded nom.space1 (token nom) in
      let i = line_tail (t ∷ ts) rest in
      ap (λ m. m ▷ flag_round (flags_loop nom fuel) flags i)
        (laws.opt_parsed p i (line_tail ts rest) t (
          laws.preceded_lem nom.space1 (token nom) i
          ∙ ap (λ m. m ▷ λ _. token nom) (space1-visible t (line_tail ts rest) h.0)
          ∙ token-line_tail t ts rest h.0))
      ∙ flags_loop-line_tail fuel ts (flag_of t flags) rest h.1 (omega arith)

  line_tail-long :
      (toks : List Bytes) (rest : Bytes) → length toks < suc (length (line_tail toks rest))
  unfolding line_tail
  line_tail-long [] rest = omega arith
  line_tail-long (t ∷ ts) rest =
      omega (arith, line_tail-long ts rest, length-append t (line_tail ts rest))

  -- A lookup that a client writes is read back, with what follows it left in the buffer: the key,
  -- and the flags `v`, `t`, `h` and `k` as the first letters of the flag tokens give them, in any
  -- order and number, others ignored. The key and the tokens have visible bytes.
  pub parse_command-mg_line :
      (key : Bytes) (toks : List Bytes) (rest : Bytes)
      → IsVisible key
      → All IsVisible toks
      → parse_command nom (mg_line key toks rest) ≡ (ready (mg key (flags_in toks)), rest)
  unfolding mg_line nom_parse parse_mg crlf_parser
  parse_command-mg_line key toks rest hk ht =
      let tail = line_tail toks rest in
      let line : parse_mg nom (mg_line key toks rest) ≡ parsed rest (mg key (flags_in toks)) =
        rw (laws.tag_whole (109 ∷ (103 ∷ [])) (32 ∷ (key ++ tail))) (
          rw (space1-visible key tail hk) (
            rw (token-line_tail key toks rest hk) (
              rw
                (flags_loop-line_tail (suc (length tail)) toks no_flags rest ht
                  (line_tail-long toks rest))
                (rw (laws.tag_whole line_end rest)
                  (ap (λ z. parsed rest (mg key z)) (fold_flags-none toks)))))) in
      parse_command-ready nom laws (mg_line key toks rest) rest (mg key (flags_in toks)) (
        laws.alt_parsed (parse_mg nom) _ (mg_line key toks rest) rest (mg key (flags_in toks)) line)
