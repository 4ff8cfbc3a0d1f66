-- ===== src/Server/Protocol/Parser.antt =====
-- rust/crates/mcfreeze-server/src/protocol/meta.rs: the parser of the meta protocol. The streaming
-- parsers and the combinators of the nom crate are parameters: `Nom` holds those that the source
-- imports. The codes of their errors reach the log only, and are left out.
use mcfreeze.Base.{ℕ, zero, suc, ◌+◌, ◌-◌, ◌*◌, ◌^◌, List, [], ◌∷◌, Bool, true, false, not, ◌&&◌}
use mcfreeze.Base.{Option, none, some, ltb, leb, ◌==◌, if◌then◌else◌, length, drop, Bytes}
use mcfreeze.Server.{is_utf8}
use mcfreeze.Server.Protocol.{MgFlags, Command, mg, version, quit, write_rejected}

-- `IResult`: `spent` is no value of the crate, it marks a loop of the model whose fuel ran out.
pub data IResult (A : Type 0) : Type 0 where
  parsed : Bytes → A → IResult A
  incomplete : IResult A
  failed : IResult A
  spent : IResult A

abbrev pub Parser : Type 0 → Type 0
Parser A = Bytes → IResult A

-- What the source imports from nom.
pub record Nom : Type 1 where
  pub tag : Bytes → Parser Bytes
  pub take_until : Bytes → Parser Bytes
  pub take_while1 : (ℕ → Bool) → Parser Bytes
  pub space1 : Parser Bytes
  pub digit1 : Parser Bytes
  pub opt : {A : Type 0} → Parser A → Parser (Option A)
  pub preceded : {A B : Type 0} → Parser A → Parser B → Parser B
  pub alt : {A : Type 0} → List (Parser A) → Parser A
  pub map_res : {A B : Type 0} → Parser A → (A → Option B) → Parser B

module _ {A B : Type 0} where
  infixl 5 ◌▷◌
  -- The `?` operator on a parse, with what is left of the input.
  abbrev pub ◌▷◌ : IResult A → (A → Parser B) → IResult B
  parsed rest a ▷ k = k a rest
  incomplete ▷ k = incomplete
  failed ▷ k = failed
  spent ▷ k = spent

-- Neither a space nor the end of a line.
abbrev pub is_token : ℕ → Bool
is_token c = not (c == 32) && (not (c == 13) && not (c == 10))

abbrev pub line_end : Bytes
line_end = 13 ∷ (10 ∷ [])

-- The flag of a token, by its first byte: `v`, `t`, `h` or `k`.
unfoldable pub flag_of : Bytes → MgFlags → MgFlags
flag_of [] flags = flags
flag_of (b ∷ bs) flags =
    if b == 118
    then record flags { v = true }
    else if b == 116
    then record flags { t = true }
    else if b == 104
    then record flags { h = true }
    else if b == 107
    then record flags { k = true }
    else flags

-- The match of the loop over the flags: the loop ends where it stands, or goes on behind a flag.
unfoldable pub flag_round :
    (MgFlags → Parser MgFlags) → MgFlags → Bytes → Option Bytes → Parser MgFlags
unfolding flag_of
flag_round later flags rest none _ = parsed rest flags
flag_round later flags rest (some tok) r = later (flag_of tok flags) r

abbrev pub no_flags : MgFlags
no_flags = record { v = false; t = false; h = false; k = false }

-- `str::parse::<usize>` on decimal digits: an overflow is an error.
unfoldable pub parse_digits : ℕ → Bytes → Option ℕ
parse_digits n [] = some n
parse_digits n (b ∷ bs) =
    let next = parse_digits (n * 10 + (b - 48)) bs in
    if ltb b 48
    then none
    else if ltb 57 b
    then none
    else if leb (2 ^ 64) (n * 10 + (b - 48))
    then none
    else next

unfoldable pub parse_usize : Bytes → Option ℕ
unfolding parse_digits
parse_usize [] = none
parse_usize (b ∷ bs) = parse_digits 0 (b ∷ bs)

unfoldable pub from_utf8 : Bytes → Option Bytes
from_utf8 bs = if is_utf8 bs then some bs else none

-- What `parse_command` returns: `Ok(Some(cmd))`, `Ok(None)` or an error.
pub data Parsed : Type 0 where
  ready : Command → Parsed
  need_more : Parsed
  parse_error : Parsed
  out_of_fuel : Parsed

module _ (nom : Nom) where
  unfoldable pub token : Parser Bytes
  token = nom.take_while1 is_token

  unfoldable pub crlf_parser : Parser (Unit {0})
  crlf_parser input = nom.tag line_end input ▷ λ _. λ rest. parsed rest tt

  -- The loop over the flag tokens. Each round consumes two bytes at least.
  unfoldable pub flags_loop : ℕ → MgFlags → Parser MgFlags
  unfolding token flag_round
  flags_loop zero flags rest = spent
  flags_loop (suc fuel) flags rest =
      nom.opt (nom.preceded nom.space1 token) rest ▷ flag_round (flags_loop fuel) flags rest

  -- `mg`
  unfoldable pub parse_mg : Parser Command
  unfolding token crlf_parser flags_loop
  parse_mg input = nom.tag (109 ∷ (103 ∷ [])) input ▷ λ _. λ input. nom.space1 input ▷ λ _. λ input.
      token input ▷ λ key. λ input. flags_loop (suc (length input)) no_flags input ▷ λ flags.
      λ rest. crlf_parser rest ▷ λ _. λ rest. parsed rest (mg key flags)

  -- `version`
  unfoldable pub parse_version : Parser Command
  unfolding crlf_parser
  parse_version input =
      nom.tag (118 ∷ (101 ∷ (114 ∷ (115 ∷ (105 ∷ (111 ∷ (110 ∷ []))))))) input ▷ λ _.
      λ input. crlf_parser input ▷ λ _. λ input. parsed input version

  -- `quit`
  unfoldable pub parse_quit : Parser Command
  unfolding crlf_parser
  parse_quit input = nom.tag (113 ∷ (117 ∷ (105 ∷ (116 ∷ [])))) input ▷ λ _.
      λ input. crlf_parser input ▷ λ _. λ input. parsed input quit

  -- `ms`
  unfoldable pub parse_ms : Parser Command
  unfolding token crlf_parser parse_usize from_utf8
  parse_ms input = nom.tag (109 ∷ (115 ∷ [])) input ▷ λ _. λ input. nom.space1 input ▷ λ _. λ input.
      token input ▷ λ _. λ input. nom.space1 input ▷ λ _. λ input.
        nom.map_res (nom.map_res nom.digit1 from_utf8) parse_usize input ▷ λ data_len. λ input.
          nom.take_until line_end input ▷ λ _.
          λ input. crlf_parser input ▷ λ _. λ input. parsed input (write_rejected data_len)

  -- `md` and `ma`
  unfoldable pub parse_md_ma : Parser Command
  unfolding crlf_parser
  parse_md_ma input =
      nom.alt (nom.tag (109 ∷ (100 ∷ [])) ∷ (nom.tag (109 ∷ (97 ∷ [])) ∷ [])) input ▷ λ _. λ input.
        nom.take_until line_end input ▷ λ _.
        λ input. crlf_parser input ▷ λ _. λ input. parsed input (write_rejected 0)

  unfoldable pub nom_parse : Parser Command
  unfolding parse_mg parse_version parse_quit parse_ms parse_md_ma
  nom_parse = nom.alt (parse_mg ∷ (parse_version ∷ (parse_quit ∷ (parse_ms ∷ (parse_md_ma ∷ [])))))

  -- The match of `parse_command`, and the buffer behind it.
  abbrev pub command_of : Bytes → IResult Command → Parsed × Bytes
  command_of src (parsed remaining cmd) = (ready cmd, drop (length src - length remaining) src)
  command_of src incomplete = (need_more, src)
  command_of src failed = (parse_error, src)
  command_of src spent = (out_of_fuel, src)

  unfoldable pub parse_command : Bytes → Parsed × Bytes
  unfolding nom_parse
  parse_command src = command_of src (nom_parse src)
