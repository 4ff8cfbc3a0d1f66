-- ===== src/Server/Examples/Streams.antt =====
-- Streaming parsers and combinators that behave as those of nom, by clauses.
use mcfreeze.Base.{ℕ, List, [], ◌∷◌, Bool}
use mcfreeze.Base.{◌==◌, Option, none, some, Bytes}
use mcfreeze.Base.{if◌then◌else◌, leb, ◌&&◌}
use mcfreeze.Server.Protocol.Parser.{IResult, parsed, incomplete, failed, spent, Parser, Nom, ◌▷◌}
use mcfreeze.Server.Protocol.Stable.{is_space}

-- The bytes of `t`, one by one.
unfoldable pub match_bytes : Bytes → Parser (Unit {0})
match_bytes [] i = parsed i tt
match_bytes (c ∷ t) [] = incomplete
match_bytes (c ∷ t) (b ∷ i) = let rest = match_bytes t i in if c == b then rest else failed

unfoldable pub tag_bytes : Bytes → Parser Bytes
unfolding match_bytes
tag_bytes t i = match_bytes t i ▷ λ _. λ rest. parsed rest t

-- One byte before what a parser took.
abbrev pub before : ℕ → IResult Bytes → IResult Bytes
before b r = r ▷ λ bs. λ rest. parsed rest (b ∷ bs)

abbrev pub until_step : IResult (Unit {0}) → Bytes → IResult Bytes → IResult Bytes
until_step (parsed _ _) i later = parsed i []
until_step failed i later = later
until_step incomplete i later = incomplete
until_step spent i later = incomplete

-- The bytes before the first `t`.
unfoldable pub until_bytes : Bytes → Parser Bytes
unfolding match_bytes
until_bytes t [] = until_step (match_bytes t []) [] incomplete
until_bytes t (b ∷ i) = until_step (match_bytes t (b ∷ i)) (b ∷ i) (before b (until_bytes t i))

-- The longest run of bytes with `f`, behind which there is another byte.
unfoldable pub span_bytes : (ℕ → Bool) → Parser Bytes
span_bytes f [] = incomplete
span_bytes f (b ∷ i) =
    let later = before b (span_bytes f i) in if f b then later else parsed (b ∷ i) []

unfoldable pub run_bytes : (ℕ → Bool) → Parser Bytes
unfolding span_bytes
run_bytes f i =
    span_bytes f i ▷ λ bs. λ rest. elim bs [ [] ↦ failed | (x ∷ xs) ↦ parsed rest (x ∷ xs) ]

abbrev pub optional : {A : Type 0} → IResult A → Bytes → IResult (Option A)
optional (parsed rest a) i = parsed rest (some a)
optional incomplete i = incomplete
optional failed i = parsed i none
optional spent i = spent

abbrev pub or_else : {A : Type 0} → IResult A → IResult A → IResult A
or_else failed r = r
or_else (parsed rest a) r = parsed rest a
or_else incomplete r = incomplete
or_else spent r = spent

abbrev pub first_of : {A : Type 0} → List (Parser A) → Parser A
first_of [] i = failed
first_of (p ∷ ps) i = or_else (p i) (first_of ps i)

abbrev pub is_digit : ℕ → Bool
is_digit c = leb 48 c && leb c 57

abbrev pub streaming : Nom
streaming = record {
  tag = tag_bytes;
  take_until = until_bytes;
  take_while1 = run_bytes;
  space1 = run_bytes is_space;
  digit1 = run_bytes is_digit;
  opt = λ p i. optional (p i) i;
  preceded = λ p q i. p i ▷ λ _. q;
  alt = first_of;
  map_res = λ p f i. p i ▷ λ a. λ rest. elim (f a) [ none ↦ failed | some b ↦ parsed rest b ];
}
