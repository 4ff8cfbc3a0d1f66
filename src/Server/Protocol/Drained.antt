-- ===== src/Server/Protocol/Drained.antt =====
-- `parse_command` on a buffer and on more of it, and `drain` on the chunks that follow.
use mcfreeze.Base.{ℕ, zero, suc, ◌+◌, ◌-◌, ◌<◌, ◌≤◌, ◌≡◌, refl, sym, ap, ◌∙◌, List, [], ◌∷◌, ◌++◌}
use mcfreeze.Base.{◌⊎◌, inl, inr, Option, none, some, Bytes, length, length-append, arith, subst}
use mcfreeze.Base.{drop}
use mcfreeze.Base.{length-drop, drop-append, append_assoc, append-nil, All, leb, Bool-cases, ◌==◌}
use mcfreeze.Base.{true, false}
use mathlib.Core.List.{flatten}
use mcfreeze.Server.Protocol.{Command}
use mcfreeze.Server.Protocol.Parser.{parsed, incomplete, failed, Nom}
use mcfreeze.Server.Protocol.Parser.{nom_parse, ready, need_more, parse_error}
use mcfreeze.Server.Protocol.Parser.{parse_mg}
use mcfreeze.Server.Protocol.Parser.{command_of, parse_command}
use mcfreeze.Server.Protocol.Stable.{IsSteady, IsStreaming, IResult-cases}
use mcfreeze.Server.Protocol.Commands.{nom_parse-Reads}
use mcfreeze.Server.Protocol.Connection.{drain_loop, total}

module _ (nom : Nom) (laws : IsStreaming nom) where
  IsSteady-parse : IsSteady (nom_parse nom)
  IsSteady-parse = (nom_parse-Reads nom laws).0

  pub parse_command-ready :
      (src rest : Bytes) (cmd : Command)
      → nom_parse nom src ≡ parsed rest cmd
      → parse_command nom src ≡ (ready cmd, rest)
  unfolding parse_command
  parse_command-ready src rest cmd h =
      let (used, cut) = IsSteady-parse.consumes src rest cmd h in
      let lens : length src ≡ length used + length rest = ap length cut ∙ length-append used rest in
      ap (command_of nom src) h
      ∙ ap (λ z. (ready cmd, z))
          (ap (drop (length src - length rest)) cut
            ∙ drop-append (length src - length rest) used rest (omega (arith, lens)))

  pub command-cases :
      (src : Bytes)
      → ((rest : Bytes) × (cmd : Command) × (nom_parse nom src ≡ parsed rest cmd)
          × (parse_command nom src ≡ (ready cmd, rest)))
        ⊎ (((nom_parse nom src ≡ incomplete) × (parse_command nom src ≡ (need_more, src)))
            ⊎ ((nom_parse nom src ≡ failed) × (parse_command nom src ≡ (parse_error, src))))
  unfolding parse_command
  command-cases src = elim (IResult-cases (nom_parse nom src)) [
    | inl (rest, cmd, e) ↦ inl (rest, cmd, e, parse_command-ready src rest cmd e)
    | inr (inl e) ↦ inr (inl (e, ap (command_of nom src) e))
    | inr (inr (inl e)) ↦ inr (inr (e, ap (command_of nom src) e))
    | inr (inr (inr e)) ↦ absurd (IsSteady-parse.ends src e)
  ]

  -- A command that is complete is the same when more follows it.
  pub parse_command-more :
      (src more rest : Bytes) (cmd : Command)
      → nom_parse nom src ≡ parsed rest cmd
      → parse_command nom (src ++ more) ≡ (ready cmd, rest ++ more)
  parse_command-more src more rest cmd h =
      parse_command-ready (src ++ more) (rest ++ more) cmd
        (IsSteady-parse.parsed_more src more rest cmd h)

  -- So is an error.
  pub parse_command-error_more :
      (src more : Bytes)
      → nom_parse nom src ≡ failed
      → parse_command nom (src ++ more) ≡ (parse_error, src ++ more)
  unfolding parse_command
  parse_command-error_more src more h =
      ap (command_of nom (src ++ more)) (IsSteady-parse.failed_more src more h)

  pub parse_command-nil : parse_command nom [] ≡ (need_more, [])
  unfolding parse_command nom_parse parse_mg
  parse_command-nil =
      ap (command_of nom [])
        (laws.alt_incomplete (parse_mg nom) _ [] (rw (laws.tag_empty 109 (103 ∷ [])) refl))

-- The chunks hold bytes.
abbrev pub AllSent : List Bytes → Type 0
AllSent = All (λ chunk. 0 < length chunk)

drop-prefix : (n : ℕ) (xs ys : Bytes) → n ≤ length xs → drop n (xs ++ ys) ≡ drop n xs ++ ys
drop-prefix zero xs ys h = refl
drop-prefix (suc n) [] ys h = absurd (omega arith)
drop-prefix (suc n) (x ∷ xs) ys h = drop-prefix n xs ys (omega arith)

-- A drain takes the bytes that were sent, however they are cut, when there are enough.
pub drain_loop-some :
    (n : ℕ) (buf : Bytes) (chunks : List Bytes)
    → AllSent chunks
    → n ≤ length (buf ++ flatten chunks)
    → (buf' : Bytes) × (chunks' : List Bytes) × (drain_loop n buf chunks ≡ some (buf', chunks'))
      × (buf' ++ flatten chunks' ≡ drop n (buf ++ flatten chunks))
      × AllSent chunks'
unfolding drain_loop flatten
drain_loop-some n buf [] sent le =
    let short : n ≤ length buf =
      omega (arith, le, ap length (let e : buf ++ flatten [] ≡ buf = append-nil buf in e)) in
    let here : leb n (length buf) ≡ true = ground (arith, short) in
    (drop n buf, [], rw here refl, sym (drop-prefix n buf [] short), tt)
drain_loop-some n buf (chunk ∷ chunks) sent le = elim (Bool-cases (leb n (length buf))) [
  | inl here ↦ (
    drop n buf,
    chunk ∷ chunks,
    rw here refl,
    sym (drop-prefix n buf (flatten (chunk ∷ chunks)) (ground (arith, here))),
    sent,
  )
  | inr later ↦
      let assoc = append_assoc buf chunk (flatten chunks) in
      let (buf', chunks', e, joined, sent') =
        drain_loop-some n (buf ++ chunk) chunks sent.1 (subst (λ z. n ≤ length z) (sym assoc) le) in
      let full : (length chunk == 0) ≡ false = ground (arith, sent.0) in
      (buf', chunks', rw later (rw full e), joined ∙ ap (drop n) assoc, sent')
]

-- A drain leaves no more than there was.
pub drain_loop-le :
    (n : ℕ) (buf : Bytes) (chunks : List Bytes) (buf' : Bytes) (chunks' : List Bytes)
    → drain_loop n buf chunks ≡ some (buf', chunks')
    → (length buf' + total chunks' ≤ length buf + total chunks) × (length chunks' ≤ length chunks)
unfolding drain_loop total
drain_loop-le n buf [] buf' chunks' h = elim (Bool-cases (leb n (length buf))) [
  | inl here ↦
      let k : Path (Option (Bytes × List Bytes)) (some (drop n buf, [])) (some (buf', chunks')) =
        rw here at h in
      let e : drop n buf ≡ buf' = cc in
      let e' : [] ≡ chunks' = cc in
      subst (λ z. (length z + total chunks' ≤ length buf + 0) × (length chunks' ≤ 0)) e
        (subst (λ z. (length (drop n buf) + total z ≤ length buf + 0) × (length z ≤ 0)) e'
          (omega (arith, length-drop n buf), omega arith))
  | inr later ↦
      let k : Path (Option (Bytes × List Bytes)) none (some (buf', chunks')) = rw later at h in cc
]
drain_loop-le n buf (chunk ∷ chunks) buf' chunks' h = elim (Bool-cases (leb n (length buf))) [
  | inl here ↦
      let k : Path (Option (Bytes × List Bytes)) (some (drop n buf, chunk ∷ chunks))
          (some (buf', chunks')) =
        rw here at h in
      let e : drop n buf ≡ buf' = cc in
      let e' : chunk ∷ chunks ≡ chunks' = cc in
      subst
        (λ z.
          (length z + total chunks' ≤ length buf + (length chunk + total chunks))
          × (length chunks' ≤ suc (length chunks)))
        e
        (subst
          (λ z.
            (length (drop n buf) + total z ≤ length buf + (length chunk + total chunks))
            × (length z ≤ suc (length chunks)))
          e' (omega (arith, length-drop n buf), omega arith))
  | inr later ↦ elim (Bool-cases (length chunk == 0)) [
    | inl none_left ↦
        let k : Path (Option (Bytes × List Bytes)) none (some (buf', chunks')) =
          rw (later, none_left) at h in
        cc
    | inr full ↦
        let k : drain_loop n (buf ++ chunk) chunks ≡ some (buf', chunks') = rw (later, full) at h in
        let (lens, fewer) = drain_loop-le n (buf ++ chunk) chunks buf' chunks' k in
        (omega (arith, lens, length-append buf chunk), omega (arith, fewer))
  ]
]
