-- ===== src/Server/Protocol/Chunks.antt =====
-- Streams that end within the body of a rejected write, and the replies to all others.
use mcfreeze.Base.{
  ℕ, zero, suc, ◌<◌, ◌≤◌, ◌≡◌, refl, sym, ap, ◌∙◌, List, [], ◌++◌, ◌⊎◌, inl, inr, Bytes,
}
use mcfreeze.Base.{length, drop, subst, arith, leb, Bool-cases, length-drop}
use mathlib.Core.List.{flatten}
use mcfreeze.Server.{ServeError, LookupOutcome}
use mcfreeze.Server.Protocol.{Command, Disposition, continue, close, drain, dispatch}
use mcfreeze.Server.Protocol.Parser.{Nom, ready, parse_command}
use mcfreeze.Server.Protocol.Stable.{IsStreaming}
use mcfreeze.Server.Protocol.Commands.{nom_parse-Reads}
use mcfreeze.Server.Protocol.Connection.{handle_connection}
use mcfreeze.Server.Protocol.Drained.{AllSent, command-cases}
use mcfreeze.Server.Protocol.Streaming.{
  After, Serves-ready, Serves, waits, fails, quits, goes_on, drains,
}
use mcfreeze.Server.Protocol.Served.{handle_connection-Serves}

module _ (nom : Nom) {S : Type 0} (lookup : S → Bytes → (ServeError ⊎ LookupOutcome) × S)
    (semver : Bytes) (generation : ℕ) where
  -- The stream ends within the body of a rejected write, behind commands that are answered.
  pub data IsCutOff : S → Bytes → Type 0 where
    in_body :
        {s s' : S} {input rest reply : Bytes} {cmd : Command} {n : ℕ}
        → parse_command nom input ≡ (ready cmd, rest)
        → dispatch lookup cmd s [] semver generation ≡ (drain n, reply, s')
        → length rest < n
        → IsCutOff s input
    behind :
        {s s' : S} {input rest reply : Bytes} {cmd : Command}
        → parse_command nom input ≡ (ready cmd, rest)
        → dispatch lookup cmd s [] semver generation ≡ (continue, reply, s')
        → IsCutOff s' rest
        → IsCutOff s input
    behind_body :
        {s s' : S} {input rest reply : Bytes} {cmd : Command} {n : ℕ}
        → parse_command nom input ≡ (ready cmd, rest)
        → dispatch lookup cmd s [] semver generation ≡ (drain n, reply, s')
        → n ≤ length rest
        → IsCutOff s' (drop n rest)
        → IsCutOff s input

  Serves-After :
      {s s' final : S} {input rest reply replies : Bytes} {cmd : Command} (d : Disposition)
      → parse_command nom input ≡ (ready cmd, rest)
      → dispatch lookup cmd s [] semver generation ≡ (d, reply, s')
      → Serves nom lookup semver generation s input replies final
      → After nom lookup semver generation d reply s' rest replies final
  Serves-After {final = final} {rest = rest} {replies = replies} {cmd = cmd} d p out h =
      subst
        (λ (o : Disposition × Bytes × S).
          After nom lookup semver generation o.0 o.1 o.2 rest replies final)
        out (Serves-ready nom lookup semver generation rest cmd p h)

  -- A stream that has replies is not cut off.
  Serves-IsCutOff :
      {s final : S} {input replies : Bytes}
      → Serves nom lookup semver generation s input replies final
      → ¬ IsCutOff s input
  unfolding After
  Serves-IsCutOff h (in_body {n = n} p out short) =
      let (_, _, le, _) = Serves-After (drain n) p out h in absurd (omega (arith, short, le))
  Serves-IsCutOff h (behind p out cut) =
      let (_, _, later) = Serves-After continue p out h in Serves-IsCutOff later cut
  Serves-IsCutOff h (behind_body {n = n} p out le cut) =
      let (_, _, _, later) = Serves-After (drain n) p out h in Serves-IsCutOff later cut

module _ (nom : Nom) (laws : IsStreaming nom) {S : Type 0}
    (lookup : S → Bytes → (ServeError ⊎ LookupOutcome) × S) (semver : Bytes) (generation : ℕ) where
  -- A stream has replies, or it is cut off.
  abbrev IsAnswered : S → Bytes → Type 0
  IsAnswered s input =
      ((replies : Bytes) × (s' : S) × Serves nom lookup semver generation s input replies s')
      ⊎ IsCutOff nom lookup semver generation s input

  after-IsAnswered :
      (s s' : S) (input rest reply : Bytes) (cmd : Command) (d : Disposition)
      → parse_command nom input ≡ (ready cmd, rest)
      → dispatch lookup cmd s [] semver generation ≡ (d, reply, s')
      → ((later : Bytes) → length later ≤ length rest → IsAnswered s' later)
      → IsAnswered s input
  after-IsAnswered s s' input rest reply cmd continue p out ih = elim (ih rest (omega arith)) [
    | inl (replies, s'', served) ↦ inl (reply ++ replies, s'', goes_on p out served)
    | inr cut ↦ inr (behind p out cut)
  ]
  after-IsAnswered s s' input rest reply cmd close p out ih = inl (reply, s', quits p out)
  after-IsAnswered s s' input rest reply cmd (drain n) p out ih =
      elim (Bool-cases (leb n (length rest))) [
        | inl whole ↦
            let le : n ≤ length rest = ground (arith, whole) in
            elim (ih (drop n rest) (omega (arith, length-drop n rest))) [
              | inl (replies, s'', served) ↦ inl (reply ++ replies, s'', drains p out le served)
              | inr cut ↦ inr (behind_body p out le cut)
            ]
        | inr short ↦ inr (in_body p out (ground (arith, short)))
      ]

  input-IsAnswered : (fuel : ℕ) (s : S) (input : Bytes) → length input < fuel → IsAnswered s input
  input-IsAnswered zero s input lt = absurd (omega arith)
  input-IsAnswered (suc fuel) s input lt = elim (command-cases nom laws input) [
    | inl (rest, cmd, e, p) ↦
        let shorter = (nom_parse-Reads nom laws).1 input rest cmd e in
        let out = dispatch lookup cmd s [] semver generation in
        after-IsAnswered s out.2 input rest out.1 cmd out.0 p refl
          (λ later le. input-IsAnswered fuel out.2 later (omega (arith, le, shorter, lt)))
    | inr (inl (e, p)) ↦ inl ([], s, waits p)
    | inr (inr (e, p)) ↦ inl (_, s, fails p)
  ]

  -- Two clients that send the same bytes, in reads of any sizes that each return bytes, get the
  -- same replies and leave the same state, unless what they send ends within the body of a rejected
  -- write: whatever the bytes are, either this is not so and the replies and states agree, or it is
  -- so. The parsers of nom have their documented streaming behaviour.
  pub handle_connection-chunks :
      (s : S) (chunks chunks' : List Bytes)
      → AllSent chunks
      → AllSent chunks'
      → flatten chunks ≡ flatten chunks'
      → ((¬ IsCutOff nom lookup semver generation s (flatten chunks))
          × ((handle_connection nom lookup semver generation s chunks).1.written
              ≡ (handle_connection nom lookup semver generation s chunks').1.written)
          × ((handle_connection nom lookup semver generation s chunks).1.lookup
              ≡ (handle_connection nom lookup semver generation s chunks').1.lookup))
        ⊎ IsCutOff nom lookup semver generation s (flatten chunks)
  handle_connection-chunks s chunks chunks' sent sent' same =
      elim (input-IsAnswered (suc (length (flatten chunks))) s (flatten chunks) (omega arith)) [
        | inl (replies, s', h) ↦
            let (c, e, w, l) =
              handle_connection-Serves nom laws lookup semver generation s s' chunks replies sent
                h in
            let (c', e', w', l') =
              handle_connection-Serves nom laws lookup semver generation s s' chunks' replies sent'
                (subst (λ z. Serves nom lookup semver generation s z replies s') same h) in
            inl (
              Serves-IsCutOff nom lookup semver generation h,
              ap (λ z. z.1.written) e ∙ w ∙ sym w' ∙ ap (λ z. z.1.written) (sym e'),
              ap (λ z. z.1.lookup) e ∙ l ∙ sym l' ∙ ap (λ z. z.1.lookup) (sym e'),
            )
        | inr cut ↦ inr cut
      ]
