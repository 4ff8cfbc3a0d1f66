-- ===== src/Server/Protocol/Served.antt =====
-- Connections answer the stream of bytes, however the network cuts it into chunks.
use mcfreeze.Base.{ℕ, zero, suc, ◌+◌, ◌<◌, ◌≤◌, ◌≡◌, refl, sym, ap, ◌∙◌, List, [], ◌∷◌, ◌++◌}
use mcfreeze.Base.{◌⊎◌, inl, inr, Bytes, length, arith, subst}
use mcfreeze.Base.{append_assoc, append-nil, Bool-cases, ◌==◌, true, false}
use mathlib.Core.List.{flatten}
use mcfreeze.Server.{ServeError, LookupOutcome}
use mcfreeze.Server.Protocol.{Disposition, continue, close, drain, dispatch}
use mcfreeze.Server.Protocol.Parser.{Nom, need_more, parse_command}
use mcfreeze.Server.Protocol.Stable.{IsStreaming}
use mcfreeze.Server.Protocol.Commands.{nom_parse-Reads}
use mcfreeze.Server.Protocol.Connection.{Conn, Outcome, flushes, breaks}
use mcfreeze.Server.Protocol.Connection.{total, on_drained, on_disposition, on_parsed}
use mcfreeze.Server.Protocol.Connection.{commands_loop}
use mcfreeze.Server.Protocol.Connection.{on_batch, on_read, batches_loop, handle_connection, flush}
use mcfreeze.Server.Protocol.Connection.{error_line}
use mcfreeze.Server.Protocol.Drained.{AllSent, drain_loop-some, drain_loop-le, command-cases}
use mcfreeze.Server.Protocol.Drained.{parse_command-more, parse_command-error_more}
use mcfreeze.Server.Protocol.Drained.{parse_command-nil}
use mcfreeze.Server.Protocol.Streaming.{Serves, After, Serves-ready, Serves-error, Serves-waiting}
use mcfreeze.Server.Protocol.Streaming.{dispatch-append}

length-zero : (bs : Bytes) → (length bs == 0) ≡ true → bs ≡ []
length-zero [] h = refl
length-zero (b ∷ bs) h = absurd (ground (arith, h))

-- A flush writes what is pending, and changes nothing else.
pub flush_lem :
    {S : Type 0} (c : Conn S) (later : Bytes)
    → ((flush c).written ++ later ≡ c.written ++ (c.write_buf ++ later))
      × ((flush c).write_buf ≡ [])
      × ((flush c).read_buf ≡ c.read_buf)
      × ((flush c).chunks ≡ c.chunks)
      × ((flush c).lookup ≡ c.lookup)
unfolding flush
flush_lem c later = elim (Bool-cases (length c.write_buf == 0)) [
  | inl empty ↦
      let none_pending = length-zero c.write_buf empty in
      (
        rw empty (ap (λ z. c.written ++ (z ++ later)) (sym none_pending)),
        rw empty none_pending,
        rw empty refl,
        rw empty refl,
        rw empty refl,
      )
  | inr full ↦ (
    rw full (append_assoc c.written c.write_buf later),
    rw full refl,
    rw full refl,
    rw full refl,
    rw full refl,
  )
]

module _ (nom : Nom) (laws : IsStreaming nom) {S : Type 0}
    (lookup : S → Bytes → (ServeError ⊎ LookupOutcome) × S) (semver : Bytes) (generation : ℕ) where
  abbrev Replies : S → Bytes → Bytes → S → Type 0
  Replies = Serves nom lookup semver generation

  -- What a batch comes to, for a target of all that is written in the end: the connection breaks
  -- with the target written, or it flushes and the rest of the stream gives the rest of the target.
  abbrev IsBatch : Outcome × Conn S → Bytes → ℕ → S → Type 0
  IsBatch run target n s'' =
      ((c : Conn S) × (run ≡ (breaks, c)) × (c.written ≡ target) × (c.lookup ≡ s''))
      ⊎ ((c : Conn S) × (later : Bytes) × (run ≡ (flushes, c))
          × (c.written ++ (c.write_buf ++ later) ≡ target)
          × Replies c.lookup (c.read_buf ++ flatten c.chunks) later s''
          × AllSent c.chunks
          × (length c.chunks ≤ n)
          × (parse_command nom c.read_buf ≡ (need_more, c.read_buf)))

  -- What the rest of the loop comes to, with the fuel that is left.
  abbrev Goes : ℕ → Type 0
  Goes fuel =
      (c : Conn S) (replies : Bytes) (s'' : S)
      → AllSent c.chunks
      → length c.read_buf + total c.chunks < fuel
      → Replies c.lookup (c.read_buf ++ flatten c.chunks) replies s''
      → IsBatch (commands_loop nom lookup semver generation fuel c)
          (c.written ++ (c.write_buf ++ replies)) (length c.chunks) s''

  IsBatch-le :
      (run : Outcome × Conn S) (target : Bytes) (m n : ℕ) (s'' : S)
      → m ≤ n
      → IsBatch run target m s''
      → IsBatch run target n s''
  IsBatch-le run target m n s'' le (inl b) = inl b
  IsBatch-le run target m n s'' le (inr (c, later, e, t, h, sent, few, p)) =
      inr (c, later, e, t, h, sent, omega (arith, few, le), p)

  on_disposition-IsBatch :
      (fuel : ℕ) (d : Disposition) (c : Conn S) (dst reply replies : Bytes) (s'' : S)
      → Goes fuel
      → AllSent c.chunks
      → length c.read_buf + total c.chunks < fuel
      → c.write_buf ≡ dst ++ reply
      → After nom lookup semver generation d reply c.lookup
          (c.read_buf ++ flatten c.chunks)
          replies
          s''
      → IsBatch
          (on_disposition (commands_loop nom lookup semver generation fuel) d c)
          (c.written ++ (dst ++ replies))
          (length c.chunks)
          s''
  unfolding on_disposition After
  on_disposition-IsBatch fuel continue c dst reply replies s'' ih sent lt w (later, e, h) =
      subst
        (λ z.
          IsBatch (commands_loop nom lookup semver generation fuel c) (c.written ++ z)
            (length c.chunks) s'')
        (ap (λ z. z ++ later) w ∙ append_assoc dst reply later ∙ ap (λ z. dst ++ z) (sym e))
        (ih c later s'' sent lt h)
  on_disposition-IsBatch fuel close c dst reply replies s'' ih sent lt w (e, e') = inl (
    record c { written = c.written ++ c.write_buf },
    refl,
    ap (λ z. c.written ++ z) (w ∙ ap (λ z. dst ++ z) (sym e)),
    sym e',
  )
  on_disposition-IsBatch fuel (drain n) c dst reply replies s'' ih sent lt w (later, e, le, h) =
      let (buf, chunks, drained, joined, sent') = drain_loop-some n c.read_buf c.chunks sent le in
      let (lens, fewer) = drain_loop-le n c.read_buf c.chunks buf chunks drained in
      let c' : Conn S = record c { read_buf = buf; chunks = chunks } in
      subst (λ z. IsBatch z (c.written ++ (dst ++ replies)) (length c.chunks) s'')
        (sym (ap (λ o. on_drained (commands_loop nom lookup semver generation fuel) o c) drained))
        (subst
          (λ z.
            IsBatch (commands_loop nom lookup semver generation fuel c') (c.written ++ z)
              (length c.chunks) s'')
          (ap (λ z. z ++ later) w ∙ append_assoc dst reply later ∙ ap (λ z. dst ++ z) (sym e))
          (IsBatch-le (commands_loop nom lookup semver generation fuel c')
            (c.written ++ (c.write_buf ++ later)) (length chunks) (length c.chunks) s'' fewer
            (ih c' later s'' sent' (omega (arith, lens, lt))
              (subst (λ z. Replies c.lookup z later s'') (sym joined) h))))

  commands_loop-IsBatch : (fuel : ℕ) → Goes fuel
  unfolding commands_loop on_parsed
  commands_loop-IsBatch zero c replies s'' sent lt h = absurd (omega arith)
  commands_loop-IsBatch (suc fuel) c replies s'' sent lt h =
      let flat = flatten c.chunks in
      let go = commands_loop nom lookup semver generation fuel in
      elim (command-cases nom laws c.read_buf) [
        | inl (rest, cmd, e, p) ↦
            let whole = parse_command-more nom laws c.read_buf flat rest cmd e in
            let next = Serves-ready nom lookup semver generation (rest ++ flat) cmd whole h in
            let out = dispatch lookup cmd c.lookup [] semver generation in
            let c' : Conn S = record c {
              read_buf = rest;
              write_buf = c.write_buf ++ out.1;
              lookup = out.2;
            } in
            let shorter = (nom_parse-Reads nom laws).1 c.read_buf rest cmd e in
            subst (λ z. IsBatch z (c.written ++ (c.write_buf ++ replies)) (length c.chunks) s'')
              (sym (
                ap
                  (λ z. on_parsed nom lookup semver generation go z.0 (record c { read_buf = z.1 }))
                  p
                ∙ ap
                    (λ (z : Disposition × Bytes × S).
                      on_disposition go z.0
                        (record c { read_buf = rest; write_buf = z.1; lookup = z.2 }))
                    (dispatch-append lookup semver generation cmd c.lookup c.write_buf)))
              (on_disposition-IsBatch fuel out.0 c' c.write_buf out.1 replies s''
                (commands_loop-IsBatch fuel) sent (omega (arith, shorter, lt)) refl next)
        | inr (inl (e, p)) ↦
            let run =
              ap (λ z. on_parsed nom lookup semver generation go z.0 (record c { read_buf = z.1 }))
                p in
            inr (c, replies, run, refl, h, sent, omega arith, p)
        | inr (inr (e, p)) ↦
            let run =
              ap (λ z. on_parsed nom lookup semver generation go z.0 (record c { read_buf = z.1 }))
                p in
            let (e1, e2) =
              Serves-error nom lookup semver generation (c.read_buf ++ flat)
                (parse_command-error_more nom laws c.read_buf flat e) h in
            inl (
              record c {
                write_buf = c.write_buf ++ error_line;
                written = c.written ++ (c.write_buf ++ error_line);
              },
              run,
              ap (λ z. c.written ++ (c.write_buf ++ z)) (sym e1),
              sym e2,
            )
      ]

  -- What the rest of the connection comes to.
  abbrev Ends : ℕ → Type 0
  Ends fuel =
      (c : Conn S) (replies : Bytes) (s'' : S)
      → AllSent c.chunks
      → length c.chunks < fuel
      → c.write_buf ≡ []
      → parse_command nom c.read_buf ≡ (need_more, c.read_buf)
      → Replies c.lookup (c.read_buf ++ flatten c.chunks) replies s''
      → (c' : Conn S) × (batches_loop nom lookup semver generation fuel c ≡ (breaks, c'))
        × (c'.written ≡ c.written ++ replies)
        × (c'.lookup ≡ s'')

  on_read-Ends :
      (fuel : ℕ) (chunks : List Bytes) (c : Conn S) (replies : Bytes) (s'' : S)
      → Ends fuel
      → AllSent chunks
      → length chunks < suc fuel
      → c.write_buf ≡ []
      → parse_command nom c.read_buf ≡ (need_more, c.read_buf)
      → Replies c.lookup (c.read_buf ++ flatten chunks) replies s''
      → (c' : Conn S) × (on_read nom lookup semver generation
            (batches_loop nom lookup semver generation fuel)
            chunks
            c
          ≡ (breaks, c'))
        × (c'.written ≡ c.written ++ replies)
        × (c'.lookup ≡ s'')
  unfolding flatten
  on_read-Ends fuel [] c replies s'' ih sent lt w p h =
      let (e, e') =
        Serves-waiting nom lookup semver generation c.read_buf
          (ap (parse_command nom) (append-nil c.read_buf) ∙ p) h in
      (c, refl, sym (append-nil c.written) ∙ ap (λ z. c.written ++ z) (sym e), sym e')
  on_read-Ends fuel (chunk ∷ chunks) c replies s'' ih (full, sent) lt w p h =
      let nonempty : (length chunk == 0) ≡ false = ground (arith, full) in
      let c0 : Conn S = record c { read_buf = c.read_buf ++ chunk; chunks = chunks } in
      let go = batches_loop nom lookup semver generation fuel in
      let run =
        commands_loop nom lookup semver generation (suc (length c0.read_buf + total chunks)) c0 in
      let target : c.written ++ (c.write_buf ++ replies) ≡ c.written ++ replies =
        ap (λ z. c.written ++ (z ++ replies)) w in
      elim (commands_loop-IsBatch (suc (length c0.read_buf + total chunks)) c0 replies s'' sent
        (omega arith)
        (subst (λ z. Replies c.lookup z replies s'')
          (sym (append_assoc c.read_buf chunk (flatten chunks))) h)) [
            | inl (c', e, written, left) ↦ (
              c',
              rw nonempty (ap (on_batch nom lookup semver generation go) e),
              written ∙ target,
              left,
            )
            | inr (c', later, e, joined, served, sent', few, p') ↦
                let (f1, f2, f3, f4, f5) = flush_lem c' later in
                let (c'', e', written, left) =
                  ih (flush c') later s'' (subst AllSent (sym f4) sent')
                    (subst (λ z. length z < fuel) (sym f4) (omega (arith, few, lt))) f2
                    (subst (λ z. parse_command nom z ≡ (need_more, z)) (sym f3) p')
                    (subst
                      (λ z. Replies z ((flush c').read_buf ++ flatten (flush c').chunks) later s'')
                      (sym f5)
                      (subst (λ z. Replies c'.lookup (z ++ flatten (flush c').chunks) later s'')
                        (sym f3)
                        (subst (λ z. Replies c'.lookup (c'.read_buf ++ flatten z) later s'')
                          (sym f4) served))) in
                (
                  c'',
                  rw nonempty (ap (on_batch nom lookup semver generation go) e ∙ e'),
                  written ∙ f1 ∙ joined ∙ target,
                  left,
                )
          ]

  batches_loop-Ends : (fuel : ℕ) → Ends fuel
  unfolding batches_loop
  batches_loop-Ends zero c replies s'' sent lt w p h = absurd (omega arith)
  batches_loop-Ends (suc fuel) c replies s'' sent lt w p h =
      on_read-Ends fuel c.chunks c replies s'' (batches_loop-Ends fuel) sent lt w p h

  -- A connection answers the stream of bytes that the client sent, and not the way in which it
  -- arrived. For any sequence of reads that each return bytes, if the relation `Serves` gives
  -- replies to their concatenation, then the connection ends, exactly these replies were written,
  -- and the lookups are left in the same state. The parsers of nom have their documented streaming
  -- behaviour.
  pub handle_connection-Serves :
      (s s' : S) (chunks : List Bytes) (replies : Bytes)
      → AllSent chunks
      → Serves nom lookup semver generation s (flatten chunks) replies s'
      → (c : Conn S) × (handle_connection nom lookup semver generation s chunks ≡ (breaks, c))
        × (c.written ≡ replies)
        × (c.lookup ≡ s')
  unfolding handle_connection
  handle_connection-Serves s s' chunks replies sent h =
      batches_loop-Ends (suc (length chunks))
        (record { read_buf = []; write_buf = []; written = []; chunks = chunks; lookup = s })
        replies s' sent (omega arith) refl (parse_command-nil nom laws) h
