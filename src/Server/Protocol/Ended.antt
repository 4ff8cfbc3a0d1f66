-- ===== src/Server/Protocol/Ended.antt =====
-- Connections end: the loops of the model have fuel enough on every sequence of reads.
use mcfreeze.Base.{ℕ, zero, suc, ◌+◌, ◌<◌, ◌≤◌, ◌≡◌, refl, sym, ap, List, [], ◌∷◌, ◌++◌}
use mcfreeze.Base.{◌⊎◌, inl, inr, Bytes, length, arith, subst, Option-cases}
use mcfreeze.Base.{Bool-cases, ◌==◌}
use mcfreeze.Server.{ServeError, LookupOutcome}
use mcfreeze.Server.Protocol.{Disposition, continue, close, drain, dispatch}
use mcfreeze.Server.Protocol.Parser.{Nom, Parsed}
use mcfreeze.Server.Protocol.Stable.{IsStreaming}
use mcfreeze.Server.Protocol.Commands.{nom_parse-Reads}
use mcfreeze.Server.Protocol.Connection.{Conn, Outcome, flushes, breaks, out_of_rounds, drain_loop}
use mcfreeze.Server.Protocol.Connection.{total, on_drained, on_disposition, on_parsed}
use mcfreeze.Server.Protocol.Connection.{commands_loop}
use mcfreeze.Server.Protocol.Connection.{on_batch, on_read, batches_loop, handle_connection, flush}
use mcfreeze.Server.Protocol.Drained.{drain_loop-le, command-cases}
use mcfreeze.Server.Protocol.Served.{flush_lem}

module _ (nom : Nom) (laws : IsStreaming nom) {S : Type 0}
    (lookup : S → Bytes → (ServeError ⊎ LookupOutcome) × S) (semver : Bytes) (generation : ℕ) where
  -- A batch ends, and reads no chunk twice.
  abbrev Settles : Outcome × Conn S → ℕ → Type 0
  Settles run n = (run.0 ≡ breaks) ⊎ ((run.0 ≡ flushes) × (length run.1.chunks ≤ n))

  abbrev Halts : ℕ → Type 0
  Halts fuel =
      (c : Conn S)
      → length c.read_buf + total c.chunks < fuel
      → Settles (commands_loop nom lookup semver generation fuel c) (length c.chunks)

  Settles-le : (run : Outcome × Conn S) (m n : ℕ) → m ≤ n → Settles run m → Settles run n
  Settles-le run m n le (inl b) = inl b
  Settles-le run m n le (inr (e, few)) = inr (e, omega (arith, few, le))

  on_disposition-Settles :
      (fuel : ℕ) (d : Disposition) (c : Conn S)
      → Halts fuel
      → length c.read_buf + total c.chunks < fuel
      → Settles
          (on_disposition (commands_loop nom lookup semver generation fuel) d c)
          (length c.chunks)
  unfolding on_disposition
  on_disposition-Settles fuel continue c ih lt = ih c lt
  on_disposition-Settles fuel close c ih lt = inl refl
  on_disposition-Settles fuel (drain n) c ih lt =
      let go = commands_loop nom lookup semver generation fuel in
      elim (Option-cases (drain_loop n c.read_buf c.chunks)) [
        | inl e ↦
            subst (λ z. Settles z (length c.chunks)) (sym (ap (λ o. on_drained go o c) e))
              (inl refl)
        | inr ((buf, chunks), e) ↦
            let (lens, fewer) = drain_loop-le n c.read_buf c.chunks buf chunks e in
            let c' : Conn S = record c { read_buf = buf; chunks = chunks } in
            subst (λ z. Settles z (length c.chunks)) (sym (ap (λ o. on_drained go o c) e))
              (Settles-le (go c') (length chunks) (length c.chunks) fewer
                (ih c' (omega (arith, lens, lt))))
      ]

  commands_loop-Settles : (fuel : ℕ) → Halts fuel
  unfolding commands_loop on_parsed
  commands_loop-Settles zero c lt = absurd (omega arith)
  commands_loop-Settles (suc fuel) c lt =
      let go = commands_loop nom lookup semver generation fuel in
      let round = λ (z : Parsed × Bytes).
        on_parsed nom lookup semver generation go z.0 (record c { read_buf = z.1 }) in
      elim (command-cases nom laws c.read_buf) [
        | inl (rest, cmd, e, p) ↦
            let out = dispatch lookup cmd c.lookup c.write_buf semver generation in
            let c' : Conn S = record c { read_buf = rest; write_buf = out.1; lookup = out.2 } in
            let shorter = (nom_parse-Reads nom laws).1 c.read_buf rest cmd e in
            subst (λ z. Settles z (length c.chunks)) (sym (ap round p))
              (on_disposition-Settles fuel out.0 c' (commands_loop-Settles fuel)
                (omega (arith, shorter, lt)))
        | inr (inl (e, p)) ↦
            subst (λ z. Settles z (length c.chunks)) (sym (ap round p)) (inr (refl, omega arith))
        | inr (inr (e, p)) ↦ subst (λ z. Settles z (length c.chunks)) (sym (ap round p)) (inl refl)
      ]

  on_batch-breaks :
      (later : Conn S → Outcome × Conn S) (run : Outcome × Conn S) (n : ℕ)
      → Settles run n
      → ((c : Conn S) → length c.chunks ≤ n → (later c).0 ≡ breaks)
      → (on_batch nom lookup semver generation later run).0 ≡ breaks
  on_batch-breaks later (flushes, c) n (inl e) h = absurd cc
  on_batch-breaks later (flushes, c) n (inr (e, few)) h =
      let (_, _, _, same, _) = flush_lem c [] in
      h (flush c) (subst (λ z. length z ≤ n) (sym same) few)
  on_batch-breaks later (breaks, c) n s h = refl
  on_batch-breaks later (out_of_rounds, c) n (inl e) h = e
  on_batch-breaks later (out_of_rounds, c) n (inr (e, few)) h = absurd cc

  on_read-breaks :
      (fuel : ℕ) (chunks : List Bytes) (c : Conn S)
      → ((c' : Conn S)
          → length c'.chunks < fuel
          → (batches_loop nom lookup semver generation fuel c').0 ≡ breaks)
      → length chunks < suc fuel
      → (on_read nom lookup semver generation
          (batches_loop nom lookup semver generation fuel)
          chunks
          c).0
        ≡ breaks
  on_read-breaks fuel [] c ih lt = refl
  on_read-breaks fuel (chunk ∷ chunks) c ih lt = elim (Bool-cases (length chunk == 0)) [
    | inl end ↦ rw end refl
    | inr full ↦
        let c' : Conn S = record c { read_buf = c.read_buf ++ chunk; chunks = chunks } in
        let n = suc (length c'.read_buf + total chunks) in
        rw full (
          on_batch-breaks (batches_loop nom lookup semver generation fuel)
            (commands_loop nom lookup semver generation n c') (length chunks)
            (commands_loop-Settles n c' (omega arith)) (λ c'' few. ih c'' (omega (arith, few, lt))))
  ]

  batches_loop-breaks :
      (fuel : ℕ) (c : Conn S)
      → length c.chunks < fuel
      → (batches_loop nom lookup semver generation fuel c).0 ≡ breaks
  unfolding batches_loop
  batches_loop-breaks zero c lt = absurd (omega arith)
  batches_loop-breaks (suc fuel) c lt = on_read-breaks fuel c.chunks c (batches_loop-breaks fuel) lt

  -- A connection ends on every finite sequence of reads, with or without an empty one: whatever the
  -- client sends, the parser, the loop over the commands and the loop over the reads come to an end
  -- with the fuel that the model gives them.
  pub handle_connection-breaks :
      (s : S) (chunks : List Bytes)
      → (handle_connection nom lookup semver generation s chunks).0 ≡ breaks
  unfolding handle_connection
  handle_connection-breaks s chunks =
      batches_loop-breaks (suc (length chunks))
        (record { read_buf = []; write_buf = []; written = []; chunks = chunks; lookup = s })
        (omega arith)
