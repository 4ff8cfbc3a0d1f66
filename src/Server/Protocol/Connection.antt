-- ===== src/Server/Protocol/Connection.antt =====
-- rust/crates/mcfreeze-server/src/listener.rs: `handle_connection` and `drain`. What the client
-- sends is the sequence of chunks that the reads return; a chunk without bytes, and the end of the
-- sequence, stand for whatever ends the reading: the end of the stream, an error or the idle
-- timeout. Writes to the client succeed. The gauges are left out.
use mcfreeze.Base.{ℕ, zero, suc, ◌+◌, List, [], ◌∷◌, ◌++◌, Option, none, some, leb}
use mcfreeze.Base.{◌==◌, if◌then◌else◌, length, drop, Bytes, ◌⊎◌}
use mcfreeze.Server.{ServeError, LookupOutcome}
use mcfreeze.Server.Protocol.{Disposition, continue, close, drain, dispatch}
use mcfreeze.Server.Protocol.Parser.{Nom, Parsed, ready, need_more, parse_error, out_of_fuel}
use mcfreeze.Server.Protocol.Parser.{parse_command}

-- A connection: its buffers, what was written to the client, and what is still to be read.
pub record Conn (S : Type 0) : Type 0 where
  pub read_buf : Bytes
  pub write_buf : Bytes
  pub written : Bytes
  pub chunks : List Bytes
  pub lookup : S

-- How a loop ends: with a command that is not complete, with `break 'outer`, or, which is no value
-- of the code, with no fuel.
pub data Outcome : Type 0 where
  flushes breaks out_of_rounds : Outcome

-- `ERROR`
abbrev pub error_line : Bytes
error_line = 69 ∷ (82 ∷ (82 ∷ (79 ∷ (82 ∷ (13 ∷ (10 ∷ []))))))

-- `drain`: the bytes behind `n`, once they have arrived.
unfoldable pub drain_loop : ℕ → Bytes → List Bytes → Option (Bytes × List Bytes)
drain_loop n buf [] = if leb n (length buf) then some (drop n buf, []) else none
drain_loop n buf (chunk ∷ chunks) =
    let later = drain_loop n (buf ++ chunk) chunks in
    if leb n (length buf)
    then some (drop n buf, chunk ∷ chunks)
    else if length chunk == 0
    then none
    else later

unfoldable pub total : List Bytes → ℕ
total [] = 0
total (chunk ∷ chunks) = length chunk + total chunks

module _ {S : Type 0} where
  -- What follows a drain, or its end with the pending replies unwritten.
  abbrev pub on_drained :
      (Conn S → Outcome × Conn S) → Option (Bytes × List Bytes) → Conn S → Outcome × Conn S
  on_drained later none c = (breaks, record c { chunks = [] })
  on_drained later (some (buf, chunks)) c = later (record c { read_buf = buf; chunks = chunks })

  -- The match on the disposition of a command.
  unfoldable pub on_disposition :
      (Conn S → Outcome × Conn S) → Disposition → Conn S → Outcome × Conn S
  unfolding drain_loop
  on_disposition later continue c = later c
  on_disposition later close c = (breaks, record c { written = c.written ++ c.write_buf })
  on_disposition later (drain n) c = on_drained later (drain_loop n c.read_buf c.chunks) c

-- The flush at the end of a batch.
unfoldable pub flush : {S : Type 0} → Conn S → Conn S
flush c =
    if length c.write_buf == 0
    then c
    else record c { written = c.written ++ c.write_buf; write_buf = [] }

module _ (nom : Nom) {S : Type 0} (lookup : S → Bytes → (ServeError ⊎ LookupOutcome) × S)
    (semver : Bytes) (generation : ℕ) where
  -- The match on a parse, for a connection whose parsed bytes are gone.
  unfoldable pub on_parsed : (Conn S → Outcome × Conn S) → Parsed → Conn S → Outcome × Conn S
  unfolding on_disposition
  on_parsed later parse_error c =
      let buf = c.write_buf ++ error_line in
      (breaks, record c { write_buf = buf; written = c.written ++ buf })
  on_parsed later need_more c = (flushes, c)
  on_parsed later out_of_fuel c = (out_of_rounds, c)
  on_parsed later (ready cmd) c =
      let (disposition, dst, s) = dispatch lookup cmd c.lookup c.write_buf semver generation in
      on_disposition later disposition (record c { write_buf = dst; lookup = s })

  -- The loop over the complete commands of the read buffer. Each takes bytes.
  unfoldable pub commands_loop : ℕ → Conn S → Outcome × Conn S
  unfolding on_parsed
  commands_loop zero c = (out_of_rounds, c)
  commands_loop (suc fuel) c =
      let (p, buf) = parse_command nom c.read_buf in
      on_parsed (commands_loop fuel) p (record c { read_buf = buf })

  -- What follows a batch of commands.
  abbrev pub on_batch : (Conn S → Outcome × Conn S) → Outcome × Conn S → Outcome × Conn S
  on_batch later (flushes, c) = later (flush c)
  on_batch later (breaks, c) = (breaks, c)
  on_batch later (out_of_rounds, c) = (out_of_rounds, c)

  -- A read, and the batch of commands that it completes.
  abbrev pub on_read : (Conn S → Outcome × Conn S) → List Bytes → Conn S → Outcome × Conn S
  on_read later [] c = (breaks, c)
  on_read later (chunk ∷ chunks) c =
      if length chunk == 0
      then (breaks, c)
      else (let c' : Conn S = record c { read_buf = c.read_buf ++ chunk; chunks = chunks } in
          on_batch later (commands_loop (suc (length c'.read_buf + total chunks)) c'))

  -- The outer loop. Each round reads a chunk.
  unfoldable pub batches_loop : ℕ → Conn S → Outcome × Conn S
  unfolding commands_loop flush total
  batches_loop zero c = (out_of_rounds, c)
  batches_loop (suc fuel) c = on_read (batches_loop fuel) c.chunks c

  unfoldable pub handle_connection : S → List Bytes → Outcome × Conn S
  unfolding batches_loop
  handle_connection s chunks =
      batches_loop (suc (length chunks))
        (record { read_buf = []; write_buf = []; written = []; chunks = chunks; lookup = s })
