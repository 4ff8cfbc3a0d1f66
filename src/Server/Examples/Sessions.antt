-- ===== src/Server/Examples/Sessions.antt =====
-- Connections at concrete inputs: a lookup that is always a hit, and a client that quits.
use mcfreeze.Base.{ℕ, ◌+◌, ◌≡◌, refl, [], ◌∷◌, ◌++◌, List, Bytes, ◌⊎◌, inr, arith}
use mathlib.Core.List.{flatten}
use mcfreeze.Server.{ServeError, LookupOutcome, lookup_hit}
use mcfreeze.Server.Protocol.{mg, dispatch, dispatch_mg, write_reply, write_va}
use mcfreeze.Server.Protocol.{decimal, decimal_from}
use mcfreeze.Server.Protocol.Parser.{parse_command, nom_parse, parse_mg, parse_version}
use mcfreeze.Server.Protocol.Parser.{parse_quit, ready}
use mcfreeze.Server.Protocol.Parser.{token, crlf_parser, flags_loop, flag_round, flag_of}
use mcfreeze.Server.Protocol.Connection.{Conn, breaks, handle_connection}
use mcfreeze.Server.Protocol.Streaming.{Serves, quits, goes_on}
use mcfreeze.Server.Protocol.Served.{handle_connection-Serves}
use mcfreeze.Server.Protocol.Chunks.{IsCutOff, handle_connection-chunks}
use mcfreeze.Server.Protocol.Ended.{handle_connection-breaks}
use mcfreeze.Server.Protocol.Printed.{mg_line, flags_in}
use mcfreeze.Server.Protocol.Printed.{parse_command-mg_line}
use mcfreeze.Server.Examples.Streams.{streaming, match_bytes, tag_bytes, span_bytes, run_bytes}
use mcfreeze.Server.Examples.Lawful.{streaming-IsStreaming}

abbrev hits : ℕ → Bytes → (ServeError ⊎ LookupOutcome) × ℕ
hits n key = (inr (lookup_hit (7 ∷ [])), n + 1)

-- `mg k` and `quit`, cut within the key's line and within the word.
abbrev cut_chunks : List Bytes
cut_chunks =
    (109 ∷ (103 ∷ []))
    ∷ ((32 ∷ (107 ∷ (13 ∷ (10 ∷ (113 ∷ []))))) ∷ ((117 ∷ (105 ∷ (116 ∷ (13 ∷ (10 ∷ []))))) ∷ []))

abbrev whole_chunk : List Bytes
whole_chunk =
    (109 ∷ (103 ∷ (32 ∷ (107 ∷ (13 ∷ (10 ∷ (113 ∷ (117 ∷ (105 ∷ (116 ∷ (13 ∷ (10 ∷ []))))))))))))
    ∷ []

-- `VA 1`, and the value.
abbrev hit_reply : Bytes
hit_reply = 86 ∷ (65 ∷ (32 ∷ (49 ∷ (13 ∷ (10 ∷ (7 ∷ (13 ∷ (10 ∷ []))))))))

quit_served : Serves streaming hits [] 1 1 (113 ∷ (117 ∷ (105 ∷ (116 ∷ (13 ∷ (10 ∷ [])))))) [] 1
unfolding parse_command nom_parse parse_mg parse_version parse_quit token crlf_parser flags_loop
    flag_round flag_of dispatch match_bytes tag_bytes span_bytes run_bytes
quit_served = quits refl refl

both_served : Serves streaming hits [] 1 0 (flatten cut_chunks) (hit_reply ++ []) 1
unfolding parse_command nom_parse parse_mg parse_version parse_quit token crlf_parser flags_loop
    flag_round flag_of dispatch dispatch_mg write_reply write_va decimal decimal_from match_bytes
    tag_bytes span_bytes run_bytes flatten
both_served = goes_on refl refl quit_served

handle_connection-Serves_example :
    (c : Conn ℕ) × (handle_connection streaming hits [] 1 0 cut_chunks ≡ (breaks, c))
    × (c.written ≡ hit_reply ++ [])
    × (c.lookup ≡ 1)
handle_connection-Serves_example =
    handle_connection-Serves streaming streaming-IsStreaming hits [] 1 0 1 cut_chunks
      (hit_reply ++ []) (omega arith, (omega arith, (omega arith, tt))) both_served

handle_connection-chunks_example :
    ((¬ IsCutOff streaming hits [] 1 0 (flatten cut_chunks))
      × ((handle_connection streaming hits [] 1 0 cut_chunks).1.written
          ≡ (handle_connection streaming hits [] 1 0 whole_chunk).1.written)
      × ((handle_connection streaming hits [] 1 0 cut_chunks).1.lookup
          ≡ (handle_connection streaming hits [] 1 0 whole_chunk).1.lookup))
    ⊎ IsCutOff streaming hits [] 1 0 (flatten cut_chunks)
unfolding flatten
handle_connection-chunks_example =
    handle_connection-chunks streaming streaming-IsStreaming hits [] 1 0 cut_chunks whole_chunk
      (omega arith, (omega arith, (omega arith, tt))) (omega arith, tt) refl

handle_connection-breaks_example : (handle_connection streaming hits [] 1 0 cut_chunks).0 ≡ breaks
handle_connection-breaks_example =
    handle_connection-breaks streaming streaming-IsStreaming hits [] 1 0 cut_chunks

-- A key, the flag `k`, and a flag with a value.
parse_command-mg_line_example :
    parse_command streaming (mg_line (97 ∷ []) ((107 ∷ []) ∷ ((78 ∷ (51 ∷ [])) ∷ [])) (1 ∷ []))
    ≡ (ready (mg (97 ∷ []) (flags_in ((107 ∷ []) ∷ ((78 ∷ (51 ∷ [])) ∷ [])))), 1 ∷ [])
parse_command-mg_line_example =
    parse_command-mg_line streaming streaming-IsStreaming (97 ∷ [])
      ((107 ∷ []) ∷ ((78 ∷ (51 ∷ [])) ∷ [])) (1 ∷ [])
      (record { nonempty = omega arith; visible = (omega arith, tt) })
      (
        record { nonempty = omega arith; visible = (omega arith, tt) },
        (record { nonempty = omega arith; visible = (omega arith, (omega arith, tt)) }, tt),
      )
