-- ===== src/Server/Protocol.antt =====
-- rust/crates/mcfreeze-server/src/protocol/: the replies of the meta protocol and the dispatch of a
-- parsed command. Parsing is done by the combinators of the nom crate. Timings are left out.
pub mod Parser
pub mod Stable
pub mod Steady
pub mod Commands
pub mod Printed
pub mod Connection
pub mod Drained
pub mod Streaming
pub mod Served
pub mod Ended
pub mod Chunks
use mcfreeze.Base.{ℕ, zero, suc, ◌+◌, ◌/◌, ◌%◌, ◌^◌, [], ◌∷◌, ◌++◌, Bool, ltb, ◌==◌}
use mcfreeze.Base.{if◌then◌else◌, Bytes, ◌⊎◌, inl, inr, length}
use mcfreeze.Server.{ServeError, LookupOutcome, lookup_hit, lookup_miss}

pub record MgFlags : Type 0 where
  pub v : Bool
  pub t : Bool
  pub h : Bool
  pub k : Bool

pub data Command : Type 0 where
  mg : Bytes → MgFlags → Command
  version : Command
  quit : Command
  write_rejected : ℕ → Command

pub data Disposition : Type 0 where
  continue : Disposition
  close : Disposition
  drain : ℕ → Disposition

abbrev pub crlf : Bytes
crlf = 13 ∷ (10 ∷ [])

-- The decimal digits of a number, as `to_string` writes them: the fuel is the number of digits at
-- most, and a 64-bit number has 20.
unfoldable pub decimal_from : ℕ → ℕ → Bytes
decimal_from zero n = []
decimal_from (suc fuel) n =
    let above = decimal_from fuel (n / 10) in
    (if ltb n 10 then [] else above) ++ ((48 + n % 10) ∷ [])

unfoldable pub decimal : ℕ → Bytes
unfolding decimal_from
decimal n = decimal_from 20 n

-- The bytes of `VA `, ` k` and ` t-1`.
unfoldable pub write_va : Bytes → Bytes → MgFlags → Bytes → Bytes
unfolding decimal
write_va dst value flags key =
    dst
    ++ (86 ∷ (65 ∷ (32 ∷ [])))
    ++ decimal (length value)
    ++ (if flags.k then 32 ∷ (107 ∷ key) else [])
    ++ (if flags.t then 32 ∷ (116 ∷ (45 ∷ (49 ∷ []))) else [])
    ++ crlf
    ++ value
    ++ crlf

-- `EN`
unfoldable pub write_en : Bytes → Bytes
write_en dst = dst ++ (69 ∷ (78 ∷ crlf))

-- `SERVER_ERROR `
unfoldable pub write_server_error : Bytes → Bytes → Bytes
write_server_error dst msg =
    dst
    ++ (83 ∷ (69 ∷ (82 ∷ (86 ∷ (69 ∷ (82 ∷ (95 ∷ (69 ∷ (82 ∷ (82 ∷ (79 ∷ (82 ∷ (32 ∷ [])))))))))))))
    ++ msg
    ++ crlf

-- `VERSION ` and ` gen/`
unfoldable pub write_version : Bytes → Bytes → ℕ → Bytes
unfolding decimal
write_version dst semver generation =
    dst
    ++ (86 ∷ (69 ∷ (82 ∷ (83 ∷ (73 ∷ (79 ∷ (78 ∷ (32 ∷ []))))))))
    ++ semver
    ++ (32 ∷ (103 ∷ (101 ∷ (110 ∷ (47 ∷ [])))))
    ++ decimal generation
    ++ crlf

-- `internal error`
abbrev pub internal_error : Bytes
internal_error =
    105
    ∷ (110
        ∷ (116
            ∷ (101
                ∷ (114
                    ∷ (110 ∷ (97 ∷ (108 ∷ (32 ∷ (101 ∷ (114 ∷ (114 ∷ (111 ∷ (114 ∷ [])))))))))))))

-- `read-only`
abbrev pub read_only : Bytes
read_only = 114 ∷ (101 ∷ (97 ∷ (100 ∷ (45 ∷ (111 ∷ (110 ∷ (108 ∷ (121 ∷ []))))))))

-- The match on the answer of a lookup.
unfoldable pub write_reply : ServeError ⊎ LookupOutcome → Bytes → MgFlags → Bytes → Bytes
unfolding write_va write_en write_server_error
write_reply (inr (lookup_hit value)) key flags dst = write_va dst value flags key
write_reply (inr (lookup_miss paid)) key flags dst = write_en dst
write_reply (inl e) key flags dst = write_server_error dst internal_error

module _ {S : Type 0} (lookup : S → Bytes → (ServeError ⊎ LookupOutcome) × S) where
  unfoldable pub dispatch_mg : Bytes → MgFlags → S → Bytes → Bytes × S
  unfolding write_reply
  dispatch_mg key flags s dst =
      let (result, s') = lookup s key in (write_reply result key flags dst, s')

  -- The sum with the two bytes of the line's end wraps, as in a release build.
  unfoldable pub dispatch : Command → S → Bytes → Bytes → ℕ → Disposition × Bytes × S
  unfolding dispatch_mg write_version write_server_error
  dispatch (mg key flags) s dst semver generation =
      let (dst', s') = dispatch_mg key flags s dst in (continue, dst', s')
  dispatch version s dst semver generation = (continue, write_version dst semver generation, s)
  dispatch quit s dst semver generation = (close, dst, s)
  dispatch (write_rejected data_len) s dst semver generation = (
    if data_len == 0 then continue else drain ((data_len + 2) % 2 ^ 64),
    write_server_error dst read_only,
    s,
  )
