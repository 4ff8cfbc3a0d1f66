-- ===== src/Server/Protocol/Streaming.antt =====
-- What a connection answers, as a relation between the bytes that the client sends and the replies:
-- it does not mention buffers or chunks.
use mcfreeze.Base.{ℕ, ◌+◌, ◌≤◌, ◌≡◌, refl, sym, ap, ◌∙◌, [], ◌++◌}
use mcfreeze.Base.{◌⊎◌, inl, inr, Bytes, length, subst, drop}
use mcfreeze.Base.{if◌then◌else◌, ◌%◌, ◌^◌, append_assoc, append-nil, ◌==◌}
use mcfreeze.Server.{ServeError, LookupOutcome, lookup_hit, lookup_miss}
use mcfreeze.Server.Protocol.{Command, mg, version, quit, write_rejected, MgFlags, Disposition}
use mcfreeze.Server.Protocol.{continue}
use mcfreeze.Server.Protocol.{close, drain, dispatch, dispatch_mg, write_va, write_en}
use mcfreeze.Server.Protocol.{write_version}
use mcfreeze.Server.Protocol.{write_server_error, write_reply}
use mcfreeze.Server.Protocol.Parser.{Nom, Parsed, ready, need_more, parse_error}
use mcfreeze.Server.Protocol.Parser.{parse_command}
use mcfreeze.Server.Protocol.Connection.{error_line}

write_reply-append :
    (r : ServeError ⊎ LookupOutcome) (key : Bytes) (flags : MgFlags) (dst : Bytes)
    → write_reply r key flags dst ≡ dst ++ write_reply r key flags []
unfolding write_reply write_va write_en write_server_error
write_reply-append (inr (lookup_hit value)) key flags dst = simp (append_assoc)
write_reply-append (inr (lookup_miss paid)) key flags dst = refl
write_reply-append (inl e) key flags dst = simp (append_assoc)

module _ {S : Type 0} (lookup : S → Bytes → (ServeError ⊎ LookupOutcome) × S) (semver : Bytes)
    (generation : ℕ) where
  -- The replies of a command go behind what is in the buffer.
  pub dispatch-append :
      (cmd : Command) (s : S) (dst : Bytes)
      → dispatch lookup cmd s dst semver generation ≡ (
        (dispatch lookup cmd s [] semver generation).0,
        dst ++ (dispatch lookup cmd s [] semver generation).1,
        (dispatch lookup cmd s [] semver generation).2,
      )
  unfolding dispatch dispatch_mg write_version write_server_error
  dispatch-append (mg key flags) s dst =
      ap (λ z. (continue, z, (lookup s key).1)) (write_reply-append (lookup s key).0 key flags dst)
  dispatch-append version s dst = ap (λ z. (continue, z, s)) (simp (append_assoc))
  dispatch-append quit s dst = ap (λ z. (close, z, s)) (sym (append-nil dst))
  dispatch-append (write_rejected data_len) s dst =
      ap (λ z. (if data_len == 0 then continue else drain ((data_len + 2) % 2 ^ 64), z, s))
        (simp (append_assoc))

module _ (nom : Nom) {S : Type 0} (lookup : S → Bytes → (ServeError ⊎ LookupOutcome) × S)
    (semver : Bytes) (generation : ℕ) where
  -- The replies to a stream of bytes, command by command, and the state that the lookups leave. A
  -- stream that ends within the body of a rejected write is none of these.
  pub data Serves : S → Bytes → Bytes → S → Type 0 where
    -- No command is complete.
    waits :
        {s : S} {input buf : Bytes}
        → parse_command nom input ≡ (need_more, buf)
        → Serves s input [] s
    fails :
        {s : S} {input buf : Bytes}
        → parse_command nom input ≡ (parse_error, buf)
        → Serves s input error_line s
    quits :
        {s s' : S} {input rest reply : Bytes} {cmd : Command}
        → parse_command nom input ≡ (ready cmd, rest)
        → dispatch lookup cmd s [] semver generation ≡ (close, reply, s')
        → Serves s input reply s'
    goes_on :
        {s s' s'' : S} {input rest reply replies : Bytes} {cmd : Command}
        → parse_command nom input ≡ (ready cmd, rest)
        → dispatch lookup cmd s [] semver generation ≡ (continue, reply, s')
        → Serves s' rest replies s''
        → Serves s input (reply ++ replies) s''
    drains :
        {s s' s'' : S} {input rest reply replies : Bytes} {cmd : Command} {n : ℕ}
        → parse_command nom input ≡ (ready cmd, rest)
        → dispatch lookup cmd s [] semver generation ≡ (drain n, reply, s')
        → n ≤ length rest
        → Serves s' (drop n rest) replies s''
        → Serves s input (reply ++ replies) s''

  -- What follows a command whose disposition is known.
  unfoldable pub After : Disposition → Bytes → S → Bytes → Bytes → S → Type 0
  After continue reply s' rest replies s'' =
      (later : Bytes) × (replies ≡ reply ++ later) × Serves s' rest later s''
  After close reply s' rest replies s'' = (replies ≡ reply) × (s'' ≡ s')
  After (drain n) reply s' rest replies s'' =
      (later : Bytes) × (replies ≡ reply ++ later)
      × (n ≤ length rest)
      × Serves s' (drop n rest) later s''

  after_lem :
      (s s' s'' : S) (rest rest' reply replies : Bytes) (cmd cmd' : Command) (d : Disposition)
      → Path (Parsed × Bytes) (ready cmd', rest') (ready cmd, rest)
      → dispatch lookup cmd' s [] semver generation ≡ (d, reply, s')
      → After d reply s' rest' replies s''
      → After
          (dispatch lookup cmd s [] semver generation).0
          (dispatch lookup cmd s [] semver generation).1
          (dispatch lookup cmd s [] semver generation).2
          rest
          replies
          s''
  after_lem s s' s'' rest rest' reply replies cmd cmd' d same out h =
      let k : Path (Parsed × Bytes) (ready cmd', rest') (ready cmd, rest) = same in
      let e0 : ready cmd' ≡ ready cmd = ap (λ z. z.0) k in
      let e : cmd' ≡ cmd = cc in
      let e' : rest' ≡ rest = ap (λ z. z.1) k in
      subst
        (λ r.
          After (dispatch lookup cmd s [] semver generation).0
            (dispatch lookup cmd s [] semver generation).1
            (dispatch lookup cmd s [] semver generation).2 r replies s'')
        e'
        (subst (λ (o : Disposition × Bytes × S). After o.0 o.1 o.2 rest' replies s'')
          (sym out ∙ ap (λ c. dispatch lookup c s [] semver generation) e) h)

  -- The replies to a stream that begins with a command.
  pub Serves-ready :
      {s s'' : S} {input replies : Bytes} (rest : Bytes) (cmd : Command)
      → parse_command nom input ≡ (ready cmd, rest)
      → Serves s input replies s''
      → After
          (dispatch lookup cmd s [] semver generation).0
          (dispatch lookup cmd s [] semver generation).1
          (dispatch lookup cmd s [] semver generation).2
          rest
          replies
          s''
  unfolding After
  Serves-ready rest cmd h (waits p) =
      let k : Path (Parsed × Bytes) (ready cmd, rest) (need_more, _) = sym h ∙ p in
      let bad : ready cmd ≡ need_more = ap (λ z. z.0) k in absurd cc
  Serves-ready rest cmd h (fails p) =
      let k : Path (Parsed × Bytes) (ready cmd, rest) (parse_error, _) = sym h ∙ p in
      let bad : ready cmd ≡ parse_error = ap (λ z. z.0) k in absurd cc
  Serves-ready rest cmd h (quits p out) =
      after_lem _ _ _ rest _ _ _ cmd _ close (sym p ∙ h) out (refl, refl)
  Serves-ready rest cmd h (goes_on p out later) =
      after_lem _ _ _ rest _ _ _ cmd _ continue (sym p ∙ h) out (_, refl, later)
  Serves-ready rest cmd h (drains {n = n} p out le later) =
      after_lem _ _ _ rest _ _ _ cmd _ (drain n) (sym p ∙ h) out (_, refl, le, later)

  pub Serves-error :
      {s s'' : S} {input replies : Bytes} (buf : Bytes)
      → parse_command nom input ≡ (parse_error, buf)
      → Serves s input replies s''
      → (replies ≡ error_line) × (s'' ≡ s)
  Serves-error buf h (waits p) =
      let k : Path (Parsed × Bytes) (parse_error, buf) (need_more, _) = sym h ∙ p in
      let bad : parse_error ≡ need_more = ap (λ z. z.0) k in absurd cc
  Serves-error buf h (fails p) = (refl, refl)
  Serves-error buf h (quits {cmd = cmd} p out) =
      let k : Path (Parsed × Bytes) (parse_error, buf) (ready cmd, _) = sym h ∙ p in
      let bad : parse_error ≡ ready cmd = ap (λ z. z.0) k in absurd cc
  Serves-error buf h (goes_on {cmd = cmd} p out later) =
      let k : Path (Parsed × Bytes) (parse_error, buf) (ready cmd, _) = sym h ∙ p in
      let bad : parse_error ≡ ready cmd = ap (λ z. z.0) k in absurd cc
  Serves-error buf h (drains {cmd = cmd} p out le later) =
      let k : Path (Parsed × Bytes) (parse_error, buf) (ready cmd, _) = sym h ∙ p in
      let bad : parse_error ≡ ready cmd = ap (λ z. z.0) k in absurd cc

  pub Serves-waiting :
      {s s'' : S} {input replies : Bytes} (buf : Bytes)
      → parse_command nom input ≡ (need_more, buf)
      → Serves s input replies s''
      → (replies ≡ []) × (s'' ≡ s)
  Serves-waiting buf h (waits p) = (refl, refl)
  Serves-waiting buf h (fails p) =
      let k : Path (Parsed × Bytes) (need_more, buf) (parse_error, _) = sym h ∙ p in
      let bad : need_more ≡ parse_error = ap (λ z. z.0) k in absurd cc
  Serves-waiting buf h (quits {cmd = cmd} p out) =
      let k : Path (Parsed × Bytes) (need_more, buf) (ready cmd, _) = sym h ∙ p in
      let bad : need_more ≡ ready cmd = ap (λ z. z.0) k in absurd cc
  Serves-waiting buf h (goes_on {cmd = cmd} p out later) =
      let k : Path (Parsed × Bytes) (need_more, buf) (ready cmd, _) = sym h ∙ p in
      let bad : need_more ≡ ready cmd = ap (λ z. z.0) k in absurd cc
  Serves-waiting buf h (drains {cmd = cmd} p out le later) =
      let k : Path (Parsed × Bytes) (need_more, buf) (ready cmd, _) = sym h ∙ p in
      let bad : need_more ≡ ready cmd = ap (λ z. z.0) k in absurd cc
