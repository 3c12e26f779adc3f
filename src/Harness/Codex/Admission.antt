-- ===== src/Harness/Codex/Admission.antt =====
-- What has to be in the sandbox for a task to start.
use amby.Common.{
  ◌≡◌, refl, inl, inr, Bool, true, false, Option, none, some, [], ◌∷◌, arith, is_some, or_else,
  Bool-cases,
}
use amby.Common.Text.{Text, is_truthy}
use amby.Harness.AuthState.{
  CodexAuthMethod, CodexAuthStatus, CodexAuthCache, CodexAuthConfig, CodexPendingDeviceAuth,
  HarnessAuthConfig, CodexAuthSummary, summary_of, read_harness_auth_config, write_codex_config,
  set_codex_authenticated, set_codex_invalid, summarize_codex_auth,
}
use amby.Harness.Codex
use amby.Harness.Codex.{
  World, Surroundings, Parsed, AuthMode, ready, auth_mode_of, judge, parse_codex_auth_file,
}
use amby.Harness.Codex.Validity.{
  is_valid, is_consistent, is_consistent_codex, read_valid, loaded_valid,
}

abbrev pub is_authenticated : CodexAuthSummary → Bool
is_authenticated auth = elim auth.status [ CodexAuthStatus.authenticated ↦ true | _ ↦ false ]

judge-ready :
    (auth : CodexAuthSummary) (m : AuthMode)
    → judge auth ≡ ready m
    → (is_authenticated auth ≡ true)
      × (k : CodexAuthMethod) × (auth.method ≡ some k)
      × (m ≡ auth_mode_of k)
unfolding judge
judge-ready auth m h = ground arith

turned_invalid :
    (s : Surroundings) (raw : Option HarnessAuthConfig) (text : Text) (w : World)
    → is_authenticated (Codex.turn_invalid s raw text w).1 ≡ false
unfolding Codex.turn_invalid set_codex_invalid write_codex_config summarize_codex_auth
    read_harness_auth_config
turned_invalid s raw text w = ground arith

-- A consistent state without credentials does not show as authenticated.
pending_not :
    (c : CodexAuthConfig)
    → is_consistent c ≡ true
    → is_some c.pending ≡ true
    → is_authenticated (summary_of c) ≡ false
unfolding is_consistent
pending_not c h q = ground arith

unpreferred_not :
    (c : CodexAuthConfig)
    → is_consistent c ≡ true
    → is_some c.preferred_method ≡ false
    → is_authenticated (summary_of c) ≡ false
unfolding is_consistent
unpreferred_not c h q = ground arith

summarize_lem :
    (raw : Option HarnessAuthConfig) (current : CodexAuthConfig)
    → (read_harness_auth_config raw).codex ≡ some current
    → summarize_codex_auth raw ≡ summary_of current
unfolding summarize_codex_auth
summarize_lem raw current e = rw (summarize_codex_auth, e) refl

pending_command_not :
    (s : Surroundings) (raw : Option HarnessAuthConfig) (p : CodexPendingDeviceAuth)
    (login : Codex.LoginCommand) (w : World)
    → is_authenticated (summarize_codex_auth raw) ≡ false
    → is_authenticated (Codex.sync_pending s raw p login w).1 ≡ false
unfolding Codex.sync_pending
pending_command_not s raw p Codex.LoginCommand.still_running w h = h
pending_command_not s raw p (Codex.LoginCommand.ended failure) w h = turned_invalid s raw failure w
pending_command_not s raw p Codex.LoginCommand.gone w h = turned_invalid s raw _ w

-- Without the file nobody shows as authenticated.
without_file_not :
    (s : Surroundings) (raw : Option HarnessAuthConfig) (current : CodexAuthConfig)
    (p : Option CodexPendingDeviceAuth) (w : World)
    → is_consistent current ≡ true
    → current.pending ≡ p
    → (read_harness_auth_config raw).codex ≡ some current
    → is_authenticated (Codex.sync_without_file s raw current p w).1 ≡ false
unfolding Codex.sync_without_file Codex.sync_settled
without_file_not s raw current (some p) w c q e =
    pending_command_not s raw p s.login w
      (rw (summarize_lem raw current e) (pending_not current c (rw q refl)))
without_file_not s raw current none w c q e = elim (Bool-cases (is_some current.preferred_method)) [
  | inl m ↦ rw m (turned_invalid s raw _ w)
  | inr m ↦ rw (m, summarize_lem raw current e) (unpreferred_not current c m)
]

-- What the sandbox holds when a task may start: credentials that parse, of the mode it starts in.
pub record Holds (s : Surroundings) (w : World) (mode : AuthMode) : Type 0 where
  pub parsed : Parsed
  pub file : is_truthy (or_else w.auth_file []) ≡ true
  pub parses : parse_codex_auth_file s.json (or_else w.auth_file []) s.now ≡ some parsed
  pub mode_of : mode ≡ auth_mode_of parsed.0.method

record HoldsAt (s : Surroundings) (file : Text) (mode : AuthMode) : Type 0 where
  parsed : Parsed
  there : is_truthy file ≡ true
  parses : parse_codex_auth_file s.json file s.now ≡ some parsed
  mode_of : mode ≡ auth_mode_of parsed.0.method

shown_method :
    (raw : Option HarnessAuthConfig) (cache : CodexAuthCache) (last4 : Option Text) (now : Text)
    → (summarize_codex_auth (some (set_codex_authenticated raw cache last4 now))).method
      ≡ some cache.method
unfolding summarize_codex_auth read_harness_auth_config set_codex_authenticated write_codex_config
shown_method raw cache last4 now = refl

none_not : is_authenticated (summarize_codex_auth none) ≡ false
unfolding summarize_codex_auth read_harness_auth_config
none_not = refl

with_file_lem :
    (s : Surroundings) (raw : Option HarnessAuthConfig) (current : Option CodexAuthConfig)
    (o : Option Parsed) (w : World) (mode : AuthMode)
    → judge (Codex.sync_with_file s raw current o w).1 ≡ ready mode
    → (parsed : Parsed) × (o ≡ some parsed) × (mode ≡ auth_mode_of parsed.0.method)
unfolding Codex.sync_with_file
with_file_lem s raw current none w mode h =
    absurd (cc (turned_invalid s raw Codex.invalid_cache_message w, (judge-ready _ mode h).0))
with_file_lem s raw current (some (cache, last4)) w mode h =
    let (shown, k, method, mode_) = judge-ready _ mode h in
    let same = shown_method raw cache last4 s.now in
    ((cache, last4), refl, ground (arith, method, mode_, same))

at_lem :
    (s : Surroundings) (raw : Option HarnessAuthConfig) (current : Option CodexAuthConfig)
    (file : Text) (w : World) (mode : AuthMode)
    → is_consistent_codex current ≡ true
    → (read_harness_auth_config raw).codex ≡ current
    → judge (Codex.sync_at s raw current file w).1 ≡ ready mode
    → HoldsAt s file mode
unfolding Codex.sync_at
at_lem s raw current (c ∷ cs) w mode v e h =
    let (parsed, parses, m) = with_file_lem s raw current _ w mode h in
    record { parsed = parsed; there = refl; parses = parses; mode_of = m }
at_lem s raw none [] w mode v e h = absurd (cc (none_not, (judge-ready _ mode h).0))
at_lem s raw (some current) [] w mode v e h =
    absurd
      (cc (without_file_not s raw current current.pending w v refl e, (judge-ready _ mode h).0))

-- A task may start with Codex only if the sandbox holds an `auth.json` that is not empty and parses
-- as credentials, and it starts in the mode of these: from a consistent stored state, what
-- the database alone says never suffices, whether or not it answers.
pub require_codex_auth-Holds :
    (s : Surroundings) (w : World) (mode : AuthMode)
    → is_valid w.stored ≡ true
    → (Codex.require_codex_auth s w).1 ≡ ready mode
    → Holds s w mode
unfolding Codex.require_codex_auth Codex.sync_codex_auth_status
require_codex_auth-Holds s w mode v h =
    let raw = Codex.load_auth_config s.loads w in
    let at =
      at_lem s raw (read_harness_auth_config raw).codex (or_else w.auth_file []) w mode
        (read_valid raw (loaded_valid s.loads w v)) refl h in
    record { parsed = at.parsed; file = at.there; parses = at.parses; mode_of = at.mode_of }
