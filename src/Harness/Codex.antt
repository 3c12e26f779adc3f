-- ===== src/Harness/Codex.antt =====
-- packages/computer/src/harness/supervisor.ts: what the supervisor does about a user's Codex login.
-- What the sandbox shows, whether the database can be reached, and the parsing of JSON are
-- arguments, as are the prompts that `parseDeviceAuthPrompt` finds in the log of a login.
pub mod Validity
pub mod Admission
use amby.Common.{
  ℕ, zero, suc, ◌==◌, Bool, true, false, ◌&&◌, ◌||◌, Option, none, some, List, [], ◌∷◌, drop,
  length, ◌-◌, if◌then◌else◌, or_else, or_option, is_some,
}
use amby.Common.Text.{Text, lit, text_eq, trim, is_truthy}
use amby.Harness.AuthState
use amby.Harness.AuthState.{
  CodexAuthMethod, CodexAuthStatus, CodexAuthCache, CodexAuthConfig, CodexPendingDeviceAuth,
  HarnessAuthConfig, CodexAuthSummary, read_harness_auth_config, set_codex_authenticated,
  set_codex_invalid, set_codex_pending_device_auth, summarize_codex_auth, field,
}

-- The fields of `auth.json` that are strings; those of the token's claims are read by `claims`.
pub record AuthFile : Type 0 where
  pub auth_mode : Option Text
  pub api_key : Option Text
  pub account_id : Option Text
  pub id_token : Option Text
  pub last_refresh : Option Text

pub record Claims : Type 0 where
  pub account_id : Option Text
  pub plan_type : Option Text

-- `JSON.parse` of the file, `none` if it fails, and the decoding of a token's claims.
pub record Json : Type 0 where
  pub parse : Text → Option AuthFile
  pub claims : Option Text → Claims

abbrev pub truthy : Option Text → Bool
truthy none = false
truthy (some s) = is_truthy s

abbrev pub is_mode : Text → Option Text → Bool
is_mode mode none = false
is_mode mode (some m) = text_eq m mode

-- `s.slice(-4)`.
abbrev pub last4 : Text → Text
last4 s = drop (length s - 4) s

abbrev pub Parsed : Type 0
Parsed = CodexAuthCache × Option Text

unfoldable pub chatgpt_cache : AuthFile → Claims → (now : Text) → CodexAuthCache
chatgpt_cache file claims now = record {
  method = CodexAuthMethod.chatgpt;
  account_id = file.account_id;
  workspace_id = or_option claims.account_id file.account_id;
  plan_type = claims.plan_type;
  last_refresh = file.last_refresh;
  updated_at = now;
}

unfoldable pub api_key_cache : (now : Text) → CodexAuthCache
api_key_cache now = record {
  method = CodexAuthMethod.api_key;
  account_id = none;
  workspace_id = none;
  plan_type = none;
  last_refresh = none;
  updated_at = now;
}

unfoldable pub parse_codex_auth_file : Json → (value now : Text) → Option Parsed
unfolding chatgpt_cache api_key_cache
parse_codex_auth_file json value now = elim (json.parse value) [
  | none ↦ none
  | some file ↦
      let api_key = field (λ k. some (trim k)) file.api_key in
      if is_mode (lit "chatgptAuthTokens") file.auth_mode
        || truthy file.account_id
        || truthy file.id_token
      then some (chatgpt_cache file (json.claims file.id_token) now, none)
      else (if is_mode (lit "apikey") file.auth_mode
            || is_mode (lit "apiKey") file.auth_mode
            || is_mode (lit "api_key") file.auth_mode
            || truthy api_key
          then some (api_key_cache now, field (λ k. some (last4 k)) api_key)
          else none)
]

-- The row of the user, the credentials in the sandbox, and the sessions that were deleted.
pub record World : Type 0 where
  pub stored : Option HarnessAuthConfig
  pub auth_file : Option Text
  pub deleted : List Text

-- `loads` and `saves`: whether the database answers; a failure goes unseen.
unfoldable pub load_auth_config : (loads : Bool) → World → Option HarnessAuthConfig
load_auth_config loads w = if loads then w.stored else none

unfoldable pub save_auth_config : (saves : Bool) → HarnessAuthConfig → World → World
unfolding read_harness_auth_config
save_auth_config saves config w =
    let next = read_harness_auth_config (some config) in
    if saves then record w { stored = if is_some next.codex then some next else none } else w

unfoldable pub delete_pending_session : Option Text → World → World
delete_pending_session none w = w
delete_pending_session (some id) w =
    if is_truthy id then record w { deleted = id ∷ w.deleted } else w

-- What asking for the login command gives: it fails, it still runs, or it ended; the text is what
-- `summarizeLoginFailure` makes of the log and the exit code.
pub data LoginCommand : Type 0 where
  gone still_running : LoginCommand
  ended : (failure : Text) → LoginCommand

pub record Surroundings : Type 0 where
  pub json : Json
  pub loads : Bool
  pub saves : Bool
  pub login : LoginCommand
  pub now : Text

-- Saves the state under an error, and shows it.
unfoldable pub turn_invalid :
    Surroundings → Option HarnessAuthConfig → Text → World → World × CodexAuthSummary
unfolding save_auth_config
turn_invalid s raw message w =
    let next = set_codex_invalid raw message s.now in
    (save_auth_config s.saves next w, summarize_codex_auth (some next))

abbrev pub invalid_cache_message : Text
invalid_cache_message =
    lit "Codex credentials exist in the sandbox, but the cache is invalid. Reconnect Codex."

abbrev pub session_ended_message : Text
session_ended_message =
    lit "The Codex login session ended before authentication completed. Start it again."

abbrev pub not_found_message : Text
not_found_message = lit "Stored Codex credentials were not found in the sandbox. Reconnect Codex."

abbrev pub session_of : Option CodexAuthConfig → Option Text
session_of current =
    field
      (λ (c : CodexAuthConfig). field (λ (p : CodexPendingDeviceAuth). some p.session_id) c.pending)
      current

-- The file is there, and this is what parsing it gives.
unfoldable pub sync_with_file :
    Surroundings
    → Option HarnessAuthConfig
    → Option CodexAuthConfig
    → Option Parsed
    → World
    → World × CodexAuthSummary
unfolding turn_invalid delete_pending_session
sync_with_file s raw current none w = turn_invalid s raw invalid_cache_message w
sync_with_file s raw current (some (cache, last4)) w =
    let next = set_codex_authenticated raw cache last4 s.now in
    (
      delete_pending_session (session_of current) (save_auth_config s.saves next w),
      summarize_codex_auth (some next),
    )

-- The file is missing, and a login is pending.
unfoldable pub sync_pending :
    Surroundings
    → Option HarnessAuthConfig
    → CodexPendingDeviceAuth
    → LoginCommand
    → World
    → World × CodexAuthSummary
unfolding turn_invalid delete_pending_session
sync_pending s raw p LoginCommand.still_running w = (w, summarize_codex_auth raw)
sync_pending s raw p (LoginCommand.ended failure) w =
    let (w', summary) = turn_invalid s raw failure w in
    (delete_pending_session (some p.session_id) w', summary)
sync_pending s raw p LoginCommand.gone w = turn_invalid s raw session_ended_message w

-- The file is missing, and none is.
unfoldable pub sync_settled :
    Surroundings → Option HarnessAuthConfig → CodexAuthConfig → World → World × CodexAuthSummary
unfolding turn_invalid
sync_settled s raw current w =
    if is_some current.preferred_method
    then turn_invalid s raw not_found_message w
    else (w, summarize_codex_auth raw)

unfoldable pub sync_without_file :
    Surroundings
    → Option HarnessAuthConfig
    → CodexAuthConfig
    → Option CodexPendingDeviceAuth
    → World
    → World × CodexAuthSummary
unfolding sync_pending sync_settled
sync_without_file s raw current (some p) w = sync_pending s raw p s.login w
sync_without_file s raw current none w = sync_settled s raw current w

-- The text of the file, which is empty if it is missing.
unfoldable pub sync_at :
    Surroundings
    → Option HarnessAuthConfig
    → Option CodexAuthConfig
    → Text
    → World
    → World × CodexAuthSummary
unfolding sync_with_file sync_without_file
sync_at s raw current (c ∷ cs) w =
    sync_with_file s raw current (parse_codex_auth_file s.json (c ∷ cs) s.now) w
sync_at s raw none [] w = (w, summarize_codex_auth none)
sync_at s raw (some current) [] w = sync_without_file s raw current current.pending w

unfoldable pub sync_codex_auth_status : Surroundings → World → World × CodexAuthSummary
unfolding load_auth_config sync_at
sync_codex_auth_status s w =
    let raw = load_auth_config s.loads w in
    sync_at s raw (read_harness_auth_config raw).codex (or_else w.auth_file []) w

pub data AuthMode : Type 0 where
  chatgpt_account api_key : AuthMode

abbrev pub auth_mode_of : CodexAuthMethod → AuthMode
auth_mode_of CodexAuthMethod.chatgpt = chatgpt_account
auth_mode_of CodexAuthMethod.api_key = api_key

-- Why a task cannot start: the pending login to finish, or an error.
pub data AuthFailure : Type 0 where
  still_pending : (verification_uri user_code : Text) → AuthFailure
  message : Text → AuthFailure

pub data Required : Type 0 where
  ready : AuthMode → Required
  failed : AuthFailure → Required

abbrev pub not_configured_message : Text
not_configured_message =
    lit "Codex is not configured yet. Connect it with ChatGPT login or an API key first."

abbrev pub not_ready : CodexAuthSummary → Required
not_ready auth = failed (message (or_else auth.error not_configured_message))

unfoldable pub judge : CodexAuthSummary → Required
judge auth = elim auth.status [
  | CodexAuthStatus.authenticated ↦ elim auth.method [
    | some m ↦ ready (auth_mode_of m)
    | none ↦ not_ready auth
  ]
  | CodexAuthStatus.pending ↦ elim auth.pending [
    | some p ↦ failed (still_pending p.verification_uri p.user_code)
    | none ↦ not_ready auth
  ]
  | _ ↦ not_ready auth
]

unfoldable pub require_codex_auth : Surroundings → World → World × Required
unfolding sync_codex_auth_status judge
require_codex_auth s w = let (w', auth) = sync_codex_auth_status s w in (w', judge auth)

-- Ends the pending login, puts the credentials into the sandbox and saves the state.
unfoldable pub install_auth :
    Surroundings
    → CodexAuthCache
    → (last4 : Option Text) → (written : Text) → World
    → World × Option CodexAuthSummary
unfolding load_auth_config save_auth_config delete_pending_session
install_auth s cache last4 written w =
    let raw = load_auth_config s.loads w in
    let w' = delete_pending_session (session_of (read_harness_auth_config raw).codex) w in
    let next = set_codex_authenticated raw cache last4 s.now in
    (
      save_auth_config s.saves next (record w' { auth_file = some written }),
      some (summarize_codex_auth (some next)),
    )

-- A key that is empty is an error. `written` is what `JSON.stringify` makes of the credentials.
unfoldable pub set_codex_api_key :
    Surroundings → (api_key written : Text) → World → World × Option CodexAuthSummary
unfolding install_auth api_key_cache
set_codex_api_key s key written w =
    let trimmed = trim key in
    let installed = install_auth s (api_key_cache s.now) (some (last4 trimmed)) written w in
    if is_truthy trimmed then installed else (w, none)

-- Only credentials of an account are taken. `written` is the file again, as `JSON.stringify` lays
-- it out.
unfoldable pub import_parsed :
    Surroundings → Option Parsed → (written : Text) → World → World × Option CodexAuthSummary
unfolding install_auth
import_parsed s none written w = (w, none)
import_parsed s (some (cache, last4)) written w = elim cache.method [
  | CodexAuthMethod.api_key ↦ (w, none)
  | CodexAuthMethod.chatgpt ↦ install_auth s cache none written w
]

unfoldable pub import_codex_chatgpt_auth :
    Surroundings → (auth_json written : Text) → World → World × Option CodexAuthSummary
unfolding import_parsed
import_codex_chatgpt_auth s auth_json written w =
    import_parsed s (parse_codex_auth_file s.json auth_json s.now) written w

unfoldable pub clear_codex_auth : Surroundings → World → World × CodexAuthSummary
unfolding load_auth_config save_auth_config delete_pending_session
clear_codex_auth s w =
    let raw = load_auth_config s.loads w in
    let w' = delete_pending_session (session_of (read_harness_auth_config raw).codex) w in
    let next = AuthState.clear_codex_auth raw in
    (
      save_auth_config s.saves next (record w' { auth_file = none }),
      summarize_codex_auth (some next),
    )

-- The first prompt that the log shows, looked up a number of times.
abbrev pub poll_prompt : ℕ → List (Option (Text × Text)) → Option (Text × Text)
poll_prompt zero logs = none
poll_prompt (suc n) [] = none
poll_prompt (suc n) (some p ∷ logs) = some p
poll_prompt (suc n) (none ∷ logs) = poll_prompt n logs

abbrev pub login_attempts : ℕ
login_attempts = 20

-- The login command is started in a session of its own; `prompts` is what each look at its log finds.
pub record Login : Type 0 where
  pub installed : Bool
  pub session_id : Text
  pub command_id : Text
  pub prompts : List (Option (Text × Text))

-- What is made of the prompt, or of none.
unfoldable pub await_login :
    Surroundings
    → Login
    → Option HarnessAuthConfig
    → Option (Text × Text)
    → World
    → World × Option CodexAuthSummary
unfolding save_auth_config delete_pending_session
await_login s l raw none w = (delete_pending_session (some l.session_id) w, none)
await_login s l raw (some (verification_uri, user_code)) w =
    let pending_auth : CodexPendingDeviceAuth = record {
      verification_uri = verification_uri;
      user_code = user_code;
      session_id = l.session_id;
      command_id = l.command_id;
      started_at = s.now;
    } in
    let next = set_codex_pending_device_auth raw pending_auth s.now in
    (save_auth_config s.saves next w, some (summarize_codex_auth (some next)))

unfoldable pub start_login : Surroundings → Login → World → World × Option CodexAuthSummary
unfolding load_auth_config await_login
start_login s l w =
    let raw = load_auth_config s.loads w in
    let w' = delete_pending_session (session_of (read_harness_auth_config raw).codex) w in
    if l.installed
    then await_login s l raw (poll_prompt login_attempts l.prompts) (record w' { auth_file = none })
    else (w, none)

-- A login that is pending or done with an account is left alone.
abbrev pub is_under_way : CodexAuthSummary → Bool
is_under_way auth = elim auth.status [
  | CodexAuthStatus.pending ↦ true
  | CodexAuthStatus.authenticated ↦ elim auth.method [
    | some CodexAuthMethod.chatgpt ↦ true
    | _ ↦ false
  ]
  | _ ↦ false
]

unfoldable pub start_codex_chatgpt_auth :
    Surroundings → Login → World → World × Option CodexAuthSummary
unfolding sync_codex_auth_status start_login
start_codex_chatgpt_auth s l w =
    let (w', current) = sync_codex_auth_status s w in
    if is_under_way current then (w', some current) else start_login s l w'
