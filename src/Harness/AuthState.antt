-- ===== src/Harness/AuthState.antt =====
-- packages/computer/src/harness/auth-state.ts: the stored state of a user's Codex login. A field is
-- `none` where it is missing or `undefined`; a time is the text that `toISOString` gives.
use amby.Common.{Bool, ◌&&◌, not, Option, none, some, if◌then◌else◌, is_some, or_else, or_option}
use amby.Common.Text.{Text}

pub data CodexAuthMethod : Type 0 where
  api_key chatgpt : CodexAuthMethod

pub data CodexAuthStatus : Type 0 where
  unauthenticated pending authenticated invalid : CodexAuthStatus

-- Its `type` is always `device_code`.
pub record CodexPendingDeviceAuth : Type 0 where
  pub verification_uri : Text
  pub user_code : Text
  pub session_id : Text
  pub command_id : Text
  pub started_at : Text

pub record CodexAuthCache : Type 0 where
  pub method : CodexAuthMethod
  pub account_id : Option Text
  pub workspace_id : Option Text
  pub plan_type : Option Text
  pub last_refresh : Option Text
  pub updated_at : Text

pub record CodexAuthConfig : Type 0 where
  pub preferred_method : Option CodexAuthMethod
  pub status : Option CodexAuthStatus
  pub api_key_last4 : Option Text
  pub cache : Option CodexAuthCache
  pub pending : Option CodexPendingDeviceAuth
  pub last_error : Option Text
  pub updated_at : Option Text

pub record HarnessAuthConfig : Type 0 where
  pub codex : Option CodexAuthConfig

-- The part of a pending login that is shown.
pub record PendingSummary : Type 0 where
  pub verification_uri : Text
  pub user_code : Text
  pub started_at : Text

pub record CodexAuthSummary : Type 0 where
  pub method : Option CodexAuthMethod
  pub status : CodexAuthStatus
  pub api_key_last4 : Option Text
  pub account_id : Option Text
  pub workspace_id : Option Text
  pub plan_type : Option Text
  pub last_refresh : Option Text
  pub error : Option Text
  pub pending : Option PendingSummary

-- `{}`.
abbrev pub empty_config : CodexAuthConfig
empty_config = record {
  preferred_method = none;
  status = none;
  api_key_last4 = none;
  cache = none;
  pending = none;
  last_error = none;
  updated_at = none;
}

-- `Object.keys(codex).length > 0`.
abbrev pub has_keys : CodexAuthConfig → Bool
has_keys c = not (
    not (is_some c.preferred_method)
    && not (is_some c.status)
    && not (is_some c.api_key_last4)
    && not (is_some c.cache)
    && not (is_some c.pending)
    && not (is_some c.last_error)
    && not (is_some c.updated_at))

-- The stored value, or `null`.
unfoldable pub read_harness_auth_config : Option HarnessAuthConfig → HarnessAuthConfig
read_harness_auth_config none = record { codex = none }
read_harness_auth_config (some config) = elim config.codex [
  | none ↦ record { codex = none }
  | some codex ↦ if has_keys codex then record { codex = some codex } else record { codex = none }
]

unfoldable pub write_codex_config :
    Option HarnessAuthConfig → (CodexAuthConfig → Option CodexAuthConfig) → HarnessAuthConfig
unfolding read_harness_auth_config
write_codex_config input transform = record {
  codex = transform (or_else (read_harness_auth_config input).codex empty_config);
}

abbrev pub with_timestamp : Text → CodexAuthConfig → CodexAuthConfig
with_timestamp now config = record config { updated_at = some now }

unfoldable pub set_codex_pending_device_auth :
    Option HarnessAuthConfig → CodexPendingDeviceAuth → (now : Text) → HarnessAuthConfig
unfolding write_codex_config
set_codex_pending_device_auth input p now = write_codex_config input (λ current. some (
    with_timestamp now (record current {
      preferred_method = some CodexAuthMethod.chatgpt;
      status = some CodexAuthStatus.pending;
      api_key_last4 = none;
      cache = none;
      pending = some p;
      last_error = none;
    })))

abbrev pub last4_of : CodexAuthMethod → (given current : Option Text) → Option Text
last4_of CodexAuthMethod.api_key given current = or_option given current
last4_of CodexAuthMethod.chatgpt given current = none

unfoldable pub set_codex_authenticated :
    Option HarnessAuthConfig → CodexAuthCache → Option Text → (now : Text) → HarnessAuthConfig
unfolding write_codex_config
set_codex_authenticated input cache last4 now = write_codex_config input (λ current. some (
    with_timestamp now (record current {
      preferred_method = some cache.method;
      status = some CodexAuthStatus.authenticated;
      api_key_last4 = last4_of cache.method last4 current.api_key_last4;
      cache = some cache;
      pending = none;
      last_error = none;
    })))

unfoldable pub set_codex_invalid :
    Option HarnessAuthConfig → (message now : Text) → HarnessAuthConfig
unfolding write_codex_config
set_codex_invalid input message now = write_codex_config input (λ current. some (
    with_timestamp now (record current {
      status = some (
          if is_some current.preferred_method
          then CodexAuthStatus.invalid
          else CodexAuthStatus.unauthenticated);
      pending = none;
      last_error = some message;
    })))

unfoldable pub clear_codex_auth : Option HarnessAuthConfig → HarnessAuthConfig
unfolding write_codex_config
clear_codex_auth input = write_codex_config input (λ current. none)

-- A field of an optional object.
abbrev pub field {ℓ κ} : {A : Type ℓ} → {B : Type κ} → (A → Option B) → Option A → Option B
field f none = none
field f (some a) = f a

abbrev pub no_auth : CodexAuthSummary
no_auth = record {
  method = none;
  status = CodexAuthStatus.unauthenticated;
  api_key_last4 = none;
  account_id = none;
  workspace_id = none;
  plan_type = none;
  last_refresh = none;
  error = none;
  pending = none;
}

abbrev pub summary_of : CodexAuthConfig → CodexAuthSummary
summary_of c = record {
  method = or_option (field (λ (k : CodexAuthCache). some k.method) c.cache) c.preferred_method;
  status = or_else c.status CodexAuthStatus.unauthenticated;
  api_key_last4 = c.api_key_last4;
  account_id = field (λ (k : CodexAuthCache). k.account_id) c.cache;
  workspace_id = field (λ (k : CodexAuthCache). k.workspace_id) c.cache;
  plan_type = field (λ (k : CodexAuthCache). k.plan_type) c.cache;
  last_refresh = field (λ (k : CodexAuthCache). k.last_refresh) c.cache;
  error = c.last_error;
  pending =
      field
        (λ (p : CodexPendingDeviceAuth). some (record {
          verification_uri = p.verification_uri;
          user_code = p.user_code;
          started_at = p.started_at;
        }))
        c.pending;
}

unfoldable pub summarize_codex_auth : Option HarnessAuthConfig → CodexAuthSummary
unfolding read_harness_auth_config
summarize_codex_auth input = elim (read_harness_auth_config input).codex [
  | none ↦ no_auth
  | some c ↦ summary_of c
]
