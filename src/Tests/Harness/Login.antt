-- ===== src/Tests/Harness/Login.antt =====
-- The Codex login at concrete inputs.
use amby.Common.{◌≡◌, refl, true, none, some, List, [], ◌∷◌}
use amby.Common.Text.{lit, text_eq, trim, is_space}
use amby.Harness.AuthState
use amby.Harness.Codex
use amby.Harness.Codex.{World, Surroundings, Json, AuthMode, LoginCommand}
use amby.Harness.Codex.Validity
use amby.Harness.Codex.Validity.{Op, apply_all, is_valid}
use amby.Harness.Codex.Admission
use amby.Harness.Codex.Admission.{Holds}

-- Every file is one with a key.
abbrev json : Json
json = record {
  parse = λ value. some (record {
    auth_mode = some (lit "apikey");
    api_key = some (lit "sk-123456");
    account_id = none;
    id_token = none;
    last_refresh = none;
  });
  claims = λ token. record { account_id = none; plan_type = none };
}

abbrev pub surroundings : Surroundings
surroundings = record {
  json = json;
  loads = true;
  saves = true;
  login = LoginCommand.gone;
  now = lit "now";
}

abbrev pub world : World
world = record { stored = none; auth_file = some (lit "{}"); deleted = [] }

abbrev ops : List (Surroundings × Op)
ops =
    (surroundings, Op.set_api_key (lit "sk-123456") (lit "{}"))
    ∷ (surroundings, Op.sync)
    ∷ (
      surroundings,
      Op.start_auth (record {
        installed = true;
        session_id = lit "s";
        command_id = lit "c";
        prompts = none ∷ some (lit "uri", lit "code") ∷ [];
      }),
    )
    ∷ (surroundings, Op.clear)
    ∷ []

apply_all_valid_example : is_valid (apply_all ops world).stored ≡ true
apply_all_valid_example = Validity.apply_all_valid ops world refl

require_codex_auth-Holds_example : Holds surroundings world Codex.api_key
unfolding Codex.require_codex_auth Codex.sync_codex_auth_status Codex.load_auth_config Codex.sync_at
    Codex.sync_with_file Codex.parse_codex_auth_file Codex.api_key_cache Codex.judge
    AuthState.summarize_codex_auth AuthState.read_harness_auth_config
    AuthState.set_codex_authenticated AuthState.write_codex_config text_eq trim is_space
require_codex_auth-Holds_example =
    Admission.require_codex_auth-Holds surroundings world Codex.api_key refl refl
