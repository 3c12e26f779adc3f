-- ===== src/Harness/Codex/Validity.antt =====
-- The stored state of a login over the operations on it, and what lets a task start.
use amby.Common.{
  ◌≡◌, refl, Bool, true, false, not, ◌&&◌, Option, none, some, List, [], ◌∷◌, arith, if◌then◌else◌,
  is_some, or_else,
}
use amby.Common.Text.{Text, is_truthy, trim}
use amby.Harness.AuthState
use amby.Harness.AuthState.{
  CodexAuthMethod, CodexAuthStatus, CodexAuthCache, CodexAuthConfig, CodexPendingDeviceAuth,
  HarnessAuthConfig, CodexAuthSummary, read_harness_auth_config, write_codex_config,
  set_codex_authenticated, set_codex_invalid, set_codex_pending_device_auth, summarize_codex_auth,
}
use amby.Harness.Codex
use amby.Harness.Codex.{World, Surroundings, Login, AuthMode, Required, ready}

abbrev pub same_method : CodexAuthMethod → CodexAuthMethod → Bool
same_method CodexAuthMethod.api_key CodexAuthMethod.api_key = true
same_method CodexAuthMethod.chatgpt CodexAuthMethod.chatgpt = true
same_method a b = false

abbrev pub is_method : CodexAuthMethod → Option CodexAuthMethod → Bool
is_method m none = false
is_method m (some n) = same_method n m

-- Credentials are of the preferred method, and the end of a key is kept for a key only.
abbrev pub matches : Option CodexAuthCache → Option Text → Option CodexAuthMethod → Bool
matches none none preferred = true
matches (some cache) none preferred = is_method cache.method preferred
matches none (some s) preferred = is_method CodexAuthMethod.api_key preferred
matches (some cache) (some s) preferred =
    is_method cache.method preferred && is_method CodexAuthMethod.api_key preferred

-- What each status goes with.
abbrev pub fits : CodexAuthStatus → (preferred cache pending error : Bool) → Bool
fits CodexAuthStatus.unauthenticated preferred cache pending error = not preferred && not pending
fits CodexAuthStatus.pending preferred cache pending error =
    preferred && not cache && pending && not error
fits CodexAuthStatus.authenticated preferred cache pending error = cache && not pending && not error
fits CodexAuthStatus.invalid preferred cache pending error = preferred && not pending && error

unfoldable pub is_consistent : CodexAuthConfig → Bool
is_consistent c =
    matches c.cache c.api_key_last4 c.preferred_method && is_some c.updated_at && (elim c.status [
      | none ↦ false
      | some status ↦
          fits status (is_some c.preferred_method) (is_some c.cache) (is_some c.pending)
            (is_some c.last_error)
    ])

abbrev pub is_consistent_codex : Option CodexAuthConfig → Bool
is_consistent_codex none = true
is_consistent_codex (some c) = is_consistent c

abbrev pub is_valid : Option HarnessAuthConfig → Bool
is_valid none = true
is_valid (some config) = is_consistent_codex config.codex

pub read_valid :
    (raw : Option HarnessAuthConfig)
    → is_valid raw ≡ true
    → is_consistent_codex (read_harness_auth_config raw).codex ≡ true
unfolding read_harness_auth_config
read_valid none h = refl
read_valid (some config) h = ground arith

pending_valid :
    (raw : Option HarnessAuthConfig) (p : CodexPendingDeviceAuth) (now : Text)
    → is_valid (some (set_codex_pending_device_auth raw p now)) ≡ true
unfolding set_codex_pending_device_auth write_codex_config is_consistent
pending_valid raw p now = refl

authenticated_valid :
    (raw : Option HarnessAuthConfig) (cache : CodexAuthCache) (last4 : Option Text) (now : Text)
    → is_valid (some (set_codex_authenticated raw cache last4 now)) ≡ true
unfolding set_codex_authenticated write_codex_config is_consistent
authenticated_valid raw cache last4 now = ground arith

invalid_valid :
    (raw : Option HarnessAuthConfig) (message now : Text)
    → is_valid raw ≡ true
    → is_valid (some (set_codex_invalid raw message now)) ≡ true
unfolding set_codex_invalid write_codex_config is_consistent
invalid_valid raw message now h = ground (arith, read_valid raw h)

clear_valid :
    (raw : Option HarnessAuthConfig) → is_valid (some (AuthState.clear_codex_auth raw)) ≡ true
unfolding AuthState.clear_codex_auth write_codex_config
clear_valid raw = refl

saved_valid :
    (saves : Bool) (config : HarnessAuthConfig) (w : World)
    → is_valid w.stored ≡ true
    → is_valid (some config) ≡ true
    → is_valid (Codex.save_auth_config saves config w).stored ≡ true
unfolding Codex.save_auth_config
saved_valid saves config w h c = ground (arith, read_valid (some config) c)

pub loaded_valid :
    (loads : Bool) (w : World)
    → is_valid w.stored ≡ true
    → is_valid (Codex.load_auth_config loads w) ≡ true
unfolding Codex.load_auth_config
loaded_valid true w h = h
loaded_valid false w h = refl

delete_valid :
    (id : Option Text) (w : World)
    → is_valid w.stored ≡ true
    → is_valid (Codex.delete_pending_session id w).stored ≡ true
unfolding Codex.delete_pending_session
delete_valid none w h = h
delete_valid (some id) w h = ground arith

-- Either result of a test.
either_valid :
    {A : Type 0} (b : Bool) (x y : World × A)
    → is_valid x.0.stored ≡ true
    → is_valid y.0.stored ≡ true
    → is_valid (if b then x else y).0.stored ≡ true
either_valid true x y hx hy = hx
either_valid false x y hx hy = hy

turn_invalid_valid :
    (s : Surroundings) (raw : Option HarnessAuthConfig) (message : Text) (w : World)
    → is_valid w.stored ≡ true
    → is_valid raw ≡ true
    → is_valid (Codex.turn_invalid s raw message w).0.stored ≡ true
unfolding Codex.turn_invalid
turn_invalid_valid s raw message w h r =
    saved_valid s.saves _ w h (invalid_valid raw message s.now r)

with_file_valid :
    (s : Surroundings) (raw : Option HarnessAuthConfig) (current : Option CodexAuthConfig)
    (parsed : Option Codex.Parsed) (w : World)
    → is_valid w.stored ≡ true
    → is_valid raw ≡ true
    → is_valid (Codex.sync_with_file s raw current parsed w).0.stored ≡ true
unfolding Codex.sync_with_file
with_file_valid s raw current none w h r = turn_invalid_valid s raw _ w h r
with_file_valid s raw current (some (cache, last4)) w h r =
    delete_valid (Codex.session_of current) _
      (saved_valid s.saves _ w h (authenticated_valid raw cache last4 s.now))

pending_sync_valid :
    (s : Surroundings) (raw : Option HarnessAuthConfig) (p : CodexPendingDeviceAuth)
    (login : Codex.LoginCommand) (w : World)
    → is_valid w.stored ≡ true
    → is_valid raw ≡ true
    → is_valid (Codex.sync_pending s raw p login w).0.stored ≡ true
unfolding Codex.sync_pending
pending_sync_valid s raw p Codex.LoginCommand.still_running w h r = h
pending_sync_valid s raw p (Codex.LoginCommand.ended failure) w h r =
    delete_valid (some p.session_id) (Codex.turn_invalid s raw failure w).0
      (turn_invalid_valid s raw failure w h r)
pending_sync_valid s raw p Codex.LoginCommand.gone w h r = turn_invalid_valid s raw _ w h r

without_file_valid :
    (s : Surroundings) (raw : Option HarnessAuthConfig) (current : CodexAuthConfig)
    (p : Option CodexPendingDeviceAuth) (w : World)
    → is_valid w.stored ≡ true
    → is_valid raw ≡ true
    → is_valid (Codex.sync_without_file s raw current p w).0.stored ≡ true
unfolding Codex.sync_without_file Codex.sync_settled
without_file_valid s raw current (some p) w h r = pending_sync_valid s raw p s.login w h r
without_file_valid s raw current none w h r =
    either_valid (is_some current.preferred_method) _ _ (turn_invalid_valid s raw _ w h r) h

sync_at_valid :
    (s : Surroundings) (raw : Option HarnessAuthConfig) (current : Option CodexAuthConfig)
    (file : Text) (w : World)
    → is_valid w.stored ≡ true
    → is_valid raw ≡ true
    → is_valid (Codex.sync_at s raw current file w).0.stored ≡ true
unfolding Codex.sync_at
sync_at_valid s raw current (c ∷ cs) w h r = with_file_valid s raw current _ w h r
sync_at_valid s raw none [] w h r = h
sync_at_valid s raw (some current) [] w h r = without_file_valid s raw current current.pending w h r

sync_valid :
    (s : Surroundings) (w : World)
    → is_valid w.stored ≡ true
    → is_valid (Codex.sync_codex_auth_status s w).0.stored ≡ true
unfolding Codex.sync_codex_auth_status
sync_valid s w h = sync_at_valid s _ _ (or_else w.auth_file []) w h (loaded_valid s.loads w h)

install_valid :
    (s : Surroundings) (cache : CodexAuthCache) (last4 : Option Text) (written : Text) (w : World)
    → is_valid w.stored ≡ true
    → is_valid (Codex.install_auth s cache last4 written w).0.stored ≡ true
unfolding Codex.install_auth
install_valid s cache last4 written w h =
    saved_valid s.saves _ _ (delete_valid _ w h) (authenticated_valid _ cache last4 s.now)

import_valid :
    (s : Surroundings) (parsed : Option Codex.Parsed) (written : Text) (w : World)
    → is_valid w.stored ≡ true
    → is_valid (Codex.import_parsed s parsed written w).0.stored ≡ true
unfolding Codex.import_parsed
import_valid s none written w h = h
import_valid s (some (cache, last4)) written w h =
    ground (arith, install_valid s cache none written w h)

await_valid :
    (s : Surroundings) (l : Login) (raw : Option HarnessAuthConfig) (prompt : Option (Text × Text))
    (w : World)
    → is_valid w.stored ≡ true
    → is_valid (Codex.await_login s l raw prompt w).0.stored ≡ true
unfolding Codex.await_login
await_valid s l raw none w h = delete_valid (some l.session_id) w h
await_valid s l raw (some (uri, code)) w h = saved_valid s.saves _ w h (pending_valid raw _ s.now)

start_login_valid :
    (s : Surroundings) (l : Login) (w : World)
    → is_valid w.stored ≡ true
    → is_valid (Codex.start_login s l w).0.stored ≡ true
unfolding Codex.start_login
start_login_valid s l w h =
    either_valid l.installed _ _ (await_valid s l _ _ _ (delete_valid _ w h)) h

start_auth_valid :
    (s : Surroundings) (l : Login) (w : World)
    → is_valid w.stored ≡ true
    → is_valid (Codex.start_codex_chatgpt_auth s l w).0.stored ≡ true
unfolding Codex.start_codex_chatgpt_auth
start_auth_valid s l w h =
    let h' = sync_valid s w h in
    either_valid (Codex.is_under_way (Codex.sync_codex_auth_status s w).1) _ _ h'
      (start_login_valid s l _ h')

pub data Op : Type 0 where
  sync : Op
  set_api_key : (api_key written : Text) → Op
  import_auth : (auth_json written : Text) → Op
  start_auth : Login → Op
  clear : Op

-- An operation of the supervisor, in what surrounds it at its time.
unfoldable pub apply : Surroundings → Op → World → World
apply s Op.sync w = (Codex.sync_codex_auth_status s w).0
apply s (Op.set_api_key api_key written) w = (Codex.set_codex_api_key s api_key written w).0
apply s (Op.import_auth auth_json written) w =
    (Codex.import_codex_chatgpt_auth s auth_json written w).0
apply s (Op.start_auth l) w = (Codex.start_codex_chatgpt_auth s l w).0
apply s Op.clear w = (Codex.clear_codex_auth s w).0

unfoldable pub apply_all : List (Surroundings × Op) → World → World
unfolding apply
apply_all [] w = w
apply_all ((s, op) ∷ ops) w = apply_all ops (apply s op w)

apply_valid :
    (s : Surroundings) (op : Op) (w : World)
    → is_valid w.stored ≡ true
    → is_valid (apply s op w).stored ≡ true
unfolding apply Codex.set_codex_api_key Codex.import_codex_chatgpt_auth Codex.clear_codex_auth
apply_valid s Op.sync w h = sync_valid s w h
apply_valid s (Op.set_api_key key written) w h =
    either_valid (is_truthy (trim key)) _ _ (install_valid s _ _ written w h) h
apply_valid s (Op.import_auth auth_json written) w h = import_valid s _ written w h
apply_valid s (Op.start_auth l) w h = start_auth_valid s l w h
apply_valid s Op.clear w h = saved_valid s.saves _ _ (delete_valid _ w h) (clear_valid _)

-- Over any sequence of operations on a user's login, with whatever the sandbox shows and
-- whether or not the database answers, the stored state stays consistent if it is: its status goes
-- with the credentials, the pending login and the error that it holds, and the credentials are of
-- the preferred method.
pub apply_all_valid :
    (ops : List (Surroundings × Op)) (w : World)
    → is_valid w.stored ≡ true
    → is_valid (apply_all ops w).stored ≡ true
unfolding apply_all
apply_all_valid [] w h = h
apply_all_valid ((s, op) ∷ ops) w h = apply_all_valid ops (apply s op w) (apply_valid s op w h)
