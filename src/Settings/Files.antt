-- ===== src/Settings/Files.antt =====
-- The configuration file: `LoadOptional` and `LoadDaemon` of internal/config/config.go, `carried` and
-- `atomicWrite` of internal/configstore/store.go. What `json.MarshalIndent` writes of a `Config` is
-- read back as it was, less the field `WalletJSONFile`, which has no name in JSON.
use go_pool.Prelude.{ℕ, List, [], Option, none, some, Bool, true, false, ◌||◌, ◌==◌, if◌then◌else◌}
use go_pool.Access.Operator.{text_equal, trim_space}
use go_pool.Settings.{Config, codes, is_set, provided}
use go_pool.Settings.Validation.{Parsers, Invalid, validate}

-- What is at the path: nothing, something that cannot be read, text that is not such JSON, or a
-- configuration.
pub data ConfigFile : Type 0 where
  absent unreadable malformed : ConfigFile
  holding : Config → ConfigFile

pub data Loaded : Type 0 where
  not_configured load_failed : Loaded
  loaded : Config → Loaded

-- `LoadOptional`.
unfoldable pub load_optional : ConfigFile → Loaded
load_optional absent = not_configured
load_optional unreadable = load_failed
load_optional malformed = load_failed
load_optional (holding c) =
    loaded (record c { private_key = []; session_secret = []; wallet_json_file = [] })

-- `carriedFields` and `Store.carried`.
pub record CarriedFields : Type 0 where
  pub private_key : List ℕ
  pub session_secret : List ℕ

unfoldable pub carried : ConfigFile → CarriedFields
carried (holding c) = record { private_key = c.private_key; session_secret = c.session_secret }
carried _ = record { private_key = []; session_secret = [] }

-- The calls of `atomicWrite`, in order.
pub data WriteCall : Type 0 where
  mkdir_all create_temp chmod write sync close rename open_dir sync_dir : WriteCall

-- The rename is what changes the file at the path.
abbrev pub is_renamed : WriteCall → Bool
is_renamed open_dir = true
is_renamed sync_dir = true
is_renamed _ = false

-- `atomicWrite`, for the call that fails, if one does: whether it returned nil, and the file.
unfoldable pub atomic_write : Option WriteCall → Config → ConfigFile → Bool × ConfigFile
atomic_write none c file = (true, holding c)
atomic_write (some call) c file = (false, if is_renamed call then holding c else file)

-- An environment variable that names a file.
pub data SecretFile : Type 0 where
  not_named cannot_be_read : SecretFile
  with_text : List ℕ → SecretFile

-- The environment of `LoadDaemon`; an empty variable is not set.
pub record DaemonEnv : Type 0 where
  pub pool_private_key_file : SecretFile
  pub pool_wallet_json_file : List ℕ
  pub validator_rpc_url : List ℕ
  pub faucet_url : List ℕ
  pub pool_dry_run : List ℕ

pub data DaemonConfig : Type 0 where
  runs_with : Config → DaemonConfig
  no_file not_json no_key : DaemonConfig
  rejected_as : Invalid → DaemonConfig

abbrev pub with_defaults : Config → Config
with_defaults c = record c {
  shown = record c.shown {
    payout_mode = provided c.shown.payout_mode (codes "delegate");
    metrics_addr = provided c.shown.metrics_addr (codes ":9100");
  };
  stuck_payout_epochs = if c.stuck_payout_epochs == 0 then 3 else c.stuck_payout_epochs;
}

abbrev is_yes : List ℕ → Bool
is_yes s = text_equal s (codes "1") || text_equal s (codes "true") || text_equal s (codes "TRUE")

-- `TrimSpace` of a variable that is set.
abbrev from_env : List ℕ → List ℕ → List ℕ
from_env v old = if is_set v then trim_space v else old

abbrev pub with_env : DaemonEnv → Config → Config
with_env env c = record c {
  wallet_json_file = from_env env.pool_wallet_json_file c.wallet_json_file;
  validator_rpc_url = from_env env.validator_rpc_url c.validator_rpc_url;
  faucet_url = from_env env.faucet_url c.faucet_url;
  dry_run = if is_set env.pool_dry_run then is_yes env.pool_dry_run else c.dry_run;
}

abbrev pub accept : Option Invalid → Config → DaemonConfig
accept none c = runs_with c
accept (some reason) c = rejected_as reason

abbrev pub finish_daemon : Parsers → DaemonEnv → Config → DaemonConfig
finish_daemon p env c = let c' = with_env env c in accept (validate p c') c'

abbrev pub with_key : Parsers → DaemonEnv → SecretFile → Config → DaemonConfig
with_key p env not_named c = finish_daemon p env c
with_key p env cannot_be_read c = no_key
with_key p env (with_text s) c = finish_daemon p env (record c { private_key = trim_space s })

-- `LoadDaemon`.
unfoldable pub load_daemon : Parsers → DaemonEnv → ConfigFile → DaemonConfig
load_daemon p env absent = no_file
load_daemon p env unreadable = no_file
load_daemon p env malformed = not_json
load_daemon p env (holding c) =
    with_key p env env.pool_private_key_file (with_defaults (record c { wallet_json_file = [] }))
