-- ===== src/Settings.antt =====
-- The configuration and its views (the types and conversions of internal/config/config.go). Text is a
-- list of codes; `pool_fee_percentage` is a number of basis points with a sign.
pub mod Validation
pub mod Files
pub mod Revisions
pub mod Live
pub mod Tests
use Prim.Native.Char.{code}
use Prim.Native.String.{String}
use go_pool.Prelude.{
  ℕ, ◌≡◌, refl, ap, ◌∙◌, List, [], ◌∷◌, Option, Bool, true, false, not, if◌then◌else◌,
}

abbrev pub codes : String → List ℕ
codes String.[] = []
codes (String.◌∷◌ c s) = code c ∷ codes s

-- `s != ""`.
abbrev pub is_set : List ℕ → Bool
is_set [] = false
is_set (_ ∷ _) = true

pub data Percentage : Type 0 where
  below_zero basis_points : ℕ → Percentage

-- `Editable`.
pub record Editable : Type 0 where
  pub rpc_url : List ℕ
  pub network : List ℕ
  pub pool_fee_wallet : List ℕ
  pub pool_fee_percentage : Percentage
  pub payout_mode : List ℕ
  pub min_payout_luna : ℕ
  pub auto_reactivate : Bool
  pub api_addr : List ℕ
  pub validator_address : List ℕ
  pub operator_addresses : List ℕ
  pub metrics_addr : List ℕ
  pub alert_telegram_enabled : Bool
  pub alert_telegram_destination : List ℕ
  pub alert_webhook_enabled : Bool
  pub pool_name : List ℕ
  pub pool_description : List ℕ
  pub contact_url : List ℕ
  pub telegram_url : List ℕ
  pub discord_url : List ℕ
  pub x_url : List ℕ
  pub disclosure : List ℕ

-- `AlertSecrets`.
pub record AlertSecrets : Type 0 where
  pub telegram_token : List ℕ
  pub webhook_url : List ℕ

-- `Config`: the editable fields are kept together under `shown`, and the two alert secrets under
-- `alert_secrets`.
pub record Config : Type 0 where
  pub shown : Editable
  pub private_key : List ℕ
  pub stuck_payout_epochs : ℕ
  pub dry_run : Bool
  pub session_secret : List ℕ
  pub alert_secrets : AlertSecrets
  pub faucet_url : List ℕ
  pub validator_rpc_url : List ℕ
  pub wallet_json_file : List ℕ

pub record SecretPresence : Type 0 where
  pub validator_key : Bool
  pub session_secret : Bool
  pub telegram_token : Bool
  pub webhook_url : Bool

pub record Redacted : Type 0 where
  pub settings : Editable
  pub secrets : SecretPresence

-- `Editable{}` and `AlertSecrets{}`.
abbrev pub no_settings : Editable
no_settings = record {
  rpc_url = [];
  network = [];
  pool_fee_wallet = [];
  pool_fee_percentage = basis_points 0;
  payout_mode = [];
  min_payout_luna = 0;
  auto_reactivate = false;
  api_addr = [];
  validator_address = [];
  operator_addresses = [];
  metrics_addr = [];
  alert_telegram_enabled = false;
  alert_telegram_destination = [];
  alert_webhook_enabled = false;
  pool_name = [];
  pool_description = [];
  contact_url = [];
  telegram_url = [];
  discord_url = [];
  x_url = [];
  disclosure = [];
}

abbrev pub no_secrets : AlertSecrets
no_secrets = record { telegram_token = []; webhook_url = [] }

-- `Config.Editable`.
abbrev pub editable : Config → Editable
editable c = c.shown

-- `FromEditable`.
abbrev pub from_editable : Editable → Config
from_editable e = record {
  shown = e;
  private_key = [];
  stuck_payout_epochs = 0;
  dry_run = false;
  session_secret = [];
  alert_secrets = no_secrets;
  faucet_url = [];
  validator_rpc_url = [];
  wallet_json_file = [];
}

abbrev pub provided : List ℕ → List ℕ → List ℕ
provided new old = if is_set new then new else old

-- `ApplySecrets`.
unfoldable pub apply_secrets : AlertSecrets → Config → Config
apply_secrets s c = record c {
  alert_secrets = record {
    telegram_token = provided s.telegram_token c.alert_secrets.telegram_token;
    webhook_url = provided s.webhook_url c.alert_secrets.webhook_url;
  };
}

-- `Redact`.
unfoldable pub redact : Config → Redacted
redact c = record {
  settings = editable c;
  secrets = record {
    validator_key = is_set c.private_key;
    session_secret = is_set c.session_secret;
    telegram_token = is_set c.alert_secrets.telegram_token;
    webhook_url = is_set c.alert_secrets.webhook_url;
  };
}

-- A second call with secrets that are not provided keeps those of the first.
apply_secrets-none : (c : Config) → apply_secrets no_secrets c ≡ c
unfolding apply_secrets
apply_secrets-none c = refl
