-- ===== src/Settings/Validation.antt =====
-- `Validate`, `ValidateEditable` and `ValidateAPI` of internal/config/config.go. Parsing an address is
-- the nimiq library's; parsing a URL is net/url's.
use go_pool.Prelude.{
  ℕ, ◌≡◌, refl, List, [], ◌∷◌, ◌++◌, Option, none, some, Bool, true, false, not, ◌&&◌, ◌||◌, ◌==◌,
  leb, if◌then◌else◌, any_of, All,
}
use go_pool.Access.Operator.{text_equal, trim_space, split_commas, comma}
use go_pool.Settings.{Editable, Config, Percentage, below_zero, basis_points, codes, is_set}

pub record Url : Type 0 where
  pub scheme : List ℕ
  pub host : List ℕ

-- An address is a number here; `show` is its `String`.
pub record Parsers : Type 0 where
  pub parse_address : List ℕ → Option ℕ
  pub show : ℕ → List ℕ
  pub parse_url : List ℕ → Option Url

-- Why a configuration is refused. Where the code goes through a map, the order of the fields is not
-- fixed, and the reason does not name the field.
pub data Invalid : Type 0 where
  pool_name rpc_url network pool_fee_percentage payout_mode min_payout_luna : Invalid
  addresses operator_addresses profile_url faucet_url validator_rpc_url : Invalid
  api_addr session_secret validator_address : Invalid

abbrev is_http : Option Url → Bool
is_http none = false
is_http (some u) =
    is_set u.host && (text_equal u.scheme (codes "http") || text_equal u.scheme (codes "https"))

-- `validateOptionalHTTPURL`, and whether it returns no error.
abbrev pub optional_url : Parsers → List ℕ → Bool
optional_url p s = not (is_set s) || is_http (p.parse_url s)

-- `validatePublicProfileURLs`.
abbrev profile_urls : Parsers → Editable → Bool
profile_urls p e =
    optional_url p e.contact_url
    && optional_url p e.telegram_url
    && optional_url p e.discord_url
    && optional_url p e.x_url

-- `p < 0 || p >= 1`.
abbrev pub outside : Percentage → Bool
outside (below_zero _) = true
outside (basis_points n) = leb 10000 n

abbrev pub is_parsed : Option ℕ → Bool
is_parsed none = false
is_parsed (some _) = true

abbrev known_network : List ℕ → Bool
known_network s =
    text_equal s (codes "main")
    || text_equal s (codes "main-albatross")
    || text_equal s (codes "test-albatross")
    || text_equal s (codes "dev-albatross")

abbrev pub known_mode : List ℕ → Bool
known_mode s = text_equal s (codes "delegate") || text_equal s (codes "transfer")

-- A part of `operator_addresses` that is neither blank nor an address.
abbrev pub bad_operator : Parsers → List ℕ → Bool
bad_operator p part = let s = trim_space part in is_set s && not (is_parsed (p.parse_address s))

-- Checks in the code's order: the first that fails gives the error.
unfoldable pub first_failing : List (Bool × Invalid) → Option Invalid
first_failing [] = none
first_failing ((true, _) ∷ checks) = first_failing checks
first_failing ((false, reason) ∷ checks) = some reason

abbrev pub editable_checks : Parsers → Editable → List (Bool × Invalid)
editable_checks p e =
    (is_set (trim_space e.pool_name), pool_name)
    ∷ (is_http (p.parse_url e.rpc_url), rpc_url)
    ∷ (known_network e.network, network)
    ∷ (not (outside e.pool_fee_percentage), pool_fee_percentage)
    ∷ (known_mode e.payout_mode, payout_mode)
    ∷ (not (e.min_payout_luna == 0), min_payout_luna)
    ∷ (
      is_parsed (p.parse_address e.pool_fee_wallet)
          && is_parsed (p.parse_address e.validator_address),
      addresses,
    )
    ∷ (not (any_of (bad_operator p) (split_commas e.operator_addresses)), operator_addresses)
    ∷ (profile_urls p e, profile_url)
    ∷ []

-- `ValidateEditable`.
unfoldable pub validate_editable : Parsers → Editable → Option Invalid
unfolding first_failing
validate_editable p e = first_failing (editable_checks p e)

abbrev pub config_checks : Parsers → Config → List (Bool × Invalid)
config_checks p c =
    (known_mode c.shown.payout_mode, payout_mode)
    ∷ (not (outside c.shown.pool_fee_percentage), pool_fee_percentage)
    ∷ (optional_url p c.faucet_url, faucet_url)
    ∷ (optional_url p c.validator_rpc_url, validator_rpc_url)
    ∷ (profile_urls p c.shown, profile_url)
    ∷ []

-- `Validate`.
unfoldable pub validate : Parsers → Config → Option Invalid
unfolding first_failing
validate p c = first_failing (config_checks p c)

pub first_failing-none :
    (checks : List (Bool × Invalid)) → first_failing checks ≡ none → All (λ x. x.0 ≡ true) checks
unfolding first_failing
first_failing-none [] h = tt
first_failing-none ((true, reason) ∷ checks) h = (refl, first_failing-none checks h)
first_failing-none ((false, reason) ∷ checks) h = cc

-- The loop over the parts of `operator_addresses` in `ValidateAPI`; `none` is its error.
abbrev pub put_operator : Parsers → Option ℕ → Option (List (List ℕ)) → Option (List (List ℕ))
put_operator p none rest = none
put_operator p (some a) none = none
put_operator p (some a) (some ops) = some (p.show a ∷ ops)

unfoldable pub operators_of : Parsers → List (List ℕ) → Option (List (List ℕ))
operators_of p [] = some []
operators_of p (part ∷ parts) =
    let rest = operators_of p parts in
    let s = trim_space part in if is_set s then put_operator p (p.parse_address s) rest else rest

-- `strings.Join(operators, ",")`.
abbrev pub join_commas : List (List ℕ) → List ℕ
join_commas [] = []
join_commas (s ∷ []) = s
join_commas (s ∷ t ∷ ts) = s ++ comma ∷ join_commas (t ∷ ts)

pub data Checked : Type 0 where
  normalized : Config → Checked
  refused_as : Invalid → Checked

abbrev pub with_operators : Config → List ℕ → Option (List (List ℕ)) → Checked
with_operators c validator none = refused_as operator_addresses
with_operators c validator (some ops) = normalized (record c {
  shown = record c.shown { validator_address = validator; operator_addresses = join_commas ops };
})

abbrev pub with_validator : Parsers → Config → Option ℕ → Checked
with_validator p c none = refused_as validator_address
with_validator p c (some a) =
    with_operators c (p.show a) (operators_of p (split_commas c.shown.operator_addresses))

-- `ValidateAPI`.
unfoldable pub validate_api : Parsers → Config → Checked
unfolding operators_of
validate_api p c =
    if not (is_set c.shown.api_addr)
    then refused_as api_addr
    else if not (is_set (trim_space c.session_secret))
    then refused_as session_secret
    else if not (is_set c.shown.validator_address)
    then refused_as validator_address
    else with_validator p c (p.parse_address c.shown.validator_address)
