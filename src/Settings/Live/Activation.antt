-- ===== src/Settings/Live/Activation.antt =====
-- What `tryActivateFromStore` of internal/api/setup_handlers.go does with a file that was saved.
use go_pool.Prelude.{
  ℕ, ◌≡◌, refl, sym, ap, ◌∙◌, inl, inr, List, [], ◌∷◌, Option, none, some, Bool, true, false, not,
  ◌&&◌, ◌||◌, if◌then◌else◌, any_of, Bool-cases,
}
use go_pool.Access.Operator.{trim_space, split_commas}
use go_pool.Settings.{Config, Editable, is_set}
use go_pool.Settings.Validation.{
  Parsers, editable_checks, first_failing-none, Checked, normalized, refused_as, validate_editable,
  validate_api, operators_of, put_operator, join_commas, bad_operator, is_parsed, api_addr,
}
use go_pool.Settings.Files.{holding, load_optional, with_text}
use go_pool.Settings.Revisions.Requests.{blanked}
use go_pool.Settings.Live.{
  Api, Outside, try_activate_from_store, network_from_string, new_rpc_only, activate_configured,
  activate_checked, Client, activate_with,
}

and-inv : (b c : Bool) → (b && c) ≡ true → (b ≡ true) × (c ≡ true)
and-inv true c h = (refl, h)
and-inv false c h = cc

not-inv : (b : Bool) → not b ≡ true → b ≡ false
not-inv true h = cc
not-inv false h = refl

pub or-inv : (b c : Bool) → (b || c) ≡ false → (b ≡ false) × (c ≡ false)
or-inv true c h = cc
or-inv false c h = (refl, h)

is_parsed-inv : (o : Option ℕ) → is_parsed o ≡ true → (a : ℕ) × (o ≡ some a)
is_parsed-inv none h = cc
is_parsed-inv (some a) h = (a, refl)

parsed-full :
    (p : Parsers) (s : List ℕ)
    → p.parse_address [] ≡ none
    → is_parsed (p.parse_address s) ≡ true
    → is_set s ≡ true
parsed-full p [] no_empty h =
    let impossible : false ≡ true = ap is_parsed (sym no_empty) ∙ h in cc (impossible)
parsed-full p (c ∷ s) no_empty h = refl

reads-part :
    (p : Parsers) (filled : Bool) (parsed : Option ℕ) (ops : List (List ℕ))
    (rest : Option (List (List ℕ)))
    → rest ≡ some ops
    → (filled && not (is_parsed parsed)) ≡ false
    → (ops' : List (List ℕ)) × ((if filled then put_operator p parsed rest else rest) ≡ some ops')
reads-part p false parsed ops rest read good = (ops, read)
reads-part p true none ops rest read good = cc
reads-part p true (some a) ops rest read good = (p.show a ∷ ops, ap (put_operator p (some a)) read)

-- Settings without errors have a validator and operators that are addresses.
validated :
    (p : Parsers) (e : Editable)
    → validate_editable p e ≡ none
    → (is_parsed (p.parse_address e.validator_address) ≡ true)
      × (any_of (bad_operator p) (split_commas e.operator_addresses) ≡ false)
unfolding validate_editable
validated p e h =
    let (_, (_, (_, (_, (_, (_, (a, (b, _)))))))) = first_failing-none (editable_checks p e) h in
    let wallet = is_parsed (p.parse_address e.pool_fee_wallet) in
    let bad = any_of (bad_operator p) (split_commas e.operator_addresses) in
    ((and-inv wallet (is_parsed (p.parse_address e.validator_address)) a).1, not-inv bad b)

-- A list of operators without a bad part is read.
operators_of-reads :
    (p : Parsers) (parts : List (List ℕ))
    → any_of (bad_operator p) parts ≡ false
    → (ops : List (List ℕ)) × (operators_of p parts ≡ some ops)
unfolding operators_of
operators_of-reads p [] h = ([], refl)
operators_of-reads p (part ∷ parts) h =
    let (good, rest) = or-inv (bad_operator p part) (any_of (bad_operator p) parts) h in
    let (ops, read) = operators_of-reads p parts rest in
    let s = trim_space part in
    reads-part p (is_set s) (p.parse_address s) ops (operators_of p parts) read good

-- `ValidateAPI` accepts a configuration with an address to listen on, a secret and such fields.
validate_api-accepts :
    (p : Parsers) (c : Config)
    → is_set c.shown.api_addr ≡ true
    → is_set (trim_space c.session_secret) ≡ true
    → p.parse_address [] ≡ none
    → is_parsed (p.parse_address c.shown.validator_address) ≡ true
    → any_of (bad_operator p) (split_commas c.shown.operator_addresses) ≡ false
    → (d : Config) × (validate_api p c ≡ normalized d)
      × (d.shown.network ≡ c.shown.network)
      × (d.shown.rpc_url ≡ c.shown.rpc_url)
unfolding validate_api
validate_api-accepts p c listens secret no_empty validator operators =
    let full = parsed-full p c.shown.validator_address no_empty validator in
    let (v, parsed) = is_parsed-inv (p.parse_address c.shown.validator_address) validator in
    let (ops, read) = operators_of-reads p (split_commas c.shown.operator_addresses) operators in
    let d = record c {
      shown = record c.shown { validator_address = p.show v; operator_addresses = join_commas ops };
    } in
    (d, rw (listens, secret, full, parsed, read) refl, refl, refl)

-- The configuration that the API is activated from.
abbrev with_secret : List ℕ → Config → Config
with_secret secret c = record (blanked c) { session_secret = trim_space secret }

and_true : (b : Bool) → (b && true) ≡ b
and_true true = refl
and_true false = refl

client-opens :
    (c : Config) (client : Client) (made : Bool) (a : Api)
    → (activate_with c (if made then some client else none) a).setup_only
      ≡ (if made then false else a.setup_only)
unfolding activate_configured
client-opens c client true a = refl
client-opens c client false a = refl

pub activated :
    (o : Outside) (raw : List ℕ) (c : Config) (a : Api)
    → o.session_secret_file ≡ with_text raw
    → a.config_store ≡ true
    → is_set (trim_space (trim_space raw)) ≡ true
    → o.library.parsers.parse_address [] ≡ none
    → o.dials c.shown.rpc_url ≡ true
    → validate_editable o.library.parsers c.shown ≡ none
    → (try_activate_from_store o (holding c) a).setup_only ≡ (
        if is_set c.shown.api_addr && network_from_string c.shown.network
        then false
        else a.setup_only)
unfolding try_activate_from_store load_optional new_rpc_only activate_configured validate_api
activated o raw c a file store secret no_empty dials valid =
    let p = o.library.parsers in
    let k = with_secret raw c in
    let (validator, operators) = validated p c.shown valid in
    let run : (try_activate_from_store o (holding c) a).setup_only
        ≡ (activate_checked o (validate_api p k) a).setup_only =
      rw (store, file) refl in
    let opens : Checked → Bool = λ x. (activate_checked o x a).setup_only in
    elim (Bool-cases (is_set c.shown.api_addr)) [
      | inl listens ↦
          let (d, accepted, net, url) =
            validate_api-accepts p k listens secret no_empty validator operators in
          let known : network_from_string d.shown.network && o.dials d.shown.rpc_url
              ≡ network_from_string c.shown.network =
            rw (net, ap o.dials url ∙ dials) (and_true (network_from_string c.shown.network)) in
          run
          ∙ ap opens accepted
          ∙ client-opens d _ _ a
          ∙ ap (λ b. if b then false else a.setup_only) known
          ∙ rw listens refl
      | inr deaf ↦
          let refused : validate_api p k ≡ refused_as api_addr = rw deaf refl in
          run ∙ ap opens refused ∙ rw deaf refl
    ]
