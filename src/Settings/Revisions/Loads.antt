-- ===== src/Settings/Revisions/Loads.antt =====
-- What the daemon loads of a file that `Save` has written (`LoadDaemon` of internal/config/config.go).
use go_pool.Prelude.{
  ℕ, ◌≡◌, refl, sym, ap, ◌∙◌, arith, List, [], ◌∷◌, none, Bool, true, false, ◌==◌, if◌then◌else◌,
  All,
}
use go_pool.Access.Operator.{trim_space}
use go_pool.Settings.{Config, Editable, AlertSecrets, codes, is_set, provided}
use go_pool.Settings.Validation.{
  Parsers, Invalid, validate, validate_editable, first_failing, first_failing-none, editable_checks,
  config_checks, known_mode, optional_url,
}
use go_pool.Settings.Files.{
  holding, DaemonEnv, DaemonConfig, runs_with, SecretFile, not_named, cannot_be_read, with_text,
  load_daemon, with_defaults, with_env, with_key, finish_daemon, accept,
}
use go_pool.Settings.Revisions.{ConfigLibrary, Store, Faults, saved, RevisionRow, save}
use go_pool.Settings.Revisions.Requests.{saved-settings, was_saved}

first_failing-All :
    (checks : List (Bool × Invalid)) → All (λ x. x.0 ≡ true) checks → first_failing checks ≡ none
unfolding first_failing
first_failing-All [] h = refl
first_failing-All ((b, reason) ∷ checks) h = rw h.0 (first_failing-All checks h.1)

known-set : (s : List ℕ) → known_mode s ≡ true → is_set s ≡ true
known-set [] h = h
known-set (c ∷ s) h = refl

-- The settings of the daemon: an empty metrics address is the default.
abbrev pub daemon_settings : Editable → Editable
daemon_settings e = record e { metrics_addr = provided e.metrics_addr (codes ":9100") }

abbrev can_be_read : SecretFile → Bool
can_be_read cannot_be_read = false
can_be_read _ = true

held_same : (k c : Config) → holding k ≡ holding c → k ≡ c
held_same k c h = cc (h)

abbrev LoadedAs : Config → DaemonConfig → Type 0
LoadedAs c loaded =
    (d : Config) × (loaded ≡ runs_with d)
    × (d.shown ≡ daemon_settings c.shown)
    × ((d.stuck_payout_epochs == 0) ≡ false)

default-stuck : (n : ℕ) → ((if n == 0 then 3 else n) == 0) ≡ false
default-stuck n = ground arith

-- The configuration with its defaults, and some key.
abbrev keyed : Config → List ℕ → Config
keyed c key = record (with_defaults (record c { wallet_json_file = [] })) { private_key = key }

finish-accepts :
    (p : Parsers) (env : DaemonEnv) (c : Config) (key : List ℕ)
    → validate_editable p c.shown ≡ none
    → optional_url p (with_env env c).faucet_url ≡ true
    → optional_url p (with_env env c).validator_rpc_url ≡ true
    → LoadedAs c (finish_daemon p env (keyed c key))
unfolding validate_editable validate
finish-accepts p env c key valid faucet rpc =
    let (_, (_, (_, (fee, (mode, (_, (_, (_, (profile, _))))))))) =
      first_failing-none (editable_checks p c.shown) valid in
    let d = with_env env (keyed c key) in
    let plain : provided c.shown.payout_mode (codes "delegate") ≡ c.shown.payout_mode =
      rw (known-set c.shown.payout_mode mode) refl in
    let passed =
      first_failing-All (config_checks p d)
        (ap known_mode plain ∙ mode, (fee, (faucet, (rpc, (profile, tt))))) in
    (
      d,
      ap (λ o. accept o d) passed,
      ap (λ m. record (daemon_settings c.shown) { payout_mode = m }) plain,
      default-stuck c.stuck_payout_epochs,
    )

with_key-accepts :
    (p : Parsers) (env : DaemonEnv) (c : Config) (file : SecretFile)
    → validate_editable p c.shown ≡ none
    → optional_url p (with_env env c).faucet_url ≡ true
    → optional_url p (with_env env c).validator_rpc_url ≡ true
    → can_be_read file ≡ true
    → LoadedAs c (with_key p env file (with_defaults (record c { wallet_json_file = [] })))
with_key-accepts p env c not_named valid faucet rpc key =
    finish-accepts p env c c.private_key valid faucet rpc
with_key-accepts p env c cannot_be_read valid faucet rpc key = cc
with_key-accepts p env c (with_text s) valid faucet rpc key =
    finish-accepts p env c (trim_space s) valid faucet rpc

-- Let a call of `Save` answer with a revision, and let c be what the file then holds. In an
-- environment whose key file, if it names one, can be read, and under which the faucet's and the
-- validator's URLs are empty or HTTP(S) URLs, the daemon loads the file: with the settings of the
-- call, an empty metrics address replaced by the default, and a number of epochs until a payout is
-- stuck that is not 0.
pub save-loads :
    (l : ConfigLibrary) (f : Faults) (actor expected : List ℕ) (e : Editable)
    (secrets : AlertSecrets) (s s' : Store) (row : RevisionRow) (c : Config) (env : DaemonEnv)
    → save l f actor expected e secrets s ≡ (saved row, s')
    → s'.file ≡ holding c
    → can_be_read env.pool_private_key_file ≡ true
    → optional_url l.parsers (with_env env c).faucet_url ≡ true
    → optional_url l.parsers (with_env env c).validator_rpc_url ≡ true
    → (d : Config) × (load_daemon l.parsers env s'.file ≡ runs_with d)
      × (d.shown ≡ daemon_settings e)
      × ((d.stuck_payout_epochs == 0) ≡ false)
unfolding load_daemon
save-loads l f actor expected e secrets s s' row c env h held key faucet rpc =
    let (k, file, shown, valid) =
      saved-settings l f actor expected e secrets s (ap (λ x. was_saved x.0) h) in
    let same : k ≡ c = held_same k c (sym file ∙ ap (λ x. x.1.file) h ∙ held) in
    let settings : c.shown ≡ e = ap (λ x. x.shown) (sym same) ∙ shown in
    let (d, loaded, as_saved, stuck) =
      with_key-accepts l.parsers env c env.pool_private_key_file
        (ap (validate_editable l.parsers) settings ∙ valid) faucet rpc key in
    (d, ap (load_daemon l.parsers env) held ∙ loaded, as_saved ∙ ap daemon_settings settings, stuck)
