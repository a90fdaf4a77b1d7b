-- ===== src/Settings/Live/Saved.antt =====
-- The configuration that the API runs with behind a save of an operator.
use go_pool.Prelude.{
  ℕ, ◌≡◌, refl, sym, ap, ◌∙◌, List, Option, none, some, Bool, true, false, ◌||◌, if◌then◌else◌,
  any_of,
}
use go_pool.Access.Operator.{
  text_equal, split_commas, is_listed, require_operator, granted, forbidden, listing_lem,
}
use go_pool.Settings.{Config, is_set}
use go_pool.Settings.Files.{holding, load_optional}
use go_pool.Settings.Revisions.{
  Store, Faults, SaveResult, saved, RevisionRow, save, invalid, unreadable_config,
  revision_conflict, write_failed, not_recorded, no_revision,
}
use go_pool.Settings.Revisions.Requests.{saved-settings, was_saved, blanked}
use go_pool.Settings.Live.{
  Api, Outside, revision, SaveBody, apply_live_config, apply_loaded, handle_operator_settings_save,
  live_after, keep_secret, validation_failed, store_unavailable, save_decoded,
}
use go_pool.Settings.Live.Operators.{unequal-empty}

live_after-inv :
    (o : Outside) (r : SaveResult) (t : Store) (a a' : Api) (s' : Store) (row : RevisionRow)
    → live_after o validation_failed (r, t) a ≡ (revision row, a', s')
    → (was_saved r ≡ true) × (a' ≡ apply_live_config o t.file a)
live_after-inv o (saved _) t a a' s' row h = (refl, ap (λ x. x.1) (sym h))
live_after-inv o (invalid _) t a a' s' row h = cc
live_after-inv o unreadable_config t a a' s' row h = cc
live_after-inv o revision_conflict t a a' s' row h = cc
live_after-inv o write_failed t a a' s' row h = cc
live_after-inv o not_recorded t a a' s' row h = cc
live_after-inv o no_revision t a a' s' row h = cc

handled-inv :
    (o : Outside) (f : Faults) (actor : List ℕ) (b : SaveBody) (a a' : Api) (s s' : Store)
    (row : RevisionRow) (has_store : Bool)
    → (if has_store then save_decoded o f actor (some b) a s else (store_unavailable, a, s))
      ≡ (revision row, a', s')
    → (has_store ≡ true) × (save_decoded o f actor (some b) a s ≡ (revision row, a', s'))
handled-inv o f actor b a a' s s' row true h = (refl, h)
handled-inv o f actor b a a' s s' row false h = cc

-- What the API takes from a file that holds a configuration.
apply_live-shown :
    (o : Outside) (old : Option Config) (c : Config)
    → (live : Config) × (some (keep_secret old (blanked c)) ≡ some live) × (live.shown ≡ c.shown)
apply_live-shown o none c = (blanked c, refl, refl)
apply_live-shown o (some old) c = (keep_secret (some old) (blanked c), refl, refl)

-- Let a save of settings by an operator be answered with a revision. The API then runs with these
-- settings as they were sent: someone who is logged in, with an address that is not empty, gets
-- through as an operator exactly if the address is the text of the validator's field, or a part of
-- the text of the operators' field up to spaces around it. No other way to write the address counts.
pub live_settings-by_text :
    (o : Outside) (f : Faults) (actor : List ℕ) (b : SaveBody) (a a' : Api) (s s' : Store)
    (row : RevisionRow) (addr : List ℕ)
    → handle_operator_settings_save o f actor (some b) a s ≡ (revision row, a', s')
    → is_set addr ≡ true
    → (live : Config) × (a'.cfg ≡ some live)
      × (require_operator live.shown.validator_address live.shown.operator_addresses (some addr) ≡ (
          if text_equal addr b.settings.validator_address
            || any_of (is_listed addr) (split_commas b.settings.operator_addresses)
          then granted
          else forbidden))
unfolding handle_operator_settings_save require_operator apply_live_config load_optional
live_settings-by_text o f actor b a a' s s' row addr h full =
    let x = save o.library f actor b.expected_hash b.settings b.secrets s in
    let (has_store, run) = handled-inv o f actor b a a' s s' row a.config_store h in
    let (was, api) = live_after-inv o x.0 x.1 a a' s' row run in
    let (c, file, shown, _) =
      saved-settings o.library f actor b.expected_hash b.settings b.secrets s was in
    let (live, is_live, same) = apply_live-shown o a.cfg c in
    let cfg : a'.cfg ≡ some live =
      ap (λ y. y.cfg) api
      ∙ ap (λ y. (apply_live_config o y a).cfg) file
      ∙ ap (λ y. (if y then apply_loaded o (load_optional (holding c)) a else a).cfg) has_store
      ∙ is_live in
    let settings = same ∙ shown in
    (
      live,
      cfg,
      rw (settings, listing_lem addr b.settings.operator_addresses (unequal-empty addr full)) refl,
    )
