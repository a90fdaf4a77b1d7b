-- ===== src/Settings/Revisions/Carried.antt =====
-- What no request changes in the file.
use go_pool.Prelude.{ℕ, ◌≡◌, inl, inr, refl, sym, ap, ◌∙◌, List, Option, none, some, Bool}
use go_pool.Settings.{Config, Editable, AlertSecrets, no_secrets}
use go_pool.Settings.Files.{ConfigFile, holding, carried}
use go_pool.Settings.Revisions.{
  ConfigLibrary, Store, Faults, RevisionRow, current, merged, commit, save, restore, examine,
  proceed_from, get_config_revision, restore_row,
}
use go_pool.Settings.Revisions.Requests.{
  Request, saving, restoring, answer_request, Reaches, stop, request, save-cases, commit-cases,
  examine-inv, blanked, current-holding,
}

pub record Unmanaged : Type 0 where
  pub private_key : List ℕ
  pub session_secret : List ℕ
  pub stuck_payout_epochs : ℕ
  pub dry_run : Bool
  pub faucet_url : List ℕ
  pub validator_rpc_url : List ℕ

-- The fields of a configuration that no request sets.
abbrev pub unmanaged : Config → Unmanaged
unmanaged c = record {
  private_key = c.private_key;
  session_secret = c.session_secret;
  stuck_payout_epochs = c.stuck_payout_epochs;
  dry_run = c.dry_run;
  faucet_url = c.faucet_url;
  validator_rpc_url = c.validator_rpc_url;
}

-- Before and after one call: the rows stay, the unmanaged fields stay.
abbrev pub Keeps : Store → Store → Type 0
Keeps s t =
    (c : Config)
    → s.file ≡ holding c
    → (d : Config) × (t.file ≡ holding d) × (unmanaged d ≡ unmanaged c)

Keeps-same : (s t : Store) → t.file ≡ s.file → Keeps s t
Keeps-same s t same c h = (c, same ∙ h, refl)

-- What a configured store merges has the unmanaged fields of the file.
merged-unmanaged :
    (l : ConfigLibrary) (expected : List ℕ) (e : Editable) (secrets : AlertSecrets)
    (file : ConfigFile) (read c : Config)
    → examine l expected e file ≡ proceed_from read
    → file ≡ holding c
    → unmanaged (merged read (carried file) e secrets) ≡ unmanaged c
unfolding merged carried
merged-unmanaged l expected e secrets file read c h held =
    let (hash, found, same) = (examine-inv l expected e file read h).1 in
    let from : read ≡ blanked c =
      current-holding l c read hash (sym (ap (current l) held) ∙ found) in
    ap (λ k. unmanaged (merged k (carried file) e secrets)) from
    ∙ ap (λ k. unmanaged (merged (blanked c) (carried k) e secrets)) held

save-Keeps :
    (l : ConfigLibrary) (f : Faults) (actor expected : List ℕ) (e : Editable)
    (secrets : AlertSecrets) (s : Store)
    → Keeps s (save l f actor expected e secrets s).1
save-Keeps l f actor expected e secrets s c held =
    elim (save-cases l f actor expected e secrets s) [
      | inl (r, stopped, h) ↦ (c, ap (λ x. x.1.file) h ∙ held, refl)
      | inr (read, passed, h) ↦
          let kept = merged-unmanaged l expected e secrets s.file read c passed held in
          let after = merged read (carried s.file) e secrets in
          let file : (save l f actor expected e secrets s).1.file
              ≡ (commit l f actor read e secrets s).1.file =
            ap (λ x. x.1.file) h in
          elim (commit-cases l f actor read e secrets s) [
            | inl (r, t) ↦ (after, file ∙ ap (λ x. x.file) t, kept)
            | inr (r, (rows, id, inl same)) ↦ (c, file ∙ same ∙ held, refl)
            | inr (r, (rows, id, inr new)) ↦ (after, file ∙ new, kept)
          ]
    ]

restore_row-Keeps :
    (l : ConfigLibrary) (f : Faults) (actor expected : List ℕ) (s : Store) (o : Option RevisionRow)
    → Keeps s (restore_row l f actor expected s o).1
restore_row-Keeps l f actor expected s none = Keeps-same s s refl
restore_row-Keeps l f actor expected s (some row) =
    save-Keeps l f actor expected row.after.settings no_secrets s

answer_request-Keeps :
    (l : ConfigLibrary) (q : Request) (s : Store) → Keeps s (answer_request l q s).1
unfolding answer_request restore
answer_request-Keeps l (saving f actor expected e secrets) s =
    save-Keeps l f actor expected e secrets s
answer_request-Keeps l (restoring f actor expected id) s =
    restore_row-Keeps l f actor expected s (get_config_revision id s.revisions)

-- Let the file hold a configuration. After any sequence of requests to save or to restore, whatever
-- they ask for and whichever calls fail, the file holds a configuration with the same validator key,
-- session secret, number of epochs until a payout is stuck, dry-run flag, faucet and validator URLs.
pub requests-carry :
    (l : ConfigLibrary) (s t : Store) (c : Config)
    → Reaches l s t
    → s.file ≡ holding c
    → (d : Config) × (t.file ≡ holding d) × (unmanaged d ≡ unmanaged c)
requests-carry l s t c stop held = (c, held, refl)
requests-carry l s t c (request q rest) held =
    let (d, held_d, same) = answer_request-Keeps l q s c held in
    let (k, held_k, same_k) = requests-carry l (answer_request l q s).1 t d rest held_d in
    (k, held_k, same_k ∙ same)
