-- ===== src/Store/Monad.antt =====
-- A call that reads and writes the database and the memory of the `Manager`, and may return an
-- error. What was written before an error stays written, outside a transaction.
use go_pool.Prelude.{
  ℕ, List, [], ◌∷◌, ◌++◌, Option, none, some, Bool, false, ◌≡◌, refl, ap, if◌then◌else◌,
}
use go_pool.Store.{Tables, PayoutKind, ActionKind}

-- Why a call returned a non-nil error.
pub data Error : Type 0 where
  sql no_rows rpc not_approved bad_tx invalid_retry cancelled duplicate unsupported : Error

pub data Result {ℓ} (A : Type ℓ) : Type ℓ where
  ok : A → Result A
  err : Error → Result A

-- A payout transaction, by the arguments that it is built from.
pub record Payout : Type 0 where
  pub kind : PayoutKind
  pub recipient : ℕ
  pub amount : ℕ
  pub fee : ℕ
  pub head : ℕ

-- A validator transaction that went out: for a request, by its id, or on the daemon's own account.
pub data SentAction : Type 0 where
  for_request : ℕ → SentAction
  own : ActionKind → SentAction

-- The notifier's alerts, by `Type` and address.
pub data Alert : Type 0 where
  fee_floor insufficient_payout_balance : ℕ → Alert
  payout_stuck missed_election : Alert
  validator_state not_elected : Alert

-- `io` says of each statement to come whether the database refuses it (`true`), as a locked or
-- full file does; when it is used up, all go through.
pub record World : Type 0 where
  pub tables : Tables
  pub io : List Bool
  pub fee_floor_alerted : List ℕ
  pub balance_hold_alerted : List ℕ
  pub alerts : List Alert
  pub broadcast : List Payout
  pub actions_sent : List SentAction

abbrev pub M {ℓ} : Type ℓ → Type ℓ
M A = World → Result A × World

-- What follows a step, from how the step ended.
abbrev pub after {ℓ κ} : {A : Type ℓ} {B : Type κ} → (A → M B) → Result A × World → Result B × World
after f (ok a, w) = f a w
after f (err e, w) = (err e, w)

infixl 5 ◌>>=◌ ◌>>◌
abbrev pub ◌>>=◌ {ℓ κ} : {A : Type ℓ} {B : Type κ} → M A → (A → M B) → M B
◌>>=◌ m f w = after f (m w)

abbrev pub ◌>>◌ {ℓ κ} : {A : Type ℓ} {B : Type κ} → M A → M B → M B
m >> k = m >>= λ _. k

abbrev pub pure {ℓ} : {A : Type ℓ} → A → M A
pure a w = (ok a, w)

abbrev pub raise {ℓ} : {A : Type ℓ} → Error → M A
raise e w = (err e, w)

abbrev pub done : M (Unit {0})
done = pure tt

-- The caller looks at the error instead of returning it.
abbrev pub try {ℓ} : {A : Type ℓ} → M A → M (Result A)
try m w = let (r, w') = m w in (ok r, w')

-- The answer of a call into the chain's RPC client; `none` is an error.
abbrev pub or_raise {ℓ} : {A : Type ℓ} → Option A → Error → M A
or_raise none e = raise e
or_raise (some a) _ = pure a

pub or_raise-some {ℓ} :
    {A : Type ℓ} (o : Option A) (e : Error) (w : World) {a : A}
    → o ≡ some a
    → or_raise o e w ≡ (ok a, w)
or_raise-some o e w h = ap (λ x. or_raise x e w) h

abbrev pub modify : (World → World) → M (Unit {0})
modify f w = (ok tt, f w)

abbrev pub gets {ℓ} : {A : Type ℓ} → (World → A) → M A
gets f w = (ok (f w), w)

abbrev pub send_alert : Alert → M (Unit {0})
send_alert a = modify (λ w. record w { alerts = w.alerts ++ a ∷ [] })

-- A step that returned, or failed, with what follows it.
pub >>=-ok {ℓ κ} :
    {A : Type ℓ} {B : Type κ} (m : M A) (f : A → M B) (w : World) {a : A} {w' : World}
    → m w ≡ (ok a, w')
    → (m >>= f) w ≡ f a w'
>>=-ok m f w h = ap (after f) h

pub >>=-err {ℓ κ} :
    {A : Type ℓ} {B : Type κ} (m : M A) (f : A → M B) (w : World) {e : Error} {w' : World}
    → m w ≡ (err e, w')
    → (m >>= f) w ≡ (err e, w')
>>=-err m f w h = ap (after f) h

after-inv {ℓ κ} :
    {A : Type ℓ} {B : Type κ} (f : A → M B) (r : Result A × World) {b : B}
    → (after f r).0 ≡ ok b
    → (a : A) × (w' : World) × (r ≡ (ok a, w')) × (after f r ≡ f a w')
after-inv f (ok a, w') h = (a, w', refl, refl)
after-inv f (err e, w') h = cc

-- What succeeded as a whole succeeded in its first step.
pub >>=-inv {ℓ κ} :
    {A : Type ℓ} {B : Type κ} (m : M A) (f : A → M B) (w : World) {b : B}
    → ((m >>= f) w).0 ≡ ok b
    → (a : A) × (w' : World) × (m w ≡ (ok a, w')) × ((m >>= f) w ≡ f a w')
>>=-inv m f w h = after-inv f (m w) h

-- The outcome of the next statement, and the outcomes behind it.
abbrev pub refused : List Bool → Bool
refused [] = false
refused (b ∷ _) = b

abbrev pub later : List Bool → List Bool
later [] = []
later (_ ∷ bs) = bs

-- What a statement that reached the database comes to; `none` is a violated constraint, which
-- leaves the tables alone.
abbrev pub settle {ℓ} : {A : Type ℓ} → Option (A × Tables) → World → Result A × World
settle none w = (err sql, w)
settle (some (a, t)) w = (ok a, record w { tables = t })

-- One SQL statement.
unfoldable pub stmt {ℓ} : {A : Type ℓ} → (Tables → Option (A × Tables)) → M A
stmt f w =
    let w' = record w { io = later w.io } in
    if refused w.io then (err sql, w') else settle (f w.tables) w'

unfoldable pub query {ℓ} : {A : Type ℓ} → (Tables → A) → M A
unfolding stmt
query f = stmt (λ t. some (f t, t))

unfoldable pub exec : (Tables → Tables) → M (Unit {0})
unfolding stmt
exec f = stmt (λ t. some (tt, f t))

-- The end of `InTx`: a commit that fails and an error of the body both roll the tables back.
abbrev pub finish {ℓ} : {A : Type ℓ} → Tables → Result A → M A
finish before (err e) w = (err e, record w { tables = before })
finish before (ok a) w =
    let w' = record w { io = later w.io } in
    if refused w.io then (err sql, record w' { tables = before }) else (ok a, w')

-- `Queries.InTx`: begin, run the body, commit or roll back.
unfoldable pub in_tx {ℓ} : {A : Type ℓ} → M A → M A
in_tx body w =
    let w' = record w { io = later w.io } in
    if refused w.io then (err sql, w') else let (r, w'') = body w' in finish w.tables r w''
