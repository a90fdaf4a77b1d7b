-- ===== src/Console.antt =====
-- The operator's console: the lists, the overview and the telemetry of the HTTP API
-- (internal/api/operator_overview_handlers.go, internal/api/operator_operations_handlers.go). A list
-- that is displayed is a function of the rows of its table.
pub mod Paging
pub mod Activity
pub mod Overview
pub mod Telemetry
mod Tests
use go_pool.Prelude.{
  ℕ, zero, suc, ◌+◌, List, [], ◌∷◌, ◌++◌, Option, none, some, Bool, true, false, not, ◌&&◌, ◌||◌,
  ltb, leb, if◌then◌else◌, length, keep,
}
use go_pool.Access.Decimal.{parse_int}

abbrev pub take {ℓ} : {A : Type ℓ} → ℕ → List A → List A
take zero xs = []
take (suc n) [] = []
take (suc n) (x ∷ xs) = x ∷ take n xs

abbrev pub drop {ℓ} : {A : Type ℓ} → ℕ → List A → List A
drop zero xs = xs
drop (suc n) [] = []
drop (suc n) (x ∷ xs) = drop n xs

-- `LIMIT ? OFFSET ?`.
abbrev pub limit_offset {ℓ} : {A : Type ℓ} → ℕ → ℕ → List A → List A
limit_offset limit offset rows = take limit (drop offset rows)

-- The parameter `limit` of a request: 50 unless it is a number from 1 to 100.
abbrev pub limit_from : Option ℕ → ℕ
limit_from none = 50
limit_from (some v) = if ltb 0 v && leb v 100 then v else 50

unfoldable pub page_limit : List ℕ → ℕ
page_limit s = limit_from (parse_int s)

-- The parameter `cursor`: 0 unless it is a number. `parse_int` reads as `Atoi` does where that is
-- neither an error nor negative.
abbrev pub cursor_from : Option ℕ → ℕ
cursor_from none = 0
cursor_from (some v) = v

unfoldable pub page_cursor : List ℕ → ℕ
page_cursor s = cursor_from (parse_int s)

-- A page: its rows, the cursor behind them, and whether a row follows.
pub record Page {ℓ} (A : Type ℓ) : Type ℓ where
  pub items : List A
  pub next_cursor : ℕ
  pub has_more : Bool

-- One row more than the limit is fetched, and is cut off again.
unfoldable pub page {ℓ} : {A : Type ℓ} → ℕ → ℕ → List A → Page A
page limit cursor rows =
    let fetched = limit_offset (suc limit) cursor rows in
    let has_more = ltb limit (length fetched) in
    let items = if has_more then take limit fetched else fetched in
    record { items = items; next_cursor = cursor + length items; has_more = has_more }
