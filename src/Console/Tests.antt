-- ===== src/Console/Tests.antt =====
-- The console on a few rows.
use go_pool.Prelude.{ℕ, ◌≡◌, arith, some, List, [], ◌∷◌, keep}
use go_pool.Settings.{codes}
use go_pool.Console.Activity.{
  OperatorEvent, first_query, browse, browse-whole, newest_first, passes_filter,
}

abbrev event : ℕ → OperatorEvent
event n = record { id = n; severity = codes "info"; category = codes "operator"; summary = [] }

abbrev events : List OperatorEvent
events = event 1 ∷ record (event 2) { severity = codes "error" } ∷ event 3 ∷ []

browse-whole_example :
    browse 4 (first_query (codes "info") [] (codes "1")) events
    ≡ some (keep (passes_filter (codes "info") []) (newest_first events))
browse-whole_example =
    browse-whole 4 (codes "info") [] (codes "1") events (omega arith) (omega arith)
