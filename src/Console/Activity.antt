-- ===== src/Console/Activity.antt =====
-- The feed of events, of payouts and of actions (`handleOperatorActivity` of
-- internal/api/operator_overview_handlers.go, `handleOperatorPayouts` and `handleOperatorActions` of
-- internal/api/operator_operations_handlers.go), page by page.
use go_pool.Prelude.{
  ℕ, zero, suc, ◌+◌, ◌≤◌, ◌<◌, ◌≡◌, refl, sym, ap, ◌∙◌, arith, inl, inr, List, [], ◌∷◌, ◌++◌,
  Option, none, some, Bool, not, ◌&&◌, ◌||◌, ltb, if◌then◌else◌, length, keep, Bool-cases,
}
use go_pool.Access.Decimal.{max_i64, parse_int, format_int, parse-format}
use go_pool.Access.Operator.{text_equal}
use go_pool.Settings.{is_set}
use go_pool.Console.{take, drop, limit_from, cursor_from, page_limit, page_cursor, Page, page}
use go_pool.Console.Paging.{take-drop, drop-drop, length-drop, page-last, page-more}

-- A row of `operator_events`, less what no decision reads.
pub record OperatorEvent : Type 0 where
  pub id : ℕ
  pub severity : List ℕ
  pub category : List ℕ
  pub summary : List ℕ

-- `ORDER BY id DESC`, for rows in the order of insertion.
abbrev pub newest_first {ℓ} : {A : Type ℓ} → List A → List A
newest_first [] = []
newest_first (x ∷ xs) = newest_first xs ++ x ∷ []

-- The filter of `handleOperatorActivity`: an empty parameter lets everything through.
abbrev pub passes_filter : List ℕ → List ℕ → OperatorEvent → Bool
passes_filter severity category e =
    (not (is_set severity) || text_equal e.severity severity)
    && (not (is_set category) || text_equal e.category category)

-- The query of a request.
pub record ActivityQuery : Type 0 where
  pub severity : List ℕ
  pub category : List ℕ
  pub cursor : List ℕ
  pub limit : List ℕ

-- `handleOperatorActivity`, for the rows of the table, or `none` where the query fails: an error, or
-- the page. What is filtered out counts for the cursor.
unfoldable pub handle_operator_activity :
    ActivityQuery → Option (List OperatorEvent) → Option (Page OperatorEvent)
unfolding page_limit page_cursor page
handle_operator_activity q none = none
handle_operator_activity q (some events) =
    let p = page (page_limit q.limit) (page_cursor q.cursor) (newest_first events) in
    some (record p { items = keep (passes_filter q.severity q.category) p.items })

-- A client that asks for the page at the cursor of the page before, until no row follows; `none` if
-- the requests are used up and rows follow still, or one is refused.
abbrev then_items {ℓ} : {A : Type ℓ} → List A → Option (List A) → Option (List A)
then_items items none = none
then_items items (some rest) = some (items ++ rest)

abbrev items_and {ℓ} : {A : Type ℓ} → Option (Page A) → (ℕ → Option (List A)) → Option (List A)
items_and none next = none
items_and (some p) next =
    let rest = next p.next_cursor in if p.has_more then then_items p.items rest else some p.items

unfoldable pub browse : ℕ → ActivityQuery → List OperatorEvent → Option (List OperatorEvent)
browse zero q events = none
browse (suc n) q events =
    items_and (handle_operator_activity q (some events))
      (λ cursor. browse n (record q { cursor = format_int cursor }) events)

keep-append {ℓ} :
    {A : Type ℓ} (p : A → Bool) (xs ys : List A) → keep p (xs ++ ys) ≡ keep p xs ++ keep p ys
keep-append p [] ys = refl
keep-append p (x ∷ xs) ys = ground (arith, keep-append p xs ys)

limit_from-positive : (o : Option ℕ) → (0 < limit_from o)
limit_from-positive none = omega arith
limit_from-positive (some v) = ground arith

page_limit-positive : (s : List ℕ) → 0 < page_limit s
unfolding page_limit
page_limit-positive s = limit_from-positive (parse_int s)

-- What one round of a client gives, from the parts of the page.
abbrev round_of :
    ℕ
    → ActivityQuery
    → List OperatorEvent
    → List OperatorEvent
    → ℕ
    → Bool
    → Option (List OperatorEvent)
round_of n q events items next more =
    let shown = keep (passes_filter q.severity q.category) items in
    let rest = browse n (record q { cursor = format_int next }) events in
    if more then then_items shown rest else some shown

browse-round :
    (n cursor : ℕ) (q : ActivityQuery) (events : List OperatorEvent)
    → page_cursor q.cursor ≡ cursor
    → let p = page (page_limit q.limit) cursor (newest_first events) in
      browse (suc n) q events ≡ round_of n q events p.items p.next_cursor p.has_more
unfolding browse handle_operator_activity
browse-round n cursor q events at =
    ap
      (λ c.
        let p = page (page_limit q.limit) c (newest_first events) in
        round_of n q events p.items p.next_cursor p.has_more)
      at

cursor-printed : (n : ℕ) → n ≤ max_i64 → page_cursor (format_int n) ≡ n
unfolding page_cursor
cursor-printed n fits = ap cursor_from (parse-format n fits)

-- From a cursor on, enough rounds give what is behind it.
browse-from :
    (n cursor : ℕ) (q : ActivityQuery) (events : List OperatorEvent)
    → page_cursor q.cursor ≡ cursor
    → length (newest_first events) ≤ max_i64
    → cursor ≤ length (newest_first events)
    → length (drop cursor (newest_first events)) < n
    → browse n q events
      ≡ some (keep (passes_filter q.severity q.category) (drop cursor (newest_first events)))
browse-from zero cursor q events at small inside enough = absurd (omega arith)
browse-from (suc n) cursor q events at small inside enough =
    let rows = newest_first events in
    let there = drop cursor rows in
    let limit = page_limit q.limit in
    let f = passes_filter q.severity q.category in
    let positive = page_limit-positive q.limit in
    let p = page limit cursor rows in
    elim (Bool-cases (ltb limit (length there))) [
      | inr last ↦
          let (items, more) = page-last limit cursor rows (ground arith) in
          browse-round n cursor q events at ∙ λ i.
          round_of n q events (items i) p.next_cursor (more i)
      | inl follows ↦
          let (items, next, more) = page-more limit cursor rows (ground arith) in
          let ahead = length-drop cursor rows inside in
          let skipped = drop-drop cursor limit rows in
          let behind = length-drop limit there (ground arith) in
          let shorter : length (drop (cursor + limit) rows) < n =
            omega (arith, ap length skipped, behind) in
          let q' = record q { cursor = format_int (cursor + limit) } in
          let rest =
            browse-from n (cursor + limit) q' events
              (cursor-printed (cursor + limit) (ground arith)) small (ground arith) shorter in
          browse-round n cursor q events at
          ∙ (λ i. round_of n q events (items i) (next i) (more i))
          ∙ ap (then_items (keep f (take limit there)))
              (rest ∙ ap (λ r. some (keep f r)) (sym skipped))
          ∙ ap some (sym (keep-append f (take limit there) (drop limit there)))
          ∙ ap (λ r. some (keep f r)) (take-drop limit there)
    ]

-- The query of the first request.
abbrev pub first_query : List ℕ → List ℕ → List ℕ → ActivityQuery
first_query severity category limit = record {
  severity = severity;
  category = category;
  cursor = [];
  limit = limit;
}

-- A client that asks for the first page of the events, and then for the page at the cursor of the page
-- before until no row follows, comes to that end within any number of requests that is larger than
-- the number of events, if no event comes in between and no request is refused. It has then seen each
-- event that passes the filter of its request once, the newest first. The number of events is to
-- fit an int64.
pub browse-whole :
    (n : ℕ) (severity category limit : List ℕ) (events : List OperatorEvent)
    → length (newest_first events) ≤ max_i64
    → length (newest_first events) < n
    → browse n (first_query severity category limit) events
      ≡ some (keep (passes_filter severity category) (newest_first events))
unfolding page_cursor parse_int
browse-whole n severity category limit events small enough =
    browse-from n 0 (first_query severity category limit) events refl small (omega arith) enough
