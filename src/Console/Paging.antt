-- ===== src/Console/Paging.antt =====
-- Pages that follow each other.
use go_pool.Prelude.{
  ℕ, zero, suc, ◌+◌, ◌≤◌, ◌<◌, ◌≡◌, refl, sym, ap, ◌∙◌, arith, List, [], ◌∷◌, ◌++◌, true, false,
  ltb, length,
}
use go_pool.Console.{take, drop, page}

module _ {ℓ} {A : Type ℓ} where
  pub take-drop : (n : ℕ) (xs : List A) → take n xs ++ drop n xs ≡ xs
  take-drop zero xs = refl
  take-drop (suc n) [] = refl
  take-drop (suc n) (x ∷ xs) = ap (λ ys. x ∷ ys) (take-drop n xs)

  drop-empty : (n : ℕ) → drop {A = A} n [] ≡ []
  drop-empty zero = refl
  drop-empty (suc n) = refl

  pub drop-drop : (m n : ℕ) (xs : List A) → drop n (drop m xs) ≡ drop (m + n) xs
  drop-drop zero n xs = let e : n ≡ 0 + n = omega arith in ap (λ k. drop k xs) e
  drop-drop (suc m) n [] = drop-empty n ∙ sym (drop-empty (suc m + n))
  drop-drop (suc m) n (x ∷ xs) =
      let e : suc (m + n) ≡ suc m + n = omega arith in
      drop-drop m n xs ∙ ap (λ k. drop k (x ∷ xs)) e

  take-take : (n : ℕ) (xs : List A) → take n (take (suc n) xs) ≡ take n xs
  take-take zero xs = refl
  take-take (suc n) [] = refl
  take-take (suc n) (x ∷ xs) = ap (λ ys. x ∷ ys) (take-take n xs)

  -- Fetching one row more than the limit shows whether a row follows.
  length-fetched : (n : ℕ) (xs : List A) → ltb n (length (take (suc n) xs)) ≡ ltb n (length xs)
  length-fetched zero [] = refl
  length-fetched zero (x ∷ xs) = ground arith
  length-fetched (suc n) [] = ground arith
  length-fetched (suc n) (x ∷ xs) = ground (arith, length-fetched n xs)

  take-all : (n : ℕ) (xs : List A) → length xs ≤ n → take n xs ≡ xs
  take-all zero [] h = refl
  take-all zero (x ∷ xs) h = absurd (omega arith)
  take-all (suc n) [] h = refl
  take-all (suc n) (x ∷ xs) h = ap (λ ys. x ∷ ys) (take-all n xs (omega arith))

  length-take : (n : ℕ) (xs : List A) → n ≤ length xs → length (take n xs) ≡ n
  length-take zero xs h = refl
  length-take (suc n) [] h = absurd (omega arith)
  length-take (suc n) (x ∷ xs) h = omega (arith, length-take n xs (omega arith))

  pub length-drop : (n : ℕ) (xs : List A) → n ≤ length xs → n + length (drop n xs) ≡ length xs
  length-drop zero xs h = omega arith
  length-drop (suc n) [] h = absurd (omega arith)
  length-drop (suc n) (x ∷ xs) h = omega (arith, length-drop n xs (omega arith))

  -- The page at a cursor has the first rows there, and says whether there are more.
  pub page-last :
      (limit cursor : ℕ) (rows : List A)
      → length (drop cursor rows) ≤ limit
      → ((page limit cursor rows).items ≡ drop cursor rows)
        × ((page limit cursor rows).has_more ≡ false)
  unfolding page
  page-last limit cursor rows small =
      let over : ltb limit (length (take (suc limit) (drop cursor rows))) ≡ false =
        length-fetched limit (drop cursor rows) ∙ ground arith in
      (rw over (take-all (suc limit) (drop cursor rows) (omega arith)), over)

  pub page-more :
      (limit cursor : ℕ) (rows : List A)
      → limit < length (drop cursor rows)
      → ((page limit cursor rows).items ≡ take limit (drop cursor rows))
        × ((page limit cursor rows).next_cursor ≡ cursor + limit)
        × ((page limit cursor rows).has_more ≡ true)
  unfolding page
  page-more limit cursor rows large =
      let there = drop cursor rows in
      let over : ltb limit (length (take (suc limit) there)) ≡ true =
        length-fetched limit there ∙ ground arith in
      let items : take limit (take (suc limit) there) ≡ take limit there = take-take limit there in
      (
        rw over items,
        rw over (
            ap (λ xs. cursor + length xs) items
            ∙ ap (λ n. cursor + n) (length-take limit there (omega arith))),
        over,
      )
