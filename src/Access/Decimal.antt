-- ===== src/Access/Decimal.antt =====
-- Decimal numbers as `strconv.FormatInt` and `strconv.ParseInt` write and read them, for the expiry
-- of a session (internal/api/auth.go).
use go_pool.Prelude.{
  ℕ, zero, suc, ◌+◌, ◌-◌, ◌*◌, ◌/◌, ◌%◌, ◌≤◌, ◌<◌, ◌≡◌, ◌∙◌, inl, inr, arith, List, [], ◌∷◌, Option,
  none, some, Bool, true, false, ltb, ◌==◌, if◌then◌else◌, All, Bool-cases,
}

-- The largest int64.
abbrev pub max_i64 : ℕ
max_i64 = 9223372036854775807

-- The digits of a number in front of a text; each round divides by ten.
unfoldable pub digits : ℕ → ℕ → List ℕ → List ℕ
digits zero n out = out
digits (suc k) n out = if ltb n 10 then (48 + n) ∷ out else digits k (n / 10) ((48 + n % 10) ∷ out)

-- `FormatInt(n, 10)`; there are fewer rounds than the number says.
abbrev pub format_int : ℕ → List ℕ
format_int n = digits (suc n) n []

abbrev pub is_digit : ℕ → Bool
is_digit c = if ltb c 48 then false else ltb c 58

unfoldable pub read_digits : List ℕ → ℕ → Option ℕ
read_digits [] n = some n
read_digits (c ∷ s) n =
    let m = n * 10 + (c - 48) in
    if is_digit c then (if ltb max_i64 m then none else read_digits s m) else none

-- `ParseInt(s, 10, 64)` where it is neither an error nor negative: a session that would expire
-- before 1970 is refused like one that cannot be read.
unfoldable pub parse_int : List ℕ → Option ℕ
unfolding read_digits
parse_int [] = none
parse_int (c ∷ s) =
    if c == 43 then elim s [ [] ↦ none | d ∷ t ↦ read_digits (d ∷ t) 0 ] else read_digits (c ∷ s) 0

read-digits :
    (k n : ℕ) (out : List ℕ)
    → n < k
    → n ≤ max_i64
    → read_digits (digits k n out) 0 ≡ read_digits out n
unfolding digits read_digits
read-digits zero n out h fits = absurd (omega arith)
read-digits (suc k) n out h fits = elim (Bool-cases (ltb n 10)) [
  | inl small ↦ rw small (ground arith)
  | inr large ↦
      let rest = read-digits k (n / 10) ((48 + n % 10) ∷ out) (ground arith) (ground arith) in
      rw large (rest ∙ ground arith)
]

-- What a printed number begins with.
abbrev IsPrinted : List ℕ → Type 0
IsPrinted [] = ⊥
IsPrinted (c ∷ _) = is_digit c ≡ true

digits-IsPrinted : (k n : ℕ) (out : List ℕ) → n < k → IsPrinted (digits k n out)
unfolding digits
digits-IsPrinted zero n out h = absurd (omega arith)
digits-IsPrinted (suc k) n out h = elim (Bool-cases (ltb n 10)) [
  | inl small ↦ rw small (ground arith)
  | inr large ↦ rw large (digits-IsPrinted k (n / 10) ((48 + n % 10) ∷ out) (ground arith))
]

IsPrinted-parse : (s : List ℕ) → IsPrinted s → parse_int s ≡ read_digits s 0
unfolding parse_int
IsPrinted-parse [] h = absurd h
IsPrinted-parse (c ∷ s) h = ground arith

-- A number that is printed is read back.
pub parse-format : (n : ℕ) → n ≤ max_i64 → parse_int (format_int n) ≡ some n
unfolding read_digits
parse-format n fits =
    IsPrinted-parse (format_int n) (digits-IsPrinted (suc n) n [] (omega arith))
    ∙ read-digits (suc n) n [] (omega arith) fits

-- A printed number has only digits.
pub digits-All :
    (k n : ℕ) (out : List ℕ)
    → n < k
    → All (λ c. is_digit c ≡ true) out
    → All (λ c. is_digit c ≡ true) (digits k n out)
unfolding digits
digits-All zero n out h a = absurd (omega arith)
digits-All (suc k) n out h a = elim (Bool-cases (ltb n 10)) [
  | inl small ↦ rw small (ground arith, a)
  | inr large ↦
      rw large (digits-All k (n / 10) ((48 + n % 10) ∷ out) (ground arith) (ground arith, a))
]
