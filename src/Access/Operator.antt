-- ===== src/Access/Operator.antt =====
-- Who is an operator (`requireOperator` and `isOperatorAllowed` in internal/api/operator_handlers.go,
-- `handleSession` in internal/api/auth.go). Text is a list of ASCII codes.
use go_pool.Prelude.{
  ℕ, ◌≡◌, ◌∙◌, refl, ap, arith, List, [], ◌∷◌, ◌++◌, Option, none, some, Bool, true, false, ◌&&◌,
  ◌||◌, ◌==◌, leb, if◌then◌else◌, All, any_of,
}

-- The codes of "," and " ".
abbrev pub comma : ℕ
comma = 44

abbrev pub blank : ℕ
blank = 32

abbrev pub text_equal : List ℕ → List ℕ → Bool
text_equal [] [] = true
text_equal (a ∷ s) (b ∷ t) = a == b && text_equal s t
text_equal _ _ = false

-- `unicode.IsSpace` of an ASCII code: blank, and tab to carriage return.
abbrev pub is_space : ℕ → Bool
is_space c = c == blank || (leb 9 c && leb c 13)

abbrev pub trim_left : List ℕ → List ℕ
trim_left [] = []
trim_left (c ∷ s) = let rest = trim_left s in if is_space c then rest else c ∷ s

-- A code in front of what is left of a text behind it: spaces at the end are dropped.
abbrev pub put_before : ℕ → List ℕ → List ℕ
put_before c [] = if is_space c then [] else c ∷ []
put_before c (d ∷ s) = c ∷ d ∷ s

abbrev pub trim_right : List ℕ → List ℕ
trim_right [] = []
trim_right (c ∷ s) = put_before c (trim_right s)

-- `strings.TrimSpace`.
abbrev pub trim_space : List ℕ → List ℕ
trim_space s = trim_left (trim_right s)

-- A code in front of the first part.
abbrev pub extend_first : ℕ → List (List ℕ) → List (List ℕ)
extend_first c [] = (c ∷ []) ∷ []
extend_first c (p ∷ ps) = (c ∷ p) ∷ ps

-- `strings.Split(s, ",")`.
abbrev pub split_commas : List ℕ → List (List ℕ)
split_commas [] = [] ∷ []
split_commas (c ∷ s) =
    let parts = split_commas s in if c == comma then [] ∷ parts else extend_first c parts

abbrev pub is_listed : List ℕ → List ℕ → Bool
is_listed addr part = text_equal (trim_space part) addr

-- `isOperatorAllowed`, for the `OperatorAddresses` of the configuration.
unfoldable pub is_operator_allowed : List ℕ → List ℕ → Bool
is_operator_allowed [] addr = false
is_operator_allowed (c ∷ operators) addr = any_of (is_listed addr) (split_commas (c ∷ operators))

pub data Access : Type 0 where
  granted forbidden not_logged_in : Access

-- `requireOperator`, for what `requireSession` finds.
unfoldable pub require_operator : List ℕ → List ℕ → Option (List ℕ) → Access
unfolding is_operator_allowed
require_operator validator operators none = not_logged_in
require_operator validator operators (some addr) =
    if text_equal addr validator || is_operator_allowed operators addr then granted else forbidden

-- The field "operator" of `handleSession`.
unfoldable pub session_operator : List ℕ → List ℕ → List ℕ → Bool
unfolding is_operator_allowed
session_operator validator operators addr =
    text_equal addr validator || is_operator_allowed operators addr

-- A text without a comma.
abbrev pub HasNoComma : List ℕ → Type 0
HasNoComma s = All (λ c. (c == comma) ≡ false) s

-- The configured addresses, one after the other.
abbrev pub listing : List ℕ → List (List ℕ) → List ℕ
listing p [] = p
listing p (q ∷ qs) = p ++ comma ∷ listing q qs

split-last : (p : List ℕ) → HasNoComma p → split_commas p ≡ p ∷ []
split-last [] h = refl
split-last (c ∷ p) h = rw h.0 (ap (extend_first c) (split-last p h.1))

split-comma : (p s : List ℕ) → HasNoComma p → split_commas (p ++ comma ∷ s) ≡ p ∷ split_commas s
split-comma [] s h = refl
split-comma (c ∷ p) s h = rw h.0 (ap (extend_first c) (split-comma p s h.1))

-- The parts of a listing are its addresses.
pub split_commas-listing :
    (p : List ℕ) (qs : List (List ℕ))
    → HasNoComma p
    → All HasNoComma qs
    → split_commas (listing p qs) ≡ p ∷ qs
split_commas-listing p [] h hs = split-last p h
split_commas-listing p (q ∷ qs) h hs =
    split-comma p (listing q qs) h ∙ ap (λ ps. p ∷ ps) (split_commas-listing q qs hs.0 hs.1)

pub listing_lem :
    (addr s : List ℕ)
    → text_equal (trim_space []) addr ≡ false
    → is_operator_allowed s addr ≡ any_of (is_listed addr) (split_commas s)
unfolding is_operator_allowed
listing_lem addr [] h = ground arith
listing_lem addr (c ∷ s) h = refl

-- Let the configured addresses be without commas. Someone who is logged in with an address that is
-- not empty gets through exactly if it is the validator's, or is one of the configured addresses up
-- to spaces around it; whether a session is shown as an operator's is the same decision.
pub require_operator-listed :
    (validator addr p : List ℕ) (qs : List (List ℕ))
    → text_equal [] addr ≡ false
    → HasNoComma p
    → All HasNoComma qs
    → let allowed = text_equal addr validator || any_of (is_listed addr) (p ∷ qs) in
      (require_operator validator (listing p qs) (some addr)
        ≡ (if allowed then granted else forbidden))
      × (session_operator validator (listing p qs) addr ≡ allowed)
unfolding require_operator session_operator
require_operator-listed validator addr p qs nonempty h hs =
    let e =
      listing_lem addr (listing p qs) nonempty
      ∙ ap (any_of (is_listed addr)) (split_commas-listing p qs h hs) in
    (
      ap (λ b. if text_equal addr validator || b then granted else forbidden) e,
      ap (λ b. text_equal addr validator || b) e,
    )
