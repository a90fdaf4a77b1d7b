-- ===== src/Access/Sessions.antt =====
-- Session tokens (`issueSession`, `parseSession` and `requireSession` in internal/api/auth.go).
use go_pool.Prelude.{
  ℕ, ◌+◌, ◌≤◌, ◌≡◌, refl, ◌∙◌, ap, inl, inr, arith, List, [], ◌∷◌, ◌++◌, Option, none, some, Bool,
  true, false, ◌==◌, ltb, if◌then◌else◌, All, Bool-cases, ==_refl,
}
use go_pool.Access.{session_ttl}
use go_pool.Access.Decimal.{max_i64, format_int, parse_int, is_digit, digits-All, parse-format}

-- What sessions call: addresses of the nimiq library, the message authentication code under the
-- `SessionSecret` of the configuration, and base64.
pub record Tokens : Type 0 where
  pub compact : ℕ → List ℕ
  pub parse_address : List ℕ → Option ℕ
  pub mac : List ℕ → ℕ
  pub encode : ℕ → List ℕ
  pub decode : List ℕ → Option ℕ

-- The code of ".".
abbrev pub dot : ℕ
dot = 46

-- What precedes the first ".", and what follows it.
abbrev pub cut : List ℕ → List ℕ × Option (List ℕ)
cut [] = ([], none)
cut (c ∷ s) = let (before, rest) = cut s in if c == dot then ([], some s) else (c ∷ before, rest)

-- `strings.SplitN(token, ".", 3)` where it has three parts.
abbrev pub second_cut : List ℕ → List ℕ × Option (List ℕ) → Option (List ℕ × List ℕ × List ℕ)
second_cut p (q, none) = none
second_cut p (q, some rest) = some (p, q, rest)

abbrev pub first_cut : List ℕ × Option (List ℕ) → Option (List ℕ × List ℕ × List ℕ)
first_cut (p, none) = none
first_cut (p, some rest) = second_cut p (cut rest)

unfoldable pub split_token : List ℕ → Option (List ℕ × List ℕ × List ℕ)
split_token token = first_cut (cut token)

pub data SessionError : Type 0 where
  malformed bad_signature expired bad_address : SessionError

pub data Parsed : Type 0 where
  session_of : ℕ → Parsed
  refused_for : SessionError → Parsed

-- `issueSession`.
unfoldable pub issue_session : Tokens → ℕ → ℕ → List ℕ
issue_session t now addr =
    let payload = t.compact addr ++ dot ∷ format_int (now + session_ttl) in
    payload ++ dot ∷ t.encode (t.mac payload)

abbrev pub signed_by : ℕ → Option ℕ → Bool
signed_by want none = false
signed_by want (some got) = want == got

abbrev pub check_address : Option ℕ → Parsed
check_address none = refused_for bad_address
check_address (some addr) = session_of addr

abbrev pub check_expiry : ℕ → Option ℕ → Parsed → Parsed
check_expiry now none next = refused_for expired
check_expiry now (some exp) next = if ltb exp now then refused_for expired else next

abbrev pub check_parts : Tokens → ℕ → Option (List ℕ × List ℕ × List ℕ) → Parsed
check_parts t now none = refused_for malformed
check_parts t now (some (addr, exp, signature)) =
    if signed_by (t.mac (addr ++ dot ∷ exp)) (t.decode signature)
    then check_expiry now (parse_int exp) (check_address (t.parse_address addr))
    else refused_for bad_signature

-- `parseSession`.
unfoldable pub parse_session : Tokens → ℕ → List ℕ → Parsed
unfolding split_token
parse_session t now token = check_parts t now (split_token token)

-- `requireSession` with the cookie of a request: the address that the handler sees, or 401.
abbrev pub address_of : Parsed → Option ℕ
address_of (session_of addr) = some addr
address_of (refused_for _) = none

unfoldable pub require_session : Tokens → ℕ → Option (List ℕ) → Option ℕ
require_session t now none = none
require_session t now (some token) = address_of (parse_session t now token)

-- A text without ".".
abbrev pub HasNoDot : List ℕ → Type 0
HasNoDot s = All (λ c. (c == dot) ≡ false) s

cut-append : (a b : List ℕ) → HasNoDot a → cut (a ++ dot ∷ b) ≡ (a, some b)
cut-append [] b h = refl
cut-append (c ∷ a) b h = rw h.0 (ap (λ x. (c ∷ x.0, x.1)) (cut-append a b h.1))

append_assoc : (a b c : List ℕ) → (a ++ b) ++ c ≡ a ++ (b ++ c)
append_assoc [] b c = refl
append_assoc (x ∷ a) b c = ap (λ s. x ∷ s) (append_assoc a b c)

digits-HasNoDot : (s : List ℕ) → All (λ c. is_digit c ≡ true) s → HasNoDot s
digits-HasNoDot [] h = tt
digits-HasNoDot (c ∷ s) h = (ground (arith, h.0), digits-HasNoDot s h.1)

-- The three parts of a token are found again.
split-token :
    (a e s : List ℕ)
    → HasNoDot a
    → HasNoDot e
    → split_token ((a ++ dot ∷ e) ++ dot ∷ s) ≡ some (a, e, s)
unfolding split_token
split-token a e s no_a no_e =
    ap (λ x. first_cut (cut x)) (append_assoc a (dot ∷ e) (dot ∷ s))
    ∙ (ap first_cut (cut-append a (e ++ dot ∷ s) no_a) ∙ ap (second_cut a) (cut-append e s no_e))

-- Let addresses be written without "." and be read back, and let base64 be decoded as it was
-- encoded. A token that was issued for an address is accepted for that address, and for no other,
-- up to and including the second in which it expires, and is refused afterwards.
pub require_session-issue :
    (t : Tokens) (addr now later : ℕ)
    → HasNoDot (t.compact addr)
    → t.parse_address (t.compact addr) ≡ some addr
    → ((m : ℕ) → t.decode (t.encode m) ≡ some m)
    → now + session_ttl ≤ max_i64
    → require_session t later (some (issue_session t now addr))
      ≡ (if ltb (now + session_ttl) later then none else some addr)
unfolding require_session parse_session issue_session
require_session-issue t addr now later no_dot address base64 fits =
    let exp = format_int (now + session_ttl) in
    let payload = t.compact addr ++ dot ∷ exp in
    let only_digits = digits-HasNoDot exp (digits-All _ (now + session_ttl) [] (omega arith) tt) in
    let parts = split-token (t.compact addr) exp (t.encode (t.mac payload)) no_dot only_digits in
    let same : (t.mac payload == t.mac payload) ≡ true = ==_refl (t.mac payload) in
    rw parts (
      rw (base64 (t.mac payload)) (
        rw same (
          rw (parse-format (now + session_ttl) fits) (
            rw address (elim (Bool-cases (ltb (now + session_ttl) later)) [
              | inl late ↦ rw late refl
              | inr in_time ↦ rw in_time refl
            ])))))
