-- ===== src/Settings/Live/Operators.antt =====
-- Who passes as an operator under the addresses that `ValidateAPI` has read (internal/config/config.go
-- with internal/api/operator_handlers.go).
use mathlib.Core.Path.{subst}
use go_pool.Prelude.{
  ℕ, ◌≡◌, refl, ap, ◌∙◌, List, [], ◌∷◌, ◌++◌, Option, none, some, Bool, true, false, not, ◌&&◌,
  ◌||◌, ◌==◌, if◌then◌else◌, All, any_of,
}
use go_pool.Access.Operator.{
  text_equal, trim_space, split_commas, split_commas-listing, HasNoComma, listing, is_listed,
  is_operator_allowed, require_operator, granted, forbidden, listing_lem, comma,
}
use go_pool.Settings.{Config, is_set}
use go_pool.Settings.Validation.{
  Parsers, Checked, normalized, refused_as, validate_api, operators_of, put_operator, join_commas,
  Invalid, with_operators, with_validator, api_addr, session_secret, validator_address,
}

-- What the nimiq library does: an address is written without commas and without spaces around it, and
-- no two addresses are written alike.
abbrev WritesAddresses : Parsers → Type 0
WritesAddresses p =
    ((a : ℕ) → HasNoComma (p.show a))
    × ((a : ℕ) → trim_space (p.show a) ≡ p.show a)
    × ((a : ℕ) → is_set (p.show a) ≡ true)
    × ((a b : ℕ) → text_equal (p.show a) (p.show b) ≡ (a == b))

abbrev is_address : ℕ → Option ℕ → Bool
is_address a none = false
is_address a (some b) = b == a

-- A part of `operator_addresses` is this address, in any of the ways that it can be written.
abbrev pub names : Parsers → ℕ → List ℕ → Bool
names p a part = let s = trim_space part in is_set s && is_address a (p.parse_address s)

-- The texts have no commas, and the address is one of them exactly if it was named.
abbrev Shown : Parsers → ℕ → Bool → Option (List (List ℕ)) → Type 0
Shown p a named none = Unit
Shown p a named (some ops) = All HasNoComma ops × (any_of (is_listed (p.show a)) ops ≡ named)

put-Shown :
    (p : Parsers)
    → WritesAddresses p
    → (a : ℕ) (named filled : Bool) (parsed : Option ℕ) (rest : Option (List (List ℕ)))
    → Shown p a named rest
    → Shown p a
        (filled && is_address a parsed || named)
        (if filled then put_operator p parsed rest else rest)
put-Shown p w a named false parsed rest h = h
put-Shown p w a named true none rest h = tt
put-Shown p w a named true (some b) none h = tt
put-Shown p (comma, trims, full, alike) a named true (some b) (some ops) (plain, listed) =
    ((comma b, plain), rw (trims b, alike b a, listed) refl)

operators_of-Shown :
    (p : Parsers)
    → WritesAddresses p
    → (a : ℕ) (parts : List (List ℕ)) → Shown p a (any_of (names p a) parts) (operators_of p parts)
unfolding operators_of
operators_of-Shown p w a [] = (tt, refl)
operators_of-Shown p w a (part ∷ parts) =
    let s = trim_space part in
    put-Shown p w a (any_of (names p a) parts) (is_set s) (p.parse_address s) (operators_of p parts)
      (operators_of-Shown p w a parts)

join-listing : (s : List ℕ) (ss : List (List ℕ)) → join_commas (s ∷ ss) ≡ listing s ss
join-listing s [] = refl
join-listing s (t ∷ ts) = ap (λ rest. s ++ comma ∷ rest) (join-listing t ts)

pub unequal-empty : (addr : List ℕ) → is_set addr ≡ true → text_equal [] addr ≡ false
unequal-empty [] full = cc
unequal-empty (c ∷ addr) full = refl

allowed-joined :
    (addr : List ℕ) (ops : List (List ℕ))
    → is_set addr ≡ true
    → All HasNoComma ops
    → is_operator_allowed (join_commas ops) addr ≡ any_of (is_listed addr) ops
unfolding is_operator_allowed
allowed-joined addr [] full plain = refl
allowed-joined addr (s ∷ ss) full plain =
    ap (λ text. is_operator_allowed text addr) (join-listing s ss)
    ∙ listing_lem addr (listing s ss) (unequal-empty addr full)
    ∙ ap (any_of (is_listed addr)) (split_commas-listing s ss plain.0 plain.1)

-- What `ValidateAPI` returns has the validator and the operators of what it was given.
abbrev Normal : Parsers → Config → Checked → Type 0
Normal p c (refused_as _) = Unit
Normal p c (normalized d) =
    (v : ℕ) × (ops : List (List ℕ)) × (p.parse_address c.shown.validator_address ≡ some v)
    × (operators_of p (split_commas c.shown.operator_addresses) ≡ some ops)
    × (d.shown.validator_address ≡ p.show v)
    × (d.shown.operator_addresses ≡ join_commas ops)

unless-Normal :
    (p : Parsers) (c : Config) (b : Bool) (reason : Invalid) (x : Checked)
    → Normal p c x
    → Normal p c (if b then refused_as reason else x)
unless-Normal p c true reason x h = tt
unless-Normal p c false reason x h = h

with_operators-Normal :
    (p : Parsers) (c : Config) (v : ℕ)
    → p.parse_address c.shown.validator_address ≡ some v
    → (o : Option (List (List ℕ))) → operators_of p (split_commas c.shown.operator_addresses) ≡ o
    → Normal p c (with_operators c (p.show v) o)
with_operators-Normal p c v found none h = tt
with_operators-Normal p c v found (some ops) h = (v, ops, found, h, refl, refl)

with_validator-Normal :
    (p : Parsers) (c : Config) (o : Option ℕ)
    → p.parse_address c.shown.validator_address ≡ o
    → Normal p c (with_validator p c o)
with_validator-Normal p c none h = tt
with_validator-Normal p c (some v) h =
    with_operators-Normal p c v h (operators_of p (split_commas c.shown.operator_addresses)) refl

validate_api-Normal : (p : Parsers) (c : Config) → Normal p c (validate_api p c)
unfolding validate_api
validate_api-Normal p c = unless-Normal p c (not (is_set c.shown.api_addr)) api_addr _ (
    unless-Normal p c (not (is_set (trim_space c.session_secret))) session_secret _ (
      unless-Normal p c (not (is_set c.shown.validator_address)) validator_address _
        (with_validator-Normal p c (p.parse_address c.shown.validator_address) refl)))

-- Let `ValidateAPI` accept a configuration. Under what it returns, someone who is logged in gets
-- through as an operator exactly if the address is the one that the validator's field names, or the
-- one that a part of the operators' field names, in whichever way they write it. The library is
-- assumed to write an address without commas and without spaces around it, not empty, and no two
-- addresses alike.
pub validate_api-operators :
    (p : Parsers) (c d : Config) (a : ℕ)
    → WritesAddresses p
    → validate_api p c ≡ normalized d
    → (v : ℕ) × (p.parse_address c.shown.validator_address ≡ some v)
      × (require_operator d.shown.validator_address d.shown.operator_addresses (some (p.show a)) ≡ (
          if a == v || any_of (names p a) (split_commas c.shown.operator_addresses)
          then granted
          else forbidden))
unfolding require_operator
validate_api-operators p c d a w h =
    let parts = split_commas c.shown.operator_addresses in
    let (v, ops, found, read, validator, operators) =
      subst (Normal p c) h (validate_api-Normal p c) in
    let (plain, listed) =
      subst (Shown p a (any_of (names p a) parts)) read (operators_of-Shown p w a parts) in
    let (comma, trims, full, alike) = w in
    let allowed : is_operator_allowed d.shown.operator_addresses (p.show a)
        ≡ any_of (names p a) parts =
      ap (λ text. is_operator_allowed text (p.show a)) operators
      ∙ allowed-joined (p.show a) ops (full a) plain
      ∙ listed in
    let is_validator : text_equal (p.show a) d.shown.validator_address ≡ (a == v) =
      ap (text_equal (p.show a)) validator ∙ alike a v in
    (v, found, rw (is_validator, allowed) refl)
