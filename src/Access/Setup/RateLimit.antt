-- ===== src/Access/Setup/RateLimit.antt =====
-- How often a wrong set-up token can be tried (`handleSetupSession` in internal/api/setup_auth.go).
use go_pool.Prelude.{
  ℕ, ◌+◌, ◌≤◌, ◌<◌, ◌≡◌, refl, inl, inr, arith, List, [], ◌∷◌, ◌++◌, Bool, true, false, ◌&&◌, ◌==◌,
  leb, if◌then◌else◌, All, length, keep, Bool-cases,
}
use go_pool.Access.Setup.{
  SetupState, SetupAnswer, Attempt, recent, invalid_token, forget_old, note_failure, open_session,
  handle_setup_session,
}

abbrev pub is_invalid_token : SetupAnswer → Bool
is_invalid_token invalid_token = true
is_invalid_token _ = false

-- How many wrong tokens from an address are looked at, one request after the other.
unfoldable pub tried : ℕ → List Attempt → SetupState → ℕ
tried ip [] s = 0
tried ip (a ∷ rest) s =
    (if a.ip == ip && is_invalid_token (handle_setup_session a s).0 then 1 else 0)
    + tried ip rest (handle_setup_session a s).1

-- Within a minute, and from an address no right token.
abbrev pub IsWrongWithin : ℕ → ℕ → Attempt → Type 0
IsWrongWithin ip start a = (start ≤ a.now) × (a.now < start + 60) × (a.ip ≡ ip → a.is_right ≡ false)

since : ℕ → List ℕ → ℕ
since start ts = length (keep (λ t. leb start t) ts)

since-recent :
    (start now : ℕ) (ts : List ℕ) → now < start + 60 → since start (recent now ts) ≡ since start ts
unfolding since
since-recent start now [] h = refl
since-recent start now (t ∷ ts) h = ground (arith, since-recent start now ts h)

since-length : (start : ℕ) (ts : List ℕ) → since start ts ≤ length ts
unfolding since
since-length start [] = omega arith
since-length start (t ∷ ts) = ground (arith, since-length start ts)

since-append :
    (start now : ℕ) (ts : List ℕ) → start ≤ now → since start (ts ++ now ∷ []) ≡ since start ts + 1
unfolding since
since-append start now [] h = ground arith
since-append start now (t ∷ ts) h = ground (arith, since-append start now ts h)

-- An attempt that is looked at adds a failure, and there are never more than five.
attempt_lem :
    (ip start : ℕ) (a : Attempt) (s : SetupState)
    → IsWrongWithin ip start a
    → since start (s.failures ip) ≤ 5
    → let (r, s') = handle_setup_session a s in
      ((if a.ip == ip && is_invalid_token r then 1 else 0) + since start (s.failures ip)
        ≤ since start (s'.failures ip))
      × (since start (s'.failures ip) ≤ 5)
unfolding handle_setup_session forget_old note_failure open_session
attempt_lem ip start a s (low, high, wrong) five =
    let same = since-recent start a.now (s.failures a.ip) high in
    let fits = since-length start (recent a.now (s.failures a.ip)) in
    let added = since-append start a.now (recent a.now (s.failures a.ip)) low in
    elim (Bool-cases (a.ip == ip)) [
      | inr other ↦ ground arith
      | inl here ↦ let e : a.ip ≡ ip = ground arith in let no_right = wrong e in ground arith
    ]

tried-bounded :
    (ip start : ℕ) (attempts : List Attempt) (s : SetupState)
    → All (IsWrongWithin ip start) attempts
    → since start (s.failures ip) ≤ 5
    → tried ip attempts s + since start (s.failures ip) ≤ 5
unfolding tried
tried-bounded ip start [] s h five = omega arith
tried-bounded ip start (a ∷ rest) s h five =
    let (more, still) = attempt_lem ip start a s h.0 five in
    let others = tried-bounded ip start rest (handle_setup_session a s).1 h.1 still in omega arith

-- Let no failures be noted yet, and let requests come one after the other, within a minute. If none
-- from an address has the right token, at most five tokens from that address are looked at; requests
-- from other addresses may come in between.
pub tried-rate_limited :
    (ip start : ℕ) (attempts : List Attempt) (s : SetupState)
    → s.failures ip ≡ []
    → All (IsWrongWithin ip start) attempts
    → tried ip attempts s ≤ 5
unfolding since
tried-rate_limited ip start attempts s none_yet h =
    let none_since : since start (s.failures ip) ≡ 0 = rw none_yet refl in
    let bound = tried-bounded ip start attempts s h (omega arith) in omega arith
