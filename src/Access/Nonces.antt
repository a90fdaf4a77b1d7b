-- ===== src/Access/Nonces.antt =====
-- A login challenge is good for one login (`nonceStore` in internal/api/auth.go).
use go_pool.Prelude.{
  ℕ, ◌+◌, ◌≤◌, ◌≡◌, refl, inl, inr, arith, List, [], ◌∷◌, none, Bool, true, false, ◌&&◌, ◌==◌,
  if◌then◌else◌, any_of, Bool-cases,
}
use go_pool.Access.{
  NonceStore, delete_nonce, get_nonce, Library, issue, consume, VerifyRequest, LoginResponse,
  session_for, handle_auth_verify,
}

-- The calls that touch the store, with what was drawn and when.
pub data AuthCall : Type 0 where
  challenge_call : ℕ → ℕ → AuthCall
  verify_call : VerifyRequest → ℕ → AuthCall

abbrev pub is_session : LoginResponse → Bool
is_session (session_for _) = true
is_session _ = false

-- The store after a call.
unfoldable pub after_call : Library → AuthCall → NonceStore → NonceStore
after_call l (challenge_call nonce now) s = issue l nonce now s
after_call l (verify_call req now) s = (handle_auth_verify l req now s).1

-- Whether a call logs someone in with a nonce.
unfoldable pub logs_in : Library → ℕ → AuthCall → NonceStore → Bool
logs_in l n (challenge_call _ _) s = false
logs_in l n (verify_call req now) s =
    req.nonce == n && is_session (handle_auth_verify l req now s).0

abbrev pub is_challenge : ℕ → AuthCall → Bool
is_challenge n (challenge_call nonce _) = nonce == n
is_challenge n (verify_call _ _) = false

abbrev count : Bool → ℕ
count b = if b then 1 else 0

-- How many calls log someone in with a nonce, one call after the other.
unfoldable pub logins : Library → ℕ → List AuthCall → NonceStore → ℕ
logins l n [] s = 0
logins l n (c ∷ cs) s = (if logs_in l n c s then 1 else 0) + logins l n cs (after_call l c s)

abbrev pub challenges : ℕ → List AuthCall → ℕ
challenges n [] = 0
challenges n (c ∷ cs) = (if is_challenge n c then 1 else 0) + challenges n cs

abbrev holds : ℕ → NonceStore → Bool
holds n s = any_of (λ e. e.nonce == n) s

holds-delete : (n m : ℕ) (s : NonceStore) → holds n (delete_nonce m s) ≡ true → holds n s ≡ true
holds-delete n m [] h = cc
holds-delete n m (e ∷ s) h = ground (arith, holds-delete n m s)

deleted : (n : ℕ) (s : NonceStore) → holds n (delete_nonce n s) ≡ false
deleted n [] = refl
deleted n (e ∷ s) = ground (arith, deleted n s)

missing : (n : ℕ) (s : NonceStore) → holds n s ≡ false → get_nonce n s ≡ none
missing n [] h = refl
missing n (e ∷ s) h = ground (arith, missing n s)

-- What a call adds to the logins is covered by what was in the store, or by the challenge.
call_lem :
    (l : Library) (n : ℕ) (c : AuthCall) (s : NonceStore)
    → count (logs_in l n c s) + count (holds n (after_call l c s))
      ≤ count (is_challenge n c) + count (holds n s)
unfolding logs_in after_call issue handle_auth_verify consume
call_lem l n (challenge_call nonce now) s = let kept = holds-delete n nonce s in ground arith
call_lem l n (verify_call req now) s = elim (Bool-cases (req.nonce == n)) [
  | inr other ↦ (let kept = holds-delete n req.nonce s in ground arith)
  | inl same ↦
      let e : req.nonce ≡ n = ground arith in
      let gone : holds n (delete_nonce req.nonce s) ≡ false = rw e (deleted n s) in
      elim (Bool-cases (holds n s)) [
        | inl there ↦ ground arith
        | inr absent ↦
            let no_entry : get_nonce req.nonce s ≡ none = rw e (missing n s absent) in
            rw gone (rw no_entry (rw absent (ground arith)))
      ]
]

logins-bounded :
    (l : Library) (n : ℕ) (cs : List AuthCall) (s : NonceStore)
    → logins l n cs s ≤ challenges n cs + count (holds n s)
unfolding logins
logins-bounded l n [] s = omega arith
logins-bounded l n (c ∷ cs) s =
    let step = call_lem l n c s in
    let rest = logins-bounded l n cs (after_call l c s) in omega arith

-- Starting with no outstanding challenge, whatever is called in whatever order and at whatever
-- times, a nonce is good for no more logins than challenges were issued with it.
pub logins-single_use :
    (l : Library) (n : ℕ) (cs : List AuthCall) → logins l n cs [] ≤ challenges n cs
logins-single_use l n cs = let h = logins-bounded l n cs [] in omega arith
