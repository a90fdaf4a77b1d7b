-- ===== src/Onboarding/Reader.antt =====
-- A reader of the extended format without a proof, independent of the code that writes it
-- (internal/api/stake_handlers.go).
use go_pool.Prelude.{
  ℕ, zero, suc, ◌+◌, ◌-◌, ◌*◌, ◌/◌, ◌%◌, ◌<◌, ◌≡◌, refl, ap, ◌∙◌, inl, inr, arith, List, [], ◌∷◌,
  ◌++◌, Option, none, some, false, ltb, leb, if◌then◌else◌, length, Bool-cases,
}
use go_pool.Onboarding.{append_uvarint, big_endian}

-- What was read, and what is left.
abbrev pub Read : Type 0 → Type 0
Read A = Option (A × List ℕ)

abbrev pub and_then : {A B : Type 0} → Read A → (A → List ℕ → Option B) → Option B
and_then none f = none
and_then (some (a, rest)) f = f a rest

abbrev pub read_byte : List ℕ → Read ℕ
read_byte [] = none
read_byte (b ∷ s) = some (b, s)

-- That many bytes.
abbrev pub read_bytes : ℕ → List ℕ → Read (List ℕ)
read_bytes zero s = some ([], s)
read_bytes (suc k) [] = none
read_bytes (suc k) (b ∷ s) = and_then (read_bytes k s) (λ bs rest. some (b ∷ bs, rest))

-- Seven bits a byte, the lowest first, up to a byte below 128.
abbrev pub read_uvarint : List ℕ → Read ℕ
read_uvarint [] = none
read_uvarint (b ∷ s) =
    let more = and_then (read_uvarint s) (λ v rest. some (v * 128 + (b - 128), rest)) in
    if ltb b 128 then some (b, s) else more

-- A number of that many bytes, behind what was read of it.
abbrev pub read_number : ℕ → ℕ → List ℕ → Read ℕ
read_number zero acc s = some (acc, s)
read_number (suc k) acc [] = none
read_number (suc k) acc (b ∷ s) = read_number k (acc * 256 + b) s

pub read_bytes-append : (a rest : List ℕ) → read_bytes (length a) (a ++ rest) ≡ some (a, rest)
read_bytes-append [] rest = refl
read_bytes-append (b ∷ a) rest =
    ap (λ r. and_then r (λ bs s. some (b ∷ bs, s))) (read_bytes-append a rest)

-- What fits into one more byte than the rounds.
abbrev pub uvarint_bound : ℕ → ℕ
uvarint_bound zero = 128
uvarint_bound (suc k) = 128 * uvarint_bound k

pub read_uvarint-append :
    (k v : ℕ) (rest : List ℕ)
    → v < uvarint_bound k
    → read_uvarint (append_uvarint k v ++ rest) ≡ some (v, rest)
unfolding append_uvarint
read_uvarint-append zero v rest h = ground arith
read_uvarint-append (suc k) v rest h = elim (Bool-cases (leb 128 v)) [
  | inr small ↦ ground arith
  | inl large ↦
      let below : v / 128 < uvarint_bound k = omega arith in
      let ih = read_uvarint-append k (v / 128) rest below in
      let high : ltb (128 + v % 128) 128 ≡ false = ground arith in
      let value : v / 128 * 128 + (128 + v % 128 - 128) ≡ v = omega arith in
      rw large (rw high (rw ih (ap (λ x. some (x, rest)) value)))
]

abbrev pub number_bound : ℕ → ℕ
number_bound zero = 1
number_bound (suc k) = 256 * number_bound k

read_number-last :
    (k acc : ℕ) (s : List ℕ)
    → read_number (suc k) acc s ≡ and_then (read_number k acc s) (read_number 1)
read_number-last zero acc [] = refl
read_number-last zero acc (b ∷ s) = refl
read_number-last (suc k) acc [] = refl
read_number-last (suc k) acc (b ∷ s) = read_number-last k (acc * 256 + b) s

append_assoc : (a b c : List ℕ) → (a ++ b) ++ c ≡ a ++ (b ++ c)
append_assoc [] b c = refl
append_assoc (x ∷ a) b c = ap (λ s. x ∷ s) (append_assoc a b c)

pub read_number-append :
    (k n : ℕ) (rest : List ℕ)
    → n < number_bound k
    → read_number k 0 (big_endian k n ++ rest) ≡ some (n, rest)
unfolding big_endian
read_number-append zero n rest h = let e : 0 ≡ n = omega arith in ap (λ x. some (x, rest)) e
read_number-append (suc k) n rest h =
    let below : n / 256 < number_bound k = omega arith in
    let high = big_endian k (n / 256) in
    let value : n / 256 * 256 + n % 256 ≡ n = omega arith in
    ap (read_number (suc k) 0) (append_assoc high ((n % 256) ∷ []) rest)
    ∙ (read_number-last k 0 (high ++ (n % 256) ∷ rest)
        ∙ (ap (λ r. and_then r (read_number 1))
              (read_number-append k (n / 256) ((n % 256) ∷ rest) below)
            ∙ ap (λ x. some (x, rest)) value))
