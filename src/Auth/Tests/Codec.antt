-- ===== src/Auth/Tests/Codec.antt =====
-- A token library and a password library that meet the laws: a token is its claims written out
-- with their lengths behind the secret, and a hash is the salt before the password.
use legal_bridge.Prelude.{
  ℕ, zero, suc, ◌≡◌, refl, Bool, true, false, Option, none, some, List, [], ◌∷◌, ◌++◌, ◌&&◌, arith,
  length, take, drop, text_eq, text_eq_self, leb, ltb, if◌then◌else◌,
}
use legal_bridge.Store.Schema.{Text, DateTime}
use legal_bridge.Auth.Tokens.{
  Libraries, Json, uuid, string, integer, negative, boolean, other, Payload,
}

abbrev write : Json → List ℕ
write (uuid u) = 0 ∷ u ∷ []
write (string s) = 1 ∷ length s ∷ s
write (integer n) = 2 ∷ n ∷ []
write (negative n) = 3 ∷ n ∷ []
write (boolean true) = 4 ∷ 1 ∷ []
write (boolean false) = 4 ∷ 0 ∷ []
write other = 5 ∷ 0 ∷ []

-- A value and what follows it, from its tag and its number.
unfoldable pub read : List ℕ → Option (Json × List ℕ)
read (zero ∷ u ∷ rest) = some (uuid u, rest)
read (suc zero ∷ n ∷ rest) = some (string (take n rest), drop n rest)
read (suc (suc zero) ∷ n ∷ rest) = some (integer n, rest)
read (suc (suc (suc zero)) ∷ n ∷ rest) = some (negative n, rest)
read (suc (suc (suc (suc zero))) ∷ zero ∷ rest) = some (boolean false, rest)
read (suc (suc (suc (suc zero))) ∷ suc n ∷ rest) = some (boolean true, rest)
read (suc (suc (suc (suc (suc _)))) ∷ n ∷ rest) = some (other, rest)
read _ = none

take-append : (s rest : List ℕ) → take (length s) (s ++ rest) ≡ s
take-append [] rest = refl
take-append (x ∷ s) rest = ground (arith, take-append s rest)

drop-append : (s rest : List ℕ) → drop (length s) (s ++ rest) ≡ rest
drop-append [] rest = refl
drop-append (x ∷ s) rest = drop-append s rest

read-write : (j : Json) (rest : List ℕ) → read (write j ++ rest) ≡ some (j, rest)
unfolding read
read-write (uuid u) rest = refl
read-write (string s) rest = rw (take-append, drop-append) refl
read-write (integer n) rest = refl
read-write (negative n) rest = refl
read-write (boolean true) rest = refl
read-write (boolean false) rest = refl
read-write other rest = refl

abbrev encode : Payload → Text → Text
encode p secret =
    p.iat
    ∷ p.exp
    ∷ (write p.sub
        ++ (write p.org
            ++ (write p.role ++ (write p.tv ++ (write p.type ++ (write p.jti ++ secret))))))

infixl 5 ◌>>=◌
abbrev ◌>>=◌ : {A B : Type 0} → Option A → (A → Option B) → Option B
none >>= f = none
some a >>= f = f a

unfoldable pub parse : Text → Text → Option Payload
unfolding read
parse [] secret = none
parse (iat ∷ []) secret = none
parse (iat ∷ exp ∷ t) secret = do
  (sub, t₁) ← read t
  (org, t₂) ← read t₁
  (role, t₃) ← read t₂
  (tv, t₄) ← read t₃
  (type, t₅) ← read t₄
  (jti, t₆) ← read t₅
  if text_eq t₆ secret
      then some (record {
        sub = sub;
        org = org;
        role = role;
        tv = tv;
        type = type;
        jti = jti;
        iat = iat;
        exp = exp;
      })
      else none

parse-encode : (p : Payload) (secret : Text) → parse (encode p secret) secret ≡ some p
unfolding parse
parse-encode p secret = simp read-write (rw (text_eq_self secret) refl)

abbrev while_valid : DateTime → Option Payload → Option Payload
while_valid now none = none
while_valid now (some p) = if leb p.iat now && ltb now p.exp then some p else none

abbrev decode : DateTime → Text → Text → Option Payload
decode now token secret = while_valid now (parse token secret)

pub decode-encode :
    (now : DateTime) (p : Payload) (secret : Text)
    → decode now (encode p secret) secret
      ≡ (if leb p.iat now && ltb now p.exp then some p else none)
decode-encode now p secret = rw parse-encode refl

pub decode_same :
    (now now' : DateTime) (token secret : Text) (p q : Payload)
    → decode now token secret ≡ some p
    → decode now' token secret ≡ some q
    → p ≡ q
decode_same now now' token secret p q h k = ground arith

abbrev verify : Text → Text → Bool
verify p [] = false
verify p (_ ∷ q) = text_eq p q

abbrev pub libraries : Libraries
libraries = record {
  jwt_encode = encode;
  jwt_decode = decode;
  jwt_decode-encode = decode-encode;
  jwt_decode_same = decode_same;
  hash_password = λ salt p. salt ∷ p;
  verify_password = verify;
  verify-hash = λ salt p. text_eq_self p;
}
