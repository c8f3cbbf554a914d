-- ===== src/Auth/Tokens.antt =====
-- server/app/core/security.py: access and refresh tokens, and the passwords' hashes.
-- PyJWT and pwdlib are the fields of `Libraries`; the clock and fresh uuid4 values are arguments.
use legal_bridge.Prelude.{
  ℕ, ◌+◌, ◌*◌, String, Bool, true, false, Option, none, some, ◌≡◌, ◌&&◌, ◌||◌, not, codes, text_eq,
  leb, ltb, ◌==◌, arith, inl, inr, Option-cases, if◌then◌else◌,
}
use legal_bridge.Store.Schema.{Uuid, DateTime, Text, UserRole, admin, attorney, reviewer, User}
use legal_bridge.Config.{Settings}

-- A value of a decoded payload. A string that is an identifier is `uuid`; `negative n` is -(n + 1).
pub data Json : Type 0 where
  uuid : Uuid → Json
  string : Text → Json
  integer negative : ℕ → Json
  boolean : Bool → Json
  other : Json

abbrev pub is_str : Json → Bool
is_str (uuid _) = true
is_str (string _) = true
is_str _ = false

-- Python's `bool` is an `int`.
abbrev pub is_int : Json → Bool
is_int (integer _) = true
is_int (negative _) = true
is_int (boolean _) = true
is_int _ = false

abbrev pub is_uuid : Json → Uuid → Bool
is_uuid (uuid u) v = u == v
is_uuid _ v = false

abbrev pub is_string : Json → String → Bool
is_string (string s) t = text_eq s (codes t)
is_string _ t = false

abbrev pub is_number : Json → ℕ → Bool
is_number (integer n) m = n == m
is_number (boolean b) m = if b then m == 1 else m == 0
is_number _ m = false

-- The claims that `decode_token` requires.
pub record Payload : Type 0 where
  pub sub : Json
  pub org : Json
  pub role : Json
  pub tv : Json
  pub type : Json
  pub jti : Json
  pub iat : DateTime
  pub exp : DateTime

-- What the code relies on in PyJWT and pwdlib. A token decodes under its secret while it is valid,
-- and not before it is issued or from its expiry on; what it decodes to does not change with time;
-- a password verifies against its hash.
pub record Libraries : Type 0 where
  pub jwt_encode : Payload → Text → Text
  pub jwt_decode : DateTime → Text → Text → Option Payload
  pub jwt_decode-encode :
      (now : DateTime) (p : Payload) (secret : Text)
      → jwt_decode now (jwt_encode p secret) secret
        ≡ (if leb p.iat now && ltb now p.exp then some p else none)
  pub jwt_decode_same :
      (now now' : DateTime) (token secret : Text) (p q : Payload)
      → jwt_decode now token secret ≡ some p
      → jwt_decode now' token secret ≡ some q
      → p ≡ q
  pub hash_password : ℕ → Text → Text
  pub verify_password : Text → Text → Bool
  pub verify-hash : (salt : ℕ) (p : Text) → verify_password p (hash_password salt p) ≡ true

pub data TokenType : Type 0 where
  access refresh : TokenType

abbrev pub token_type_value : TokenType → String
token_type_value access = "access"
token_type_value refresh = "refresh"

abbrev pub role_value : UserRole → String
role_value admin = "admin"
role_value attorney = "attorney"
role_value reviewer = "reviewer"

pub record IssuedToken : Type 0 where
  pub token : Text
  pub jti : Uuid
  pub expires_at : DateTime

module _ (libs : Libraries) (settings : Settings) where
  -- `issued_at` is the clock's value, `jti` a fresh identifier.
  unfoldable pub encode_token : DateTime → Uuid → User → TokenType → ℕ → IssuedToken
  encode_token issued_at jti user token_type lifetime =
      let expires_at = issued_at + lifetime in
      let payload : Payload = record {
        sub = uuid user.id;
        org = uuid user.organization_id;
        role = string (codes (role_value user.role));
        tv = integer user.token_version;
        type = string (codes (token_type_value token_type));
        jti = uuid jti;
        iat = issued_at;
        exp = expires_at;
      } in
      record {
        token = libs.jwt_encode payload settings.jwt_secret;
        jti = jti;
        expires_at = expires_at;
      }

  unfoldable pub create_access_token : DateTime → Uuid → User → IssuedToken
  create_access_token now jti user =
      encode_token now jti user access (settings.access_token_minutes * 60)

  unfoldable pub create_refresh_token : DateTime → Uuid → User → IssuedToken
  create_refresh_token now jti user =
      encode_token now jti user refresh (settings.refresh_token_days * 86400)

  -- The checks that follow a decoded signature; `none` is `TokenDecodeError`.
  abbrev pub check_payload : TokenType → Payload → Option Payload
  check_payload expected_type payload =
      if not (is_string payload.type (token_type_value expected_type))
      then none
      else if not (is_str payload.sub) || not (is_str payload.jti)
      then none
      else if not (is_int payload.tv)
      then none
      else some payload

  unfoldable pub decode_token : DateTime → Text → TokenType → Option Payload
  decode_token now token expected_type = elim (libs.jwt_decode now token settings.jwt_secret) [
    | none ↦ none
    | some payload ↦ check_payload expected_type payload
  ]

  -- A token that decodes at two times has the same claims at both.
  pub decode_token_same :
      (now now' : DateTime) (token : Text) (t : TokenType) (c c' : Payload)
      → decode_token now token t ≡ some c
      → decode_token now' token t ≡ some c'
      → c ≡ c'
  unfolding decode_token
  decode_token_same now now' token t c c' h k =
      elim (Option-cases (libs.jwt_decode now token settings.jwt_secret)) [
        | inl e ↦ ground arith
        | inr (p, e) ↦ elim (Option-cases (libs.jwt_decode now' token settings.jwt_secret)) [
          | inl f ↦ ground arith
          | inr (q, f) ↦ ground (arith, libs.jwt_decode_same now now' token settings.jwt_secret p q)
        ]
      ]
