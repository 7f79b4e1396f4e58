-- ===== src/Auth/Token/Payload.antt =====
-- The payload that `fp_auth_build_access_token` writes, as `fp_auth_validate_access` reads it.
use ferretptimize.Common.{
  ℕ, suc, ◌+◌, ◌≤◌, ◌<◌, ◌^◌, ◌≡◌, ◌∙◌, refl, ap, true, false, none, some, [], ◌∷◌, ◌++◌, ◌==◌,
  arith, length,
}
use ferretptimize.Common.Int.{pos}
use ferretptimize.Common.Bytes.{Bytes, codes, has_prefix}
use ferretptimize.Json.{auth_escape, auth_escape_byte, auth_escape_from}
use ferretptimize.Auth.Fields.{
  find_text, find_byte, quoted, json_parse_int64, got, starts_with_digit,
}
use ferretptimize.Auth.Token.{User, payload_text, escaped, decimal, as_u64, c_string}
use ferretptimize.Auth.Token.Text.{
  find_text-append, find_text-value, find_text-decimal, read_int64-decimal, is_text, is_text-append,
  is_text-decimal, c_string-text, holds,
}

abbrev pub exp_key : Bytes
exp_key = quoted (codes "exp")

-- A C string whose text in the payload, quotes included, does not hold the key of the expiry time.
pub record IsPlain (size : ℕ) (value : Bytes) : Type 0 where
  pub text : is_text value ≡ true
  pub no_key : find_text exp_key (quoted (escaped size value)) ≡ none

-- A user with an id above 0 that a `long long` holds, and three such texts.
pub record IsPlainUser (user : User) : Type 0 where
  pub positive : 1 ≤ user.id
  pub small : user.id < 2 ^ 63
  pub provider : IsPlain 64 user.provider
  pub email : IsPlain 256 user.email
  pub name : IsPlain 256 user.name

is_text-auth_escape_from :
    (n i : ℕ) (s : Bytes) → is_text s ≡ true → is_text (auth_escape_from n i s) ≡ true
unfolding auth_escape_from is_text
is_text-auth_escape_from n i [] h = refl
is_text-auth_escape_from n i (c ∷ s) h =
    let e = auth_escape_byte c in
    let head : is_text e ≡ true = unfold auth_escape_byte in ground (arith, h) in
    let rest = is_text-auth_escape_from n (i + length e) s (ground (arith, h)) in
    ground (arith, head, is_text-append e (auth_escape_from n (i + length e) s) head rest)

is_text-escaped : (k : ℕ) (s : Bytes) → is_text s ≡ true → is_text (escaped (suc k) s) ≡ true
unfolding auth_escape
is_text-escaped k s h =
    let apart : (suc k == 0) ≡ false = ground arith in
    rw apart (is_text-auth_escape_from (suc k) 0 s h)

json_parse_int64-decimal :
    (json key loc rest : Bytes) (n : ℕ)
    → find_text (quoted key) json ≡ some loc
    → find_byte b':' loc ≡ some (b':' ∷ (decimal n ++ rest))
    → n < 2 ^ 63
    → starts_with_digit rest ≡ false
    → json_parse_int64 json key ≡ got (pos n)
unfolding json_parse_int64
json_parse_int64-decimal json key loc rest n found colon h stop =
    rw (json_parse_int64, found, colon, read_int64-decimal n rest h stop) refl

module _ (user : User) (plain : IsPlainUser user) (exp : ℕ) where
  abbrev json : Bytes
  json = payload_text user (pos exp)

  pub is_text-payload_text : is_text json ≡ true
  unfolding payload_text is_text
  is_text-payload_text =
      let provider = is_text-escaped 63 user.provider plain.provider.text in
      let email = is_text-escaped 255 user.email plain.email.text in
      let name = is_text-escaped 255 user.name plain.name.text in
      is_text-append (decimal user.id) _ (is_text-decimal user.id) (
        is_text-append (escaped 64 user.provider) _ provider (
          is_text-append (escaped 256 user.email) _ email (
            is_text-append (escaped 256 user.name) _ name (
              is_text-append (decimal (as_u64 (pos exp))) (b'}' ∷ [])
                (is_text-decimal (as_u64 (pos exp))) refl))))

  find_text-exp :
      find_text exp_key json ≡ some (codes "\"exp\":" ++ (decimal (as_u64 (pos exp)) ++ codes "}"))
  unfolding payload_text find_text has_prefix holds
  find_text-exp =
      let digits = find_text-decimal (codes "exp\"") user.id in
      find_text-append exp_key (decimal user.id) _ b',' refl digits
      ∙ find_text-value exp_key (escaped 64 user.provider) _ b',' refl plain.provider.no_key
      ∙ find_text-value exp_key (escaped 256 user.email) _ b',' refl plain.email.no_key
      ∙ find_text-value exp_key (escaped 256 user.name) _ b',' refl plain.name.no_key

  pub c_string-payload_text : c_string json ≡ json
  c_string-payload_text = c_string-text json is_text-payload_text

  pub json_parse_int64-exp : exp < 2 ^ 63 → json_parse_int64 json (codes "exp") ≡ got (pos exp)
  unfolding find_byte
  json_parse_int64-exp h =
      let whole : as_u64 (pos exp) ≡ exp = omega (arith, h) in
      json_parse_int64-decimal json (codes "exp") _ (b'}' ∷ []) (as_u64 (pos exp)) find_text-exp
        refl (omega (arith, h, whole)) refl
      ∙ ap (λ (n : ℕ). got (pos n)) whole

  pub json_parse_int64-sub : json_parse_int64 json (codes "sub") ≡ got (pos user.id)
  unfolding find_byte find_text has_prefix payload_text
  json_parse_int64-sub =
      json_parse_int64-decimal json (codes "sub") _ _ user.id refl refl plain.small refl
