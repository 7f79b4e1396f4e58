-- ===== src/Auth/Token.antt =====
-- Access tokens of src/auth.c: `fp_auth_build_access_token` and `fp_auth_validate_access`, with the
-- JSON readers of the latter. A time is an integer. The database's users, and whether allocations
-- succeed, are parameters.
pub mod Text
pub mod Payload
pub mod RoundTrip
pub mod Sound
use ferretptimize.Common.{
  ℕ, zero, suc, ◌+◌, ◌-◌, ◌*◌, ◌/◌, ◌%◌, ◌^◌, Bool, true, false, not, ◌&&◌, ◌||◌, Option, none,
  some, List, [], ◌∷◌, ◌++◌, leb, ltb, ◌==◌, if◌then◌else◌, length,
}
use ferretptimize.Common.Int.{ℤ, pos, negsuc, ◌+ℤ◌, ltb_ℤ, leb_ℤ}
use ferretptimize.Common.Bytes.{Bytes, codes, is_space, is_digit, has_prefix, or_empty}
use ferretptimize.Base64.{url_encode, url_decode}
use ferretptimize.Json.{auth_escape}
use ferretptimize.Auth.Sha256.{hmac_sha256}
use ferretptimize.Auth.Fields.{
  find_text, find_byte, json_parse_int64, json_parse_string, text_or_empty, Field, absent,
  malformed, got,
}
use ferretptimize.Auth.Compare.{consttime_equal}

-- `fp_auth_user`, without its picture.
pub record User : Type 0 where
  pub id : ℕ
  pub email : Bytes
  pub name : Bytes
  pub provider : Bytes

-- `fp_auth_store`, without its database.
pub record Store : Type 0 where
  pub jwt_secret : Bytes
  pub access_ttl_seconds : ℤ

-- `(unsigned long long)t`.
abbrev pub as_u64 : ℤ → ℕ
as_u64 (pos n) = n % 2 ^ 64
as_u64 (negsuc n) = 2 ^ 64 - 1 - n % 2 ^ 64

-- "%llu": the digits of `n` before those already written; a number has no more digits than `fuel`.
unfoldable pub digits_before : ℕ → ℕ → Bytes → Bytes
digits_before zero n text = text
digits_before (suc fuel) n text =
    let digit = (b'0' + n % 10) ∷ text in
    let more = digits_before fuel (n / 10) digit in if ltb n 10 then digit else more

abbrev pub max_digits : ℕ
max_digits = 20

unfoldable pub decimal : ℕ → Bytes
decimal n = digits_before max_digits n []

abbrev pub escaped : ℕ → Bytes → Bytes
escaped size value = or_empty (auth_escape size (some value))

-- `payload`.
unfoldable pub payload_text : User → ℤ → Bytes
payload_text user exp =
    codes "{\"sub\":"
    ++ (decimal user.id
        ++ (codes ",\"provider\":\""
            ++ (escaped 64 user.provider
                ++ (codes "\",\"email\":\""
                    ++ (escaped 256 user.email
                        ++ (codes "\",\"name\":\""
                            ++ (escaped 256 user.name
                                ++ (codes "\",\"type\":\"access\",\"exp\":"
                                    ++ (decimal (as_u64 exp) ++ codes "}")))))))))

abbrev pub token_header : Bytes
token_header = codes "{\"alg\":\"HS256\",\"typ\":\"JWT\"}"

abbrev pub dot : ℕ
dot = b'.'

-- The size of `payload` and of `access_token`.
abbrev pub buffer_size : ℕ
buffer_size = 512

abbrev pub encoded : Bytes → Bytes
encoded bytes = or_empty (url_encode true bytes)

-- What is signed, and the token.
unfoldable pub signing_input : Bytes → Bytes
signing_input payload = encoded token_header ++ (dot ∷ encoded payload)

unfoldable pub signed_token : Bytes → Bytes → Bytes
unfolding signing_input
signed_token secret payload =
    signing_input payload ++ (dot ∷ encoded (hmac_sha256 secret (signing_input payload)))

-- `fp_auth_build_access_token` with its allocations granted: the token and its expiry.
unfoldable pub build_access_token : Store → User → ℤ → Option (Bytes × ℤ)
build_access_token store user now =
    let exp = now +ℤ store.access_ttl_seconds in
    let payload = payload_text user exp in
    let token = signed_token store.jwt_secret payload in
    if length store.jwt_secret == 0
    then none
    else if leb buffer_size (length payload)
    then none
    else if leb buffer_size (length token)
    then none
    else some (token, exp)

-- What a C string keeps of the bytes: those before the first NUL.
unfoldable pub c_string : Bytes → Bytes
c_string [] = []
c_string (c ∷ s) = let rest = c_string s in if c == 0 then [] else c ∷ rest

-- The text before the first dot, and after it.
unfoldable pub cut_at_dot : Bytes → Option (Bytes × Bytes)
cut_at_dot [] = none
cut_at_dot (c ∷ s) =
    let later : Option (Bytes × Bytes) = elim (cut_at_dot s) [
      | none ↦ none
      | some (before, after) ↦ some (c ∷ before, after)
    ] in
    if c == dot then some ([], s) else later

module _ (load_user : ℕ → Option User) where
  -- The user of a payload whose signature is right.
  unfoldable pub payload_user : Bytes → ℤ → Option User
  payload_user json now =
      let sub = elim (json_parse_int64 json (codes "sub")) as (λ f. ℤ) [
        | got value ↦ value
        | _ ↦ pos 0
      ] in
      let text = λ (key : Bytes) (size : ℕ). text_or_empty (json_parse_string json key size) in
      let id = as_u64 sub in
      let stated : User = record {
        id = id;
        email = text (codes "email") 256;
        name = text (codes "name") 256;
        provider = text (codes "provider") 32;
      } in
      let user = elim (load_user id) as (λ f. User) [ some u ↦ u | none ↦ stated ] in
      elim (json_parse_int64 json (codes "exp")) [
        | got exp ↦ if ltb_ℤ exp now then none else if ltb_ℤ (pos 0) sub then some user else none
        | _ ↦ none
      ]

  -- The check of the signature, `fp_consttime_equal` included.
  unfoldable pub check_signed : Bytes → Bytes → Bytes → Bytes → ℤ → Option User
  check_signed secret header payload sig now =
      let expected = hmac_sha256 secret (header ++ (dot ∷ payload)) in
      let json = c_string (or_empty (url_decode true true payload)) in
      let user = payload_user json now in
      let sig_raw = or_empty (url_decode true true sig) in
      if length sig_raw == length expected && consttime_equal sig_raw expected then user else none

  -- `fp_auth_validate_access` with its allocations granted, for a caller that wants the user.
  unfoldable pub validate_access : Store → Bytes → ℤ → Option User
  validate_access store token now = elim (cut_at_dot token) [
    | none ↦ none
    | some (header, rest) ↦ elim (cut_at_dot rest) [
      | none ↦ none
      | some (payload, sig) ↦ check_signed store.jwt_secret header payload sig now
    ]
  ]
