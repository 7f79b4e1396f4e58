-- ===== src/Auth/Token/RoundTrip.antt =====
-- A token that `fp_auth_build_access_token` of src/auth.c writes, given to `fp_auth_validate_access`.
use ferretptimize.Common.{
  ℕ, ◌≤◌, ◌<◌, ◌^◌, ◌≡◌, ◌∙◌, refl, sym, ap, true, false, Option, none, some, [], ◌∷◌, ◌++◌,
  append_assoc, ◌==◌, arith, length, All, Option-cases, inl, inr,
}
use mathlib.Core.Option.{some_inj}
use ferretptimize.Common.Int.{ℤ, pos, ltb_ℤ}
use ferretptimize.Common.Bytes.{Bytes, codes, IsByte, or_empty}
use ferretptimize.Base64.{url_encode, url_decode}
use ferretptimize.Base64.Shape.{IsUrlSafe, url_encode-IsUrlSafe}
use ferretptimize.Base64.RoundTrip.{url_decode-url_encode}
use ferretptimize.Auth.Sha256.{hmac_sha256}
use ferretptimize.Auth.Sha256.Hmac.{hmac_sha256-IsByte}
use ferretptimize.Auth.Compare.{consttime_equal_lem}
use ferretptimize.Auth.Fields.{json_parse_int64, Field, got}
use ferretptimize.Auth.Token.{
  User, Store, payload_text, token_header, dot, encoded, signing_input, signed_token,
  build_access_token, cut_at_dot, payload_user, check_signed, validate_access, c_string, as_u64,
}
use ferretptimize.Auth.Token.Text.{bytes_of_text}
use ferretptimize.Auth.Token.Payload.{
  IsPlainUser, is_text-payload_text, c_string-payload_text, json_parse_int64-exp,
  json_parse_int64-sub,
}

encoded_lem : (bytes : Bytes) → url_encode true bytes ≡ some (encoded bytes)
unfolding url_encode
encoded_lem bytes = refl

decode-encoded :
    (bytes : Bytes) → All IsByte bytes → or_empty (url_decode true true (encoded bytes)) ≡ bytes
decode-encoded bytes h = ap or_empty (url_decode-url_encode bytes h (encoded_lem bytes)).0

cut_at_dot-safe : (s rest : Bytes) → IsUrlSafe s → cut_at_dot (s ++ (dot ∷ rest)) ≡ some (s, rest)
unfolding cut_at_dot
cut_at_dot-safe [] rest h = refl
cut_at_dot-safe (c ∷ s) rest h =
    let other : (c == dot) ≡ false = ground (arith, h.0) in
    rw (other, cut_at_dot-safe s rest h.1) refl

cut_at_dot-encoded :
    (bytes rest : Bytes) → cut_at_dot (encoded bytes ++ (dot ∷ rest)) ≡ some (encoded bytes, rest)
cut_at_dot-encoded bytes rest =
    cut_at_dot-safe (encoded bytes) rest
      (url_encode-IsUrlSafe bytes (encoded bytes) (encoded_lem bytes))

module _ (load_user : ℕ → Option User) where
  -- The user that is found, or one with the same id.
  pub record Identified (id : ℕ) (found : Option User) : Type 0 where
    pub user : User
    pub accepted : found ≡ some user
    pub stored : (v : User) → load_user id ≡ some v → user ≡ v
    pub stated : load_user id ≡ none → user.id ≡ id

  loaded-Identified :
      (id : ℕ) (other : User)
      → other.id ≡ id
      → Identified id (some (elim (load_user id) as (λ f. User) [ some u ↦ u | none ↦ other ]))
  loaded-Identified id other same = elim (Option-cases (load_user id)) [
    | inl e ↦ record {
      user = other;
      accepted = rw e refl;
      stored = λ v f. absurd (cc);
      stated = λ f. same;
    }
    | inr (u, e) ↦ record {
      user = u;
      accepted = rw e refl;
      stored = λ v f. some_inj.0 (sym e ∙ f);
      stated = λ f. absurd (cc);
    }
  ]

  payload_user-Identified :
      (json : Bytes) (now : ℤ) (exp id : ℕ)
      → json_parse_int64 json (codes "exp") ≡ got (pos exp)
      → json_parse_int64 json (codes "sub") ≡ got (pos id)
      → 1 ≤ id
      → id < 2 ^ 63
      → ltb_ℤ (pos exp) now ≡ false
      → Identified id (payload_user load_user json now)
  unfolding payload_user
  payload_user-Identified json now exp id has_exp has_sub positive small fresh =
      let whole : as_u64 (pos id) ≡ id = omega (arith, small) in
      let sub = λ (f : Field ℤ). elim f as (λ f. ℤ) [ got value ↦ value | _ ↦ pos 0 ] in
      let some_id : ltb_ℤ (pos 0) (pos id) ≡ true = ground (arith, positive) in
      rw (payload_user, has_exp, fresh, has_sub, some_id, whole)
        (loaded-Identified id _ (ap (λ f. as_u64 (sub f)) has_sub ∙ whole))

  check_signed-encoded :
      (secret header payload : Bytes) (now : ℤ)
      → All IsByte payload
      → c_string payload ≡ payload
      → let input = header ++ (dot ∷ encoded payload) in
        check_signed load_user secret header
          (encoded payload)
          (encoded (hmac_sha256 secret input))
          now
        ≡ payload_user load_user payload now
  unfolding check_signed
  check_signed-encoded secret header payload now h whole =
      let expected = hmac_sha256 secret (header ++ (dot ∷ encoded payload)) in
      let sig =
        decode-encoded expected (hmac_sha256-IsByte secret (header ++ (dot ∷ encoded payload))) in
      let same = (consttime_equal_lem expected expected refl).1 refl in
      let size : (length expected == length expected) ≡ true = ground arith in
      rw (decode-encoded payload h, whole, sig, size, same) refl

  signed_token-parts :
      (secret payload : Bytes)
      → signed_token secret payload
        ≡ encoded token_header
          ++ (dot
              ∷ (encoded payload ++ (dot ∷ encoded (hmac_sha256 secret (signing_input payload)))))
  unfolding signed_token signing_input
  signed_token-parts secret payload = append_assoc (encoded token_header) (dot ∷ encoded payload) _

  validate_access-signed_token :
      (store : Store) (payload : Bytes) (now : ℤ)
      → All IsByte payload
      → c_string payload ≡ payload
      → validate_access load_user store (signed_token store.jwt_secret payload) now
        ≡ payload_user load_user payload now
  unfolding validate_access signing_input
  validate_access-signed_token store payload now h whole =
      let sig = encoded (hmac_sha256 store.jwt_secret (signing_input payload)) in
      let rest = encoded payload ++ (dot ∷ sig) in
      rw
        (
          validate_access,
          signed_token-parts store.jwt_secret payload,
          cut_at_dot-encoded token_header rest,
          cut_at_dot-encoded payload sig,
        )
        (check_signed-encoded store.jwt_secret (encoded token_header) payload now h whole)

  built-token :
      (store : Store) (user : User) (now exp : ℤ) (token : Bytes)
      → build_access_token store user now ≡ some (token, exp)
      → signed_token store.jwt_secret (payload_text user exp) ≡ token
  unfolding build_access_token
  built-token store user now exp token e = ground (arith, e)

  -- A token that is built for a user with an id above 0, none of whose texts holds the key of the
  -- expiry time, is accepted up to its expiry: the result is the user that the database has under that
  -- id, or one with that id if there is none.
  pub validate-build_access_token :
      (store : Store) (user : User) (now later : ℤ) (exp : ℕ) (token : Bytes)
      → IsPlainUser user
      → exp < 2 ^ 63
      → build_access_token store user now ≡ some (token, pos exp)
      → ltb_ℤ (pos exp) later ≡ false
      → Identified user.id (validate_access load_user store token later)
  validate-build_access_token store user now later exp token plain small built fresh =
      let json = payload_text user (pos exp) in
      let bytes = bytes_of_text json (is_text-payload_text user plain exp) in
      let valid =
        validate_access-signed_token store json later bytes
          (c_string-payload_text user plain exp) in
      rw (← built-token store user now (pos exp) token built, valid)
        (payload_user-Identified json later exp user.id (json_parse_int64-exp user plain exp small)
          (json_parse_int64-sub user plain exp) plain.positive plain.small fresh)
