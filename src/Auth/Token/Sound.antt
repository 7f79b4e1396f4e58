-- ===== src/Auth/Token/Sound.antt =====
-- What a token that `fp_auth_validate_access` of src/auth.c accepts must look like.
use ferretptimize.Common.{
  ℕ, ◌≡◌, ◌∙◌, ◌⊎◌, refl, ap, Bool, true, false, ◌&&◌, Option, none, some, [], ◌∷◌, ◌++◌, ◌==◌,
  if◌then◌else◌, length, arith, Bool-cases, Option-cases, inl, inr,
}
use ferretptimize.Common.Int.{ℤ, pos, negsuc, ◌≤ℤ◌, ltb_ℤ}
use ferretptimize.Common.Bytes.{Bytes, codes, or_empty}
use ferretptimize.Base64.{url_decode}
use ferretptimize.Auth.Sha256.{hmac_sha256}
use ferretptimize.Auth.Compare.{consttime_equal, consttime_equal_lem}
use ferretptimize.Auth.Fields.{Field, absent, malformed, got, json_parse_int64}
use ferretptimize.Auth.Token.{
  User, Store, dot, c_string, cut_at_dot, payload_user, check_signed, validate_access,
}

cut_at_dot-some :
    (s before after : Bytes) → cut_at_dot s ≡ some (before, after) → s ≡ before ++ (dot ∷ after)
unfolding cut_at_dot
cut_at_dot-some [] before after e = absurd (cc)
cut_at_dot-some (c ∷ s) before after e = elim (Bool-cases (c == dot)) [
  | inl here ↦ ground (arith, here, e)
  | inr later ↦ elim (Option-cases (cut_at_dot s)) [
    | inl none_later ↦ absurd (ground (arith, later, none_later, e))
    | inr ((b, a), found) ↦ ground (arith, later, found, e, cut_at_dot-some s b a found)
  ]
]

-- The payload as a C string.
abbrev pub payload_json : Bytes → Bytes
payload_json payload = c_string (or_empty (url_decode true true payload))

-- What the text of an accepted payload says.
pub record IsCurrent (json : Bytes) (now : ℤ) : Type 0 where
  pub exp : ℤ
  pub sub : ℤ
  pub has_exp : json_parse_int64 json (codes "exp") ≡ got exp
  pub has_sub : json_parse_int64 json (codes "sub") ≡ got sub
  pub not_expired : now ≤ℤ exp
  pub positive : pos 1 ≤ℤ sub

pub record IsSigned (secret token : Bytes) (now : ℤ) : Type 0 where
  pub header : Bytes
  pub payload : Bytes
  pub sig : Bytes
  pub parts : token ≡ header ++ (dot ∷ (payload ++ (dot ∷ sig)))
  pub signed : or_empty (url_decode true true sig) ≡ hmac_sha256 secret (header ++ (dot ∷ payload))
  pub current : IsCurrent (payload_json payload) now

le_of_ltb_ℤ : (a b : ℤ) → ltb_ℤ a b ≡ false → b ≤ℤ a
le_of_ltb_ℤ a b e = ground (arith, e)

lt_of_ltb_ℤ : (a : ℤ) → ltb_ℤ (pos 0) a ≡ true → pos 1 ≤ℤ a
lt_of_ltb_ℤ (pos n) e = ground (arith, e)
lt_of_ltb_ℤ (negsuc n) e = absurd (ground (arith, e))

Field-cases : {A : Type 0} (f : Field A) → (f ≡ absent) ⊎ (f ≡ malformed) ⊎ ((a : A) × (f ≡ got a))
Field-cases absent = inl refl
Field-cases malformed = inr (inl refl)
Field-cases (got a) = inr (inr (a, refl))

and_true : (a b : Bool) → (a && b) ≡ true → (a ≡ true) × (b ≡ true)
and_true true b e = (refl, e)
and_true false b e = absurd (ground (arith, e))

some_if :
    {A : Type 0} (b : Bool) (o : Option A) (a : A)
    → (if b then o else none) ≡ some a
    → (b ≡ true) × (o ≡ some a)
some_if true o a e = (refl, e)
some_if false o a e = absurd (cc)

module _ (load_user : ℕ → Option User) where
  payload_user-IsCurrent :
      (json : Bytes) (now : ℤ) (u : User)
      → payload_user load_user json now ≡ some u
      → IsCurrent json now
  unfolding payload_user
  payload_user-IsCurrent json now u e = elim (Field-cases (json_parse_int64 json (codes "exp"))) [
    | inl q ↦ absurd (ground (arith, q, e))
    | inr (inl q) ↦ absurd (ground (arith, q, e))
    | inr (inr (exp, q)) ↦ elim (Bool-cases (ltb_ℤ exp now)) [
      | inl late ↦ absurd (ground (arith, q, late, e))
      | inr fresh ↦ elim (Field-cases (json_parse_int64 json (codes "sub"))) [
        | inl z ↦ absurd (ground (arith, q, fresh, z, e))
        | inr (inl z) ↦ absurd (ground (arith, q, fresh, z, e))
        | inr (inr (sub, z)) ↦ record {
          exp = exp;
          sub = sub;
          has_exp = q;
          has_sub = z;
          not_expired = le_of_ltb_ℤ exp now fresh;
          positive = lt_of_ltb_ℤ sub (ground (arith, q, fresh, z, e));
        }
      ]
    ]
  ]

  check_signed-some :
      (secret header payload sig : Bytes) (now : ℤ) (u : User)
      → check_signed load_user secret header payload sig now ≡ some u
      → (or_empty (url_decode true true sig) ≡ hmac_sha256 secret (header ++ (dot ∷ payload)))
        × (payload_user load_user (payload_json payload) now ≡ some u)
  unfolding check_signed
  check_signed-some secret header payload sig now u e =
      let expected = hmac_sha256 secret (header ++ (dot ∷ payload)) in
      let raw = or_empty (url_decode true true sig) in
      let (test, user) =
        some_if (length raw == length expected && consttime_equal raw expected)
          (payload_user load_user (payload_json payload) now) u e in
      let (size, same) =
        and_true (length raw == length expected) (consttime_equal raw expected) test in
      ((consttime_equal_lem raw expected (ground (arith, size))).0 same, user)

  -- A token that is accepted has three parts between dots, the last of which decodes to the HMAC of
  -- the two others under the store's secret, and its payload names a positive user and a time that is
  -- not over.
  pub validate_access-IsSigned :
      (store : Store) (token : Bytes) (now : ℤ) (u : User)
      → validate_access load_user store token now ≡ some u
      → IsSigned store.jwt_secret token now
  unfolding validate_access
  validate_access-IsSigned store token now u e = elim (Option-cases (cut_at_dot token)) [
    | inl q ↦ absurd (ground (arith, q, e))
    | inr ((header, rest), q) ↦ elim (Option-cases (cut_at_dot rest)) [
      | inl r ↦ absurd (ground (arith, q, r, e))
      | inr ((payload, sig), r) ↦
          let checked : check_signed load_user store.jwt_secret header payload sig now ≡ some u =
            ground (arith, q, r, e) in
          let (signed, user) =
            check_signed-some store.jwt_secret header payload sig now u checked in
          record {
            header = header;
            payload = payload;
            sig = sig;
            parts =
                cut_at_dot-some token header rest q
                ∙ ap (λ (s : Bytes). header ++ (dot ∷ s)) (cut_at_dot-some rest payload sig r);
            signed = signed;
            current = payload_user-IsCurrent (payload_json payload) now u user;
          }
    ]
  ]
