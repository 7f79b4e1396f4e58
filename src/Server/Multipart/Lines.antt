-- ===== src/Server/Multipart/Lines.antt =====
-- The lines that src/server.c takes a header apart into, and what stands before a byte in one.
use ferretptimize.Common.{
  ℕ, ◌≡◌, ◌<◌, ◌∙◌, refl, ap, sym, Bool, true, false, ◌||◌, some, [], ◌∷◌, ◌++◌, append_assoc,
  append-nil, All, length, arith, ◌==◌,
}
use ferretptimize.Common.Bytes.{Bytes}
use ferretptimize.Auth.Token.{c_string}
use ferretptimize.Server.Multipart.{line_tokens, until}

abbrev pub is_break : ℕ → Bool
is_break c = c == 0 || c == 13 || c == 10

pub c_string-line :
    (s rest : Bytes) → All (λ c. is_break c ≡ false) s → c_string (s ++ rest) ≡ s ++ c_string rest
unfolding c_string
c_string-line [] rest h = refl
c_string-line (c ∷ s) rest h =
    let other : (c == 0) ≡ false = ground (arith, h.0) in
    rw other (ap (◌∷◌ c) (c_string-line s rest h.1))

pub line_tokens-line :
    (start s rest : Bytes)
    → All (λ c. is_break c ≡ false) s
    → line_tokens start (s ++ rest) ≡ line_tokens (start ++ s) rest
unfolding line_tokens
line_tokens-line start [] rest h = ap (λ (t : Bytes). line_tokens t rest) (sym (append-nil start))
line_tokens-line start (c ∷ s) rest h =
    let other : (c == 13 || c == 10) ≡ false = ground (arith, h.0) in
    rw other (
      line_tokens-line (start ++ (c ∷ [])) s rest h.1
      ∙ ap (λ (t : Bytes). line_tokens t rest) (append_assoc start (c ∷ []) s))

pub line_tokens-break :
    (l rest : Bytes) → 0 < length l → line_tokens l (13 ∷ 10 ∷ rest) ≡ l ∷ line_tokens [] rest
unfolding line_tokens
line_tokens-break [] rest h = absurd (omega arith)
line_tokens-break (c ∷ l) rest h = refl

pub until-name :
    (b : ℕ) (name rest : Bytes)
    → All (λ c. (c == b) ≡ false) name
    → until b (name ++ (b ∷ rest)) ≡ some name
unfolding until
until-name b [] rest h = let here : (b == b) ≡ true = ground arith in rw here refl
until-name b (c ∷ name) rest h = rw (h.0, until-name b name rest h.1) refl
