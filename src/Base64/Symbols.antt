-- ===== src/Base64/Symbols.antt =====
-- The two alphabets: each of the 64 symbols is read back, and none is the padding.
use ferretptimize.Common.{ℕ, ◌<◌, ◌≡◌, refl, Bool, true, false, ◌&&◌, ◌||◌, not, ◌==◌, arith}
use ferretptimize.Common.Bytes.{is_alnum}
use ferretptimize.Common.Bounded.{holds_on, holds_on_lem}
use ferretptimize.Base64.{symbol, value, pad, to_url, from_url}

-- A symbol as the encoders write it and as the decoders translate it.
abbrev is_read : ℕ → Bool
is_read i =
    (value (from_url (symbol i)) == i)
    && (value (from_url (to_url (symbol i))) == i)
    && not (from_url (symbol i) == pad)
    && not (from_url (to_url (symbol i)) == pad)
    && not (to_url (symbol i) == pad)

symbols_read : holds_on 0 64 is_read ≡ true
unfolding holds_on symbol value to_url from_url
symbols_read = refl

pub record Read (i : ℕ) : Type 0 where
  pub standard : value (from_url (symbol i)) ≡ i
  pub url : value (from_url (to_url (symbol i))) ≡ i
  pub not_pad : (from_url (symbol i) == pad) ≡ false
  pub url_not_pad : (from_url (to_url (symbol i)) == pad) ≡ false
  pub kept : (to_url (symbol i) == pad) ≡ false

pub symbol-Read : (i : ℕ) → i < 64 → Read i
symbol-Read i h =
    ground (arith, holds_on_lem 0 64 is_read i symbols_read (omega arith) (omega arith))

-- A byte of the URL-safe alphabet, which has no `.`, `;`, `+`, `/` or `=`.
abbrev pub is_url_safe : ℕ → Bool
is_url_safe c = is_alnum c || c == b'-' || c == b'_'

url_safe_table : holds_on 0 64 (λ i. is_url_safe (to_url (symbol i))) ≡ true
unfolding holds_on symbol to_url
url_safe_table = refl

pub symbol-url_safe : (i : ℕ) → i < 64 → is_url_safe (to_url (symbol i)) ≡ true
symbol-url_safe i h = holds_on_lem 0 64 _ i url_safe_table (omega arith) (omega arith)
