-- ===== src/Json/Tests.antt =====
-- Runs of the JSON writers, and their theorems at concrete inputs.
use ferretptimize.Common.{
  ℕ, ◌≡◌, ◌⊎◌, inl, refl, arith, Bool, some, none, true, false, [], ◌∷◌, ◌++◌,
}
use ferretptimize.Common.Bytes.{Bytes, codes}
use ferretptimize.Buffer.{Buffer, empty}
use ferretptimize.Buffer.Append.{IsValid}
use ferretptimize.Json.{
  progress_escape, progress_text, escape_all, escape_byte, hex_digit, measured, append_json_string,
  auth_escape, auth_escape_from, auth_escape_byte,
}
use ferretptimize.Json.Read.{read_string}
use ferretptimize.Json.Write.{read-append_json_string}

abbrev bell : Bytes
bell = 7 ∷ []

-- Nine bytes with the NUL, in a block of five.
bell_overruns : progress_escape true (some bell) ≡ some (5, codes "\"\\u0007\"" ++ 0 ∷ [])
unfolding progress_escape progress_text escape_all escape_byte hex_digit measured
bell_overruns = refl

abbrev unlimited : ℕ → Bool
unlimited n = true

read-append_json_string_example :
    ((r : Buffer) × (literal : Bytes) × (append_json_string unlimited empty (some bell) ≡ some r)
      × (r.bytes ≡ literal)
      × ((rest : Bytes) → read_string (literal ++ rest) ≡ some (bell, rest))
      × IsValid r)
    ⊎ ((append_json_string unlimited empty (some bell) ≡ none) × (n : ℕ) × (unlimited n ≡ false))
read-append_json_string_example =
    read-append_json_string unlimited empty (some bell) (inl (refl, refl)) (omega arith)

-- Six bytes hold four of these, and the NUL.
cut_run : auth_escape 6 (some (codes "a\"b\"c")) ≡ some (codes "a\\\"b")
unfolding auth_escape auth_escape_from auth_escape_byte
cut_run = refl
