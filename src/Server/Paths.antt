-- ===== src/Server/Paths.antt =====
-- Names from outside in src/server.c: `fp_sanitize_filename` and `fp_build_filesystem_path`.
pub mod Safe
mod Tests
use ferretptimize.Common.{
  ℕ, zero, suc, ◌+◌, ◌-◌, Bool, true, false, not, ◌&&◌, ◌||◌, Option, none, some, List, [], ◌∷◌,
  ◌++◌, leb, ltb, ◌==◌, if◌then◌else◌, length,
}
use ferretptimize.Common.Bytes.{Bytes, codes, is_alnum, str_eq}
use ferretptimize.Auth.Fields.{find_text}

-- `strrchr`: what follows the last `b`.
unfoldable pub after_last : ℕ → Bytes → Option Bytes
after_last b [] = none
after_last b (c ∷ s) = elim (after_last b s) [
  | some rest ↦ some rest
  | none ↦ if c == b then some s else none
]

unfoldable pub past_last : ℕ → Bytes → Bytes
past_last b s = elim (after_last b s) [ some rest ↦ rest | none ↦ s ]

abbrev pub is_safe : ℕ → Bool
is_safe c = is_alnum c || c == b'_' || c == b'-' || c == b'.'

-- The loop of `fp_sanitize_filename`, with room for `room` more bytes.
unfoldable pub copy_safe : ℕ → Bytes → Bytes
copy_safe room [] = []
copy_safe zero (c ∷ s) = []
copy_safe (suc room) (c ∷ s) =
    let kept = copy_safe room s in
    let dropped = copy_safe (suc room) s in if is_safe c then c ∷ kept else dropped

-- `fp_sanitize_filename`: what `dst` holds, if it has room for a NUL.
unfoldable pub sanitize_filename : ℕ → Option Bytes → Option Bytes
sanitize_filename zero src = none
sanitize_filename (suc room) none = some []
sanitize_filename (suc room) (some src) =
    some (copy_safe room (past_last b'\\' (past_last b'/' src)))

-- `while (*path == '/') ++path;`
unfoldable pub skip_slashes : Bytes → Bytes
skip_slashes [] = []
skip_slashes (c ∷ s) = let rest = skip_slashes s in if c == b'/' then rest else c ∷ s

abbrev pub public_root : Bytes
public_root = codes "public"

abbrev pub or_index : Bytes → Bytes
or_index [] = codes "index.html"
or_index (c ∷ s) = c ∷ s

-- The path under the public directory, if it fits.
unfoldable pub path_below : Bytes → ℕ → Option Bytes
path_below path out_len =
    let out = public_root ++ (b'/' ∷ or_index (skip_slashes path)) in
    elim (find_text (codes "..") path) [
      | some at ↦ none
      | none ↦ if leb out_len (length out) then none else some out
    ]

-- `fp_build_filesystem_path`.
unfoldable pub build_filesystem_path : Bytes → ℕ → Option Bytes
build_filesystem_path request_path out_len =
    path_below (if str_eq request_path (codes "/") then codes "/index.html" else request_path)
      out_len
