-- ===== src/Server/Paths/Safe.antt =====
-- What the names and paths that src/server.c makes of a request cannot hold.
use ferretptimize.Common.{
  ℕ, zero, suc, ◌+◌, ◌-◌, ◌≤◌, ◌<◌, ◌≡◌, refl, ap, true, false, none, some, [], ◌∷◌, ◌++◌, leb,
  ◌==◌, if◌then◌else◌, length, take, All, arith, Bool-cases, Option-cases, inl, inr,
}
use mathlib.Core.Option.{some_inj}
use ferretptimize.Common.Bytes.{Bytes, codes, has_prefix, str_eq}
use ferretptimize.Auth.Fields.{find_text}
use ferretptimize.Server.Paths.{
  past_last, is_safe, copy_safe, sanitize_filename, skip_slashes, public_root, or_index, path_below,
  build_filesystem_path,
}

-- The safe bytes of a text.
unfoldable pub safe_bytes : Bytes → Bytes
safe_bytes [] = []
safe_bytes (c ∷ s) = let rest = safe_bytes s in if is_safe c then c ∷ rest else rest

copy_safe-take : (room : ℕ) (s : Bytes) → copy_safe room s ≡ take room (safe_bytes s)
unfolding copy_safe safe_bytes
copy_safe-take zero [] = refl
copy_safe-take (suc room) [] = refl
copy_safe-take zero (c ∷ s) = refl
copy_safe-take (suc room) (c ∷ s) = elim (Bool-cases (is_safe c)) [
  | inl safe ↦ rw safe (ap (◌∷◌ c) (copy_safe-take room s))
  | inr other ↦ rw other (copy_safe-take (suc room) s)
]

copy_safe-safe :
    (room : ℕ) (s : Bytes)
    → All (λ c. is_safe c ≡ true) (copy_safe room s) × (length (copy_safe room s) ≤ room)
unfolding copy_safe
copy_safe-safe zero [] = (tt, omega arith)
copy_safe-safe (suc room) [] = (tt, omega arith)
copy_safe-safe zero (c ∷ s) = (tt, omega arith)
copy_safe-safe (suc room) (c ∷ s) = elim (Bool-cases (is_safe c)) [
  | inl safe ↦
      let (rest, size) = copy_safe-safe room s in rw safe ((safe, rest), omega (arith, size))
  | inr other ↦ rw other (copy_safe-safe (suc room) s)
]

-- A sanitized name fits its block with the NUL, holds letters, digits, dashes, dots and underscores
-- only, so no slash, and is the start of the safe bytes behind the last slash and backslash.
pub sanitize_filename_lem :
    (dst_size : ℕ) (src out : Bytes)
    → sanitize_filename dst_size (some src) ≡ some out
    → (length out < dst_size)
      × All (λ c. is_safe c ≡ true) out
      × (out ≡ take (dst_size - 1) (safe_bytes (past_last b'\\' (past_last b'/' src))))
unfolding sanitize_filename
sanitize_filename_lem zero src out e = absurd (cc)
sanitize_filename_lem (suc room) src out e =
    let base = past_last b'\\' (past_last b'/' src) in
    let (safe, size) = copy_safe-safe room base in
    let shown : suc room - 1 ≡ room = omega arith in
    rw (← some_inj.0 e, shown) (omega (arith, size), safe, copy_safe-take room base)

skip_slashes-find :
    (needle s : Bytes) → find_text needle s ≡ none → find_text needle (skip_slashes s) ≡ none
unfolding skip_slashes find_text
skip_slashes-find needle [] h = h
skip_slashes-find needle (c ∷ s) h = elim (Bool-cases (c == b'/')) [
  | inl slash ↦ rw slash (skip_slashes-find needle s (ground (arith, h)))
  | inr other ↦ rw other h
]

find-below_root :
    (s : Bytes)
    → find_text (codes "..") s ≡ none
    → find_text (codes "..") (public_root ++ (b'/' ∷ or_index s)) ≡ none
unfolding find_text has_prefix
find-below_root [] h = refl
find-below_root (c ∷ s) h = h

length-skip_slashes : (s : Bytes) → length (skip_slashes s) ≤ length s
unfolding skip_slashes
length-skip_slashes [] = omega arith
length-skip_slashes (c ∷ s) = ground (arith, length-skip_slashes s)

length-or_index : (s : Bytes) → length (or_index s) ≤ length s + 10
length-or_index [] = omega arith
length-or_index (c ∷ s) = omega arith

path_below-some :
    (path : Bytes) (out_len : ℕ) (out : Bytes)
    → path_below path out_len ≡ some out
    → (has_prefix (codes "public/") out ≡ true)
      × (find_text (codes "..") out ≡ none)
      × (length out < out_len)
unfolding path_below has_prefix
path_below-some path out_len out e = elim (Option-cases (find_text (codes "..") path)) [
  | inr (at, f) ↦ absurd (ground (arith, f, e))
  | inl f ↦
      elim (Bool-cases
        (leb out_len (length (public_root ++ (b'/' ∷ or_index (skip_slashes path)))))) [
          | inl long ↦ absurd (ground (arith, f, long, e))
          | inr fits ↦
              let made : some (public_root ++ (b'/' ∷ or_index (skip_slashes path))) ≡ some out =
                ground (arith, f, fits, e) in
              rw (← some_inj.0 made) (
                refl,
                find-below_root (skip_slashes path) (skip_slashes-find (codes "..") path f),
                ground (arith, fits),
              )
        ]
]

path_below-fits :
    (path : Bytes) (out_len : ℕ)
    → find_text (codes "..") path ≡ none
    → length path + 17 < out_len
    → (out : Bytes) × (path_below path out_len ≡ some out)
unfolding path_below
path_below-fits path out_len f h =
    let size = length-or_index (skip_slashes path) in
    let fits : leb out_len (length (public_root ++ (b'/' ∷ or_index (skip_slashes path)))) ≡ false =
      ground (arith, size, length-skip_slashes path, h) in
    rw (path_below, f, fits) (_, refl)

index_dots : find_text (codes "..") (codes "/index.html") ≡ none
unfolding find_text has_prefix
index_dots = refl

-- A request gets a file below the public directory whose path holds no two dots in a row, whatever is
-- asked for, and the path fits its block; a path without two dots in a row is served whenever the block
-- is more than 28 bytes longer.
pub build_filesystem_path-IsBelow :
    (request_path : Bytes) (out_len : ℕ)
    → ((out : Bytes)
        → build_filesystem_path request_path out_len ≡ some out
        → (has_prefix (codes "public/") out ≡ true)
          × (find_text (codes "..") out ≡ none)
          × (length out < out_len))
      × (find_text (codes "..") request_path ≡ none
          → length request_path + 28 < out_len
          → (out : Bytes) × (build_filesystem_path request_path out_len ≡ some out))
unfolding build_filesystem_path
build_filesystem_path-IsBelow request_path out_len =
    elim (Bool-cases (str_eq request_path (codes "/"))) [
      | inl root ↦
          rw (build_filesystem_path, root)
            (
              (λ out e. path_below-some (codes "/index.html") out_len out e),
              (λ f h. path_below-fits (codes "/index.html") out_len index_dots (omega (arith, h))),
            )
      | inr other ↦
          rw (build_filesystem_path, other)
            (
              (λ out e. path_below-some request_path out_len out e),
              (λ f h. path_below-fits request_path out_len f (omega (arith, h))),
            )
    ]
