-- ===== src/Auth/Scope.antt =====
-- `fp_scope_allows` of src/auth.c: whether a comma-separated list of scopes names the required one.
pub mod Items
use ferretptimize.Common.{
  ℕ, zero, suc, ◌+◌, Bool, true, false, ◌&&◌, ◌||◌, Option, none, some, List, [], ◌∷◌, ◌==◌,
  if◌then◌else◌, length,
}
use ferretptimize.Common.Bytes.{Bytes, is_space, case_eq}

-- `while (*cursor == ' ' || *cursor == ',')`.
unfoldable pub skip_separators : Bytes → Bytes
skip_separators [] = []
skip_separators (c ∷ s) =
    let rest = skip_separators s in if c == b' ' || c == b',' then rest else c ∷ s

-- `while (*cursor && *cursor != ',')`: what the loop passes, and what is left from the comma on.
unfoldable pub item_of : Bytes → Bytes
item_of [] = []
item_of (c ∷ s) = let rest = item_of s in if c == b',' then [] else c ∷ rest

unfoldable pub from_comma : Bytes → Bytes
from_comma [] = []
from_comma (c ∷ s) = let rest = from_comma s in if c == b',' then c ∷ s else rest

-- `while (len > 0 && isspace(start[len - 1]))`.
unfoldable pub trim_right : Bytes → Bytes
trim_right [] = []
trim_right (c ∷ s) =
    let rest = trim_right s in if is_space c && length rest == 0 then [] else c ∷ rest

-- `if (*cursor == ',') ++cursor;`
abbrev pub past_comma : Bytes → Bytes
past_comma [] = []
past_comma (c ∷ s) = if c == b',' then s else c ∷ s

-- The loop `while (*cursor)`, with at most `n` rounds.
unfoldable pub scope_loop : ℕ → Bytes → Bytes → Bool
scope_loop zero required cursor = false
scope_loop (suc n) required [] = false
scope_loop (suc n) required (c ∷ s) =
    let start = skip_separators (c ∷ s) in
    let item = trim_right (item_of start) in
    let later = scope_loop n required (past_comma (from_comma start)) in
    if length item == length required && case_eq item required then true else later

-- `fp_scope_allows`; none is NULL.
unfoldable pub scope_allows : Option Bytes → Option Bytes → Bool
scope_allows scope none = true
scope_allows scope (some []) = true
scope_allows none (some (r ∷ required)) = false
scope_allows (some scope) (some (r ∷ required)) = scope_loop (length scope) (r ∷ required) scope
