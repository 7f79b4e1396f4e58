-- ===== src/Json/Cut.antt =====
-- `fp_auth_escape_json` writes into a block of fixed size: what it cuts off.
use ferretptimize.Common.{
  ℕ, zero, suc, ◌+◌, ◌≤◌, ◌<◌, ◌≡◌, refl, ap, [], ◌∷◌, ◌++◌, some, ltb, leb, length, length-append,
  take, arith, append-nil, Bool-cases, inl, inr, sym,
}
use ferretptimize.Common.Bytes.{Bytes}
use ferretptimize.Json.{auth_escape_byte, auth_escape_from, auth_escape}

-- Every byte escaped, with no limit.
unfoldable pub auth_escape_all : Bytes → Bytes
auth_escape_all [] = []
auth_escape_all (c ∷ s) = auth_escape_byte c ++ auth_escape_all s

length-auth_escape_byte :
    (c : ℕ) → (1 ≤ length (auth_escape_byte c)) × (length (auth_escape_byte c) ≤ 2)
unfolding auth_escape_byte
length-auth_escape_byte c = ground arith

-- What the loop writes is the escape of a prefix, and it ends before the last byte of the block.
cut_lem :
    (out_len idx : ℕ) (s : Bytes)
    → idx < out_len
    → ((n : ℕ) × (auth_escape_from out_len idx s ≡ auth_escape_all (take n s)))
      × (idx + length (auth_escape_from out_len idx s) < out_len)
unfolding auth_escape_from auth_escape_all
cut_lem out_len idx [] h = ((0, refl), omega arith)
cut_lem out_len idx (c ∷ s) h =
    let e = auth_escape_byte c in
    elim (Bool-cases (ltb (idx + 2) out_len)) [
      | inr full ↦ rw full ((0, refl), omega arith)
      | inl fits ↦ elim (Bool-cases (leb out_len (idx + length e + 1))) [
        | inl last ↦
            rw (fits, last) ((1, sym (append-nil e)), ground (arith, length-auth_escape_byte c))
        | inr more ↦
            let ((n, same), room) =
              cut_lem out_len (idx + length e) s (ground (arith, length-auth_escape_byte c)) in
            rw (fits, more)
              (
                (suc n, ap (λ r. e ++ r) same),
                omega (arith, length-append e (auth_escape_from out_len (idx + length e) s)),
              )
      ]
    ]

whole_lem :
    (out_len idx : ℕ) (s : Bytes)
    → idx + length (auth_escape_all s) + 1 < out_len
    → auth_escape_from out_len idx s ≡ auth_escape_all s
unfolding auth_escape_from auth_escape_all
whole_lem out_len idx [] h = refl
whole_lem out_len idx (c ∷ s) h = ground (
  arith,
  length-auth_escape_byte c,
  length-append (auth_escape_byte c) (auth_escape_all s),
  whole_lem out_len (idx + length (auth_escape_byte c)) s,
)

-- `fp_auth_escape_json` stays inside its block, NUL included; it writes the escape of a prefix of the
-- value, so it never cuts a two-byte escape in half; and it writes the whole value whenever the
-- block has room for it, the NUL and one byte more.
pub auth_escape_cut :
    (out_len : ℕ) (s out : Bytes)
    → auth_escape out_len (some s) ≡ some out
    → (length out < out_len)
      × ((n : ℕ) × (out ≡ auth_escape_all (take n s)))
      × (length (auth_escape_all s) + 1 < out_len → out ≡ auth_escape_all s)
unfolding auth_escape
auth_escape_cut zero s out e = cc
auth_escape_cut (suc k) s out e =
    let same : auth_escape_from (suc k) 0 s ≡ out = ground arith in
    let (prefix, room) = cut_lem (suc k) 0 s (omega arith) in
    rw (← same) (ground arith, prefix, λ h. whole_lem (suc k) 0 s (omega arith))
