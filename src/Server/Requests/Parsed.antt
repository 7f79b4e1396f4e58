-- ===== src/Server/Requests/Parsed.antt =====
-- `fp_parse_request` of src/server.c on a request as a client writes it.
use ferretptimize.Common.{
  ℕ, zero, suc, ◌+◌, ◌≤◌, ◌<◌, ◌≡◌, ◌∙◌, refl, ap, ap₂, false, ◌||◌, none, some, List, [], ◌∷◌,
  ◌++◌, map, length, length-append, drop, All, All-append, ◌==◌, if◌then◌else◌, arith,
}
use ferretptimize.Common.Bytes.{Bytes, codes, to_lower}
use ferretptimize.Auth.Fields.{skip_spaces}
use ferretptimize.Auth.Token.{c_string}
use ferretptimize.Server.Multipart.{line_tokens, skip_tabs}
use ferretptimize.Server.Access.Tokens.{NoSpace}
use ferretptimize.Server.Multipart.Lines.{
  is_break, c_string-line, line_tokens-line, line_tokens-break, until-name,
}
use ferretptimize.Server.Requests.Stated.{
  Header, apply_headers, stated_request, apply_headers-stated,
}
use ferretptimize.Server.Requests.{
  HttpRequest, to_upper, word, after_word, blank_request, request_line, set_header, header_line,
  header_lines, parse_lines, parse_request,
}

-- A line of a request: some bytes, none of them NUL, CR or LF.
pub record IsLine (s : Bytes) : Type 0 where
  pub some_bytes : 0 < length s
  pub unbroken : All (λ c. is_break c ≡ false) s

abbrev pub line_of : Header → Bytes
line_of h = h.name ++ (b':' ∷ b' ' ∷ h.value)

abbrev pub lines_text : List Bytes → Bytes
lines_text [] = 13 ∷ 10 ∷ []
lines_text (l ∷ ls) = l ++ (13 ∷ 10 ∷ lines_text ls)

abbrev pub first_line : Bytes → Bytes → Bytes
first_line method path = method ++ (b' ' ∷ (path ++ codes " HTTP/1.1"))

-- A request with its header lines, and the empty line at its end.
abbrev pub request_text : Bytes → Bytes → List Header → Bytes
request_text method path headers = lines_text (first_line method path ∷ map line_of headers)

c_string-lines_text : (ls : List Bytes) → All IsLine ls → c_string (lines_text ls) ≡ lines_text ls
unfolding c_string
c_string-lines_text [] h = refl
c_string-lines_text (l ∷ ls) h =
    c_string-line l (13 ∷ 10 ∷ lines_text ls) h.0.unbroken
    ∙ ap (λ (t : Bytes). l ++ (13 ∷ 10 ∷ t)) (c_string-lines_text ls h.1)

line_tokens-lines_text : (ls : List Bytes) → All IsLine ls → line_tokens [] (lines_text ls) ≡ ls
unfolding line_tokens
line_tokens-lines_text [] h = refl
line_tokens-lines_text (l ∷ ls) h =
    line_tokens-line [] l (13 ∷ 10 ∷ lines_text ls) h.0.unbroken
    ∙ line_tokens-break l (lines_text ls) h.0.some_bytes
    ∙ ap (◌∷◌ l) (line_tokens-lines_text ls h.1)

word-append : (n : ℕ) (w rest : Bytes) → NoSpace w → length w ≤ n → word n (w ++ (b' ' ∷ rest)) ≡ w
unfolding word
word-append zero [] rest h k = refl
word-append zero (c ∷ w) rest h k = absurd (omega arith)
word-append (suc n) [] rest h k = refl
word-append (suc n) (c ∷ w) rest h k =
    rw h.0 (ap (◌∷◌ c) (word-append n w rest h.1 (omega (arith, k))))

after_word-append :
    (n : ℕ) (w rest : Bytes)
    → NoSpace w
    → length w ≤ n
    → after_word n (w ++ (b' ' ∷ rest)) ≡ b' ' ∷ rest
unfolding after_word
after_word-append zero [] rest h k = refl
after_word-append zero (c ∷ w) rest h k = absurd (omega arith)
after_word-append (suc n) [] rest h k = refl
after_word-append (suc n) (c ∷ w) rest h k =
    rw h.0 (after_word-append n w rest h.1 (omega (arith, k)))

skip_spaces-append :
    (w rest : Bytes) → NoSpace w → 0 < length w → skip_spaces (w ++ rest) ≡ w ++ rest
unfolding skip_spaces
skip_spaces-append [] rest h k = absurd (omega arith)
skip_spaces-append (c ∷ w) rest h k = rw h.0 refl

-- A method and a path that fit their fields.
pub record IsTarget (method path : Bytes) : Type 0 where
  pub plain_method : NoSpace method
  pub plain_path : NoSpace path
  pub method_size : (0 < length method) × (length method ≤ 7)
  pub path_size : (0 < length path) × (length path ≤ 255)

request_line-first_line :
    (method path : Bytes)
    → IsTarget method path
    → request_line (first_line method path) ≡ some (blank_request (map to_upper method) path)
unfolding request_line skip_spaces
request_line-first_line method path t =
    let start =
      skip_spaces-append method (b' ' ∷ (path ++ codes " HTTP/1.1")) t.plain_method
        t.method_size.0 in
    let m = word-append 7 method (path ++ codes " HTTP/1.1") t.plain_method t.method_size.1 in
    let behind =
      after_word-append 7 method (path ++ codes " HTTP/1.1") t.plain_method t.method_size.1 in
    let path_start = skip_spaces-append path (codes " HTTP/1.1") t.plain_path t.path_size.0 in
    let p = word-append 255 path (codes "HTTP/1.1") t.plain_path t.path_size.1 in
    let line = first_line method path in
    let whole_method : word 7 (skip_spaces line) ≡ method = ap (word 7) start ∙ m in
    let whole_path : word 255 (skip_spaces (after_word 7 (skip_spaces line))) ≡ path =
      ap (λ (u : Bytes). word 255 (skip_spaces (after_word 7 u))) start
      ∙ ap (λ (u : Bytes). word 255 (skip_spaces u)) behind
      ∙ ap (word 255) path_start
      ∙ p in
    let some_method : (length method == 0) ≡ false = ground (arith, t.method_size.0) in
    let some_path : (length path == 0) ≡ false = ground (arith, t.path_size.0) in
    ap₂
      (λ (u v : Bytes).
        if length u == 0 || length v == 0 then none else some (blank_request (map to_upper u) v))
      whole_method whole_path
    ∙ rw (some_method, some_path) refl

-- A header whose name has no colon, and neither part a line break.
pub record IsHeader (h : Header) : Type 0 where
  pub plain_name : All (λ c. (c == b':') ≡ false) h.name
  pub name_unbroken : All (λ c. is_break c ≡ false) h.name
  pub value_unbroken : All (λ c. is_break c ≡ false) h.value

drop-name : (name rest : Bytes) (c : ℕ) → drop (length name + 1) (name ++ (c ∷ rest)) ≡ rest
drop-name [] rest c = refl
drop-name (d ∷ name) rest c =
    let behind : suc (length name) + 1 ≡ suc (length name + 1) = omega arith in
    ap (λ (n : ℕ). drop n (d ∷ (name ++ (c ∷ rest)))) behind ∙ drop-name name rest c

header_line-line_of :
    (r : HttpRequest) (h : Header)
    → IsHeader h
    → header_line r (line_of h) ≡ set_header (map to_lower h.name) (skip_tabs h.value) r
unfolding header_line skip_tabs
header_line-line_of r h i =
    let name = until-name b':' h.name (b' ' ∷ h.value) i.plain_name in
    let value = drop-name h.name (b' ' ∷ h.value) b':' in
    rw (header_line, name)
      (ap (λ (v : Bytes). set_header (map to_lower h.name) (skip_tabs v) r) value)

header_lines-line_of :
    (hs : List Header) (r : HttpRequest)
    → All IsHeader hs
    → header_lines r (map line_of hs) ≡ apply_headers r hs
unfolding header_lines
header_lines-line_of [] r all = refl
header_lines-line_of (h ∷ hs) r all =
    ap (λ (q : HttpRequest). header_lines q (map line_of hs)) (header_line-line_of r h all.0)
    ∙ header_lines-line_of hs (set_header (map to_lower h.name) (skip_tabs h.value) r) all.1

line_of-IsLine : (h : Header) → IsHeader h → IsLine (line_of h)
line_of-IsLine h i = record {
  some_bytes = omega (arith, length-append h.name (b':' ∷ b' ' ∷ h.value));
  unbroken =
      All-append (λ c. is_break c ≡ false) h.name (b':' ∷ b' ' ∷ h.value) i.name_unbroken
        (refl, (refl, i.value_unbroken));
}

lines-IsLine : (hs : List Header) → All IsHeader hs → All IsLine (map line_of hs)
lines-IsLine [] all = tt
lines-IsLine (h ∷ hs) all = (line_of-IsLine h all.0, lines-IsLine hs all.1)

NoSpace-unbroken :
    (s : Bytes) → NoSpace s → All (λ c. (c == 0) ≡ false) s → All (λ c. is_break c ≡ false) s
NoSpace-unbroken [] h k = tt
NoSpace-unbroken (c ∷ s) h k = (ground (arith, h.0, k.0), NoSpace-unbroken s h.1 k.1)

first_line-IsLine :
    (method path : Bytes)
    → IsTarget method path
    → All (λ c. (c == 0) ≡ false) method
    → All (λ c. (c == 0) ≡ false) path
    → IsLine (first_line method path)
first_line-IsLine method path t m p = record {
  some_bytes =
      omega (arith, length-append method (b' ' ∷ (path ++ codes " HTTP/1.1")), t.method_size);
  unbroken =
      All-append (λ c. is_break c ≡ false) method (b' ' ∷ (path ++ codes " HTTP/1.1"))
        (NoSpace-unbroken method t.plain_method m)
        (
          refl,
          All-append (λ c. is_break c ≡ false) path (codes " HTTP/1.1")
              (NoSpace-unbroken path t.plain_path p) (ground arith),
        );
}

-- A request that a client writes is read back: its method in capitals, its path, and every header,
-- under its name in any case, the last of several with one name, in its own field and cut to the size of
-- that field. The method has at most 7 bytes and the path 255, neither has white space or NUL, and no
-- header has a line break.
pub parse_request-request_text :
    (method path : Bytes) (headers : List Header)
    → IsTarget method path
    → All (λ c. (c == 0) ≡ false) method
    → All (λ c. (c == 0) ≡ false) path
    → All IsHeader headers
    → parse_request (request_text method path headers)
      ≡ some (stated_request (map to_upper method) path headers)
unfolding parse_request parse_lines
parse_request-request_text method path headers t m p all =
    let lines = first_line method path ∷ map line_of headers in
    let sound : All IsLine lines =
      (first_line-IsLine method path t m p, lines-IsLine headers all) in
    let read : line_tokens [] (c_string (lines_text lines)) ≡ lines =
      ap (line_tokens []) (c_string-lines_text lines sound) ∙ line_tokens-lines_text lines sound in
    ap parse_lines read
    ∙ rw (parse_lines, request_line-first_line method path t)
        (ap some (
          header_lines-line_of headers (blank_request (map to_upper method) path) all
          ∙ apply_headers-stated headers (blank_request (map to_upper method) path)))
