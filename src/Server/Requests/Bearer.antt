-- ===== src/Server/Requests/Bearer.antt =====
-- What src/server.c gets of a bearer token: the header field that holds it, and the token read off it.
use ferretptimize.Common.{ℕ, ◌≤◌, ◌≡◌, take, ◌++◌}
use ferretptimize.Common.Bytes.{Bytes, codes, str_eq}
use ferretptimize.Server.Access.{extract_auth_token}
use ferretptimize.Server.Access.Tokens.{NoSpace, extract_auth_token-cut}
use ferretptimize.Server.Requests.{HttpRequest, set_header}

-- Where a request has the header "Bearer " and a token without white space, the two readers of the
-- field, with room for at least 248 bytes, get the first 248 bytes of the token.
pub extract_auth_token-set_header :
    (r : HttpRequest) (token : Bytes) (room : ℕ)
    → NoSpace token
    → 248 ≤ room
    → extract_auth_token room
        (set_header (codes "authorization") (codes "Bearer " ++ token) r).authorization
      ≡ take 248 token
unfolding set_header str_eq
extract_auth_token-set_header r token room h wide = extract_auth_token-cut token room h wide
