-- ===== src/Server/Requests/Tests.antt =====
-- Requests of src/server.c at concrete inputs.
use ferretptimize.Common.{◌≡◌, ◌++◌, refl, some, List, [], ◌∷◌, map, All, arith}
use ferretptimize.Common.Bytes.{codes, has_prefix, str_eq}
use ferretptimize.Auth.Fields.{skip_spaces, read_digits}
use ferretptimize.Auth.Token.{c_string, decimal}
use ferretptimize.Server.Multipart.{line_tokens, skip_tabs, until}
use ferretptimize.Server.Headers.{no_body, got_body}
use ferretptimize.Server.Requests.{
  HttpRequest, to_upper, signed_u64, read_u64, after_digits, word, after_word, blank_request,
  request_line, set_header, header_line, header_lines, parse_lines, parse_request,
  parse_stream_path, route, expert_compress, missing_body, not_found, event_stream, static_file,
}
use ferretptimize.Common.{take}
use ferretptimize.Server.Access.{extract_auth_token}
use ferretptimize.Server.Requests.Bearer.{extract_auth_token-set_header}
use ferretptimize.Server.Requests.Streams.{parse_stream_path-decimal}
use ferretptimize.Server.Requests.Stated.{Header, stated_request}
use ferretptimize.Server.Requests.Parsed.{IsHeader, request_text, parse_request-request_text}

abbrev headers : List Header
headers =
    record { name = codes "Content-Length"; value = codes "5" }
    ∷ record { name = codes "X-FileName"; value = codes "\tcat.png" }
    ∷ []

abbrev post : HttpRequest
post = record (blank_request (codes "POST") (codes "/api/expert/compress")) {
  content_length = 5;
  filename = codes "cat.png";
}

post-read :
    parse_request (request_text (codes "post") (codes "/api/expert/compress") headers) ≡ some post
unfolding parse_request parse_lines c_string line_tokens request_line word after_word skip_spaces
    header_lines header_line until skip_tabs set_header str_eq signed_u64 read_digits
post-read = refl

-- A method that is too long runs into the path.
long_method :
    parse_request (codes "CONNECTED /x HTTP/1.1\r\n\r\n")
    ≡ some (blank_request (codes "CONNECT") (codes "ED"))
unfolding parse_request parse_lines c_string line_tokens request_line word after_word skip_spaces
    header_lines
long_method = refl

negative_length : read_u64 (codes " -1") ≡ 18446744073709551615
unfolding signed_u64 skip_spaces read_digits
negative_length = refl

post-routed : route post (got_body (codes "12345")) ≡ expert_compress (codes "12345")
unfolding route str_eq
post-routed = refl

post-empty : route post no_body ≡ missing_body
unfolding route str_eq
post-empty = refl

get_stream :
    route (blank_request (codes "GET") (codes "/api/jobs/12/events")) no_body ≡ event_stream 12
unfolding route str_eq parse_stream_path has_prefix skip_spaces signed_u64 read_digits after_digits
get_stream = refl

get_file :
    route (blank_request (codes "GET") (codes "/api/jobs/0/events")) no_body
    ≡ static_file (codes "/api/jobs/0/events")
unfolding route str_eq parse_stream_path has_prefix skip_spaces signed_u64 read_digits after_digits
get_file = refl

other_method : route (blank_request (codes "PUT") (codes "/")) no_body ≡ not_found
unfolding route str_eq
other_method = refl

parse_stream_path-decimal_example :
    parse_stream_path (codes "/api/jobs/" ++ (decimal 1234 ++ codes "/events")) ≡ some 1234
parse_stream_path-decimal_example = parse_stream_path-decimal 1234 (omega arith) (omega arith)

headers-AreHeaders : All IsHeader headers
headers-AreHeaders = (
  record { plain_name = ground arith; name_unbroken = ground arith; value_unbroken = ground arith },
  (
    record {
      plain_name = ground arith;
      name_unbroken = ground arith;
      value_unbroken = ground arith;
    },
    tt,
  ),
)

parse_request-request_text_example :
    parse_request (request_text (codes "post") (codes "/api/expert/compress") headers)
    ≡ some (stated_request (map to_upper (codes "post")) (codes "/api/expert/compress") headers)
parse_request-request_text_example =
    parse_request-request_text (codes "post") (codes "/api/expert/compress") headers
      (record {
        plain_method = ground arith;
        plain_path = ground arith;
        method_size = (omega arith, omega arith);
        path_size = (omega arith, omega arith);
      })
      (ground arith) (ground arith) headers-AreHeaders

extract_auth_token-set_header_example :
    extract_auth_token 255
      (set_header (codes "authorization") (codes "Bearer " ++ codes "abc.def") post).authorization
    ≡ take 248 (codes "abc.def")
extract_auth_token-set_header_example =
    extract_auth_token-set_header post (codes "abc.def") 255 (ground arith) (omega arith)
