-- ===== src/Server/Paths/Tests.antt =====
-- Names and paths of requests at concrete inputs.
use ferretptimize.Common.{◌+◌, ◌<◌, ◌≡◌, refl, true, none, some, length}
use ferretptimize.Common.Bytes.{Bytes, codes, has_prefix, str_eq}
use ferretptimize.Auth.Fields.{find_text}
use ferretptimize.Server.Paths.{
  after_last, past_last, copy_safe, sanitize_filename, path_below, build_filesystem_path,
}
use ferretptimize.Server.Paths.Safe.{build_filesystem_path-IsBelow}

sanitized : sanitize_filename 8 (some (codes "C:\\a/My cat (1).png")) ≡ some (codes "Mycat1.")
unfolding sanitize_filename copy_safe past_last after_last
sanitized = refl

climbs : build_filesystem_path (codes "//../etc/passwd") 512 ≡ none
unfolding build_filesystem_path path_below str_eq find_text has_prefix
climbs = refl

build_filesystem_path-IsBelow_example :
    ((out : Bytes)
      → build_filesystem_path (codes "//js/app.js") 512 ≡ some out
      → (has_prefix (codes "public/") out ≡ true)
        × (find_text (codes "..") out ≡ none)
        × (length out < 512))
    × (find_text (codes "..") (codes "//js/app.js") ≡ none
        → length (codes "//js/app.js") + 28 < 512
        → (out : Bytes) × (build_filesystem_path (codes "//js/app.js") 512 ≡ some out))
build_filesystem_path-IsBelow_example = build_filesystem_path-IsBelow (codes "//js/app.js") 512
