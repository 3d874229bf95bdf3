-- ===== src/Api/Examples.antt =====
-- The API at concrete paths.
use whatunga.Prelude.{◌≡◌, refl, [], codes, str_eq, has_prefix}
use whatunga.Prelude.Split.{split, join}
use whatunga.Prelude.Maps.{lookup}
use whatunga.Prelude.Paths.{
  redirection, is_at, is_below, decoded, parts_of, parts_eq, parts_below, unescape, clean_path,
  clean_parts, clean_part, rooted,
}
use whatunga.Store.{History, latest}
use whatunga.Api.{
  moved_to, no_data, handle_device_latest, latest_or_error, error_text, trim_left, trim_right,
  trim_prefix, dispatch, handle_device_route, serve,
}

abbrev empty : History
empty = record { capacity = 3; by_device = [] }

no_name :
    serve empty (codes "/api/v1/devices/")
    ≡ record { status = 400; body = error_text (codes "device name is required") }
unfolding serve handle_device_route trim_prefix trim_left trim_right split dispatch str_eq
    has_prefix redirection is_at is_below decoded parts_of parts_eq parts_below unescape clean_path
    clean_parts clean_part rooted join
no_name = refl

too_deep :
    serve empty (codes "/api/v1/devices/r1/history/x")
    ≡ record { status = 404; body = error_text (codes "not found") }
unfolding serve handle_device_route trim_prefix trim_left trim_right split dispatch str_eq
    has_prefix redirection is_at is_below decoded parts_of parts_eq parts_below unescape clean_path
    clean_parts clean_part rooted join
too_deep = refl

-- Names that the mux cleans away, and one that it does not.
dots :
    serve empty (codes "/api/v1/devices/..")
    ≡ record { status = 301; body = moved_to (codes "/api/v1") }
unfolding serve redirection decoded parts_of split unescape clean_path clean_parts clean_part rooted
    join str_eq
dots = refl

two_slashes :
    serve empty (codes "/api/v1/devices//")
    ≡ record { status = 301; body = moved_to (codes "/api/v1/devices/") }
unfolding serve redirection decoded parts_of split unescape clean_path clean_parts clean_part rooted
    join str_eq
two_slashes = refl

escaped_dot : serve empty (codes "/api/v1/devices/%2e") ≡ no_data (codes ".")
unfolding serve handle_device_route trim_prefix trim_left trim_right split dispatch str_eq
    has_prefix redirection is_at is_below decoded parts_of parts_eq parts_below unescape clean_path
    clean_parts clean_part rooted join handle_device_latest latest_or_error latest lookup
escaped_dot = refl
