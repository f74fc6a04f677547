-- ===== src/Tests/Requests.antt =====
-- Concrete runs of the request reading of src/server.c.
use adb_termux_bridge.Base.{
  ◌<◌, ◌≡◌, refl, true, none, some, [], ◌∷◌, ◌++◌, arith, Bytes, codes, bytes_eq, starts_with,
  strstr, skip_spaces,
}
use adb_termux_bridge.Http.Headers.{is_chunked}
use adb_termux_bridge.Http.Reading.{
  read_until_crnlcrnl, read_until_crnlcrnl_sound, read_until_crnlcrnl_complete, ends_headers,
}
use adb_termux_bridge.Http.RequestLine.{
  Layout, RequestLine, parse_request_line, parse_request_line_overflow,
  parse_request_line_long_method,
}
use adb_termux_bridge.Ssl.{scripted, Delivers}

-- The sizes of `handle_client`, with `path` below `buf`.
abbrev below : Layout
below = record { mcap = 16; pcap = 1024; qcap = 1024; line_at = 70000; path_at = 4096 }

-- The same with `path` behind `buf`.
abbrev above : Layout
above = record { mcap = 16; pcap = 1024; qcap = 1024; line_at = 4096; path_at = 70000 }

-- A small `path` array below `line`.
abbrev tiny : Layout
tiny = record { mcap = 16; pcap = 4; qcap = 4; line_at = 100; path_at = 8 }

get : Bytes
get = codes "GET"

upload_run :
    parse_request_line below (codes "POST /api/upload?path=/x?y HTTP/1.1\r\n")
    ≡ some (record {
      method = codes "POST";
      path = codes "/api/upload";
      query = codes "path=/x?y";
      path_extent = 22;
    })
unfolding parse_request_line
upload_run = refl

parse_request_line_overflow_example :
    (r : RequestLine) × (parse_request_line tiny
        (codes "GET" ++ (b' ' ∷ (codes "/long" ++ (b' ' ∷ []))))
      ≡ some r)
    × (4 < r.path_extent)
parse_request_line_overflow_example =
    parse_request_line_overflow tiny (codes "GET") (codes "/long") [] (ground arith) (ground arith)
      (omega arith) (omega arith) (omega arith)

abbrev lost : RequestLine
lost = record { method = codes "GET"; path = []; query = []; path_extent = 1 }

lost_run : parse_request_line above (codes "GET /x HTTP/1.1") ≡ some lost
unfolding parse_request_line
lost_run = refl

parse_request_line_long_method_example :
    parse_request_line below (codes "ABCDEFGHIJKLMNO" ++ (b'P' ∷ codes " / HTTP/1.1")) ≡ none
parse_request_line_long_method_example =
    parse_request_line_long_method below (codes "ABCDEFGHIJKLMNO") (codes " / HTTP/1.1")
      (ground arith) (omega arith) b'P' refl

chunked_run : is_chunked (codes "Transfer-Encoding: chunked\r\n") ≡ true
unfolding is_chunked strstr starts_with skip_spaces
chunked_run = refl

abbrev request : Bytes
request = codes "GET / HTTP/1.1\r\n\r\n"

short_delivered : Delivers scripted (codes "\r\n\r\nb") (codes "\r\n\r\n") (codes "b")
short_delivered = (refl, (refl, (refl, (refl, refl))))

short_run : (read_until_crnlcrnl scripted 8 (codes "\r\n\r\nb")).0 ≡ some (codes "\r\n\r\n")
unfolding read_until_crnlcrnl ends_headers bytes_eq
short_run = refl

read_until_crnlcrnl_complete_example :
    read_until_crnlcrnl scripted 8 (codes "\r\n\r\nb") ≡ (some (codes "\r\n\r\n"), codes "b")
read_until_crnlcrnl_complete_example =
    read_until_crnlcrnl_complete scripted 8 (codes "\r\n\r\n") (codes "\r\n\r\nb") (codes "b")
      short_delivered
      (read_until_crnlcrnl_sound scripted 8 (codes "\r\n\r\nb") (codes "\r\n\r\n") short_run)
