-- ===== src/Guard/Tests.antt =====
-- The theorem on the guard at a write from the dashboard.
use molenkopf.Base.{inl, String, ◌≡◌, refl, Option, none, some, ◌==◌, if◌then◌else◌}
use molenkopf.Guard.{Url, Request, passed, check_control_plane_write}
use molenkopf.Guard.Laws.{IsSafeWrite, check_control_plane_write-IsSafeWrite}

-- A parser that knows two addresses.
abbrev test_parse : String → Option Url
test_parse s =
    if s == "http://localhost:4000"
    then some (record {
      protocol = "http:";
      host = "localhost:4000";
      hostname = "localhost";
      port = "4000";
    })
    else if s == "http://127.0.0.1:5173"
    then some (record {
      protocol = "http:";
      host = "127.0.0.1:5173";
      hostname = "127.0.0.1";
      port = "5173";
    })
    else none

abbrev a_write : Request
a_write = record {
  method = some "POST";
  origin = some "http://localhost:4000";
  host = some "LOCALHOST:4000";
  cookie = some "a=b; molenkopf_session=x";
  content_type = some "application/json; charset=utf-8";
}

a_write-passes : check_control_plane_write test_parse none a_write "0.0.0.0" ≡ passed
unfolding check_control_plane_write
a_write-passes = refl

IsSafeWrite-example : IsSafeWrite test_parse none a_write "0.0.0.0"
IsSafeWrite-example =
    check_control_plane_write-IsSafeWrite test_parse none a_write "0.0.0.0" "POST" refl (inl refl)
      a_write-passes
