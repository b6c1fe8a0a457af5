-- ===== src/Tests/Data.antt =====
-- A platform, a calendar and records of the server, for the examples.
use http_tunnels.Prelude.{
  ◌+◌, String, true, false, none, some, [], ◌∷◌, codes, show_nat, parse_from, ◌^^◌,
}
use http_tunnels.Prelude.Int.{ℤ, pos, negsuc}
use http_tunnels.Format.{Platform, round}
use http_tunnels.Api.{
  TunnelRecord, RequestResponseLog, TunnelDetailResponse, RequestActivityFilters, AdminSession,
}
use http_tunnels.Hooks.{Query}
use http_tunnels.Components.RangePicker.{Calendar, Picker}

abbrev relative_text : ℤ → String → String
relative_text (pos n) unit = "in " ^^ show_nat n ^^ " " ^^ unit
relative_text (negsuc n) unit = show_nat (n + 1) ^^ " " ^^ unit ^^ " ago"

abbrev date_text : ℤ → String
date_text (pos n) = show_nat n
date_text (negsuc n) = "-" ^^ show_nat (n + 1)

-- Dates are written as milliseconds, and it is two hours past the epoch.
abbrev pub platform : Platform
platform = record {
  format_decimal = λ x. show_nat (round x);
  format_integer = show_nat;
  format_date = date_text;
  format_relative = relative_text;
  parse_date = λ s. some (pos (parse_from 0 (codes s)));
  now = pos 7_200_000;
  stringify = λ _. "{}";
}

abbrev pub calendar : Calendar
calendar = record { day_text = λ n. show_nat n ^^ " days ago" }

abbrev tunnel_named : String → String → TunnelRecord
tunnel_named id domain = record {
  id = id;
  domain = domain;
  requested_subdomain = none;
  state = "active";
  created_at = "3600000";
  connected_at = some "3600000";
  disconnected_at = none;
  last_activity_at = none;
  total_request_bytes = 2048;
  total_response_bytes = 1024;
  request_count = 3;
  remote_addr = none;
  user_agent = none;
  client_version = some "1.2.0";
}

abbrev pub one : TunnelRecord
one = tunnel_named "t1" "one.example.com"

abbrev pub two : TunnelRecord
two = tunnel_named "t2" "two.example.com"

abbrev pub log : RequestResponseLog
log = record {
  id = "r1";
  tunnel_id = "t1";
  domain = "one.example.com";
  method = "GET";
  path = "/";
  request_headers = none;
  response_headers = none;
  request_preview = none;
  response_preview = some "hello";
  request_content_type = none;
  response_content_type = some "text/plain";
  request_bytes = 0;
  response_bytes = 5;
  status_code = 200;
  started_at = "3600000";
  completed_at = none;
  duration_ms = 12;
  error_message = none;
}

abbrev pub tunnel_detail : TunnelDetailResponse
tunnel_detail = record {
  tunnel = one;
  status_chart = [];
  traffic_chart = [];
  logs = record { items = log ∷ []; page = 1; page_size = 5; total_items = 1; total_pages = 1 };
  creation_history = [];
}

abbrev pub some_filters : RequestActivityFilters
some_filters = record { search = " api "; subdomain = ""; method = "GET"; status_class = "2XX" }

abbrev pub hourly_picker : Picker
hourly_picker = record { granularity = "hour"; start_date = "1 days ago"; end_date = "0 days ago" }

abbrev pub session_query : AdminSession → Query AdminSession
session_query session = record {
  is_loading = false;
  is_error = false;
  error_message = none;
  result = some session;
}

abbrev pub stranger : AdminSession
stranger = record { authenticated = false; configured = true; message = none }

abbrev pub unconfigured : AdminSession
unconfigured = record { authenticated = true; configured = false; message = none }
