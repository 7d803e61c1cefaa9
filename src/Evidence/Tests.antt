-- ===== src/Evidence/Tests.antt =====
-- Tests of the evidence store, and its theorems at concrete files.
use new_api_gateway.Prelude.{String, true, [], ◌∷◌, none, some, ◌≡◌, refl, string_eq}
use new_api_gateway.Text.{has_prefix, cut_prefix, trim_prefix, contains, split, join}
use new_api_gateway.Evidence.{
  Files, PutRequest, up, push, clean_onto, clean, join_path, relative, absolute_root, is_bad_part,
  is_bad_name, validate_object_ref, is_within, open_within, open_ref, get_in, get, named,
  write_object, put_object, put_in, put,
}
use new_api_gateway.Evidence.Inside.{IsInside, get-IsInside}
use new_api_gateway.Evidence.RoundTrip.Stored.{get-put}

abbrev no_files : Files
no_files = λ path. none

abbrev request : String → PutRequest
request object_type = record {
  trace_id = "t1";
  object_type = object_type;
  content_type = "text/plain";
  reader = some "bytes";
}

abbrev files : Files
files = (put true ("2026", "11", "26") [] "/data/" no_files (request "request_raw")).1

abbrev ref : String
ref = "file:///raw/2026/11/26/t1/request_raw.bin"

stored_ref :
    (put true ("2026", "11", "26") [] "/data/" no_files (request "request_raw")).0
    ≡ some (record { object_ref = ref; content_type = "text/plain"; content = "bytes" })
unfolding put put_in put_object write_object named absolute_root is_bad_part is_within relative
    join_path clean clean_onto push up split join has_prefix cut_prefix contains
stored_ref = refl

-- An object type that ends in a dot is stored, and its reference is refused.
dot_refused :
    let o = put true ("2026", "11", "26") [] "/data" no_files (request "raw.") in
    (o.0
      ≡ some (record {
        object_ref = "file:///raw/2026/11/26/t1/raw..bin";
        content_type = "text/plain";
        content = "bytes";
      }))
    × (get [] "/data" o.1 "file:///raw/2026/11/26/t1/raw..bin" ≡ none)
unfolding put put_in put_object write_object named absolute_root is_bad_part is_within relative
    join_path clean clean_onto push up split join has_prefix cut_prefix contains get get_in open_ref
    open_within validate_object_ref is_bad_name trim_prefix
dot_refused = (refl, refl)

outside_refused : get [] "/data" files "file:///raw/../../etc/passwd" ≡ none
unfolding get get_in open_ref validate_object_ref absolute_root has_prefix cut_prefix trim_prefix
    contains clean clean_onto push up split
outside_refused = refl

get-IsInside_example : IsInside ("data" ∷ []) files "bytes"
unfolding put put_in put_object write_object named absolute_root is_bad_part is_within relative
    join_path clean clean_onto push up split join has_prefix cut_prefix contains get get_in open_ref
    open_within validate_object_ref is_bad_name trim_prefix
get-IsInside_example = get-IsInside [] "/data" files ref refl refl

get-put_example :
    ((request "request_raw").reader ≡ some "bytes") × (get [] "/data/" files ref ≡ some "bytes")
unfolding put put_in put_object write_object named absolute_root is_bad_part is_bad_name is_within
    relative join_path clean clean_onto push up split join has_prefix cut_prefix contains
get-put_example =
    get-put true "2026" "11" "26" [] "/data/" no_files (request "request_raw")
      {o = record { object_ref = ref; content_type = "text/plain"; content = "bytes" }} refl
      (record { no_slash = refl; no_backslash = refl; no_dots = refl; good = refl })
      (record { no_slash = refl; no_backslash = refl; no_dots = refl; good = refl })
      (record { no_slash = refl; no_backslash = refl; no_dots = refl; good = refl }) refl refl
