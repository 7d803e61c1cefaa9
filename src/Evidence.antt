-- ===== src/Evidence.antt =====
-- internal/evidence/store.go: the evidence in files below a root. Paths are the lists of their names on a
-- system whose separator is the slash, and the standard library's functions on paths work on these lists.
mod Parts
mod Paths
pub mod Inside
pub mod RoundTrip
mod Tests
use new_api_gateway.Prelude.{
  ℕ, String, Bool, true, false, ◌&&◌, ◌||◌, List, [], ◌∷◌, ◌++◌, Option, none, some, ◌==◌,
  string_eq, if◌then◌else◌, any,
}
use new_api_gateway.Text.{◌<>◌, is_empty, has_prefix, trim_prefix, contains, split, join}

abbrev pub Names : Type 0
Names = List String

-- The files with their contents.
abbrev pub Files : Type 0
Files = Names → Option String

-- `filepath.Clean`, name by name onto the names so far, the last one first: an absolute path (`rooted`) has
-- nothing above its root.
unfoldable pub up : Bool → Names → Names
up rooted [] = if rooted then [] else ".." ∷ []
up rooted (top ∷ above) = if top == ".." then ".." ∷ top ∷ above else above

unfoldable pub push : Bool → Names → String → Names
push rooted above name =
    let higher = up rooted above in
    if is_empty name || name == "." then above else if name == ".." then higher else name ∷ above

abbrev pub unwind : Names → Names → Names
unwind [] names = names
unwind (name ∷ above) names = unwind above (name ∷ names)

unfoldable pub clean_onto : Bool → Names → Names → Names
clean_onto rooted above [] = unwind above []
clean_onto rooted above (name ∷ names) = clean_onto rooted (push rooted above name) names

unfoldable pub clean : Bool → Names → Names
clean rooted names = clean_onto rooted [] names

-- `filepath.Join` of an absolute path and names.
abbrev pub split_all : List String → Names
split_all [] = []
split_all (text ∷ texts) = split b'/' text ++ split_all texts

unfoldable pub join_path : Names → List String → Names
join_path path texts = clean true (path ++ split_all texts)

-- `filepath.Rel` from an absolute path to one below it; no answer stands for a path that starts with "..".
unfoldable pub relative : Names → Names → Option Names
relative [] path = some path
relative (name ∷ names) [] = none
relative (name ∷ names) (other ∷ path) =
    let rest = relative names path in if name == other then rest else none

-- `absoluteRoot`, in a working directory.
unfoldable pub absolute_root : Names → String → Option Names
absolute_root directory root =
    if is_empty root
    then none
    else if has_prefix "/" root
    then some (clean true (split b'/' root))
    else some (join_path directory (root ∷ []))

-- `validatePathPart` and `validateObjectRef`
unfoldable pub is_bad_part : String → Bool
is_bad_part value =
    is_empty value
    || (has_prefix "/" value || value == "." || value == "..")
    || (contains "/" value || contains "\\" value || contains ".." value)

unfoldable pub is_bad_name : String → Bool
is_bad_name name = is_empty name || name == "." || name == ".."

abbrev pub or_none : Names → Option Names
or_none [] = none
or_none (name ∷ names) = some (name ∷ names)

unfoldable pub validate_object_ref : String → Option Names
validate_object_ref ref =
    if is_empty ref
    then none
    else if contains "\\" ref || contains "//" ref || contains ".." ref
    then none
    else if has_prefix "/" ref
    then none
    else if any is_bad_name (split b'/' ref)
    then none
    else or_none (clean false (split b'/' ref))

-- `ensureWithinRoot`
abbrev pub is_some : {A : Type 0} → Option A → Bool
is_some none = false
is_some (some a) = true

unfoldable pub is_within : Names → Names → Bool
is_within root path = is_some (relative root path)

-- `FilesystemStore.Get`, for a store that has the root and a context that has not ended.
unfoldable pub open_within : Names → Files → Names → Option String
open_within root files path = if is_within root path then files path else none

unfoldable pub open_ref : Names → Files → Option Names → Option String
open_ref root files none = none
open_ref root files (some names) = open_within root files (clean true (root ++ names))

unfoldable pub get_in : Files → String → Option Names → Option String
get_in files ref none = none
get_in files ref (some root) =
    if has_prefix "file:///" ref
    then open_ref root files (validate_object_ref (trim_prefix "file:///" ref))
    else none

unfoldable pub get : Names → String → Files → String → Option String
get directory root files ref = get_in files ref (absolute_root directory root)

-- `PutRequest`; there may be no reader.
pub record PutRequest : Type 0 where
  pub trace_id : String
  pub object_type : String
  pub content_type : String
  pub reader : Option String

-- `Object` without its backend and its time; the content stands for its size and its hash, which `Put` takes
-- of it.
pub record Object : Type 0 where
  pub object_ref : String
  pub content_type : String
  pub content : String

abbrev pub same_path : Names → Names → Bool
same_path [] [] = true
same_path [] (b ∷ bs) = false
same_path (a ∷ as') [] = false
same_path (a ∷ as') (b ∷ bs) = a == b && same_path as' bs

abbrev pub write_file : Files → Names → String → Files
write_file files path content = λ p. if same_path p path then some content else files p

-- `FilesystemStore.Put`: `works` says whether the context, the file system and the reader do. The file gets its name when
-- it is complete, so that a failure leaves the files as they are.
unfoldable pub named : PutRequest → String → Option Names → Option Object
named req content none = none
named req content (some names) = some (record {
  object_ref = "file:///" <> join "/" names;
  content_type = req.content_type;
  content = content;
})

unfoldable pub write_object :
    Bool → Files → PutRequest → String → Names → Names → Option Object × Files
write_object works files req content root path =
    if is_within root path
    then (if works
        then (named req content (relative root path), write_file files path content)
        else (none, files))
    else (none, files)

unfoldable pub put_object :
    Bool
    → String × String × String
    → Files
    → PutRequest
    → Names
    → Option String
    → Option Object × Files
put_object works date files req root none = (none, files)
put_object works (year, month, day) files req root (some content) =
    let dir = join_path root ("raw" ∷ year ∷ month ∷ day ∷ req.trace_id ∷ []) in
    write_object works files req content root (join_path dir ((req.object_type <> ".bin") ∷ []))

unfoldable pub put_in :
    Bool → String × String × String → Files → PutRequest → Option Names → Option Object × Files
put_in works date files req none = (none, files)
put_in works date files req (some root) =
    if is_bad_part req.trace_id
    then (none, files)
    else if is_bad_part req.object_type
    then (none, files)
    else put_object works date files req root req.reader

unfoldable pub put :
    Bool → String × String × String → Names → String → Files → PutRequest → Option Object × Files
put works date directory root files req = put_in works date files req (absolute_root directory root)
