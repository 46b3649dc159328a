-- ===== src/NextCompile/Dispatch.antt =====
-- The tables of the dispatch module and the literals and patterns in them (shared/nextcompile/dispatch.go):
-- Dispatch/Emit joins them into its text.
pub mod Literals
pub mod Groups
pub mod Partition
pub mod Emit
mod Tests
use next_deploy.Common.{
  ℕ, ◌+◌, ◌-◌, ◌*◌, Bool, true, false, not, ◌&&◌, ◌||◌, Option, none, some, List, [], ◌∷◌, ◌++◌,
  ◌==◌, length, take, drop, if◌then◌else◌,
}
use next_deploy.Common.Text.{Text, codes, has_prefix, has_suffix, contains}
use next_deploy.Common.FilePath.{split_on, join_on, trim_of, slash}
use next_deploy.NextCompile.Modules.{
  RouteKind, page, api, middleware, proxy, layout, action, static, unknown, ModuleRef,
}

-- One character of a JavaScript string, and the escapes of jsStringLiteral. The text is valid UTF-8,
-- of which the bytes beyond ASCII are kept.
unfoldable pub js_char : ℕ → Text
js_char c =
    if c == b'"'
    then codes "\\\""
    else if c == b'\\'
    then codes "\\\\"
    else if c == 10
    then codes "\\n"
    else if c == 13
    then codes "\\r"
    else c ∷ []

unfoldable pub js_chars : Text → Text
js_chars [] = []
js_chars (c ∷ cs) = js_char c ++ js_chars cs

unfoldable pub js_string_literal : Text → Text
js_string_literal s = b'"' ∷ (js_chars s ++ b'"' ∷ [])

unfoldable pub is_dynamic_route : Text → Bool
is_dynamic_route route = contains route (codes "[")

-- The segments of a route, without the slashes at its ends.
unfoldable pub segments : Text → List Text
segments route = split_on slash (trim_of slash route)

unfoldable pub penalty : Text → ℕ
penalty part =
    if has_prefix part (codes "[[...")
    then 5
    else if has_prefix part (codes "[...")
    then 4
    else if has_prefix part (codes "[")
    then 1
    else 0

unfoldable pub penalties : List Text → ℕ
penalties [] = 0
penalties (part ∷ parts) = penalty part + penalties parts

-- A penalty is at most 5, so that the score is not cut off at 0.
unfoldable pub dynamic_specificity : Text → ℕ
dynamic_specificity route = length (segments route) * 10 - penalties (segments route)

-- The metacharacters that escapeRegexLiteral knows.
unfoldable pub is_meta : ℕ → Bool
is_meta c =
    c == b'.'
    || c == b'+'
    || c == b'*'
    || c == b'?'
    || c == b'('
    || c == b')'
    || c == b'$'
    || c == b'^'
    || c == b'|'

unfoldable pub escape_regex_literal : Text → Text
escape_regex_literal [] = []
escape_regex_literal (c ∷ cs) =
    let rest = escape_regex_literal cs in if is_meta c then b'\\' ∷ c ∷ rest else c ∷ rest

-- part[skipped : len(part)-closed]
unfoldable pub name_in : ℕ → ℕ → Text → Text
name_in skipped closed part = take (length part - closed - skipped) (drop skipped part)

unfoldable pub is_optional : Text → Bool
is_optional part = has_prefix part (codes "[[...") && has_suffix part (codes "]]")

unfoldable pub is_catch_all : Text → Bool
is_catch_all part = has_prefix part (codes "[...") && has_suffix part (codes "]")

unfoldable pub is_single : Text → Bool
is_single part = has_prefix part (codes "[") && has_suffix part (codes "]")

-- The pattern and the names after one more segment.
unfoldable pub add_segment : Text → Text → List Text → Text × List Text
add_segment part written names =
    let opened = written ++ codes "\\/" in
    if is_optional part
    then (take (length opened - 2) opened ++ codes "(?:\\/(.+?))?", names ++ name_in 5 2 part ∷ [])
    else if is_catch_all part
    then (opened ++ codes "(.+?)", names ++ name_in 4 1 part ∷ [])
    else if is_single part
    then (opened ++ codes "([^/]+)", names ++ name_in 1 1 part ∷ [])
    else (opened ++ escape_regex_literal part, names)

unfoldable pub add_segments : List Text → Text × List Text → Text × List Text
add_segments [] built = built
add_segments (part ∷ parts) built = add_segments parts (add_segment part built.0 built.1)

-- The regular expression of a route, and the names of its parameters.
unfoldable pub route_to_regex : Text → Text × List Text
route_to_regex route =
    let (written, names) = add_segments (segments route) (codes "/^", []) in
    (written ++ codes "\\/?$/", names)

-- The tables of partitionRefs.
pub record Tables : Type 0 where
  pub statics : List ModuleRef
  pub dynamics : List ModuleRef
  pub middleware : Option ModuleRef
  pub proxy : Option ModuleRef

unfoldable pub file_route : Bool → ModuleRef → Tables → Tables
file_route true r t = record t { dynamics = t.dynamics ++ r ∷ [] }
file_route false r t = record t { statics = t.statics ++ r ∷ [] }

unfoldable pub file_ref : RouteKind → ModuleRef → Tables → Tables
unfolding file_route
file_ref RouteKind.middleware r t = record t { middleware = some r }
file_ref RouteKind.proxy r t = record t { proxy = some r }
file_ref page r t = file_route (is_dynamic_route r.route_path) r t
file_ref api r t = file_route (is_dynamic_route r.route_path) r t
file_ref _ r t = t

unfoldable pub file_refs : List ModuleRef → Tables → Tables
unfolding file_ref
file_refs [] t = t
file_refs (r ∷ refs) t = file_refs refs (file_ref r.kind r t)

unfoldable pub partition_refs : List ModuleRef → Tables
unfolding file_refs
partition_refs refs =
    file_refs refs (record { statics = []; dynamics = []; middleware = none; proxy = none })
