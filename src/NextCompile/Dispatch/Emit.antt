-- ===== src/NextCompile/Dispatch/Emit.antt =====
-- The text of the dispatch module (renderDispatchTable and importPrefixFor of
-- shared/nextcompile/dispatch.go). sort.Slice, whose order of equal elements Go leaves open, and
-- filepath.Rel between the absolute paths are parameters.
use next_deploy.Common.{
  ℕ, ◌+◌, ◌/◌, ◌%◌, Bool, not, ◌||◌, Option, none, some, List, [], ◌∷◌, ◌++◌, ◌==◌, ltb,
  if◌then◌else◌, map,
}
use next_deploy.Common.Text.{Text, codes, text_eq, text_le}
use next_deploy.Common.Map.{Map}
use next_deploy.Common.Sort.{sort}
use next_deploy.Common.FilePath.{join_on}
use next_deploy.NextCompile.Modules.{ModuleRef, kind_name}
use next_deploy.NextCompile.Paths.{is_listed}
use next_deploy.NextCompile.Dispatch.{
  js_string_literal, dynamic_specificity, route_to_regex, Tables, partition_refs,
}

hex_digit : ℕ → ℕ
hex_digit d = if ltb d 10 then d + b'0' else d + 87

-- strconv.Quote, which %q prints, on valid UTF-8 that holds no unprintable character beyond ASCII.
quoted_char : ℕ → Text
unfolding hex_digit
quoted_char c =
    if c == b'"' || c == b'\\'
    then b'\\' ∷ c ∷ []
    else if c == 7
    then codes "\\a"
    else if c == 8
    then codes "\\b"
    else if c == 9
    then codes "\\t"
    else if c == 10
    then codes "\\n"
    else if c == 11
    then codes "\\v"
    else if c == 12
    then codes "\\f"
    else if c == 13
    then codes "\\r"
    else if ltb c 32 || c == 127
    then b'\\' ∷ b'x' ∷ hex_digit (c / 16) ∷ hex_digit (c % 16) ∷ []
    else c ∷ []

quoted_chars : Text → Text
unfolding quoted_char
quoted_chars [] = []
quoted_chars (c ∷ cs) = quoted_char c ++ quoted_chars cs

unfoldable pub quote : Text → Text
unfolding quoted_chars
quote s = b'"' ∷ (quoted_chars s ++ b'"' ∷ [])

truth_text : Bool → Text
truth_text b = if b then codes "true" else codes "false"

-- () => import("...")
unfoldable pub import_of : Text → Text → Text
import_of prefix path = codes "() => import(" ++ (js_string_literal (prefix ++ path) ++ codes ")")

layout_loaders : Text → List Text → Text
layout_loaders prefix paths = join_on (codes ", ") (map (import_of prefix) paths)

client_manifest_field : Text → Text → Text
client_manifest_field prefix path =
    if text_eq path []
    then codes "loadClientManifest: null"
    else codes "loadClientManifest: () => import("
      ++ (js_string_literal (prefix ++ path) ++ codes ", { with: { type: \"json\" } })")

layouts_field : Text → List Text → Text
unfolding layout_loaders
layouts_field prefix [] = codes "loadLayouts: []"
layouts_field prefix (path ∷ paths) =
    codes "loadLayouts: [" ++ (layout_loaders prefix (path ∷ paths) ++ codes "]")

unfoldable pub render_entry_fields : Text → ModuleRef → Text
unfolding truth_text client_manifest_field layouts_field
render_entry_fields prefix r = join_on (codes ", ") (
    (codes "kind: " ++ quote (kind_name r.kind))
    ∷ (codes "usesRSC: " ++ truth_text r.uses_rsc)
    ∷ (codes "hasActions: " ++ truth_text r.has_actions)
    ∷ (codes "ppr: " ++ truth_text r.ppr_enabled)
    ∷ (codes "compiled: " ++ quote r.compiled_path)
    ∷ (codes "load: " ++ import_of prefix r.compiled_path)
    ∷ client_manifest_field prefix r.client_manifest_path
    ∷ layouts_field prefix r.layout_chain
    ∷ [])

unfoldable pub render_entry_body : Text → ModuleRef → Text
render_entry_body prefix r = codes "{ " ++ (render_entry_fields prefix r ++ codes " }")

abbrev newline : Text
newline = 10 ∷ []

unfoldable pub static_entry : Text → ModuleRef → Text
static_entry prefix r =
    codes "  "
    ++ (js_string_literal r.route_path
        ++ (codes ": " ++ (render_entry_body prefix r ++ (codes "," ++ newline))))

unfoldable pub param_names_literal : List Text → Text
param_names_literal [] = codes "[]"
param_names_literal (name ∷ names) =
    codes "[" ++ (join_on (codes ", ") (map js_string_literal (name ∷ names)) ++ codes "]")

unfoldable pub dynamic_entry : Text → ModuleRef → Text
dynamic_entry prefix r =
    let (pattern, names) = route_to_regex r.route_path in
    codes "  { route: "
    ++ (quote r.route_path
        ++ (codes ", pattern: "
            ++ (pattern
                ++ (codes ", paramNames: "
                    ++ (param_names_literal names
                        ++ (codes ", "
                            ++ (render_entry_fields prefix r ++ (codes " }," ++ newline))))))))

unfoldable pub optional_ref : Text → Text → Option ModuleRef → Text
optional_ref name prefix none = codes "export const " ++ (name ++ (codes " = null;" ++ newline))
optional_ref name prefix (some r) =
    codes "export const "
    ++ (name
        ++ (codes " = { compiled: "
            ++ (quote r.compiled_path
                ++ (codes ", load: "
                    ++ (import_of prefix r.compiled_path ++ (codes " };" ++ newline))))))

concat_texts : List Text → Text
concat_texts [] = []
concat_texts (t ∷ ts) = t ++ concat_texts ts

-- The distinct modules of the actions, which are given by their identifiers; an empty one is left out.
unfoldable pub unique_action_modules : Map Text → List Text
unique_action_modules [] = []
unique_action_modules ((id, name) ∷ actions) =
    let rest = unique_action_modules actions in
    if text_eq name [] || is_listed name rest then rest else name ∷ rest

unfoldable pub action_loader : Text → Text → Text → Text
action_loader prefix dist name =
    codes "  "
    ++ (js_string_literal name
        ++ (codes ": "
            ++ (import_of prefix (dist ++ (codes "/server/" ++ (name ++ codes ".js")))
                ++ (codes "," ++ newline))))

unfoldable pub dispatch_header : Text
dispatch_header =
    codes "// GENERATED BY nextcompile "
    ++ (226
        ∷ 128
        ∷ 148
        ∷ codes
            " DO NOT EDIT.\n// Route dispatch table consumed by _nextdeploy/runtime/dispatcher.mjs.\n")

-- `rel` is filepath.Rel from the absolute directory of dispatch.mjs to that of the build, or none.
unfoldable pub import_prefix_for : Text → Option Text → Text
import_prefix_for standalone_dir none = codes "../"
import_prefix_for standalone_dir (some rel) =
    if text_eq standalone_dir []
    then codes "../"
    else if text_eq rel (codes ".")
    then []
    else rel ++ codes "/"

module _ (sort_slice : (ModuleRef → ModuleRef → Bool) → List ModuleRef → List ModuleRef) where
  -- Strictly before in Go's order on strings.
  by_route : ModuleRef → ModuleRef → Bool
  by_route a b = not (text_le b.route_path a.route_path)

  by_specificity : ModuleRef → ModuleRef → Bool
  by_specificity a b = ltb (dynamic_specificity b.route_path) (dynamic_specificity a.route_path)

  pub render_tables : Text → Text → Map Text → Tables → Text
  unfolding concat_texts by_route by_specificity
  render_tables prefix dist actions t = concat_texts (
      (dispatch_header ++ newline)
      ∷ (codes "export const staticTable = Object.freeze({" ++ newline)
      ∷ concat_texts (map (static_entry prefix) (sort_slice by_route t.statics))
      ∷ (codes "});" ++ (newline ++ newline))
      ∷ (codes "export const dynamicTable = Object.freeze([" ++ newline)
      ∷ concat_texts (map (dynamic_entry prefix) (sort_slice by_specificity t.dynamics))
      ∷ (codes "]);" ++ (newline ++ newline))
      ∷ optional_ref (codes "middlewareRef") prefix t.middleware
      ∷ optional_ref (codes "proxyRef") prefix t.proxy
      ∷ (newline ++ (codes "export const actionLoaders = Object.freeze({" ++ newline))
      ∷ concat_texts (
          map (action_loader prefix (if text_eq dist [] then codes ".next" else dist))
            (sort (unique_action_modules actions)))
      ∷ (codes "});" ++ newline)
      ∷ [])

  pub render_dispatch_table : Text → Text → Map Text → List ModuleRef → Text
  unfolding render_tables
  render_dispatch_table prefix dist actions refs =
      render_tables prefix dist actions (partition_refs refs)
