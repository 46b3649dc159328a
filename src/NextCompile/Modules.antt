-- ===== src/NextCompile/Modules.antt =====
-- The modules that the scanner finds (types.go of shared/nextcompile).
use next_deploy.Common.{ℕ, Bool, true, false, List}
use next_deploy.Common.Text.{Text, codes}

pub data RouteKind : Type 0 where
  page layout api action middleware proxy static unknown : RouteKind

pub record ModuleRef : Type 0 where
  pub route_path : Text
  pub kind : RouteKind
  pub compiled_path : Text
  pub has_actions : Bool
  pub uses_rsc : Bool
  pub uses_after : Bool
  pub ppr_enabled : Bool
  pub client_manifest_path : Text
  pub layout_chain : List Text
  pub env_refs : List Text
  pub fetch_targets : List Text
  pub byte_size : ℕ

unfoldable pub kind_name : RouteKind → Text
kind_name page = codes "page"
kind_name layout = codes "layout"
kind_name api = codes "api"
kind_name action = codes "action"
kind_name middleware = codes "middleware"
kind_name proxy = codes "proxy"
kind_name static = codes "static"
kind_name unknown = codes "unknown"

unfoldable pub is_page : RouteKind → Bool
is_page page = true
is_page _ = false

unfoldable pub is_layout : RouteKind → Bool
is_layout layout = true
is_layout _ = false
