-- ===== src/NextCompile/Layouts.antt =====
-- The layouts around a page (attachLayoutChains of shared/nextcompile/scanner.go). filepath.Rel, which
-- gives a compiled path relative to the parent of `server/`, is a parameter.
pub mod Ancestors
mod Tests
use next_deploy.Common.{
  ℕ, zero, suc, Bool, true, false, not, ◌&&◌, ◌||◌, Option, none, some, List, [], ◌∷◌, length,
  if◌then◌else◌,
}
use mathlib.Core.List.{reverse}
use next_deploy.Common.Text.{Text, codes, text_eq}
use next_deploy.Common.Map.{Map, get, put}
use next_deploy.Common.FilePath.{path_dir}
use next_deploy.NextCompile.Modules.{ModuleRef, is_page, is_layout}
use next_deploy.NextCompile.Paths.{is_listed}

unfoldable pub is_top : Text → Bool
is_top dir = text_eq dir (codes ".") || text_eq dir (codes "/")

-- The layout of one directory, if the chain has it not yet.
unfoldable pub fresh_layout : Option Text → List Text → Option Text
fresh_layout none seen = none
fresh_layout (some l) seen = if is_listed l seen then none else some l

unfoldable pub onto_chain : Option Text → List Text → List Text
onto_chain none chain = chain
onto_chain (some l) chain = l ∷ chain

-- `for dir := pageDir; dir != "." && dir != "/"; dir = filepath.Dir(dir)`, nearest first.
unfoldable pub climb : ℕ → Map Text → Text → List Text → List Text
climb zero layouts dir seen = []
climb (suc fuel) layouts dir seen =
    let found = fresh_layout (get dir layouts) seen in
    let rest = climb fuel layouts (path_dir dir) (onto_chain found seen) in
    if is_top dir then [] else onto_chain found rest

-- From the root to the page.
unfoldable pub layout_chain_of : Map Text → Text → List Text
layout_chain_of layouts page_dir = reverse (climb (suc (length page_dir)) layouts page_dir [])

unfoldable pub note_layout : Option Text → Text → Map Text → Map Text
note_layout none compiled layouts = layouts
note_layout (some rel) compiled layouts = put (path_dir rel) compiled layouts

unfoldable pub chained : Map Text → Option Text → ModuleRef → ModuleRef
unfolding layout_chain_of
chained layouts none r = r
chained layouts (some rel) r = record r { layout_chain = layout_chain_of layouts (path_dir rel) }

unfoldable pub chain_one : Map Text → Bool → Option Text → ModuleRef → ModuleRef
unfolding chained
chain_one layouts false rel r = r
chain_one layouts true rel r = chained layouts rel r

module _ (rel : Text → Option Text) where
  unfoldable pub layouts_by_dir : List ModuleRef → Map Text → Map Text
  unfolding note_layout
  layouts_by_dir [] layouts = layouts
  layouts_by_dir (r ∷ refs) layouts = layouts_by_dir refs (
      if is_layout r.kind
      then note_layout (rel r.compiled_path) r.compiled_path layouts
      else layouts)

  unfoldable pub chain_all : Map Text → List ModuleRef → List ModuleRef
  chain_all layouts [] = []
  chain_all layouts (r ∷ refs) =
      chain_one layouts (is_page r.kind) (rel r.compiled_path) r ∷ chain_all layouts refs

  unfoldable pub attach_layout_chains : List ModuleRef → List ModuleRef
  unfolding chain_all layouts_by_dir
  attach_layout_chains refs = chain_all (layouts_by_dir refs []) refs
