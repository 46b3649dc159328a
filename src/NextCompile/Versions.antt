-- ===== src/NextCompile/Versions.antt =====
-- The versions of Next.js and React of a build (shared/nextcompile/version_detect.go). Reading and
-- decoding a package.json is a parameter.
pub mod Printed
mod Tests
use next_deploy.Common.{
  ℕ, zero, suc, ◌-◌, ◌^◌, Bool, true, false, not, ◌&&◌, Option, none, some, List, [], ◌∷◌, length,
  ltb, leb, ◌==◌, if◌then◌else◌,
}
use next_deploy.Common.Int.{ℤ, pos, negsuc}
use next_deploy.Common.Text.{Text, codes, text_eq, trim_space}
use next_deploy.Common.Map.{Map, get}
use next_deploy.Common.FilePath.{join_path, path_dir, split_on}
use next_deploy.Common.Decimal.{atoi, digits_value, leading_digits, trim_any, before_any}

pub record NextVersion : Type 0 where
  pub major : ℤ
  pub minor : ℤ
  pub patch : ℕ
  pub raw : Text

pub record PackageJson : Type 0 where
  pub name : Text
  pub version : Text
  pub dependencies : Map Text
  pub dev_dependencies : Map Text

-- The value of a key, "" where it is missing.
unfoldable pub lookup_dep : Option Text → Text
lookup_dep none = []
lookup_dep (some v) = v

unfoldable pub dep : Text → Map Text → Text
dep name deps = lookup_dep (get name deps)

-- The versions of Next.js and React that a file names.
unfoldable pub versions_in : PackageJson → Option (Text × Text)
versions_in p =
    if text_eq p.name (codes "next") && not (text_eq p.version [])
    then some (p.version, dep (codes "react") p.dependencies)
    else if not (text_eq (dep (codes "next") p.dependencies) [])
    then some (dep (codes "next") p.dependencies, dep (codes "react") p.dependencies)
    else if not (text_eq (dep (codes "next") p.dev_dependencies) [])
    then some (dep (codes "next") p.dev_dependencies, dep (codes "react") p.dev_dependencies)
    else none

unfoldable pub read_package_json : Option PackageJson → Option (Text × Text)
read_package_json none = none
read_package_json (some p) = versions_in p

unfoldable pub first_of : Option (Text × Text) → Option (Text × Text) → Option (Text × Text)
first_of none other = other
first_of (some v) other = some v

abbrev pub package_json_file : Text
package_json_file = codes "package.json"

-- What a component of a version beyond an int is read as, when its error is dropped.
abbrev pub max_int : ℕ
max_int = 2 ^ 63 - 1

unfoldable pub patch_of_digits : Option ℕ → ℕ
patch_of_digits none = 0
patch_of_digits (some n) = if ltb n max_int then n else max_int

unfoldable pub patch_of : List Text → ℕ
unfolding patch_of_digits
patch_of [] = 0
patch_of (part ∷ more) = patch_of_digits (digits_value (leading_digits part))

unfoldable pub version_of : Text → List Text → Option ℤ → Option ℤ → Option NextVersion
unfolding patch_of
version_of raw more none n = none
version_of raw more (some m) none = none
version_of raw more (some m) (some n) =
    some (record { major = m; minor = n; patch = patch_of more; raw = raw })

unfoldable pub parse_parts : Text → List Text → Option NextVersion
unfolding version_of
parse_parts raw (major ∷ minor ∷ more) = version_of raw more (atoi major) (atoi minor)
parse_parts raw _ = none

-- The numbers of a version, or none where parseSemver fails.
unfoldable pub parse_semver : Text → Option NextVersion
parse_semver raw =
    let trimmed = trim_any (codes "^~>= ") (trim_space raw) in
    if text_eq trimmed []
    then none
    else parse_parts raw (split_on b'.' (before_any (codes "-+") trimmed))

unfoldable pub react_version : Text → Option NextVersion → NextVersion
react_version raw none = record { major = pos 0; minor = pos 0; patch = 0; raw = raw }
react_version raw (some v) = v

-- The bundle of the runtime for a major version.
unfoldable pub runtime_variant : ℤ → Text
runtime_variant (negsuc n) = codes "v14"
runtime_variant (pos n) =
    if leb 15 n
    then codes "v15"
    else if n == 14
    then codes "v14"
    else if n == 13
    then codes "v13"
    else codes "v14"

pub data VersionError : Type 0 where
  version_not_found unreadable_version : VersionError

pub data Detected : Type 0 where
  detected : NextVersion → NextVersion → Detected
  undetected : VersionError → Detected

unfoldable pub detected_as : Text → Option NextVersion → Detected
detected_as react none = undetected unreadable_version
detected_as react (some v) = detected v (react_version react (parse_semver react))

unfoldable pub parse_both : Option (Text × Text) → Detected
unfolding detected_as
parse_both none = undetected version_not_found
parse_both (some (next, react)) = detected_as react (parse_semver next)

module _ (read : Text → Option PackageJson) where
  -- `for dir := filepath.Dir(standaloneDir); ;`: each directory up to the root.
  unfoldable pub climb_packages : ℕ → Text → Option (Text × Text)
  climb_packages zero dir = none
  climb_packages (suc fuel) dir =
      let above = climb_packages fuel (path_dir dir) in
      first_of (read_package_json (read (join_path dir package_json_file)))
        (if text_eq (path_dir dir) dir then none else above)

  unfoldable pub read_dep_versions : Text → Option (Text × Text)
  read_dep_versions dir = first_of (read_package_json (read (join_path dir package_json_file))) (
      first_of (read_package_json (read (join_path dir (codes "node_modules/next/package.json"))))
        (climb_packages (suc (length dir)) (path_dir dir)))

  unfoldable pub detect_versions : Text → Detected
  detect_versions dir = parse_both (read_dep_versions dir)
