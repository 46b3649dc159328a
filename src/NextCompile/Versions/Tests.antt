-- ===== src/NextCompile/Versions/Tests.antt =====
-- Versions as they stand in a package.json (shared/nextcompile/version_detect.go).
use next_deploy.Common.Map.{get}
use next_deploy.Common.FilePath.{split_on, join_path, join_on, path_dir}
use next_deploy.Common.Decimal.{
  trim_any, before_any, atoi, positive_int, digits_value, digits_from, leading_digits,
}
use next_deploy.Common.{◌≡◌, refl, Option, none, some, [], ◌∷◌, if◌then◌else◌, arith}
use next_deploy.Common.Int.{pos}
use next_deploy.Common.Text.{Text, codes, text_eq, trim_space, has_prefix}
use next_deploy.NextCompile.Versions.Printed.{print_version, parse_semver-print_version}
use next_deploy.NextCompile.Versions.{
  PackageJson, parse_semver, read_dep_versions, parse_parts, first_of, read_package_json,
  climb_packages, versions_in, dep, lookup_dep,
}

canary_test :
    parse_semver (codes "^15.0.3-canary.42")
    ≡ some (record { major = pos 15; minor = pos 0; patch = 3; raw = codes "^15.0.3-canary.42" })
unfolding parse_semver text_eq trim_any trim_space parse_parts split_on before_any atoi positive_int
    digits_value digits_from leading_digits
canary_test = refl

workspace_test : parse_semver (codes "workspace:*") ≡ none
unfolding parse_semver text_eq trim_any trim_space parse_parts split_on before_any
workspace_test = refl

abbrev at_root : Text → Option PackageJson
at_root path =
    if text_eq path (codes "/p/package.json")
    then some (record {
      name = codes "shop";
      version = codes "1.0.0";
      dependencies = (codes "next", codes "15.1.0") ∷ (codes "react", codes "19.0.0") ∷ [];
      dev_dependencies = [];
    })
    else none

-- The file of the project stands two directories above the standalone build.
climb_test :
    read_dep_versions at_root (codes "/p/.next/standalone") ≡ some (codes "15.1.0", codes "19.0.0")
unfolding read_dep_versions first_of read_package_json text_eq join_path has_prefix join_on split_on
    climb_packages path_dir versions_in dep lookup_dep get
climb_test = refl

parse_semver-print_version_example :
    parse_semver (print_version 15 1 3)
    ≡ some (record { major = pos 15; minor = pos 1; patch = 3; raw = print_version 15 1 3 })
parse_semver-print_version_example =
    parse_semver-print_version 15 1 3 (omega arith) (omega arith) (omega arith)
