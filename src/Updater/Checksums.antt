-- ===== src/Updater/Checksums.antt =====
-- The names, checksums and integrity of archives (shared/updater/updater.go): detectArchiveName,
-- downloadChecksums from the body that arrives, and verifyBinaryIntegrity.
use next_deploy.Common.{Bool, true, Option, none, some, List, [], ◌∷◌, ◌++◌, ◌==◌, if◌then◌else◌}
use next_deploy.Common.Text.{Text, codes, is_space, text_eq}
use next_deploy.Common.Map.{Map, get, put}
use next_deploy.Updater.Versions.{strip_v}

-- strings.Split(body, "\n")
unfoldable pub lines : Text → Text → List Text
lines cur [] = cur ∷ []
lines cur (c ∷ cs) = if c == 10 then cur ∷ lines [] cs else lines (cur ++ c ∷ []) cs

add_field : Text → List Text → List Text
add_field cur fs = if text_eq cur [] then fs else cur ∷ fs

-- strings.Fields(line), for ASCII.
unfoldable pub fields : Text → Text → List Text
unfolding is_space add_field
fields cur [] = add_field cur []
fields cur (c ∷ cs) = if is_space c then add_field cur (fields [] cs) else fields (cur ++ c ∷ []) cs

add_checksum : List Text → Map Text → Map Text
add_checksum (checksum ∷ filename ∷ rest) m = put filename checksum m
add_checksum _ m = m

-- The loop over the lines; a blank line has no fields.
unfoldable pub read_checksums : List Text → Map Text → Map Text
unfolding fields add_checksum
read_checksums [] m = m
read_checksums (l ∷ ls) m = read_checksums ls (add_checksum (fields [] l) m)

unfoldable pub download_checksums : Option Text → Option (Map Text)
unfolding lines read_checksums
download_checksums none = none
download_checksums (some body) = some (read_checksums (lines [] body) [])

-- `<base>_<version>_<os>_<arch>.tar.gz`, or .zip on Windows.
unfoldable pub detect_archive_name : Text → Text → Text → Text → Text
detect_archive_name os arch version base =
    base
    ++ (codes "_"
        ++ (strip_v version
            ++ (codes "_"
                ++ (os
                    ++ (codes "_"
                        ++ (arch
                            ++ (if text_eq os (codes "windows")
                                then codes ".zip"
                                else codes ".tar.gz")))))))

-- The checksum listed for a name, or for the name with .exe.
unfoldable pub listed : Text → Map Text → Option Text
listed name m = elim (get name m) [ some c ↦ some c | none ↦ get (name ++ codes ".exe") m ]

unfoldable pub matches : (Text → Text) → Text → Option Text → Bool
matches hash archive none = true
matches hash archive (some expected) = text_eq (hash archive) expected

unfoldable pub verify_binary_integrity : (Text → Text) → Text → Text → Option (Map Text) → Bool
unfolding matches
verify_binary_integrity hash archive name none = true
verify_binary_integrity hash archive name (some m) = matches hash archive (listed name m)
