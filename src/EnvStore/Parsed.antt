-- ===== src/EnvStore/Parsed.antt =====
-- What is read back from a file of settings (ReadEnvFile, shared/envstore/env.go).
use next_deploy.Common.{
  ◌≡◌, Bool, true, false, not, ◌||◌, Option, none, some, [], ◌∷◌, ◌++◌, ltb, length,
}
use mathlib.Core.List.{reverse}
use next_deploy.Common.Text.{Text, codes, text_eq, has_prefix, is_space}
use next_deploy.Common.Map.{Map}
use next_deploy.Common.FilePath.Elements.{has_byte}

-- The first byte is no space.
unfoldable pub starts_solid : Text → Bool
starts_solid [] = false
starts_solid (c ∷ cs) = not (is_space c)

-- A key and a value that survive: without line breaks, without spaces at their ends, the key without
-- `=` and not a comment; and a line that is not too long.
pub record IsSetting (k v : Text) : Type 0 where
  pub key_solid : starts_solid k ≡ true
  pub key_closed : starts_solid (reverse k) ≡ true
  pub key_plain : has_byte b'=' k ≡ false
  pub key_comment : has_prefix k (codes "#") ≡ false
  pub key_line : has_byte 10 k ≡ false
  pub value_trimmed : (text_eq v [] || starts_solid v) ≡ true
  pub value_closed : (text_eq v [] || starts_solid (reverse v)) ≡ true
  pub value_line : has_byte 10 v ≡ false
  pub short : ltb (length (k ++ b'=' ∷ v)) 65536 ≡ true

pub setting : Text → Text → Text
setting k v = k ++ b'=' ∷ v

-- A line for each setting.
pub print_env : Map Text → Text
print_env [] = []
print_env ((k, v) ∷ m) = setting k v ++ 10 ∷ print_env m

-- The settings of a file, all of which survive.
abbrev pub AllSettings : Map Text → Type 0
AllSettings [] = Unit
AllSettings ((k, v) ∷ m) = IsSetting k v × AllSettings m

abbrev or_else : Option Text → Option Text → Option Text
or_else none b = b
or_else (some a) b = some a
