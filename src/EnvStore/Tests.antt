-- ===== src/EnvStore/Tests.antt =====
-- Files of settings (ReadEnvFile, shared/envstore/env.go).
use next_deploy.Common.{[], ◌∷◌}
use next_deploy.Common.Text.{Text, codes}
use next_deploy.Common.Map.{Map}

abbrev settings : Map Text
settings = (codes "URL", codes "a=b c") ∷ (codes "EMPTY", []) ∷ []
