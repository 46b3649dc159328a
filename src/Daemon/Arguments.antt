-- ===== src/Daemon/Arguments.antt =====
-- StringArg and validateAppName of daemon/internal/daemon/utils.go, which the handlers apply to the
-- arguments of a command.
use next_deploy.Common.{Bool, true, not, ◌&&◌, ◌||◌, Option, none, some, [], ◌∷◌, ◌==◌, leb, length}
use next_deploy.Common.Text.{Text, text_eq}
use next_deploy.Common.Map.{Map, get}
use next_deploy.Daemon.Commands.{Arg, text}

-- StringArg
unfoldable pub string_arg : Map Arg → Text → Option Text
string_arg args key = elim (get key args) [ some (text t) ↦ some t | _ ↦ none ]

-- `^[a-z0-9-]+$`
all_name_bytes : Text → Bool
all_name_bytes [] = true
all_name_bytes (c ∷ cs) =
    let rest = all_name_bytes cs in
    ((leb b'a' c && leb c b'z') || (leb b'0' c && leb c b'9') || c == b'-') && rest

unfoldable pub validate_app_name : Text → Bool
unfolding all_name_bytes
validate_app_name name =
    not (text_eq name []) && all_name_bytes name && leb 3 (length name) && leb (length name) 63
