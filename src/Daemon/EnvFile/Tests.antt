-- ===== src/Daemon/EnvFile/Tests.antt =====
-- A store of two secrets (daemon/internal/daemon/secrets_handler.go).
use next_deploy.Common.{◌≡◌, refl, some, [], ◌∷◌}
use next_deploy.Common.Text.{Text, codes, text_eq, text_le}
use next_deploy.Common.Map.{Map, get}
use next_deploy.Common.Sort.{sort}
use next_deploy.Daemon.EnvFile.{
  escape, escape_all, quote_env_value, env_line, env_lines, render_env,
}
use next_deploy.Daemon.EnvFile.RoundTrip.{read_env, read_env-render_env}

abbrev two : Map Text
two = (codes "TOKEN", codes "a\"b\\") ∷ (codes "DB", codes "x=1") ∷ []

rendered : render_env two ≡ codes "DB=\"x=1\"\nTOKEN=\"a\\\"b\\\\\"\n"
unfolding render_env env_lines env_line quote_env_value escape_all escape sort text_le get text_eq
rendered = refl

read_env-render_env_example :
    read_env (render_env two)
    ≡ some ((codes "DB", codes "x=1") ∷ (codes "TOKEN", codes "a\"b\\") ∷ [])
unfolding sort text_le get text_eq
read_env-render_env_example =
    read_env-render_env two
      ((λ e. cc, (refl, (refl, tt))), ((λ e. cc, (refl, (refl, (refl, (refl, (refl, tt)))))), tt))
      ((refl, (refl, (refl, tt))), ((refl, (refl, (refl, (refl, tt)))), tt))

-- The escape of a line break is not undone: the value is read with a backslash and an n.
line_break_test :
    read_env (render_env ((codes "K", b'a' ∷ 10 ∷ b'b' ∷ []) ∷ []))
    ≡ some ((codes "K", codes "a\\nb") ∷ [])
unfolding read_env render_env env_lines sort env_line quote_env_value escape_all get text_eq
line_break_test = refl
