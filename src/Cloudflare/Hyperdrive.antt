-- ===== src/Cloudflare/Hyperdrive.antt =====
-- Hyperdrive configurations (cli/internal/serverless/cloudflare_hyperdrive.go): the parsing of the
-- origin, and creation or update by name. url.Parse and the environment are parameters.
use next_deploy.Common.{ℕ, ◌&&◌, ◌||◌, not, Option, none, some, [], ◌∷◌, ◌==◌, if◌then◌else◌}
use next_deploy.Common.Text.{Text, codes, text_eq, to_lower, trim_space}
use next_deploy.Cloudflare.Api.{
  Api, Origin, no_origin, bad_origin, Result, ok, err, and_then, M, ◌>>=◌, lift, create, find_id,
}

-- A URL as net/url splits it.
pub record Url : Type 0 where
  pub scheme : Text
  pub hostname : Text
  pub port : Text
  pub user : Text
  pub password : Text
  pub path : Text

pub record HyperdriveDecl : Type 0 where
  pub name : Text
  pub origin : Text
  pub origin_env : Text

pub record Environment : Type 0 where
  pub getenv : Text → Text
  pub parse_url : Text → Option Url
  pub atoi : Text → Option ℕ  -- strconv.Atoi on a port, whose bytes net/url has checked to be digits

raw_origin : Environment → HyperdriveDecl → Text
raw_origin env d =
    let literal = trim_space d.origin in
    if text_eq literal [] && not (text_eq d.origin_env [])
    then trim_space (env.getenv d.origin_env)
    else literal

scheme_of : Text → Result Text
scheme_of s =
    let scheme = to_lower s in
    if text_eq scheme (codes "postgres") || text_eq scheme (codes "postgresql")
    then ok (codes "postgres")
    else if text_eq scheme (codes "mysql")
    then ok (codes "mysql")
    else err bad_origin

port_of : Environment → Text → Text → Result ℕ
port_of env scheme port =
    if text_eq port []
    then ok (if text_eq scheme (codes "mysql") then 3306 else 5432)
    else elim (env.atoi port) [ none ↦ err bad_origin | some n ↦ ok n ]

-- strings.TrimPrefix(path, "/")
trim_slash : Text → Text
trim_slash [] = []
trim_slash (c ∷ cs) = if c == b'/' then cs else c ∷ cs

non_empty : Text → Result Text
non_empty t = if text_eq t [] then err bad_origin else ok t

origin_of : Environment → Url → Result Origin
unfolding scheme_of port_of trim_slash non_empty
origin_of env u = and_then (scheme_of u.scheme) λ scheme. and_then (non_empty u.hostname) λ host.
    and_then (port_of env scheme u.port) λ port. and_then (non_empty u.user) λ user.
      and_then (non_empty u.password) λ password.
        and_then (non_empty (trim_slash u.path)) λ database. ok (record {
          scheme = scheme;
          host = host;
          port = port;
          user = user;
          password = password;
          database = database;
        })

unfoldable pub resolve_hyperdrive_origin : Environment → HyperdriveDecl → Result Origin
unfolding raw_origin origin_of
resolve_hyperdrive_origin env d =
    let raw = raw_origin env d in
    if text_eq raw []
    then err no_origin
    else elim (env.parse_url raw) [ none ↦ err bad_origin | some u ↦ origin_of env u ]

unfoldable pub find_hyperdrive_id :
    {World : Type 0} → Api World → Text → World → Result (Option Text)
find_hyperdrive_id api name w = find_id name (api.list_hyperdrive w)

module _ {World : Type 0} (env : Environment) (api : Api World) where
  unfoldable pub create_or_update : Text → Origin → Option Text → M World Text
  create_or_update name origin none = create (api.new_hyperdrive name origin)
  create_or_update name origin (some id) = create (api.update_hyperdrive id name origin)

  unfoldable pub ensure_hyperdrive : HyperdriveDecl → M World Text
  unfolding create_or_update
  ensure_hyperdrive d = do
    origin ← lift (λ _. resolve_hyperdrive_origin env d)
    existing ← lift (find_hyperdrive_id api d.name)
    create_or_update d.name origin existing
