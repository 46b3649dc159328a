-- ===== src/Caddyfile.antt =====
-- The Caddy fragment of an app (GenerateCaddyfile of shared/caddy/caddy.go).
use next_deploy.Common.{
  ℕ, Bool, not, ◌||◌, Option, List, [], ◌∷◌, ◌++◌, length, drop, if◌then◌else◌,
}
use next_deploy.Common.Text.{Text, codes, text_eq, has_prefix, contains, decimal}
use next_deploy.Common.FilePath.{join_on, trim_prefix, trim_suffix, path_dir, join_path}
use next_deploy.Csp.{DetectedFeatures, build_csp}

unfoldable pub bare_domain : Text → Text
bare_domain domain =
    trim_suffix (trim_prefix (trim_prefix domain (codes "https://")) (codes "http://")) (codes "/")

unfoldable pub is_local : Text → Bool
is_local d =
    contains d (codes "localhost") || contains d (codes "127.0.0.1") || contains d (codes "::1")

abbrev pub www : Text
www = codes "www."

-- The names of the site: with `www.` and without.
unfoldable pub site_names : Text → List Text
site_names d =
    if has_prefix d www
    then d ∷ drop (length www) d ∷ []
    else if not (is_local d)
    then d ∷ (www ++ d) ∷ []
    else d ∷ []

unfoldable pub domain_list : Text → Text
domain_list domain =
    let d = bare_domain domain in
    join_on (codes ", ") (site_names (if text_eq d [] then codes "localhost" else d))

unfoldable pub common_headers : Text → Text
common_headers csp =
    codes
      "\n\tencode zstd gzip\n\theader {\n\t\tStrict-Transport-Security \"max-age=31536000; includeSubDomains; preload\"\n\t\tX-Content-Type-Options \"nosniff\"\n\t\tX-Frame-Options \"SAMEORIGIN\"\n\t\tX-XSS-Protection \"1; mode=block\"\n\t\tReferrer-Policy \"strict-origin-when-cross-origin\"\n\t\tPermissions-Policy \"accelerometer=(), camera=(), geolocation=(), gyroscope=(), magnetometer=(), microphone=(), payment=(), usb=()\"\n\t\tX-Permitted-Cross-Domain-Policies \"none\"\n\t\tContent-Security-Policy \""
    ++ (csp
        ++ codes
            "\"\n\t}\n\tcoraza_waf {\n\t\tload_owasp_crs\n\t\tdirectives \"\n\t\t\tSecRuleEngine On\n\t\t\tSecRequestBodyAccess On\n\t\t\tSecAuditLog /var/log/caddy/audit.log\n\t\t\tSecAuditLogType Serial\n\t\t\tSecDebugLog /var/log/caddy/debug.log\n\t\t\tSecDebugLogLevel 3\n\t\t\"\n\t}")

unfoldable pub static_site : Text → Text → Text → Text
static_site names headers dir =
    names
    ++ (codes " {" ++ (headers ++ (codes "\n\troot * " ++ (dir ++ codes "\n\tfile_server\n}"))))

unfoldable pub proxied_site : Text → Text → Text → ℕ → Text
proxied_site names headers dir port =
    names
    ++ (codes " {"
        ++ (headers
            ++ (codes
                  "\n\tlog {\n\t\toutput file /var/log/caddy/access.log\n\t\tformat json\n\t}\n\thandle_path /_next/static/* {\n\t\troot * "
                ++ (dir
                    ++ (codes
                          "\n\t\theader Cache-Control \"public, max-age=31536000, immutable\"\n\t\tfile_server\n\t}\n\thandle {\n\t\treverse_proxy localhost:"
                        ++ (decimal port ++ codes "\n\t}\n}"))))))

unfoldable pub generate_caddyfile : Text → Text → ℕ → Text → Option DetectedFeatures → Text → Text
generate_caddyfile domain output_mode port app_dir features export_dir =
    let headers = common_headers (build_csp features) in
    if text_eq output_mode (codes "export")
    then static_site (domain_list domain) headers
        (join_path app_dir (if text_eq export_dir [] then codes "out" else export_dir))
    else proxied_site (domain_list domain) headers
        (join_path (path_dir app_dir) (codes "shared_static")) port
