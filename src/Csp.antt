-- ===== src/Csp.antt =====
-- The services that an app uses and its Content-Security-Policy (DetectFeatures and BuildCSP of
-- shared/nextcore/features.go). A header of the configuration is given by the keys that its items have
-- where they are objects.
pub mod Allowed
mod Tests
use next_deploy.Common.{
  Bool, true, false, ◌||◌, Option, none, some, List, [], ◌∷◌, ◌++◌, if◌then◌else◌,
}
use next_deploy.Common.Text.{Text, codes, text_eq, contains, to_lower}
use next_deploy.Common.FilePath.{join_on}

pub record Images : Type 0 where
  pub domains : List Text
  pub remote_hosts : List Text  -- the hostnames of remotePatterns

pub record NextConfig : Type 0 where
  pub images : Option Images
  pub server_actions : Option Bool  -- experimental.serverActions
  pub has_i18n : Bool
  pub header_keys : List (List Text)
  pub dist_dir : Text

pub record DetectedFeatures : Type 0 where
  pub has_youtube : Bool
  pub has_google_fonts : Bool
  pub has_google_analytics : Bool
  pub has_stripe : Bool
  pub has_cloudinary : Bool
  pub has_external_images : List Text
  pub has_server_actions : Bool
  pub has_i18n : Bool
  pub user_defined_csp : Bool
  pub allowed_origins : List Text
  pub dist_dir : Text
  pub export_dir : Text

unfoldable pub nothing_detected : Text → Text → DetectedFeatures
nothing_detected dist export = record {
  has_youtube = false;
  has_google_fonts = false;
  has_google_analytics = false;
  has_stripe = false;
  has_cloudinary = false;
  has_external_images = [];
  has_server_actions = false;
  has_i18n = false;
  user_defined_csp = false;
  allowed_origins = [];
  dist_dir = dist;
  export_dir = export;
}

contains_any : Text → List Text → Bool
contains_any h [] = false
contains_any h (p ∷ ps) = contains h p || contains_any h ps

well_known : Text → DetectedFeatures → DetectedFeatures
unfolding contains_any
well_known h f =
    if contains_any h (codes "youtube.com" ∷ codes "ytimg.com" ∷ codes "youtu.be" ∷ [])
    then record f { has_youtube = true }
    else if contains_any h
        (codes "fonts.googleapis.com" ∷ codes "gstatic.com" ∷ codes "fonts.google.com" ∷ [])
    then record f { has_google_fonts = true }
    else if contains_any h (codes "google-analytics.com" ∷ codes "googletagmanager.com" ∷ [])
    then record f { has_google_analytics = true }
    else if contains_any h (codes "stripe.com" ∷ codes "stripe.network" ∷ [])
    then record f { has_stripe = true }
    else if contains_any h (codes "cloudinary.com" ∷ codes "res.cloudinary.com" ∷ [])
    then record f { has_cloudinary = true }
    else f

unfoldable pub detect_well_known_service : Text → DetectedFeatures → DetectedFeatures
unfolding well_known
detect_well_known_service host f = well_known (to_lower host) f

unfoldable pub add_host : Text → DetectedFeatures → DetectedFeatures
unfolding detect_well_known_service
add_host host f = detect_well_known_service host (record f {
  allowed_origins = f.allowed_origins ++ host ∷ [];
  has_external_images = f.has_external_images ++ host ∷ [];
})

unfoldable pub add_hosts : List Text → DetectedFeatures → DetectedFeatures
add_hosts [] f = f
add_hosts (host ∷ hosts) f = add_hosts hosts (add_host host f)

unfoldable pub add_images : Option Images → DetectedFeatures → DetectedFeatures
add_images none f = f
add_images (some images) f = add_hosts images.remote_hosts (add_hosts images.domains f)

is_csp_key : List Text → Bool
is_csp_key [] = false
is_csp_key (key ∷ keys) =
    text_eq (to_lower key) (codes "content-security-policy") || is_csp_key keys

unfoldable pub sets_csp : List (List Text) → Bool
unfolding is_csp_key
sets_csp [] = false
sets_csp (keys ∷ headers) = is_csp_key keys || sets_csp headers

is_set : Option Bool → Bool
is_set none = false
is_set (some b) = b

unfoldable pub detect_features : Option NextConfig → DetectedFeatures
unfolding is_set
detect_features none = nothing_detected (codes ".next") (codes "out")
detect_features (some config) =
    let f = add_images config.images (nothing_detected [] []) in
    record f {
      has_server_actions = is_set config.server_actions;
      has_i18n = config.has_i18n;
      user_defined_csp = sets_csp config.header_keys;
      dist_dir = if text_eq config.dist_dir [] then codes ".next" else config.dist_dir;
      export_dir = codes "out";
    }

-- The sources of each directive.
pub record Sources : Type 0 where
  pub script : List Text
  pub style : List Text
  pub img : List Text
  pub frame : List Text
  pub connect : List Text
  pub font : List Text
  pub media : List Text

self : Text
self = codes "'self'"

inline : Text
inline = codes "'unsafe-inline'"

unfoldable pub base_sources : Sources
unfolding self inline
base_sources = record {
  script = self ∷ inline ∷ [];
  style = self ∷ inline ∷ [];
  img = self ∷ codes "data:" ∷ [];
  frame = self ∷ [];
  connect = self ∷ [];
  font = self ∷ [];
  media = self ∷ [];
}

unfoldable pub with_youtube : Bool → Sources → Sources
with_youtube false s = s
with_youtube true s = record s {
  frame =
      s.frame ++ codes "https://www.youtube.com" ∷ codes "https://www.youtube-nocookie.com" ∷ [];
  img = s.img ++ codes "https://i.ytimg.com" ∷ codes "https://img.youtube.com" ∷ [];
  script = s.script ++ codes "https://www.youtube.com" ∷ [];
  connect = s.connect ++ codes "https://www.youtube.com" ∷ [];
  media = s.media ++ codes "https://www.youtube.com" ∷ [];
}

unfoldable pub with_fonts : Bool → Sources → Sources
with_fonts false s = s
with_fonts true s = record s {
  style = s.style ++ codes "https://fonts.googleapis.com" ∷ [];
  font = s.font ++ codes "https://fonts.gstatic.com" ∷ [];
}

unfoldable pub with_analytics : Bool → Sources → Sources
with_analytics false s = s
with_analytics true s = record s {
  script =
      s.script
      ++ codes "https://www.googletagmanager.com" ∷ codes "https://www.google-analytics.com" ∷ [];
  connect =
      s.connect
      ++ codes "https://www.google-analytics.com" ∷ codes "https://analytics.google.com" ∷ [];
  img = s.img ++ codes "https://www.google-analytics.com" ∷ [];
}

unfoldable pub with_stripe : Bool → Sources → Sources
with_stripe false s = s
with_stripe true s = record s {
  script = s.script ++ codes "https://js.stripe.com" ∷ [];
  frame = s.frame ++ codes "https://js.stripe.com" ∷ codes "https://hooks.stripe.com" ∷ [];
  connect = s.connect ++ codes "https://api.stripe.com" ∷ [];
}

unfoldable pub with_cloudinary : Bool → Sources → Sources
with_cloudinary false s = s
with_cloudinary true s = record s {
  img = s.img ++ codes "https://res.cloudinary.com" ∷ [];
  connect = s.connect ++ codes "https://res.cloudinary.com" ∷ [];
}

unfoldable pub holds : Text → List Text → Bool
holds item [] = false
holds item (x ∷ xs) = text_eq x item || holds item xs

unfoldable pub https : Text → Text
https origin = codes "https://" ++ origin

-- An image host that no service has brought already.
unfoldable pub with_origin : Bool → Text → Sources → Sources
with_origin true host s = s
with_origin false host s = record s { img = s.img ++ host ∷ []; connect = s.connect ++ host ∷ [] }

unfoldable pub with_origins : List Text → Sources → Sources
with_origins [] s = s
with_origins (origin ∷ origins) s =
    with_origins origins (with_origin (holds (https origin) s.img) (https origin) s)

unfoldable pub sources_of : DetectedFeatures → Sources
sources_of f = with_origins f.has_external_images (
    with_cloudinary f.has_cloudinary (
      with_stripe f.has_stripe (
        with_analytics f.has_google_analytics
          (with_fonts f.has_google_fonts (with_youtube f.has_youtube base_sources)))))

directive : Text → List Text → Text
directive name sources = name ++ (codes " " ++ join_on (codes " ") sources)

unfoldable pub policy_text : Sources → Text
unfolding directive
policy_text s =
    join_on (codes "; ") (
      directive (codes "default-src") (codes "'self'" ∷ [])
      ∷ directive (codes "script-src") s.script
      ∷ directive (codes "style-src") s.style
      ∷ directive (codes "img-src") s.img
      ∷ directive (codes "frame-src") s.frame
      ∷ directive (codes "connect-src") s.connect
      ∷ directive (codes "font-src") s.font
      ∷ directive (codes "media-src") s.media
      ∷ codes "object-src 'none'"
      ∷ codes "base-uri 'self'"
      ∷ codes "form-action 'self'"
      ∷ codes "upgrade-insecure-requests"
      ∷ [])
    ++ codes ";"

unfoldable pub default_csp : Text
default_csp =
    codes
      "default-src 'self'; script-src 'self' 'unsafe-inline'; style-src 'self' 'unsafe-inline'; img-src 'self' data:; connect-src 'self'; object-src 'none'; base-uri 'self'; form-action 'self'; upgrade-insecure-requests;"

unfoldable pub build_csp : Option DetectedFeatures → Text
build_csp none = default_csp
build_csp (some f) = if f.user_defined_csp then default_csp else policy_text (sources_of f)
