-- ===== src/Connect/Urls.antt =====
-- The URLs of the Connect server (src-tauri/src/connect.rs). The type `Url` of the crate `url` is a parameter.
pub mod Safety
use Prim.Native.String.{[], ◌∷◌}
use transonic.Prelude.{
  either_branch, option_branch, ℕ, String, Bool, true, false, not, ◌&&◌, ◌||◌, ◌≡◌, refl, ◌⊎◌, inl,
  inr, Option, none, some, is_some, str_eq, if◌then◌else◌,
}
use mathlib.Core.Option
use transonic.Result.{Result, ok, err}
use transonic.Text.{trim, to_ascii_lowercase}

-- What the code uses of `Url`. A setter that may fail returns nothing then.
pub record UrlOps (U : Type 0) : Type 0 where
  pub parse : String → Option U
  pub username : U → String
  pub password : U → Option String
  pub scheme : U → String
  pub host_str : U → Option String
  pub path : U → String
  pub as_str : U → String
  pub set_path : String → U → U
  pub clear_query : U → U
  pub clear_fragment : U → U
  pub set_port : ℕ → U → Option U
  pub set_scheme : String → U → Option U

pub record ConnectSettings : Type 0 where
  pub enabled : Bool
  pub use_subsonic_server_host : Bool
  pub connect_server_host : Option String
  pub connect_server_port : ℕ
  pub device_id : String
  pub device_name : Option String
  pub allow_insecure_connect_server : Bool

-- `s.trim_end_matches('/')`.
pub trim_end_slashes : String → String
trim_end_slashes [] = []
trim_end_slashes (c ∷ s) =
    let rest = trim_end_slashes s in if str_eq (c ∷ []) "/" && str_eq rest "" then [] else c ∷ rest

abbrev pub is_loopback : String → Bool
is_loopback host = str_eq host "localhost" || str_eq host "127.0.0.1" || str_eq host "::1"

abbrev set_failed : {U : Type 0} → Option U → Result U
set_failed none = err "connect: failed to set Connect Server port"
set_failed (some parsed) = ok parsed

abbrev pub then_result : {A B : Type 0} → Result A → (A → Result B) → Result B
then_result (ok a) f = f a
then_result (err e) f = err e

module _ {U : Type 0} (url : UrlOps U) where
  abbrev pub has_credentials : U → Bool
  has_credentials parsed = not (str_eq (url.username parsed) "") || is_some (url.password parsed)

  -- The guards on the scheme.
  unfoldable pub check_scheme : Bool → U → Result (Unit {0})
  check_scheme allow_insecure parsed =
      if str_eq (url.scheme parsed) "http"
      then if not (is_loopback (to_ascii_lowercase (Option.get_or (url.host_str parsed) "")))
          && not allow_insecure
        then err "connect: LAN HTTP requires allowInsecureConnectServer"
        else ok tt
      else if str_eq (url.scheme parsed) "https"
      then ok tt
      else err "connect: Connect Server URL must start with http:// or https://"

  unfoldable pub with_port : Option ℕ → U → Result U
  with_port none parsed = ok parsed
  with_port (some port) parsed = set_failed (url.set_port port parsed)

  unfoldable pub finish_url : Option ℕ → U → Result (Option String)
  unfolding with_port trim_end_slashes
  finish_url connect_server_port parsed =
      let pathed = url.set_path (trim_end_slashes (url.path parsed)) parsed in
      then_result (with_port connect_server_port pathed) λ ported.
        ok (some (trim_end_slashes (url.as_str (url.clear_fragment (url.clear_query ported)))))

  unfoldable pub normalize_parsed : Bool → Option ℕ → U → Result (Option String)
  unfolding check_scheme finish_url
  normalize_parsed allow_insecure connect_server_port parsed =
      if has_credentials parsed
      then err "connect: Connect Server URL must not include credentials"
      else then_result (check_scheme allow_insecure parsed)
          λ _. finish_url connect_server_port parsed

  unfoldable pub normalize_connect_server_url :
      Option String → Bool → Option ℕ → Result (Option String)
  unfolding normalize_parsed
  normalize_connect_server_url none allow_insecure connect_server_port = ok none
  normalize_connect_server_url (some raw_url) allow_insecure connect_server_port =
      if str_eq (trim raw_url) "" then ok none else elim (url.parse (trim raw_url)) [
        | none ↦ err "connect: Connect Server URL is invalid"
        | some parsed ↦ normalize_parsed allow_insecure connect_server_port parsed
      ]

  unfoldable pub derive_from_parsed : ℕ → Bool → U → Result (Option String)
  unfolding normalize_connect_server_url
  derive_from_parsed connect_server_port allow_insecure parsed =
      let bare = url.clear_fragment (url.clear_query (url.set_path "" parsed)) in
      then_result (set_failed (url.set_port connect_server_port bare)) λ ported.
        normalize_connect_server_url (some (url.as_str ported))
          (allow_insecure || str_eq (url.scheme ported) "http") none

  unfoldable pub derive_connect_server_url_from_subsonic :
      String → ℕ → Bool → Result (Option String)
  unfolding derive_from_parsed
  derive_connect_server_url_from_subsonic subsonic_server_url connect_server_port allow_insecure =
      elim (url.parse subsonic_server_url) [
        | none ↦ err "connect: Subsonic Server URL is invalid"
        | some parsed ↦ derive_from_parsed connect_server_port allow_insecure parsed
      ]

  unfoldable pub resolve_connect_server_url :
      ConnectSettings → Option String → Result (Option String)
  unfolding derive_connect_server_url_from_subsonic normalize_connect_server_url
  resolve_connect_server_url settings subsonic_server_url =
      if not settings.enabled
      then ok none
      else if settings.use_subsonic_server_host
      then elim subsonic_server_url [
        | none ↦ err "connect: active Subsonic server URL is unavailable"
        | some subsonic ↦
            derive_connect_server_url_from_subsonic subsonic settings.connect_server_port
              settings.allow_insecure_connect_server
      ]
      else normalize_connect_server_url settings.connect_server_host
          settings.allow_insecure_connect_server (some settings.connect_server_port)

  abbrev is_resolved : Result (Option String) → Bool
  is_resolved (ok (some connect_server_url)) = true
  is_resolved _ = false

  unfoldable pub should_defer_local_playback_restore_for_connect : ConnectSettings → String → Bool
  unfolding resolve_connect_server_url
  should_defer_local_playback_restore_for_connect settings subsonic_server_url =
      if not settings.enabled || str_eq (trim settings.device_id) ""
      then false
      else is_resolved (resolve_connect_server_url settings (some subsonic_server_url))

  abbrev scheme_failed : Option U → Result U
  scheme_failed none = err "connect: failed to build websocket URL"
  scheme_failed (some parsed) = ok parsed

  unfoldable pub websocket_url : String → Result U
  websocket_url connect_server_url = elim (url.parse connect_server_url) [
    | none ↦ err "connect: Connect Server URL is invalid"
    | some parsed ↦
        then_result
          (if str_eq (url.scheme parsed) "http"
            then scheme_failed (url.set_scheme "ws" parsed)
            else if str_eq (url.scheme parsed) "https"
            then scheme_failed (url.set_scheme "wss" parsed)
            else err "connect: unsupported websocket URL scheme")
          λ secured. ok (url.clear_fragment (url.clear_query (url.set_path "/v1/ws" secured)))
  ]
