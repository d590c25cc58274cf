-- ===== src/Connect/Urls/Safety.antt =====
-- Which URLs the Connect server is logged in at (src-tauri/src/connect.rs).
use transonic.Prelude.{
  either_branch, ℕ, String, Bool, true, false, not, ◌&&◌, ◌||◌, ◌≡◌, refl, sym, ◌∙◌, subst, ◌⊎◌,
  inl, inr, Option, none, some, is_some, str_eq, eq_iff,
}
use mathlib.Core.Option
use transonic.Result.{Result, ok, err}
use transonic.Text.{trim, to_ascii_lowercase}
use transonic.Connect.Urls.{
  UrlOps, is_loopback, then_result, trim_end_slashes, set_failed, with_port, has_credentials,
  check_scheme, finish_url, normalize_parsed, normalize_connect_server_url,
}

then_ok :
    {A B : Type 0} (r : Result A) (f : A → Result B) (b : B)
    → then_result r f ≡ ok b
    → (a : A) × (r ≡ ok a) × (f a ≡ ok b)
then_ok (ok a) f b e = (a, refl, e)
then_ok (err message) f b e = cc

no_credentials :
    (username : Bool) (password : Option String)
    → (not username || is_some password) ≡ false
    → (username ≡ true) × (password ≡ none)
no_credentials true none e = (refl, refl)
no_credentials true (some p) e = cc
no_credentials false password e = cc

allowed_by :
    (loopback allow_insecure : Bool) {P : Type 0}
    → (loopback ≡ true → P)
    → (not loopback && not allow_insecure) ≡ false
    → P ⊎ (allow_insecure ≡ true)
allowed_by true allow_insecure own e = inl (own refl)
allowed_by false true own e = inr refl
allowed_by false false own e = cc

-- The hosts of the own machine.
abbrev pub IsOwnMachine : String → Type 0
IsOwnMachine host = (host ≡ "localhost") ⊎ (host ≡ "127.0.0.1") ⊎ (host ≡ "::1")

one_of : (a b c : Bool) → (a || b || c) ≡ true → (a ≡ true) ⊎ (b ≡ true) ⊎ (c ≡ true)
one_of true b c e = inl refl
one_of false true c e = inr (inl refl)
one_of false false c e = inr (inr e)

loopback_host : (host : String) → is_loopback host ≡ true → IsOwnMachine host
loopback_host host e =
    elim (one_of (str_eq host "localhost") (str_eq host "127.0.0.1") (str_eq host "::1") e) [
      | inl e ↦ inl ((eq_iff host "localhost").0 e)
      | inr (inl e) ↦ inr (inl ((eq_iff host "127.0.0.1").0 e))
      | inr (inr e) ↦ inr (inr ((eq_iff host "::1").0 e))
    ]

module _ {U : Type 0} (url : UrlOps U) where
  -- Two URLs with the same scheme, user name, password and host.
  pub record IsAlike (before after : U) : Type 0 where
    pub has_scheme : url.scheme after ≡ url.scheme before
    pub has_username : url.username after ≡ url.username before
    pub has_password : url.password after ≡ url.password before
    pub has_host : url.host_str after ≡ url.host_str before

  -- What the crate url documents of its setters: each changes its own part of a URL.
  pub record KeepsParts : Type 0 where
    pub set_path_keeps : (path : String) (u : U) → IsAlike u (url.set_path path u)
    pub clear_query_keeps : (u : U) → IsAlike u (url.clear_query u)
    pub clear_fragment_keeps : (u : U) → IsAlike u (url.clear_fragment u)
    pub set_port_keeps : (port : ℕ) (u v : U) → url.set_port port u ≡ some v → IsAlike u v

  -- A URL that is safe to log in at: no credentials in it, and HTTPS, or HTTP to the own machine or by
  -- leave.
  pub record IsSafe (allow_insecure : Bool) (u : U) : Type 0 where
    pub has_no_username : url.username u ≡ ""
    pub has_no_password : url.password u ≡ none
    pub is_secured :
        (url.scheme u ≡ "https")
        ⊎ ((url.scheme u ≡ "http")
            × (IsOwnMachine (to_ascii_lowercase (Option.get_or (url.host_str u) ""))
                ⊎ (allow_insecure ≡ true)))

  -- A text is that of a safe URL with the host of a given one, without slashes at its end.
  abbrev pub IsTextOfSafe : Bool → U → String → Type 0
  IsTextOfSafe allow_insecure parsed text =
      (u : U) × (text ≡ trim_end_slashes (url.as_str u))
      × IsSafe allow_insecure u
      × (url.host_str u ≡ url.host_str parsed)

  alike : {a b c : U} → IsAlike a b → IsAlike b c → IsAlike a c
  alike p q = record {
    has_scheme = q.has_scheme ∙ p.has_scheme;
    has_username = q.has_username ∙ p.has_username;
    has_password = q.has_password ∙ p.has_password;
    has_host = q.has_host ∙ p.has_host;
  }

  alike-IsSafe :
      (allow_insecure : Bool) (before after : U)
      → IsAlike before after
      → IsSafe allow_insecure before
      → IsSafe allow_insecure after
  alike-IsSafe allow_insecure before after same safe = record {
    has_no_username = same.has_username ∙ safe.has_no_username;
    has_no_password = same.has_password ∙ safe.has_no_password;
    is_secured = elim safe.is_secured [
      | inl e ↦ inl (same.has_scheme ∙ e)
      | inr e ↦ inr (
        same.has_scheme ∙ e.0,
        subst
            (λ host.
              IsOwnMachine (to_ascii_lowercase (Option.get_or host "")) ⊎ (allow_insecure ≡ true))
            (sym same.has_host) e.1,
      )
    ];
  }

  ported :
      (keeps : KeepsParts) (parsed pathed : U) (normalized : String) (port : ℕ) (o : Option U)
      → url.set_port port pathed ≡ o
      → IsAlike parsed pathed
      → then_result
          (set_failed o)
          (λ u. ok (some (trim_end_slashes (url.as_str (url.clear_fragment (url.clear_query u))))))
        ≡ ok (some normalized)
      → (u : U) × (normalized ≡ trim_end_slashes (url.as_str u)) × IsAlike parsed u
  ported keeps parsed pathed normalized port none set same e = cc
  ported keeps parsed pathed normalized port (some u) set same e = (
    url.clear_fragment (url.clear_query u),
    cc,
    alike same (
        alike (keeps.set_port_keeps port pathed u set)
          (alike (keeps.clear_query_keeps u) (keeps.clear_fragment_keeps _))),
  )

  finish_url-IsAlike :
      (keeps : KeepsParts) (port : Option ℕ) (parsed : U) (normalized : String)
      → finish_url url port parsed ≡ ok (some normalized)
      → (u : U) × (normalized ≡ trim_end_slashes (url.as_str u)) × IsAlike parsed u
  unfolding finish_url with_port
  finish_url-IsAlike keeps none parsed normalized =
      let pathed = url.set_path (trim_end_slashes (url.path parsed)) parsed in
      λ e. (
        url.clear_fragment (url.clear_query pathed),
        cc,
        alike (keeps.set_path_keeps _ parsed)
            (alike (keeps.clear_query_keeps pathed) (keeps.clear_fragment_keeps _)),
      )
  finish_url-IsAlike keeps (some port) parsed normalized =
      let pathed = url.set_path (trim_end_slashes (url.path parsed)) parsed in
      ported keeps parsed pathed normalized port (url.set_port port pathed) refl
        (keeps.set_path_keeps _ parsed)

module _ {U : Type 0} (url : UrlOps U) (allow_insecure : Bool) (parsed : U) where
  abbrev Secured : Type 0
  Secured =
      (url.scheme parsed ≡ "https")
      ⊎ ((url.scheme parsed ≡ "http")
          × (IsOwnMachine (to_ascii_lowercase (Option.get_or (url.host_str parsed) ""))
              ⊎ (allow_insecure ≡ true)))

  check_scheme-Secured : check_scheme url allow_insecure parsed ≡ ok tt → Secured
  unfolding check_scheme
  check_scheme-Secured =
      let loopback = is_loopback (to_ascii_lowercase (Option.get_or (url.host_str parsed) "")) in
      either_branch (λ (r : Result (Unit {0})). r ≡ ok tt → Secured)
        (str_eq (url.scheme parsed) "http")
        (λ http.
          either_branch (λ (r : Result (Unit {0})). r ≡ ok tt → Secured)
            (not loopback && not allow_insecure) (λ _ e. cc)
            (λ passed _. inr (
              (eq_iff (url.scheme parsed) "http").0 http,
              allowed_by loopback allow_insecure (loopback_host _) passed,
            )))
        (λ _.
          either_branch (λ (r : Result (Unit {0})). r ≡ ok tt → Secured)
            (str_eq (url.scheme parsed) "https")
            (λ https _. inl ((eq_iff (url.scheme parsed) "https").0 https)) (λ _ e. cc))

  normalize_parsed-IsSafe :
      (keeps : KeepsParts url) (port : Option ℕ) (normalized : String)
      → normalize_parsed url allow_insecure port parsed ≡ ok (some normalized)
      → IsTextOfSafe url allow_insecure parsed normalized
  unfolding normalize_parsed
  normalize_parsed-IsSafe keeps port normalized =
      either_branch
        (λ (r : Result (Option String)).
          r ≡ ok (some normalized) → IsTextOfSafe url allow_insecure parsed normalized)
        (has_credentials url parsed) (λ _ e. cc)
        (λ none_given e.
          let plain =
            no_credentials (str_eq (url.username parsed) "") (url.password parsed) none_given in
          let checked =
            then_ok (check_scheme url allow_insecure parsed) (λ _. finish_url url port parsed)
              (some normalized) e in
          let safe : IsSafe url allow_insecure parsed = record {
            has_no_username = (eq_iff (url.username parsed) "").0 plain.0;
            has_no_password = plain.1;
            is_secured = check_scheme-Secured checked.1;
          } in
          let finished = finish_url-IsAlike url keeps port parsed normalized checked.2 in
          (
            finished.0,
            finished.1,
            alike-IsSafe url allow_insecure parsed finished.0 finished.2 safe,
            finished.2.has_host,
          ))

parsed-IsSafe :
    {U : Type 0} (url : UrlOps U) (keeps : KeepsParts url) (allow_insecure : Bool) (port : Option ℕ)
    (normalized : String) (parsed : Option U)
    → (elim parsed [
      | none ↦ err "connect: Connect Server URL is invalid"
      | some parsed ↦ normalize_parsed url allow_insecure port parsed
    ])
      ≡ ok (some normalized)
    → (u : U) × (parsed ≡ some u) × IsTextOfSafe url allow_insecure u normalized
parsed-IsSafe url keeps allow_insecure port normalized none e = cc
parsed-IsSafe url keeps allow_insecure port normalized (some u) e =
    (u, refl, normalize_parsed-IsSafe url allow_insecure u keeps port normalized e)

-- If the normalisation of a raw URL gives one, the raw URL, without the white space around it, parses;
-- and what is given is the text, without slashes at its end, of a URL with the host of the parsed one,
-- no user name and no password, whose scheme is HTTPS, or HTTP where the host is `localhost`, `127.0.0.1`
-- or `::1`, in any case of their letters, or insecure servers are allowed. The setters of a URL keep the
-- parts that are not theirs.
pub normalize_connect_server_url-IsSafe :
    {U : Type 0} (url : UrlOps U) (keeps : KeepsParts url) (raw_url : String)
    (allow_insecure : Bool) (port : Option ℕ) (normalized : String)
    → normalize_connect_server_url url (some raw_url) allow_insecure port ≡ ok (some normalized)
    → (parsed : U) × (url.parse (trim raw_url) ≡ some parsed)
      × IsTextOfSafe url allow_insecure parsed normalized
unfolding normalize_connect_server_url
normalize_connect_server_url-IsSafe url keeps raw_url allow_insecure port normalized =
    either_branch
      (λ (r : Result (Option String)).
        r ≡ ok (some normalized)
        → (parsed : _) × (url.parse (trim raw_url) ≡ some parsed)
          × IsTextOfSafe url allow_insecure parsed normalized)
      (str_eq (trim raw_url) "") (λ _ e. cc)
      (λ _. parsed-IsSafe url keeps allow_insecure port normalized (url.parse (trim raw_url)))
