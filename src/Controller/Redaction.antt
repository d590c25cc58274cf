-- ===== src/Controller/Redaction.antt =====
-- The URLs that the program logs (`redacted_stream_url` of src-tauri/src/playback/controller.rs).
use transonic.Prelude.{
  ◌≡◌, ap, refl, String, Bool, true, false, ◌||◌, List, [], ◌∷◌, map, ◌⊎◌, inl, inr, str_eq,
}
use transonic.Text.{to_ascii_lowercase}
use transonic.Controller.Helpers.{
  any_eq_ignore_ascii_case, sensitive_query_keys, redacted_pair, redacted_stream_url,
}

-- A text that is one of the names under which a request to the media server carries credentials, in
-- lower case: user name, password, token, salt and the two spellings of the API key.
abbrev pub IsSecret : String → Type 0
IsSecret name =
    (name ≡ "u")
    ⊎ (name ≡ "p")
    ⊎ (name ≡ "t")
    ⊎ (name ≡ "s")
    ⊎ (name ≡ "apikey")
    ⊎ (name ≡ "api_key")

-- Two queries with the same keys, whose values differ at most at keys that are, in any case of their
-- letters, names of credentials.
abbrev pub AgreeOnPublic : List (String × String) → List (String × String) → Type 0
AgreeOnPublic [] [] = Unit
AgreeOnPublic ((key, value) ∷ pairs) ((key', value') ∷ pairs') =
    (key ≡ key')
    × (IsSecret (to_ascii_lowercase key) ⊎ (value ≡ value'))
    × AgreeOnPublic pairs pairs'
AgreeOnPublic _ _ = ⊥

among : String → Bool
among name =
    str_eq "u" name
    || (str_eq "p" name
        || (str_eq "t" name
            || (str_eq "s" name || (str_eq "apikey" name || (str_eq "api_key" name || false)))))

among_secret : (name : String) → IsSecret name → among name ≡ true
unfolding among
among_secret name (inl e) = ap among e
among_secret name (inr (inl e)) = ap among e
among_secret name (inr (inr (inl e))) = ap among e
among_secret name (inr (inr (inr (inl e)))) = ap among e
among_secret name (inr (inr (inr (inr (inl e))))) = ap among e
among_secret name (inr (inr (inr (inr (inr e))))) = ap among e

secret_key :
    (key : String)
    → IsSecret (to_ascii_lowercase key)
    → any_eq_ignore_ascii_case sensitive_query_keys key ≡ true
unfolding among to_ascii_lowercase
secret_key key secret = among_secret (to_ascii_lowercase key) secret

redacted_pairs :
    (pairs pairs' : List (String × String))
    → AgreeOnPublic pairs pairs'
    → map redacted_pair pairs ≡ map redacted_pair pairs'
unfolding redacted_pair
redacted_pairs [] [] h = refl
redacted_pairs [] (p ∷ pairs') h = absurd h
redacted_pairs (p ∷ pairs) [] h = absurd h
redacted_pairs ((key, value) ∷ pairs) ((key', value') ∷ pairs') h = elim h.1 [
  | inl secret ↦ cc (h.0, secret_key key secret, redacted_pairs pairs pairs' h.2)
  | inr same ↦ cc (h.0, same, redacted_pairs pairs pairs' h.2)
]

-- The logged text of a URL is the same for two queries that have the same keys and differ only in the
-- values of `u`, `p`, `t`, `s`, `apiKey` and `api_key`, in any case of their letters: it tells nothing of
-- those values.
pub redacted_stream_url_hides :
    (path : String) (with_query : List (String × String) → String)
    (pairs pairs' : List (String × String))
    → AgreeOnPublic pairs pairs'
    → redacted_stream_url (record { path = path; query_pairs = pairs; with_query = with_query })
      ≡ redacted_stream_url (record { path = path; query_pairs = pairs'; with_query = with_query })
unfolding redacted_stream_url
redacted_stream_url_hides path with_query pairs pairs' h =
    ap with_query (redacted_pairs pairs pairs' h)
