-- ===== src/Config/Validation.antt =====
-- crates/latte-work-config/src/validation.rs, and `validate_id` and `validate_config` of lib.rs.
use latte_work.Common.{
  String, len, count, Bool, true, false, not, ◌&&◌, ◌||◌, List, [], ◌∷◌, map, ◌==◌, ltb, eqb, any,
  contains, has_duplicates, length, any_char, is_control, is_whitespace, is_empty, is_some_and,
  trim, starts_with, ends_with, Result, ok, bail_if, ok_or, ◌>>=◌, ◌>>◌,
}
use latte_work.Protocol.Providers.{Provider, ProviderAuth, ProviderProtocol}
use latte_work.Config.State.{
  ProviderRecord, Config, Url, ConfigLibrary, ConfigError, invalid_name, address_too_long,
  invalid_url, unsupported_url, too_many_models, invalid_model, invalid_labels, invalid_1m,
  stray_credential, invalid_credential, invalid_id, invalid_schema, duplicate_provider,
  too_many_hosts, local_host, unknown_provider, all_bindings,
}

-- The derived `==` of `ProviderAuth` and of `ProviderProtocol`.
abbrev pub same_auth : ProviderAuth → ProviderAuth → Bool
same_auth ProviderAuth.none ProviderAuth.none = true
same_auth ProviderAuth.bearer ProviderAuth.bearer = true
same_auth ProviderAuth.api_key ProviderAuth.api_key = true
same_auth _ _ = false

abbrev pub same_protocol : ProviderProtocol → ProviderProtocol → Bool
same_protocol ProviderProtocol.anthropic_messages ProviderProtocol.anthropic_messages = true
same_protocol ProviderProtocol.openai_chat ProviderProtocol.openai_chat = true
same_protocol ProviderProtocol.openai_responses ProviderProtocol.openai_responses = true
same_protocol _ _ = false

-- Neither HTTP nor HTTPS, or with parts that an address may not have.
unfoldable pub is_unsupported_url : Url → Bool
is_unsupported_url u =
    not (u.scheme == "http" || u.scheme == "https")
    || not (is_some_and (λ _. true) u.host_str)
    || not (is_empty u.username)
    || is_some_and (λ _. true) u.password
    || is_some_and (λ _. true) u.query
    || is_some_and (λ _. true) u.fragment

unfoldable pub is_invalid_name : Provider → Bool
is_invalid_name p =
    is_empty p.id
    || ltb 100 (len p.id)
    || is_empty p.name
    || ltb 80 (count p.name)
    || any_char is_control p.name

unfoldable pub is_invalid_model : String → Bool
is_invalid_model m =
    is_empty m
    || ltb 256 (len m)
    || starts_with m "-"
    || any_char (λ c. is_whitespace c || is_control c) m

unfoldable pub has_invalid_labels : Provider → Bool
has_invalid_labels p =
    ltb 257 (length p.model_labels)
    || any
        (λ l.
          is_empty l.0
          || ltb 256 (len l.0)
          || any_char (λ c. is_whitespace c || is_control c) l.0
          || ltb 80 (count l.1)
          || any_char is_control l.1)
        p.model_labels

-- `to_ascii_lowercase().ends_with("[1m]")`: of these characters only the `m` has another case.
abbrev pub ends_with_1m : String → Bool
ends_with_1m m = ends_with m "[1m]" || ends_with m "[1M]"

-- The set `seen` refuses a model that stands twice.
unfoldable pub has_invalid_1m : Provider → Bool
has_invalid_1m p =
    ltb 257 (length p.models_1m)
    || (ltb 0 (length p.models_1m)
        && not (same_protocol p.protocol ProviderProtocol.anthropic_messages))
    || any
        (λ m.
          ltb 252 (len m) || ends_with_1m m || (not (m == p.model) && not (contains p.models m)))
        p.models_1m
    || has_duplicates p.models_1m

unfoldable pub check_credential : ProviderAuth → String → Result ConfigError (Unit {0})
check_credential ProviderAuth.none credential = bail_if (not (is_empty credential)) stray_credential
check_credential auth credential =
    bail_if
      (is_empty (trim credential) || ltb 8192 (len credential) || any_char is_control credential)
      invalid_credential

unfoldable pub validate_id : String → Result ConfigError (Unit {0})
validate_id id = bail_if (is_empty id || ltb 255 (len id) || any_char is_control id) invalid_id

unfoldable pub validate_bindings :
    List String → List (String × String) → Result ConfigError (Unit {0})
validate_bindings ids [] = ok tt
validate_bindings ids (b ∷ bs) = do
  validate_id b.0
  bail_if (not (contains ids b.1)) unknown_provider
  validate_bindings ids bs

unfoldable pub validate_hosts : List String → Result ConfigError (Unit {0})
validate_hosts [] = ok tt
validate_hosts (h ∷ hs) = do validate_id h; bail_if (h == "local") local_host; validate_hosts hs

module _ (library : ConfigLibrary) where
  unfoldable pub validate_provider : Provider → String → Result ConfigError (Unit {0})
  validate_provider p credential = do
    bail_if (is_invalid_name p) invalid_name
    bail_if (ltb 2048 (len p.base_url)) address_too_long
    url ← ok_or (library.parse_url p.base_url) invalid_url
    bail_if (is_unsupported_url url) unsupported_url
    bail_if (ltb 256 (length p.models)) too_many_models
    bail_if (any is_invalid_model (p.model ∷ p.models)) invalid_model
    bail_if (has_invalid_labels p) invalid_labels
    bail_if (has_invalid_1m p) invalid_1m
    check_credential p.auth credential

  -- The loop over the providers, with the identifiers that came before.
  unfoldable pub validate_records :
      List String → List ProviderRecord → Result ConfigError (Unit {0})
  validate_records seen [] = ok tt
  validate_records seen (r ∷ rs) = do
    validate_provider r.metadata r.credential
    bail_if (contains seen r.metadata.id) duplicate_provider
    validate_records (r.metadata.id ∷ seen) rs

  unfoldable pub validate_config : Config → Result ConfigError (Unit {0})
  validate_config c = do
    bail_if (not (eqb c.schema 2) || ltb 16 (length c.providers)) invalid_schema
    validate_records [] c.providers
    bail_if (ltb 256 (length c.host_bindings)) too_many_hosts
    validate_hosts (map (λ h. h.0) c.host_bindings)
    validate_bindings (map (λ r. r.metadata.id) c.providers) (all_bindings c)
