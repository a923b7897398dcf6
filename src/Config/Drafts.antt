-- ===== src/Config/Drafts.antt =====
-- crates/latte-work-config/src/lib.rs: `save` and `model_endpoint`, and `ModelEndpoint::new` of
-- discovery.rs.
use latte_work.Common.{
  String, len, concat, compare, Bool, true, false, not, ◌&&◌, ◌||◌, List, [], ◌∷◌, map, Option,
  none, some, ◌==◌, is_lt, ltb, if◌then◌else◌, any, select, is_empty, any_char, is_control, trim,
  trim_end_slashes, ends_with, Result, ok, err, bail_if, ok_or, ◌>>=◌, ◌>>◌, is_some_and,
}
use latte_work.Protocol.Providers.{ProviderAuth, ProviderProtocol, ProviderDraft}
use latte_work.Protocol.Responses.{Response}
use latte_work.Config.State.{
  ProviderRecord, Config, Url, ConfigLibrary, ConfigError, unknown_provider, address_changed,
  protocol_bound, missing_credential, endpoint_changed, invalid_url, unsupported_url,
  invalid_credential, find_provider, all_bindings,
}
use latte_work.Config.Validation.{same_auth, same_protocol, validate_provider, is_unsupported_url}
use latte_work.Config.Bindings.{persist}

-- `sort`, as an insertion sort, and `dedup`.
insert_text : String → List String → List String
insert_text s [] = s ∷ []
insert_text s (x ∷ xs) = if is_lt (compare x s) then x ∷ insert_text s xs else s ∷ x ∷ xs

sort_texts : List String → List String
unfolding insert_text
sort_texts [] = []
sort_texts (x ∷ xs) = insert_text x (sort_texts xs)

dedup_from : String → List String → List String
dedup_from last [] = []
dedup_from last (x ∷ xs) = if last == x then dedup_from last xs else x ∷ dedup_from x xs

dedup : List String → List String
unfolding dedup_from
dedup [] = []
dedup (x ∷ xs) = x ∷ dedup_from x xs

-- The first statements of `ProviderStore::save`.
unfoldable pub tidy : ProviderDraft → ProviderDraft
unfolding sort_texts dedup
tidy draft = record draft {
  name = trim draft.name;
  base_url = trim_end_slashes (trim draft.base_url);
  model = trim draft.model;
  models = dedup (sort_texts (select (λ m. not (is_empty m)) (map trim draft.models)));
  models_1m = dedup (sort_texts (map trim draft.models_1m));
}

-- `ProviderStore::bound`.
unfoldable pub bound : Config → String → Bool
bound c id = any (λ b. b.1 == id) (all_bindings c)

-- `Some` of the record that the draft names, or `None` for a new provider.
unfoldable pub existing : Config → Option String → Result ConfigError (Option ProviderRecord)
existing c none = ok none
existing c (some id) = do r ← ok_or (find_provider c id) unknown_provider; ok (some r)

-- The address or the authentication changes and no credential comes with the change.
unfoldable pub drops_credential : ProviderDraft → ProviderRecord → Bool
drops_credential draft old =
    not (same_auth draft.auth ProviderAuth.none)
    && not (is_some_and (λ _. true) draft.credential)
    && (not (old.metadata.base_url == draft.base_url)
        || not (same_auth old.metadata.auth draft.auth))

unfoldable pub changes_bound_protocol : Config → ProviderDraft → ProviderRecord → Bool
unfolding bound
changes_bound_protocol c draft old =
    not (same_protocol old.metadata.protocol draft.protocol) && bound c old.metadata.id

unfoldable pub saved_credential : ProviderDraft → Option ProviderRecord → Result ConfigError String
saved_credential draft old =
    if same_auth draft.auth ProviderAuth.none then ok "" else (elim draft.credential [
      | some value ↦ ok value
      | none ↦ elim old [ none ↦ err missing_credential | some r ↦ ok r.credential ]
    ])

unfoldable pub saved_record : ProviderDraft → String → String → String → ProviderRecord
saved_record draft credential fresh_id fresh_revision = record {
  synced = false;
  metadata = record {
    id = elim draft.id [ none ↦ fresh_id | some id ↦ id ];
    name = draft.name;
    protocol = draft.protocol;
    base_url = draft.base_url;
    model = draft.model;
    models = draft.models;
    model_labels = draft.model_labels;
    models_1m = draft.models_1m;
    auth = draft.auth;
    has_credential = not (is_empty credential);
    revision = fresh_revision;
  };
  credential = credential;
}

-- `iter_mut().find(…)` replaces the first record of the identifier.
unfoldable pub replace_first : ProviderRecord → List ProviderRecord → List ProviderRecord
replace_first r [] = r ∷ []
replace_first r (x ∷ xs) = if x.metadata.id == r.metadata.id then r ∷ xs else x ∷ replace_first r xs

-- The credential that `ProviderStore::model_endpoint` asks with.
unfoldable pub endpoint_credential : Config → ProviderDraft → Result ConfigError String
endpoint_credential c draft =
    if same_auth draft.auth ProviderAuth.none then ok "" else (elim draft.credential [
      | some value ↦ ok value
      | none ↦ do
        old ←
            ok_or (elim draft.id [ none ↦ none | some id ↦ find_provider c id ]) missing_credential
        bail_if
            (not (trim_end_slashes old.metadata.base_url == trim_end_slashes draft.base_url)
              || not (same_auth old.metadata.auth draft.auth)
              || not (same_protocol old.metadata.protocol draft.protocol))
            endpoint_changed
        ok old.credential
    ])

pub record ModelEndpoint : Type 0 where
  pub url : Url
  pub protocol : ProviderProtocol
  pub auth : ProviderAuth
  pub credential : String

unfoldable pub models_path : Url → ProviderProtocol → String
models_path url protocol =
    let path = trim_end_slashes url.path in
    if is_empty path
    then "/v1/models"
    else (if ends_with path "/v1"
          || not (same_protocol protocol ProviderProtocol.anthropic_messages)
        then concat path "/models"
        else concat path "/v1/models")

module _ (library : ConfigLibrary) where
  -- `ModelEndpoint::new`.
  unfoldable pub endpoint :
      String → ProviderProtocol → ProviderAuth → String → Result ConfigError ModelEndpoint
  unfolding models_path is_unsupported_url
  endpoint base protocol auth credential = do
    url ← ok_or (library.parse_url (trim base)) invalid_url
    bail_if (is_unsupported_url url) unsupported_url
    bail_if (ltb 8192 (len credential) || any_char is_control credential) invalid_credential
    ok (record {
      url = library.set_path url (models_path url protocol);
      protocol = protocol;
      auth = auth;
      credential = credential;
    })

  unfoldable pub model_endpoint : Config → ProviderDraft → Result ConfigError ModelEndpoint
  unfolding endpoint_credential endpoint
  model_endpoint c draft = do
    credential ← endpoint_credential c draft
    endpoint draft.base_url draft.protocol draft.auth credential

  -- `ProviderStore::save` of a draft that is tidied, given a new identifier and a new revision.
  unfoldable pub save_tidy :
      Bool → Config → ProviderDraft → String → String → Result ConfigError (Response × Config)
  unfolding existing drops_credential changes_bound_protocol saved_credential saved_record
  save_tidy written c draft fresh_id fresh_revision = do
    old ← existing c draft.id
    bail_if (is_some_and (drops_credential draft) old) address_changed
    bail_if (is_some_and (changes_bound_protocol c draft) old) protocol_bound
    credential ← saved_credential draft old
    let r = saved_record draft credential fresh_id fresh_revision
    validate_provider library r.metadata r.credential
    persist library written (record c { providers = replace_first r c.providers })

  unfoldable pub save :
      Bool → Config → ProviderDraft → String → String → Result ConfigError (Response × Config)
  unfolding tidy save_tidy
  save written c draft fresh_id fresh_revision =
      save_tidy written c (tidy draft) fresh_id fresh_revision
