-- ===== src/Tests/Config.antt =====
-- The configuration of providers at concrete inputs.
use latte_work.Common.{
  ◌≡◌, ◌≢◌, refl, String, Bool, true, false, List, [], ◌∷◌, some, none, ok, err, arith, eq_iff,
  select, not, is_empty, trim, any_char, is_control, is_whitespace, ends_with, trim_end_slashes,
  ◌==◌, Result,
}
use latte_work.Protocol.Providers.{ProviderAuth, ProviderProtocol, ProviderDraft}
use latte_work.Protocol.Responses.{Response}
use latte_work.Config.State.{ProviderRecord, Config, ConfigLibrary, ConfigError, find_provider}
use latte_work.Config.Validation.{
  validate_id, validate_config, validate_records, validate_provider, validate_hosts,
  validate_bindings, is_invalid_name, is_invalid_model, has_invalid_labels, has_invalid_1m,
  is_unsupported_url, check_credential,
}
use latte_work.Config.Bindings.{snapshot_for_host, bindings_or_none, bind, delete, persist}
use latte_work.Config.Drafts.{save, bound, replace_first}
use latte_work.Config.Steps.{ConfigCall, binds, deletes, config_run}
use latte_work.Config.Resolved.{Answers}
use latte_work.Config.History.{config_run-Answers}
use latte_work.Config.Credentials.{credential_stays}
use latte_work.Config.Bound.{bind-snapshot, snapshot_of}
use latte_work.Config.Deletion.{delete_unbinds}

-- Every text is an address of one host, and every configuration has one size.
abbrev library : ConfigLibrary
library = record {
  parse_url = λ _. some (record {
    scheme = "https";
    host_str = some "example.com";
    username = "";
    password = none;
    query = none;
    fragment = none;
    path = "/";
  });
  set_path = λ u path. record u { path = path };
  config_len = λ _. 100;
}

abbrev stored : String → ProviderRecord
stored id = record {
  synced = false;
  metadata = record {
    id = id;
    name = "Example";
    protocol = ProviderProtocol.anthropic_messages;
    base_url = "https://example.com";
    model = "m";
    models = [];
    model_labels = [];
    models_1m = [];
    auth = ProviderAuth.bearer;
    has_credential = true;
    revision = "1";
  };
  credential = "key";
}

abbrev config : Config
config = record {
  schema = 2;
  bindings = ("claude", "q") ∷ [];
  active_id = none;
  host_bindings = ("h", ("claude", "p") ∷ []) ∷ [];
  providers = stored "p" ∷ stored "q" ∷ [];
}

abbrev draft : ProviderDraft
draft = record {
  id = some "p";
  name = "Renamed";
  protocol = ProviderProtocol.anthropic_messages;
  base_url = "https://example.com/";
  model = "m";
  models = [];
  model_labels = [];
  models_1m = [];
  auth = ProviderAuth.bearer;
  credential = none;
}

config_valid : validate_config library config ≡ ok tt
unfolding validate_config validate_records validate_provider validate_hosts validate_bindings
    validate_id is_invalid_name is_invalid_model has_invalid_labels has_invalid_1m
    is_unsupported_url check_credential is_empty trim any_char is_control is_whitespace ends_with
config_valid = refl

id_valid : (validate_id "h" ≡ ok tt) × (validate_id "claude" ≡ ok tt)
unfolding validate_id is_empty any_char is_control
id_valid = (refl, refl)

abbrev calls : List (Bool × ConfigCall)
calls = (true, deletes "p") ∷ (true, binds "h" "claude" (some "q")) ∷ []

config_run-Answers_example : Answers (config_run library config calls) "h" "claude"
config_run-Answers_example =
    config_run-Answers library config calls "h" "claude" config_valid id_valid.0 id_valid.1

delete_unbinds_example :
    (r : Response) × (c' : Config) × (delete library true config "p" ≡ ok (r, c'))
    × (find_provider c' "p" ≡ none)
    × (bound c' "p" ≡ false)
    × (bindings_or_none c' "h" ≡ select (λ b. not (b.1 == "p")) (bindings_or_none config "h"))
delete_unbinds_example = delete_unbinds library config "p" "h" config_valid refl refl

abbrev answer_of : Result ConfigError (Response × Config) → Response × Config
answer_of (ok a) = a
answer_of (err _) = (Response.accepted true, config)

abbrev bound_again : Response × Config
bound_again = answer_of (bind library true config "h" "claude" (some "q"))

was_bound : bind library true config "h" "claude" (some "q") ≡ ok bound_again
unfolding bind validate_config validate_records validate_provider validate_hosts validate_bindings
    validate_id is_invalid_name is_invalid_model has_invalid_labels has_invalid_1m
    is_unsupported_url check_credential is_empty trim any_char is_control is_whitespace ends_with
was_bound = refl

bind-snapshot_example :
    (snapshot_for_host bound_again.1 "h" "claude" ≡ ok (snapshot_of config (some "q")))
    × (snapshot_for_host bound_again.1 "h" "traex" ≡ snapshot_for_host config "h" "traex")
    × (snapshot_for_host bound_again.1 "local" "traex" ≡ snapshot_for_host config "local" "traex")
bind-snapshot_example =
    bind-snapshot library true config "h" "local" "claude" "traex" "traex" (some "q") bound_again
      was_bound traex_is_not_claude refl
  where
    traex_is_not_claude : ◌≢◌ {A = String} "traex" "claude"
    traex_is_not_claude = ground (arith, eq_iff "traex" "claude")

abbrev saved_again : Response × Config
saved_again = answer_of (save library true config draft "n" "2")

was_saved : save library true config draft "n" "2" ≡ ok saved_again
unfolding save validate_config validate_records validate_provider validate_hosts validate_bindings
    validate_id is_invalid_name is_invalid_model has_invalid_labels has_invalid_1m
    is_unsupported_url check_credential is_empty trim any_char is_control is_whitespace ends_with
    trim_end_slashes replace_first persist
was_saved = refl

credential_stays_example :
    (old : ProviderRecord) × (new : ProviderRecord) × (find_provider config "p" ≡ some old)
    × (find_provider saved_again.1 "p" ≡ some new)
    × (new.credential ≡ old.credential)
    × (new.metadata.base_url ≡ old.metadata.base_url)
    × (new.metadata.auth ≡ old.metadata.auth)
credential_stays_example =
    credential_stays library true config draft "p" "n" "2" saved_again refl refl refl was_saved
