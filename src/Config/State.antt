-- ===== src/Config/State.antt =====
-- crates/latte-work-config/src/lib.rs: the configuration file, and what the code uses of other
-- libraries.
use latte_work.Common.{ℕ, String, Bool, List, [], ◌++◌, Option, none, ◌==◌, find?, flatten_values}
use latte_work.Protocol.Providers.{Provider}

-- `Record` of the code.
pub record ProviderRecord : Type 0 where
  pub synced : Bool
  pub metadata : Provider
  pub credential : String

pub record Config : Type 0 where
  pub schema : ℕ
  pub bindings : List (String × String)
  pub active_id : Option String
  pub host_bindings : List (String × List (String × String))
  pub providers : List ProviderRecord

-- `Config::default`.
abbrev pub default_config : Config
default_config = record {
  schema = 2;
  bindings = [];
  active_id = none;
  host_bindings = [];
  providers = [];
}

-- What the crate `url` says of an address.
pub record Url : Type 0 where
  pub scheme : String
  pub host_str : Option String
  pub username : String
  pub password : Option String
  pub query : Option String
  pub fragment : Option String
  pub path : String

-- The crate `url`, and the size that `serde_json` gives to a configuration.
pub record ConfigLibrary : Type 0 where
  pub parse_url : String → Option Url
  pub set_path : Url → String → Url
  pub config_len : Config → ℕ

-- One value for each refusal of the code. `panicked` is the failure of an `expect`.
pub data ConfigError : Type 0 where
  invalid_name address_too_long invalid_url unsupported_url too_many_models : ConfigError
  invalid_model invalid_labels invalid_1m stray_credential invalid_credential : ConfigError
  invalid_id invalid_schema duplicate_provider too_many_hosts local_host : ConfigError
  unknown_provider config_too_large not_saved panicked : ConfigError
  address_changed protocol_bound missing_credential endpoint_changed : ConfigError

-- `providers.iter().find(|r| &r.metadata.id == id)`.
abbrev pub find_provider : Config → String → Option ProviderRecord
find_provider c id = find? (λ r. r.metadata.id == id) c.providers

-- The bindings of this computer, then those of each host.
abbrev pub all_bindings : Config → List (String × String)
all_bindings c = c.bindings ++ flatten_values (λ b. b) c.host_bindings
