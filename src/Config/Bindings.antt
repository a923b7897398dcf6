-- ===== src/Config/Bindings.antt =====
-- crates/latte-work-config/src/lib.rs: reading and writing the configuration, its lists, and the
-- bindings of Agents to providers.
use latte_work.Common.{
  ℕ, suc, ◌*◌, String, Bool, not, ◌&&◌, List, [], ◌∷◌, map, Option, none, some, ◌==◌, ltb, eqb,
  if◌then◌else◌, any, select, is_empty, lookup, insert, remove, length, Result, ok, bail_if, ok_or,
  ◌>>=◌, ◌>>◌,
}
use latte_work.Protocol.Providers.{ProviderProtocol, AgentProviderBinding, ProviderSnapshot}
use latte_work.Protocol.Responses.{Response}
use latte_work.Config.State.{
  ProviderRecord, Config, ConfigLibrary, ConfigError, unknown_provider, config_too_large, not_saved,
  panicked, find_provider, all_bindings,
}
use latte_work.Config.Validation.{validate_id, validate_config, same_protocol}

-- The revisions that a provider of schema 1 lacks are new ones, the `n`th for the `n`th provider.
fill_revisions : (ℕ → String) → ℕ → List ProviderRecord → List ProviderRecord
fill_revisions fresh n [] = []
fill_revisions fresh n (r ∷ rs) =
    (if is_empty r.metadata.revision
      then record r { metadata = record r.metadata { revision = fresh n } }
      else r)
    ∷ fill_revisions fresh (suc n) rs

-- Schema 1's global selection applied to Claude when it was compatible.
unfoldable pub migrate : (ℕ → String) → Config → Config
unfolding fill_revisions
migrate fresh c =
    if eqb c.schema 1
    then record c {
      schema = 2;
      active_id = none;
      bindings = elim c.active_id [
        | none ↦ c.bindings
        | some id ↦
            if any
              (λ r.
                r.metadata.id == id
                && same_protocol r.metadata.protocol ProviderProtocol.anthropic_messages)
              c.providers
            then insert "claude" id c.bindings
            else c.bindings
      ];
      providers = fill_revisions fresh 0 c.providers;
    }
    else c

-- `ProviderStore::bindings`.
unfoldable pub bindings_of : Config → String → Option (List (String × String))
bindings_of c host = if host == "local" then some c.bindings else lookup host c.host_bindings

unfoldable pub bindings_or_none : Config → String → List (String × String)
unfolding bindings_of
bindings_or_none c host = elim (bindings_of c host) [ none ↦ [] | some b ↦ b ]

-- Each binding with the revision of its provider, which `expect` presumes to be there.
unfoldable pub bound_revisions :
    Config → List (String × String) → Result ConfigError (List AgentProviderBinding)
bound_revisions c [] = ok []
bound_revisions c (b ∷ bs) = do
  r ← ok_or (find_provider c b.1) panicked
  rest ← bound_revisions c bs
  ok (record { agent = b.0; provider_id = b.1; provider_revision = r.metadata.revision } ∷ rest)

unfoldable pub catalog : Config → List (String × String) → Result ConfigError Response
unfolding bound_revisions
catalog c bs = do
  bound ← bound_revisions c bs
  ok (Response.providers (map (λ r. r.metadata) c.providers) bound)

-- `ProviderStore::list`.
unfoldable pub list : Config → Result ConfigError Response
unfolding catalog
list c = catalog c (all_bindings c)

unfoldable pub list_for_host : Config → String → Result ConfigError Response
unfolding validate_id bindings_or_none catalog
list_for_host c host = do validate_id host; catalog c (bindings_or_none c host)

unfoldable pub snapshot_for_host :
    Config → String → String → Result ConfigError (Option ProviderSnapshot)
unfolding validate_id bindings_or_none
snapshot_for_host c host agent = do
  validate_id host
  validate_id agent
  elim (lookup agent (bindings_or_none c host)) [
    | none ↦ ok none
    | some id ↦ do
      r ← ok_or (find_provider c id) unknown_provider
      ok (some (record { provider = r.metadata; credential = r.credential }))
  ]

abbrev pub max_config : ℕ
max_config = 128 * 1024

-- `value.insert` or `value.remove` of an Agent's binding.
unfoldable pub change_binding :
    String → Option String → List (String × String) → List (String × String)
change_binding agent none bs = remove agent bs
change_binding agent (some id) bs = insert agent id bs

unfoldable pub rebound : Config → String → String → Option String → Config
unfolding change_binding bindings_or_none
rebound c host agent id =
    if host == "local"
    then record c { bindings = change_binding agent id c.bindings }
    else record c {
      host_bindings =
          insert host (change_binding agent id (bindings_or_none c host)) c.host_bindings;
    }

-- What is left of a configuration without a provider.
unfoldable pub without_provider : Config → String → Config
without_provider c id = record c {
  providers = select (λ r. not (r.metadata.id == id)) c.providers;
  bindings = select (λ b. not (b.1 == id)) c.bindings;
  host_bindings =
      select (λ h. ltb 0 (length h.1))
        (map (λ h. (h.0, select (λ b. not (b.1 == id)) h.1)) c.host_bindings);
  active_id = elim c.active_id [
    | none ↦ none
    | some active ↦ if active == id then none else some active
  ];
}

unfoldable pub without_host : Config → String → Config
without_host c host =
    if host == "local"
    then record c { bindings = [] }
    else record c { host_bindings = remove host c.host_bindings }

module _ (library : ConfigLibrary) where
  -- `ProviderStore::persist`. `written` says whether the file could be written. The new
  -- configuration is the second part of the answer.
  unfoldable pub persist : Bool → Config → Result ConfigError (Response × Config)
  unfolding list
  persist written c = do
    validate_config library c
    bail_if (ltb max_config (library.config_len c)) config_too_large
    bail_if (not written) not_saved
    response ← list c
    ok (response, c)

  -- The part of `read_config` behind the reading of the file.
  unfoldable pub accept_config : (ℕ → String) → Config → Result ConfigError Config
  unfolding migrate
  accept_config fresh c = do
    let migrated = migrate fresh c
    validate_config library migrated
    ok migrated

  unfoldable pub bind :
      Bool → Config → String → String → Option String → Result ConfigError (Response × Config)
  unfolding validate_id persist rebound list_for_host
  bind written c host agent id = do
    validate_id host
    validate_id agent
    saved ← persist written (rebound c host agent id)
    response ← list_for_host saved.1 host
    ok (response, saved.1)

  unfoldable pub forget_host : Bool → Config → String → Result ConfigError (Response × Config)
  unfolding validate_id persist without_host
  forget_host written c host = do validate_id host; persist written (without_host c host)

  unfoldable pub delete : Bool → Config → String → Result ConfigError (Response × Config)
  unfolding persist without_provider
  delete written c id = persist written (without_provider c id)
