-- ===== src/Config/Steps.antt =====
-- The calls that change the configuration (crates/latte-work-config/src/lib.rs), as one step function,
-- and a history of them. The application opens the store anew for each call, so that the next call
-- starts from what the last one wrote.
use latte_work.Common.{String, Bool, List, [], ◌∷◌, Option, Result, ok, err}
use latte_work.Protocol.Providers.{ProviderDraft}
use latte_work.Protocol.Responses.{Response}
use latte_work.Config.State.{Config, ConfigLibrary, ConfigError}
use latte_work.Config.Bindings.{bind, forget_host, delete}
use latte_work.Config.Drafts.{save}

pub data ConfigCall : Type 0 where
  binds : (host agent : String) → (id : Option String) → ConfigCall
  forgets : (host : String) → ConfigCall
  deletes : (id : String) → ConfigCall
  saves : (draft : ProviderDraft) → (fresh_id fresh_revision : String) → ConfigCall

-- A call that fails writes nothing.
abbrev pub written_by : Config → Result ConfigError (Response × Config) → Config
written_by c (ok a) = a.1
written_by c (err e) = c

module _ (library : ConfigLibrary) where
  -- `written` says whether the file could be written.
  unfoldable pub config_call : Config → Bool × ConfigCall → Result ConfigError (Response × Config)
  config_call c (written, binds host agent id) = bind library written c host agent id
  config_call c (written, forgets host) = forget_host library written c host
  config_call c (written, deletes id) = delete library written c id
  config_call c (written, saves draft fresh_id fresh_revision) =
      save library written c draft fresh_id fresh_revision

  unfoldable pub config_run : Config → List (Bool × ConfigCall) → Config
  unfolding config_call
  config_run c [] = c
  config_run c (k ∷ ks) = config_run (written_by c (config_call c k)) ks
