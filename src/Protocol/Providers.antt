-- ===== src/Protocol/Providers.antt =====
-- crates/latte-work-protocol/src/lib.rs. Model providers, their credentials and bindings, agents and their commands, skills.
use latte_work.Common.{String, Bool, Option, List}

pub data ProviderProtocol : Type 0 where
  anthropic_messages : ProviderProtocol
  openai_chat : ProviderProtocol
  openai_responses : ProviderProtocol

pub data ProviderAuth : Type 0 where
  none : ProviderAuth
  bearer : ProviderAuth
  api_key : ProviderAuth

pub record Provider : Type 0 where
  pub id : String
  pub name : String
  pub protocol : ProviderProtocol
  pub base_url : String
  pub model : String
  pub models : List String
  pub model_labels : List (String × String)
  pub models_1m : List String
  pub auth : ProviderAuth
  pub has_credential : Bool
  pub revision : String

pub record ProviderTarget : Type 0 where
  pub ssh : String
  pub server_path : String

pub record AgentProviderBinding : Type 0 where
  pub agent : String
  pub provider_id : String
  pub provider_revision : String

pub record ProviderSnapshot : Type 0 where
  pub provider : Provider
  pub credential : String

pub data TurnProvider : Type 0 where
  cli : TurnProvider
  snapshot : ProviderSnapshot → TurnProvider

pub record ProviderDraft : Type 0 where
  pub id : Option String
  pub name : String
  pub protocol : ProviderProtocol
  pub base_url : String
  pub model : String
  pub models : List String
  pub model_labels : List (String × String)
  pub models_1m : List String
  pub auth : ProviderAuth
  pub credential : Option String

pub record AgentPermissionMode : Type 0 where
  pub id : String
  pub label : String
  pub description : String
  pub elevated : Bool

pub record AgentInfo : Type 0 where
  pub id : String
  pub name : String
  pub available : Bool
  pub provider_protocols : List ProviderProtocol
  pub detail : String

pub data AgentCommandUiAction : Type 0 where
  subagents : AgentCommandUiAction

pub record AgentSlashCommand : Type 0 where
  pub name : String
  pub display_name : Option String
  pub description : String
  pub argument_hint : String
  pub ui_action : Option AgentCommandUiAction

pub record SkillInfo : Type 0 where
  pub name : String
  pub description : String
  pub directory : String

pub record SkillImportFile : Type 0 where
  pub path : String
  pub attachment : String

pub data SkillScope : Type 0 where
  platform : SkillScope
  system : SkillScope
  project : SkillScope

pub data SkillState : Type 0 where
  enabled : SkillState
  disabled : SkillState
  uninstalled : SkillState

pub record ManagedSkill : Type 0 where
  pub id : String
  pub name : String
  pub description : String
  pub scope : SkillScope
  pub state : SkillState
  pub directory : Option String
  pub origin : String
