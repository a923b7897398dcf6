-- ===== src/Protocol/Changes.antt =====
-- crates/latte-work-protocol/src/lib.rs. File changes of a turn and Git reviews.
use latte_work.Common.{ℕ, String, Bool, Option, List}

pub data ChangeSection : Type 0 where
  unstaged : ChangeSection
  staged : ChangeSection
  untracked : ChangeSection

pub data GitReviewScope : Type 0 where
  branch : GitReviewScope
  commit : GitReviewScope
  worktree : GitReviewScope
  unstaged : GitReviewScope
  staged : GitReviewScope

pub data ChangePreviewTarget : Type 0 where
  git :
      (project_id : String)
      → (scope : GitReviewScope) → (base : Option String) → (head : Option String)
      → ChangePreviewTarget
  task : (session_id : String) → ChangePreviewTarget
  turn : (session_id : String) → (request_id : String) → ChangePreviewTarget

pub record ImagePreviewChunk : Type 0 where
  pub bytes : List ℕ
  pub mime_type : String
  pub size : ℕ
  pub next : ℕ
  pub has_more : Bool
  pub version : String
  pub sha256 : Option String

pub data ToolOutputBlock : Type 0 where
  text : (text : String) → ToolOutputBlock
  image : (mime_type : String) → (data_base64 : String) → ToolOutputBlock

pub record GitChange : Type 0 where
  pub path : String
  pub previous_path : Option String
  pub section : ChangeSection
  pub status : String

pub record GitRef : Type 0 where
  pub name : String
  pub full_name : String

pub record GitCommit : Type 0 where
  pub oid : String
  pub subject : String

pub record GitInfo : Type 0 where
  pub branch : Option String
  pub head : Option String
  pub default_base : Option String
  pub refs : List GitRef
  pub truncated : Bool

pub record GitReviewFile : Type 0 where
  pub path : String
  pub previous_path : Option String
  pub status : String
  pub added : Option ℕ
  pub removed : Option ℕ
  pub binary : Bool
  pub untracked : Bool

pub record GitReview : Type 0 where
  pub base : Option String
  pub head : Option String
  pub entries : List GitReviewFile
  pub added : ℕ
  pub removed : ℕ
  pub truncated : Bool

pub record TaskChange : Type 0 where
  pub path : String
  pub status : String
  pub added : Option ℕ
  pub removed : Option ℕ

pub record ChangeSummary : Type 0 where
  pub entries : List TaskChange
  pub total_files : Option ℕ
  pub next_offset : Option ℕ
  pub offset : Option ℕ
  pub added : ℕ
  pub removed : ℕ
  pub binary_files : ℕ
  pub truncated : Bool
  pub baseline_at : Option ℕ
  pub unavailable : Option String

pub data TurnUndoStatus : Type 0 where
  ready : TurnUndoStatus
  reverted : TurnUndoStatus
  unknown : TurnUndoStatus

pub record TurnChanges : Type 0 where
  pub request_id : String
  pub summary : ChangeSummary
  pub interrupted : Bool
  pub background_pending : Bool
  pub undo : TurnUndoStatus
