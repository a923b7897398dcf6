-- ===== src/Store/Sources.antt =====
-- crates/latte-work-server/src/sources.rs: the sources that an event names, in the reference
-- manifest at the end of a prompt or by the tool that ran.
use text.Mathlib.Text.{starts_with, find?}
use Prim.Native.String.{slice}
use Prim.Native.Char.{code}
use latte_work.Common.{
  ℕ, ◌+◌, String, len, concat, Bool, not, ◌&&◌, List, [], ◌∷◌, Option, some, none, ◌==◌, ltb, leb,
  eqb, if◌then◌else◌, take, is_empty, any_char,
}
use latte_work.Protocol.Values.{TaskSource, SourceKind}
use latte_work.Protocol.Events.{EventKind}
use latte_work.Store.State.{Reference, JsonLibrary}

marker : String
marker = "\n文件引用（相对路径基于当前项目根目录；绝对路径位于当前执行主机。仅引用路径，按当前权限读取）：\n"

compact_marker : String
compact_marker = "\n引用（相对项目；绝对路径在当前主机，按现有权限读取）：\n"

-- The byte position from `at` on at which `m` last stands in the text, which begins at `at`.
rfind_from : String → ℕ → String → Option ℕ
rfind_from m at String.[] = none
rfind_from m at (String.◌∷◌ c s) =
    let later = rfind_from m (at + len (String.◌∷◌ c String.[])) s in
    elim later [ some i ↦ some i | none ↦ if starts_with (String.◌∷◌ c s) m then some at else none ]

-- `str::rfind`.
unfoldable pub rfind : String → String → Option ℕ
unfolding rfind_from
rfind s m = rfind_from m 0 s

-- The later of two markers with its end: `max_by_key` on the position.
later_marker : Option ℕ → Option ℕ → Option ℕ
unfolding marker compact_marker
later_marker none none = none
later_marker (some i) none = some (i + len marker)
later_marker none (some j) = some (j + len compact_marker)
later_marker (some i) (some j) =
    if ltb j i then some (i + len marker) else some (j + len compact_marker)

-- The part of a path behind its last slash, from the parts before: `rsplit('/').next()`.
base_name : String → String → String
base_name acc String.[] = acc
base_name acc (String.◌∷◌ c s) =
    base_name (if eqb (code c) b'/' then "" else concat acc (String.◌∷◌ c String.[])) s

or_else : Option String → String → String
or_else none s = s
or_else (some t) s = t

keep : (String → Bool) → Option String → Option String
keep p none = none
keep p (some s) = if p s then some s else none

reference_kind : String → Option SourceKind
reference_kind kind =
    if kind == "file"
    then some SourceKind.file
    else (if kind == "directory" then some SourceKind.directory else none)

reference_source : Reference → String → SourceKind → TaskSource
unfolding or_else keep base_name
reference_source r path kind = record {
  id = concat "file:" path;
  name = or_else (keep (λ s. not (is_empty s) && leb (len s) 256) r.name) (base_name "" path);
  kind = kind;
  path = some path;
  mime_type = keep (λ s. leb (len s) 128) r.mime_type;
  tools = [];
  uses = 0;
}

is_path : String → Bool
is_path p = not (is_empty p) && leb (len p) 4096 && not (any_char (λ c. eqb (code c) 0) p)

cons_source : Option TaskSource → List TaskSource → List TaskSource
cons_source none rest = rest
cons_source (some s) rest = s ∷ rest

as_source : Reference → Option TaskSource
unfolding is_path keep reference_kind reference_source
as_source r = elim (keep is_path r.path) [
  | none ↦ none
  | some path ↦ elim r.kind [
    | none ↦ none
    | some k ↦ elim (reference_kind k) [
      | none ↦ none
      | some kind ↦ some (reference_source r path kind)
    ]
  ]
]

as_sources : List Reference → List TaskSource
unfolding cons_source as_source
as_sources [] = []
as_sources (r ∷ rs) = cons_source (as_source r) (as_sources rs)

unfoldable pub references : JsonLibrary → String → List TaskSource
unfolding later_marker rfind marker compact_marker as_sources
references json text = elim (later_marker (rfind text marker) (rfind text compact_marker)) [
  | none ↦ []
  | some end ↦ elim (json.parse_references (slice text end (len text))) [
    | none ↦ []
    | some refs ↦ as_sources (take 20 refs)
  ]
]

-- `replace('_', " ")`.
spaced : String → String
spaced String.[] = String.[]
spaced (String.◌∷◌ c s) =
    concat (if eqb (code c) b'_' then " " else String.◌∷◌ c String.[]) (spaced s)

-- The server of an MCP tool: `strip_prefix("mcp__")`, then `split_once("__")`.
unfoldable pub connector : String → Option String
connector name =
    if starts_with name "mcp__"
    then (let rest = slice name 5 (len name) in
        elim (find? rest "__") [ none ↦ none | some i ↦ some (slice rest 0 i) ])
    else none

connector_source : String → Option String → TaskSource
unfolding spaced
connector_source tool none = record {
  id = concat "tool:" tool;
  name = spaced tool;
  kind = SourceKind.tool;
  path = none;
  mime_type = none;
  tools = tool ∷ [];
  uses = 1;
}
connector_source tool (some server) = record {
  id = concat "connector:" server;
  name = spaced server;
  kind = SourceKind.connector;
  path = none;
  mime_type = none;
  tools = tool ∷ [];
  uses = 1;
}

unfoldable pub tool_source : String → Option TaskSource
unfolding connector connector_source
tool_source name =
    if is_empty name
    then none
    else (if ltb 256 (len name) then none else some (connector_source name (connector name)))

-- Of a tool's call `index_event` makes another use, so that branch is not reached from there.
unfoldable pub event_sources : JsonLibrary → EventKind → List TaskSource
unfolding references tool_source cons_source
event_sources json (EventKind.user text request_id) = references json text
event_sources json (EventKind.queued_message_sent text request_id) = references json text
event_sources json (EventKind.tool id name input) = cons_source (tool_source name) []
event_sources json _ = []
