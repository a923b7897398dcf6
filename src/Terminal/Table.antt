-- ===== src/Terminal/Table.antt =====
-- crates/latte-work-server/src/terminal.rs: the table of the terminals and the requests on it. The
-- locks are never poisoned here.
use latte_work.Common.{
  ℕ, ◌*◌, String, compare, Bool, true, false, not, ◌&&◌, ◌||◌, List, [], ◌∷◌, map, Option, none,
  some, ◌==◌, is_lt, ltb, leb, if◌then◌else◌, length, lookup, insert, update_where, remove, select,
  Result, ok, err, bail_if, ok_or, is_some_and, ◌>>=◌, ◌>>◌,
}
use latte_work.Protocol.Values.{TerminalInfo}
use latte_work.Protocol.Responses.{Response}
use latte_work.Terminal.Process.{Control, Processes, Kill, stop}
use latte_work.Terminal.Output.{Output, empty_output, Cursor, read}

abbrev pub max_terminals : ℕ
max_terminals = 16

abbrev pub input_limit : ℕ
input_limit = 16 * 1024

pub record Terminal : Type 0 where
  pub info : TerminalInfo
  pub output : Output
  pub control : Control

-- `entries`; the keys are unordered in the code, and no operation depends on their order.
abbrev pub Terminals : Type 0
Terminals = List (String × Terminal)

pub data TerminalError : Type 0 where
  size_out_of_range invalid_id foreign_project too_many_terminals no_path not_directory :
      TerminalError
  spawn_failed closed_terminal exited_terminal bad_cursor resize_failed : TerminalError
  input_size input_full input_failed : TerminalError

unfoldable pub size : ℕ → ℕ → Result TerminalError (ℕ × ℕ)
size cols rows = do
  bail_if (not (leb 2 cols && leb cols 500) || not (leb 1 rows && leb rows 300)) size_out_of_range
  ok (cols, rows)

-- A terminal has exited for its readers when its process has and its output is drained.
unfoldable pub snapshot : Terminal → TerminalInfo
snapshot t = record {
  id = t.info.id;
  project_id = t.info.project_id;
  title = t.info.title;
  exited = t.control.exited && t.output.eof;
  exit_code = t.control.exit_code;
}

unfoldable pub is_open : Terminals → String → Bool
is_open ts id = is_some_and (λ t. not t.control.exited) (lookup id ts)

abbrev pub is_idle : Terminals → Bool
is_idle [] = true
is_idle (t ∷ ts) = false

-- `sort_by` of the identifiers.
abbrev pub insert_info : TerminalInfo → List TerminalInfo → List TerminalInfo
insert_info i [] = i ∷ []
insert_info i (j ∷ js) = if is_lt (compare j.id i.id) then j ∷ insert_info i js else i ∷ j ∷ js

abbrev pub sort_infos : List TerminalInfo → List TerminalInfo
sort_infos [] = []
sort_infos (i ∷ is) = insert_info i (sort_infos is)

unfoldable pub list : Terminals → String → Response
unfolding snapshot
list ts project_id =
    Response.terminals
      (sort_infos (map (λ e. snapshot e.1) (select (λ e. e.1.info.project_id == project_id) ts)))

-- The terminal that `create` starts. Its title is the name of the shell, from the environment.
abbrev pub new_terminal : String → String → String → Terminal
new_terminal project_id id title = record {
  info = record {
    id = id;
    project_id = project_id;
    title = title;
    exited = false;
    exit_code = none;
  };
  output = empty_output;
  control = record { exited = false; exit_code = none; closing = none };
}

-- `create`. Whether the identifier is a UUID, whether the path is there and a directory, and whether
-- the system opened a terminal and started the shell, are arguments.
unfoldable pub create :
    Terminals
    → String
    → String
    → (cols rows : ℕ) → (is_uuid has_path is_directory spawned : Bool) → String
    → Result TerminalError (Terminals × Response)
unfolding size snapshot
create ts project_id id cols rows is_uuid has_path is_directory spawned title = do
  dimensions ← size cols rows
  bail_if (not is_uuid) invalid_id
  elim (lookup id ts) [
    | some existing ↦ do
      bail_if (not (existing.info.project_id == project_id)) foreign_project
      ok (ts, Response.terminal (snapshot existing))
    | none ↦ do
      bail_if (leb max_terminals (length ts)) too_many_terminals
      bail_if (not has_path) no_path
      bail_if (not is_directory) not_directory
      bail_if (not spawned) spawn_failed
      ok (
        insert id (new_terminal project_id id title) ts,
        Response.terminal (snapshot (new_terminal project_id id title)),
      )
  ]

unfoldable pub get : Terminals → String → Result TerminalError Terminal
get ts id = ok_or (lookup id ts) closed_terminal

unfoldable pub read_terminal : Terminals → String → Cursor → Result TerminalError Response
unfolding get snapshot
read_terminal ts id after = do
  t ← get ts id
  elim (read t.output after) [
    | err e ↦ err bad_cursor
    | ok s ↦ ok (Response.terminal_output (snapshot t) s.bytes s.next s.has_more s.truncated)
  ]

-- `resize`; whether the system did it is an argument.
unfoldable pub resize : Terminals → String → (cols rows : ℕ) → Bool → Result TerminalError Response
unfolding size get
resize ts id cols rows done = do
  dimensions ← size cols rows
  t ← get ts id
  bail_if t.control.exited exited_terminal
  bail_if (not done) resize_failed
  ok Response.ok

-- `Drop`: the process is asked to end. The thread that watches it goes on with this control, and the
-- reading and the writing threads stop.
unfoldable pub drop_terminal : Terminal → ℕ → Processes → Control × List Kill
drop_terminal t now ps = stop t.control now ps

-- The table without the terminal, and the terminal, which is dropped.
unfoldable pub close : Terminals → String → Terminals × Response × Option Terminal
close ts id = (remove id ts, Response.ok, lookup id ts)

-- The empty table, and the terminals, which are dropped.
abbrev pub close_all : Terminals → Terminals × List Terminal
close_all ts = ([], map (λ e. e.1) ts)

abbrev pub with_control : Terminal → Control → Terminal
with_control t c = record { info = t.info; output = t.output; control = c }

-- `write`. Whether the queue of the terminal's writer took the input, and whether the writer said in
-- two seconds that it wrote it, are arguments. The table afterwards is returned in any case.
unfoldable pub write :
    Terminals
    → String
    → List ℕ
    → (accepted delivered : Bool) → ℕ
    → Processes
    → Terminals × Result TerminalError Response
unfolding get
write ts id bytes accepted delivered now ps =
    if leb (length bytes) 0 || ltb input_limit (length bytes)
    then (ts, err input_size)
    else elim (get ts id) [
      | err e ↦ (ts, err e)
      | ok t ↦
          if t.control.exited
          then (ts, err exited_terminal)
          else if not accepted
          then (ts, err input_full)
          else if delivered
          then (ts, ok Response.ok)
          else (
            update_where (λ e. e.0 == id) (λ e. (e.0, with_control e.1 (stop e.1.control now ps).0))
                ts,
            err input_failed,
          )
    ]
