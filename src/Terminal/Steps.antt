-- ===== src/Terminal/Steps.antt =====
-- What happens to the table of terminals, one event after the other: the requests, and the threads
-- that read from the terminals and watch their processes (crates/latte-work-server/src/terminal.rs).
use latte_work.Common.{ℕ, String, Bool, List, [], ◌∷◌, Result, ok, err, ◌==◌, update_where}
use latte_work.Terminal.Output.{Output, append}
use latte_work.Terminal.Process.{Processes, Wait, supervise, ended_output}
use latte_work.Terminal.Table.{Terminal, Terminals, create, close, close_all, write, with_control}

pub data Event : Type 0 where
  created :
      (project_id id : String)
      → (cols rows : ℕ) → (is_uuid has_path is_directory spawned : Bool) → (title : String) → Event
  written :
      (id : String)
      → (bytes : List ℕ) → (accepted delivered : Bool) → (now : ℕ) → (ps : Processes) → Event
  closed : (id : String) → Event
  all_closed : Event
  printed : (id : String) → (bytes : List ℕ) → Event
  drained : (id : String) → Event
  watched : (id : String) → (now : ℕ) → (ps : Processes) → (wait : Wait) → Event

abbrev pub with_output : Terminal → Output → Terminal
with_output t o = record { info = t.info; output = o; control = t.control }

-- The terminals of one identifier are changed in place.
abbrev pub on : String → (Terminal → Terminal) → Terminals → Terminals
on id f ts = update_where (λ e. e.0 == id) (λ e. (e.0, f e.1)) ts

abbrev pub kept : {A : Type 0} {E : Type 0} → Terminals → Result E (Terminals × A) → Terminals
kept ts (ok r) = r.0
kept ts (err e) = ts

unfoldable pub step : Terminals → Event → Terminals
step ts (created p id cols rows u h d s title) = kept ts (create ts p id cols rows u h d s title)
step ts (written id bytes a d now ps) = (write ts id bytes a d now ps).0
step ts (closed id) = (close ts id).0
step ts all_closed = (close_all ts).0
step ts (printed id bytes) = on id (λ t. with_output t (append t.output bytes)) ts
step ts (drained id) = on id (λ t. with_output t (ended_output t.output)) ts
step ts (watched id now ps wait) =
    on id (λ t. with_control t (supervise t.control now ps wait).0) ts

unfoldable pub run : Terminals → List Event → Terminals
run ts [] = ts
run ts (e ∷ es) = run (step ts e) es
