-- ===== src/Terminal/Process.antt =====
-- crates/latte-work-server/src/terminal.rs: how the process of a terminal is asked to end, and the
-- threads that read from it, write to it and watch it. Process numbers are positive and far below
-- 2^31, as the kernel's are. Times are milliseconds.
use latte_work.Common.{
  ℕ, ◌-◌, Bool, true, false, not, ◌&&◌, List, [], ◌∷◌, ◌++◌, Option, none, some, ltb, eqb,
  if◌then◌else◌, take, drop, is_some_and, Result, ok, err,
}
use latte_work.Terminal.Output.{Output, append}

-- `closing` is the time at which the process was asked to end.
pub record Control : Type 0 where
  pub exited : Bool
  pub exit_code : Option ℕ
  pub closing : Option ℕ

pub data Signal : Type 0 where
  sighup sigkill : Signal

-- What the system says of a terminal: the process of the shell, and the group in the foreground.
pub record Processes : Type 0 where
  pub pid : Option ℕ
  pub group : Option ℕ

-- A call of `killpg`.
pub record Kill : Type 0 where
  pub group : ℕ
  pub signal : Signal

abbrev pub is_pid : Option ℕ → ℕ → Bool
is_pid pid p = is_some_and (λ q. eqb q p) pid

unfoldable pub stop_foreground : Processes → List Kill
stop_foreground ps = elim ps.group [
  | none ↦ []
  | some p ↦
      if ltb 1 p && not (is_pid ps.pid p) then record { group = p; signal = sigkill } ∷ [] else []
]

unfoldable pub stop : Control → ℕ → Processes → Control × List Kill
stop c now ps = if c.exited then (c, []) else elim c.closing [
  | some at ↦ (c, [])
  | none ↦ (
    record { exited = c.exited; exit_code = c.exit_code; closing = some now },
    stop_foreground ps,
  )
]

unfoldable pub close_signal : ℕ → Signal
close_signal elapsed = if ltb elapsed 500 then sighup else sigkill

unfoldable pub end_shell : ℕ → Processes → List Kill
unfolding close_signal
end_shell elapsed ps = if ltb elapsed 100 then [] else elim ps.pid [
  | none ↦ []
  | some pid ↦ if ltb 1 pid then record { group = pid; signal = close_signal elapsed } ∷ [] else []
]

unfoldable pub advance_close : Control → ℕ → Processes → List Kill
advance_close c now ps = elim c.closing [
  | none ↦ []
  | some at ↦ stop_foreground ps ++ end_shell (now - at) ps
]

-- What `try_wait` says of the process.
pub data Wait : Type 0 where
  running : Wait
  ended : ℕ → Wait
  wait_failed : Wait

-- A round of the watching thread, and whether it watches on. When the waiting fails the process is
-- killed, besides the signals.
unfoldable pub supervise : Control → ℕ → Processes → Wait → Control × List Kill × Bool
supervise c now ps running = (c, advance_close c now ps, true)
supervise c now ps (ended code) = (
  record { exited = true; exit_code = some code; closing = c.closing },
  advance_close c now ps,
  false,
)
supervise c now ps wait_failed = (
  record {
    exited = true;
    exit_code = (stop c now ps).0.exit_code;
    closing = (stop c now ps).0.closing;
  },
  advance_close c now ps ++ (stop c now ps).1,
  false,
)

-- What a read from the terminal gives: bytes, nothing for now, or its end.
pub data ReadOutcome : Type 0 where
  read_bytes : List ℕ → ReadOutcome
  read_again : ReadOutcome
  read_end : ReadOutcome

abbrev pub ended_output : Output → Output
ended_output o = record { bytes = o.bytes; end = o.end; eof = true }

-- The reading thread, over what its reads give until it is stopped.
unfoldable pub read_loop : List ReadOutcome → Output → Output
read_loop [] o = ended_output o
read_loop (read_bytes [] ∷ rs) o = ended_output o
read_loop (read_bytes (b ∷ bs) ∷ rs) o = read_loop rs (append o (b ∷ bs))
read_loop (read_again ∷ rs) o = read_loop rs o
read_loop (read_end ∷ rs) o = ended_output o

-- What a write of the rest gives: the number of bytes that went, at most all of them.
pub data WriteOutcome : Type 0 where
  wrote : ℕ → WriteOutcome
  write_again : WriteOutcome
  write_refused : WriteOutcome
  late_or_stopped : WriteOutcome

pub data InputError : Type 0 where
  input_closed input_refused input_late : InputError

-- The writing thread on one input, with the bytes that reach the terminal: over what its writes
-- give, up to the deadline or the stop, with which the list ends at the latest.
unfoldable pub write_input : List WriteOutcome → List ℕ → List ℕ × Result InputError (Unit {0})
write_input outcomes [] = ([], ok tt)
write_input [] (b ∷ bs) = ([], err input_late)
write_input (late_or_stopped ∷ os) (b ∷ bs) = ([], err input_late)
write_input (write_refused ∷ os) (b ∷ bs) = ([], err input_refused)
write_input (write_again ∷ os) (b ∷ bs) = write_input os (b ∷ bs)
write_input (wrote n ∷ os) (b ∷ bs) =
    let rest = write_input os (drop n (b ∷ bs)) in
    if eqb n 0 then ([], err input_closed) else (take n (b ∷ bs) ++ rest.0, rest.1)
