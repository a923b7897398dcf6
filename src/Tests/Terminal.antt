-- ===== src/Tests/Terminal.antt =====
-- The terminals at concrete inputs.
use latte_work.Common.{
  ◌^◌, inr, ℕ, ◌+◌, ◌-◌, ◌*◌, ◌≤◌, ◌<◌, ◌≡◌, ◌≢◌, refl, true, false, List, [], ◌∷◌, ◌++◌, none,
  some, ok, err, ◌⊎◌, inl, In, All, drop, max, length, arith,
}
use latte_work.Terminal.Output.{
  whole, append, as_f64, read, read_from, first_kept, empty_output, output_limit, invalid_cursor,
}
use latte_work.Terminal.Stream.{append_all, joined, specified, read-slices}
use latte_work.Terminal.Follow.{follow, reads_complete}
use latte_work.Terminal.Process.{
  Control, Processes, Kill, sigkill, sighup, stop, stop_foreground, advance_close, running,
  write_input, supervise, wait_failed, wrote, write_again, late_or_stopped, input_late, end_shell,
  close_signal,
}
use latte_work.Terminal.Closing.{stopped, watched, run, stop-kills, Justified, supervise-Justified}
use latte_work.Terminal.Input.{succeeded, is_done, write_input-prefix}
use latte_work.Terminal.Table.{max_terminals, Terminals, new_terminal, close, drop_terminal}
use latte_work.Terminal.Steps.{created, printed, run as run_table}
use latte_work.Terminal.Bounds.{kept_bytes, run-within}

abbrev chunks : List (List ℕ)
chunks = (104 ∷ 105 ∷ []) ∷ (33 ∷ []) ∷ []

-- From the second byte on.
middle :
    read (append_all empty_output chunks) (whole 1)
    ≡ ok (record { bytes = 105 ∷ 33 ∷ []; next = 3; has_more = false; truncated = false })
unfolding read read_from first_kept as_f64 append_all append
middle = refl

past : read (append_all empty_output chunks) (whole 4) ≡ err invalid_cursor
unfolding read read_from first_kept as_f64 append_all append
past = refl

-- Above 2^53 a float has only the even numbers, and a number in the middle goes to the multiple of four.
rounded : (as_f64 (2 ^ 53 + 1) ≡ 2 ^ 53) × (as_f64 (2 ^ 53 + 3) ≡ 2 ^ 53 + 4)
unfolding as_f64
rounded = (refl, refl)

read-slices_example :
    read (append_all empty_output chunks) (whole 1) ≡ specified (joined chunks) (whole 1)
read-slices_example = read-slices chunks (whole 1) (unfold joined in omega arith)

reads_complete_example :
    follow 16 (append_all empty_output chunks) 1
    ≡ drop (max 1 (length (joined chunks) - output_limit)) (joined chunks)
reads_complete_example =
    reads_complete chunks 1 (unfold joined in omega arith) (unfold joined in omega arith)

abbrev fresh : Control
fresh = record { exited = false; exit_code = none; closing = none }

abbrev shell : Processes
shell = record { pid = some 40; group = some 41 }

-- Asked twice and watched once, it is killed at the first request's deadline.
stop-kills_example :
    In
      (record { group = 40; signal = sigkill })
      (supervise
        (run (stop fresh 1000 shell).0 (watched 1050 shell running ∷ stopped 1400 shell ∷ []))
        1500
        shell
        running).1
stop-kills_example =
    stop-kills fresh 1000 shell shell (watched 1050 shell running ∷ stopped 1400 shell ∷ []) 1500 40
      running refl refl (omega arith) refl (omega arith)

abbrev asked : Control
asked = record { exited = false; exit_code = none; closing = some 1000 }

abbrev hangup : Kill
hangup = record { group = 40; signal = sighup }

hung_up : In hangup (supervise asked 1200 shell running).1
unfolding supervise advance_close stop_foreground end_shell close_signal
hung_up = inr (inl refl)

supervise-Justified_example :
    ((asked.closing ≢ none) ⊎ (running ≡ wait_failed))
    × (1 < 40)
    × Justified asked 1200 shell hangup
supervise-Justified_example = supervise-Justified asked 1200 shell running hangup hung_up

partly_written :
    write_input (wrote 2 ∷ write_again ∷ late_or_stopped ∷ []) (1 ∷ 2 ∷ 3 ∷ [])
    ≡ (1 ∷ 2 ∷ [], err input_late)
unfolding write_input
partly_written = refl

write_input-prefix_example :
    (rest : List ℕ) × ((write_input (wrote 2 ∷ wrote 5 ∷ []) (1 ∷ 2 ∷ 3 ∷ [])).0 ++ rest
      ≡ 1 ∷ 2 ∷ 3 ∷ [])
    × (succeeded (write_input (wrote 2 ∷ wrote 5 ∷ []) (1 ∷ 2 ∷ 3 ∷ [])).1 ≡ is_done rest)
write_input-prefix_example = write_input-prefix (wrote 2 ∷ wrote 5 ∷ []) (1 ∷ 2 ∷ 3 ∷ [])

run-within_example :
    (length
        (run_table [] (created "p" "t" 80 24 true true true true "sh" ∷ printed "t" (65 ∷ []) ∷ []))
      ≤ max_terminals)
    × All
        (λ e. e.1.info.id ≡ e.0)
        (run_table [] (created "p" "t" 80 24 true true true true "sh" ∷ printed "t" (65 ∷ []) ∷ []))
    × (kept_bytes (
          run_table []
            (created "p" "t" 80 24 true true true true "sh" ∷ printed "t" (65 ∷ []) ∷ []))
        ≤ 16 * output_limit)
run-within_example =
    run-within (created "p" "t" 80 24 true true true true "sh" ∷ printed "t" (65 ∷ []) ∷ [])

abbrev busy : Terminals
busy = ("t", new_terminal "p" "t" "sh") ∷ []

-- A terminal that is closed drops out of the table, and its job in the foreground is killed.
closed_busy :
    ((close busy "t").0 ≡ [])
    × ((drop_terminal
          (new_terminal "p" "t" "sh")
          1000
          (record { pid = some 40; group = some 50 })).1
        ≡ record { group = 50; signal = sigkill } ∷ [])
unfolding close drop_terminal stop stop_foreground
closed_busy = (refl, refl)
