-- ===== src/Terminal/Closing.antt =====
-- A terminal that is asked to end is killed in time, and nothing else is
-- (`Control`, crates/latte-work-server/src/terminal.rs).
use latte_work.Common.{
  ℕ, ◌+◌, ◌-◌, ◌≤◌, ◌<◌, Bool, true, false, not, ◌&&◌, List, [], ◌∷◌, ◌++◌, Option, none, some, ltb,
  if◌then◌else◌, ◌≡◌, refl, ap, sym, ◌∙◌, inl, inr, Bool-cases, Option-cases, arith, ge→ltb, lt→ltb,
  ltb→lt, ltb→ge, subst, In, In-append, In-append_left, In-append_right, ◌⊎◌, ◌≢◌,
}
use latte_work.Terminal.Process.{
  Control, sigkill, Processes, Kill, is_pid, stop_foreground, stop, close_signal, end_shell,
  advance_close, Wait, running, ended, wait_failed, supervise,
}

-- What happens to a terminal after it was asked to end: it is asked again, or watched for a round.
pub data Event : Type 0 where
  stopped : (now : ℕ) → Processes → Event
  watched : (now : ℕ) → Processes → Wait → Event

unfoldable pub step : Control → Event → Control × List Kill
step c (stopped now ps) = stop c now ps
step c (watched now ps w) = ((supervise c now ps w).0, (supervise c now ps w).1)

unfoldable pub run : Control → List Event → Control
unfolding step
run c [] = c
run c (e ∷ es) = run (step c e).0 es

stop_again :
    (c : Control) (at now : ℕ) (ps : Processes) → c.closing ≡ some at → (stop c now ps).0 ≡ c
unfolding stop
stop_again c at now ps h = elim (Bool-cases c.exited) [ inl e ↦ simp e | inr e ↦ simp (e, h) ]

-- The deadline stands from the first request on.
step_keeps_deadline :
    (c : Control) (at : ℕ) (e : Event) → c.closing ≡ some at → (step c e).0.closing ≡ some at
unfolding step supervise
step_keeps_deadline c at (stopped now ps) h = rw (stop_again c at now ps h) h
step_keeps_deadline c at (watched now ps running) h = h
step_keeps_deadline c at (watched now ps (ended code)) h = h
step_keeps_deadline c at (watched now ps wait_failed) h = rw (stop_again c at now ps h) h

run_keeps_deadline :
    (es : List Event) (c : Control) (at : ℕ) → c.closing ≡ some at → (run c es).closing ≡ some at
unfolding run
run_keeps_deadline [] c at h = h
run_keeps_deadline (e ∷ es) c at h =
    run_keeps_deadline es (step c e).0 at (step_keeps_deadline c at e h)

stop_sets_deadline :
    (c : Control) (now : ℕ) (ps : Processes)
    → c.exited ≡ false
    → c.closing ≡ none
    → (stop c now ps).0.closing ≡ some now
unfolding stop
stop_sets_deadline c now ps e h = rw (e, h) refl

overdue_kill :
    (elapsed pid : ℕ) (ps : Processes)
    → 500 ≤ elapsed
    → ps.pid ≡ some pid
    → 1 < pid
    → end_shell elapsed ps ≡ record { group = pid; signal = sigkill } ∷ []
unfolding end_shell close_signal
overdue_kill elapsed pid ps late there shell =
    let waited : ltb elapsed 100 ≡ false = ge→ltb elapsed 100 (omega arith) in
    let overdue : ltb elapsed 500 ≡ false = ge→ltb elapsed 500 late in
    let own : ltb 1 pid ≡ true = lt→ltb 1 pid shell in simp (waited, overdue, there, own)

advance_close_asked :
    (c : Control) (now asked : ℕ) (ps : Processes)
    → c.closing ≡ some asked
    → advance_close c now ps ≡ stop_foreground ps ++ end_shell (now - asked) ps
unfolding advance_close
advance_close_asked c now asked ps h = rw h refl

-- Each round sends the signals of `advance_close`.
supervise-closes :
    (c : Control) (now : ℕ) (ps : Processes) (wait : Wait) (k : Kill)
    → In k (advance_close c now ps)
    → In k (supervise c now ps wait).1
unfolding supervise
supervise-closes c now ps running k m = m
supervise-closes c now ps (ended code) k m = m
supervise-closes c now ps wait_failed k m =
    In-append_left k (advance_close c now ps) (stop c now ps).1 m

-- When a terminal that runs and was not asked to end is asked to, and half a second or more later
-- the watching thread makes a round, whatever was asked or watched between and whatever `try_wait`
-- says in this round, then the round sends SIGKILL to the group of the shell, if the shell has a
-- process number above 1.
pub stop-kills :
    (c : Control) (asked : ℕ) (before now_there : Processes) (es : List Event) (now pid : ℕ)
    (wait : Wait)
    → c.exited ≡ false
    → c.closing ≡ none
    → asked + 500 ≤ now
    → now_there.pid ≡ some pid
    → 1 < pid
    → In
        (record { group = pid; signal = sigkill })
        (supervise (run (stop c asked before).0 es) now now_there wait).1
stop-kills c asked before now_there es now pid wait runs fresh late there shell =
    let fresh_deadline = stop_sets_deadline c asked before runs fresh in
    let deadline = run_keeps_deadline es (stop c asked before).0 asked fresh_deadline in
    let kill : Kill = record { group = pid; signal = sigkill } in
    let last = overdue_kill (now - asked) pid now_there (omega arith) there shell in
    supervise-closes (run (stop c asked before).0 es) now now_there wait kill (
      subst (In kill)
        (sym (advance_close_asked (run (stop c asked before).0 es) now asked now_there deadline))
        (In-append_right kill (stop_foreground now_there) (end_shell (now - asked) now_there)
          (subst (In kill) (sym last) (inl refl))))

-- A kill of the foreground job, or of the shell's group a tenth of a second after the request.
pub data Justified (c : Control) (now : ℕ) (ps : Processes) (k : Kill) : Type 0 where
  of_foreground : ps.group ≡ some k.group → ps.pid ≢ some k.group → Justified c now ps k
  of_shell :
      (asked : ℕ)
      → c.closing ≡ some asked
      → ps.pid ≡ some k.group
      → asked + 100 ≤ now
      → Justified c now ps k

is_pid_other : (pid : Option ℕ) (p : ℕ) → is_pid pid p ≡ false → pid ≢ some p
is_pid_other none p h = λ z. absurd (cc z)
is_pid_other (some q) p h = λ z. ground arith

In-one_if : (b : Bool) (x k : Kill) → In k (if b then x ∷ [] else []) → (b ≡ true) × (x ≡ k)
In-one_if true x k (inl e) = (refl, e)
In-one_if true x k (inr m) = elim m [ ]
In-one_if false x k m = elim m [ ]

foreground_kill :
    (c : Control) (now : ℕ) (ps : Processes) (k : Kill)
    → In k (stop_foreground ps)
    → (1 < k.group) × Justified c now ps k
unfolding stop_foreground
foreground_kill c now ps k m = elim (Option-cases ps.group) [
  | inl e ↦ let none_left : In k [] = rw e at m in elim none_left [ ]
  | inr (p, e) ↦
      let (test, same) =
        In-one_if (ltb 1 p && not (is_pid ps.pid p)) (record { group = p; signal = sigkill }) k
          (rw e at m) in
      let parts : (ltb 1 p ≡ true) × (is_pid ps.pid p ≡ false) = ground arith in
      let group : p ≡ k.group = ap (λ x. x.group) same in
      let other = is_pid_other ps.pid p parts.1 in
      (
        subst (λ x. 1 < x) group (ltb→lt 1 p parts.0),
        of_foreground (e ∙ ap some group) (λ z. other (z ∙ ap some (sym group))),
      )
]

shell_kill :
    (c : Control) (now asked : ℕ) (ps : Processes) (k : Kill)
    → c.closing ≡ some asked
    → In k (end_shell (now - asked) ps)
    → (1 < k.group) × Justified c now ps k
unfolding end_shell
shell_kill c now asked ps k h m = elim (Bool-cases (ltb (now - asked) 100)) [
  | inl early ↦ let none_left : In k [] = rw early at m in elim none_left [ ]
  | inr late ↦ elim (Option-cases ps.pid) [
    | inl e ↦ let none_left : In k [] = rw (late, e) at m in elim none_left [ ]
    | inr (p, e) ↦
        let (test, same) =
          In-one_if (ltb 1 p) (record { group = p; signal = close_signal (now - asked) }) k
            (rw (late, e) at m) in
        let at_pid : p ≡ k.group = ap (λ x. x.group) same in
        (
          subst (λ x. 1 < x) at_pid (ltb→lt 1 p test),
          of_shell asked h (e ∙ ap some at_pid) (let waited = ltb→ge _ _ late in omega arith),
        )
  ]
]

-- What `advance_close` sends, it sends of a terminal that was asked to end.
advance_close-Justified :
    (c : Control) (now : ℕ) (ps : Processes) (k : Kill)
    → In k (advance_close c now ps)
    → (c.closing ≢ none) × (1 < k.group) × Justified c now ps k
unfolding advance_close
advance_close-Justified c now ps k m = elim (Option-cases c.closing) [
  | inl e ↦ let none_left : In k [] = rw e at m in elim none_left [ ]
  | inr (asked, e) ↦
      elim (In-append k (stop_foreground ps) (end_shell (now - asked) ps) (rw e at m)) [
        | inl l ↦
            let (above, why) = foreground_kill c now ps k l in (λ z. absurd (cc (z, e)), above, why)
        | inr l ↦
            let (above, why) = shell_kill c now asked ps k e l in
            (λ z. absurd (cc (z, e)), above, why)
      ]
]

-- What `stop` sends is for the job in the foreground.
stop-Justified :
    (c : Control) (now : ℕ) (ps : Processes) (k : Kill)
    → In k (stop c now ps).1
    → (1 < k.group) × Justified c now ps k
unfolding stop
stop-Justified c now ps k m = elim (Bool-cases c.exited) [
  | inl e ↦ let none_left : In k [] = rw e at m in elim none_left [ ]
  | inr e ↦ elim (Option-cases c.closing) [
    | inl f ↦ foreground_kill c now ps k (rw (e, f) at m)
    | inr (at, f) ↦ let none_left : In k [] = rw (e, f) at m in elim none_left [ ]
  ]
]

-- A round of the watching thread signals nothing unless the terminal was asked to end or `try_wait`
-- fails. What it signals by `killpg` is a group above 1, and it is the job in the foreground, if that
-- is not the shell, or the group of the shell, and that not before a tenth of a second has passed
-- since the request.
pub supervise-Justified :
    (c : Control) (now : ℕ) (ps : Processes) (wait : Wait) (k : Kill)
    → In k (supervise c now ps wait).1
    → ((c.closing ≢ none) ⊎ (wait ≡ wait_failed)) × (1 < k.group) × Justified c now ps k
unfolding supervise
supervise-Justified c now ps running k m =
    let (asked, above, why) = advance_close-Justified c now ps k m in (inl asked, above, why)
supervise-Justified c now ps (ended code) k m =
    let (asked, above, why) = advance_close-Justified c now ps k m in (inl asked, above, why)
supervise-Justified c now ps wait_failed k m =
    let why : (1 < k.group) × Justified c now ps k =
      elim (In-append k (advance_close c now ps) (stop c now ps).1 m) [
        | inl l ↦ let (_, above, why) = advance_close-Justified c now ps k l in (above, why)
        | inr l ↦ stop-Justified c now ps k l
      ] in
    (inr refl, why.0, why.1)
