-- ===== src/Terminal/Bounds.antt =====
-- The bounds on the terminals of a host (crates/latte-work-server/src/terminal.rs).
use latte_work.Common.{
  ◌-◌, ◌⊎◌, ℕ, ◌+◌, ◌*◌, ◌≤◌, ◌<◌, String, Bool, not, List, [], ◌∷◌, ◌++◌, ◌≡◌, refl, sym, inl, inr,
  Bool-cases, Option-cases, lookup, insert, leb, leb→gt, length, All, All-update, All-select,
  All-insert, length-insert, length-update, select_shorter, length-drop, arith, Result, ok, err,
  bail_if, bail_if-ok, >>=-eq-ok, ◌==◌, subst, ltb, ◌||◌,
}
use latte_work.Protocol.Responses.{Response}
use latte_work.Terminal.Output.{Output, append, output_limit}
use latte_work.Terminal.Process.{Processes, stop}
use latte_work.Terminal.Table.{
  get, input_limit, invalid_id, foreign_project, too_many_terminals, no_path, not_directory,
  spawn_failed, Terminal, Terminals, create, size, write, close, max_terminals, new_terminal,
  with_control,
}
use latte_work.Terminal.Steps.{
  Event, created, written, closed, all_closed, printed, drained, watched, on, kept, step, run,
}

-- An entry stands under its terminal's identifier, and keeps at most a mebibyte.
pub record Fits (e : String × Terminal) : Type 0 where
  pub key_Fits : e.1.info.id ≡ e.0
  pub size_Fits : length e.1.output.bytes ≤ output_limit

pub record Bounded (ts : Terminals) : Type 0 where
  pub count_Bounded : length ts ≤ max_terminals
  pub fits_Bounded : All Fits ts

pub length-append_output :
    (o : Output) (bytes : List ℕ) → length (append o bytes).bytes ≤ output_limit
unfolding append
length-append_output o bytes =
    let size = length-drop (length (o.bytes ++ bytes) - output_limit) (o.bytes ++ bytes) in
    omega arith

on-Bounded :
    (id : String) (f : Terminal → Terminal) (ts : Terminals)
    → ((e : String × Terminal) → Fits e → Fits (e.0, f e.1))
    → Bounded ts
    → Bounded (on id f ts)
on-Bounded id f ts keeps b =
    let size = length-update (λ e. e.0 == id) (λ e. (e.0, f e.1)) ts in
    let count = b.count_Bounded in
    record {
      count_Bounded = omega arith;
      fits_Bounded =
          All-update Fits (λ e. e.0 == id) (λ e. (e.0, f e.1)) ts (λ e m t fit. keeps e fit)
            b.fits_Bounded;
    }

kept-Bounded :
    {A : Type 0} {E : Type 0} (ts : Terminals) (r : Result E (Terminals × A))
    → Bounded ts
    → ((x : Terminals × A) → r ≡ ok x → Bounded x.0)
    → Bounded (kept ts r)
kept-Bounded ts (ok x) b f = f x refl
kept-Bounded ts (err e) b f = b

-- `create` returns the table as it was, or with one terminal more where one more fits.
pub create-ok :
    (ts : Terminals) (project_id id : String) (cols rows : ℕ) (u h d s : Bool) (title : String)
    (r : Terminals × Response)
    → create ts project_id id cols rows u h d s title ≡ ok r
    → (r.0 ≡ ts)
      ⊎ ((length ts < max_terminals) × (r.0 ≡ insert id (new_terminal project_id id title) ts))
unfolding create
create-ok ts project_id id cols rows u h d s title r done =
    let (dimensions, sized, rest) = >>=-eq-ok (size cols rows) _ done in
    let (_, uuid, looked) = >>=-eq-ok (bail_if (not u) invalid_id) _ rest in
    elim (Option-cases (lookup id ts)) [
      | inr (t, e) ↦
          let (_, mine, same) =
            >>=-eq-ok (bail_if (not (t.info.project_id == project_id)) foreign_project) _
              (rw e at looked) in
          inl (ground arith)
      | inl e ↦
          let (_, room, opened) =
            >>=-eq-ok (bail_if (leb max_terminals (length ts)) too_many_terminals) _
              (rw e at looked) in
          let (_, path, opened1) = >>=-eq-ok (bail_if (not h) no_path) _ opened in
          let (_, directory, opened2) = >>=-eq-ok (bail_if (not d) not_directory) _ opened1 in
          let (_, shell, opened3) = >>=-eq-ok (bail_if (not s) spawn_failed) _ opened2 in
          let below =
            leb→gt max_terminals (length ts)
              (bail_if-ok (leb max_terminals (length ts)) too_many_terminals room) in
          inr (below, ground arith)
    ]

create-Bounded :
    (ts : Terminals) (project_id id : String) (cols rows : ℕ) (u h d s : Bool) (title : String)
    → Bounded ts
    → Bounded (kept ts (create ts project_id id cols rows u h d s title))
unfolding create
create-Bounded ts project_id id cols rows u h d s title b =
    kept-Bounded ts (create ts project_id id cols rows u h d s title) b λ x done.
      elim (create-ok ts project_id id cols rows u h d s title x done) [
        | inl same ↦ subst Bounded (sym same) b
        | inr (room, new) ↦
            let size = length-insert id (new_terminal project_id id title) ts in
            subst Bounded (sym new) (record {
              count_Bounded = omega arith;
              fits_Bounded =
                  All-insert Fits id (new_terminal project_id id title) ts
                    (record { key_Fits = refl; size_Fits = omega arith }) b.fits_Bounded;
            })
      ]

write-Bounded :
    (ts : Terminals) (id : String) (bytes : List ℕ) (a d : Bool) (now : ℕ) (ps : Processes)
    → Bounded ts
    → Bounded (write ts id bytes a d now ps).0
unfolding write get
write-Bounded ts id bytes a d now ps b =
    let stopped =
      on-Bounded id (λ t. with_control t (stop t.control now ps).0) ts
        (λ e fit. record { key_Fits = fit.key_Fits; size_Fits = fit.size_Fits }) b in
    elim (Bool-cases (leb (length bytes) 0 || ltb input_limit (length bytes))) [
      | inl z ↦ rw z b
      | inr z ↦ elim (Option-cases (lookup id ts)) [
        | inl e ↦ rw (z, e) b
        | inr (t, e) ↦ elim (Bool-cases t.control.exited) [
          | inl x ↦ rw (z, e, x) b
          | inr x ↦ elim (Bool-cases a) [
            | inr y ↦ rw (z, e, x, y) b
            | inl y ↦ elim (Bool-cases d) [
              | inl w ↦ rw (z, e, x, y, w) b
              | inr w ↦ rw (z, e, x, y, w) stopped
            ]
          ]
        ]
      ]
    ]

step-Bounded : (ts : Terminals) (e : Event) → Bounded ts → Bounded (step ts e)
unfolding step close
step-Bounded ts (created p id cols rows u h d s title) b =
    create-Bounded ts p id cols rows u h d s title b
step-Bounded ts (written id bytes a d now ps) b = write-Bounded ts id bytes a d now ps b
step-Bounded ts (closed id) b =
    let shorter = select_shorter (λ e. not (e.0 == id)) ts in
    let count = b.count_Bounded in
    record {
      count_Bounded = omega arith;
      fits_Bounded = All-select Fits (λ e. not (e.0 == id)) ts b.fits_Bounded;
    }
step-Bounded ts all_closed b = record { count_Bounded = omega arith; fits_Bounded = tt }
step-Bounded ts (printed id bytes) b =
    on-Bounded id _ ts
      (λ e fit. record {
        key_Fits = fit.key_Fits;
        size_Fits = length-append_output e.1.output bytes;
      })
      b
step-Bounded ts (drained id) b =
    on-Bounded id _ ts (λ e fit. record { key_Fits = fit.key_Fits; size_Fits = fit.size_Fits }) b
step-Bounded ts (watched id now ps wait) b =
    on-Bounded id _ ts (λ e fit. record { key_Fits = fit.key_Fits; size_Fits = fit.size_Fits }) b

run-Bounded : (es : List Event) (ts : Terminals) → Bounded ts → Bounded (run ts es)
unfolding run
run-Bounded [] ts b = b
run-Bounded (e ∷ es) ts b = run-Bounded es (step ts e) (step-Bounded ts e b)

-- The bytes that the terminals keep of their outputs.
unfoldable pub kept_bytes : Terminals → ℕ
kept_bytes [] = 0
kept_bytes (e ∷ ts) = length e.1.output.bytes + kept_bytes ts

kept_bytes-Fits : (ts : Terminals) → All Fits ts → kept_bytes ts ≤ length ts * output_limit
unfolding kept_bytes
kept_bytes-Fits [] f = omega arith
kept_bytes-Fits (e ∷ ts) f =
    let rest = kept_bytes-Fits ts f.1 in let here = f.0.size_Fits in omega arith

keys-Fits : (ts : Terminals) → All Fits ts → All (λ e. e.1.info.id ≡ e.0) ts
keys-Fits [] f = tt
keys-Fits (e ∷ ts) f = (f.0.key_Fits, keys-Fits ts f.1)

-- After any events from the start of the host, requests and what its threads do, at most sixteen
-- terminals are open, each under its own identifier, and together they keep at most 16 MiB of output.
pub run-within :
    (es : List Event)
    → (length (run [] es) ≤ max_terminals)
      × All (λ e. e.1.info.id ≡ e.0) (run [] es)
      × (kept_bytes (run [] es) ≤ 16 * output_limit)
run-within es =
    let b = run-Bounded es [] (record { count_Bounded = omega arith; fits_Bounded = tt }) in
    let count = b.count_Bounded in
    let total = kept_bytes-Fits (run [] es) b.fits_Bounded in
    (
      count,
      keys-Fits (run [] es) b.fits_Bounded,
      let most : length (run [] es) ≤ 16 = count in omega arith,
    )
