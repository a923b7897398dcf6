-- ===== src/Attachments/Bounds.antt =====
-- The bounds on what is pasted, over any requests (crates/latte-work-server/src/attachments.rs).
use latte_work.Common.{ℕ, ◌+◌, ◌≤◌, String, Bool, List, [], ◌∷◌, ◌≡◌, refl, length, All, arith}
use latte_work.Attachments.{
  Attachments, Write, all_written, begin_upload, chunk, finish, abort, max_cache, files_size,
  reserved, used,
}
use latte_work.Attachments.Calls.{
  Within, planned, planned-Sound, begin_upload-Within, chunk-Within, finish-Within, remove-Within,
}

-- The requests.
pub data Event : Type 0 where
  begun : (name : String) → (size : ℕ) → (id : String) → (made : Bool) → (now : ℕ) → Event
  chunked : (id : String) → (offset : ℕ) → (bytes : List ℕ) → (write : Write) → (now : ℕ) → Event
  finished : (id : String) → (synced renamed : Bool) → (now : ℕ) → Event
  aborted : (id : String) → Event

unfoldable pub step : Attachments → Event → Attachments
step s (begun name size id made now) = (begin_upload s name size id made now).0
step s (chunked id offset bytes write now) = (chunk s id offset bytes write now).0
step s (finished id synced renamed now) = (finish s id synced renamed now).0
step s (aborted id) = abort s id

unfoldable pub run : Attachments → List Event → Attachments
run s [] = s
run s (e ∷ es) = run (step s e) es

-- The disk took all bytes of each chunk.
unfoldable pub Whole : Event → Type 0
Whole (chunked id offset bytes write now) = write ≡ all_written
Whole e = Unit

step-Within : (s : Attachments) (e : Event) → Whole e → Within s → Within (step s e)
unfolding step Whole abort
step-Within s (begun name size id made now) h w = begin_upload-Within s name size id made now w
step-Within s (chunked id offset bytes write now) h w = rw h (chunk-Within s id offset bytes now w)
step-Within s (finished id synced renamed now) h w = finish-Within s id synced renamed now w
step-Within s (aborted id) h w = remove-Within id s w

run-Within : (es : List Event) (s : Attachments) → All Whole es → Within s → Within (run s es)
unfolding run
run-Within [] s h w = w
run-Within (e ∷ es) s h w = run-Within es (step s e) h.1 (step-Within s e h.0 w)

-- In a directory that starts with files of at most 2 GiB and no transfer, and in which no write of a
-- chunk fails, after any requests at most eight transfers are pending, and what the files and the
-- temporary files take, and what the transfers are still to send, is at most 2 GiB together.
pub run-disk :
    (s : Attachments) (es : List Event)
    → s.pending ≡ []
    → files_size s.files ≤ max_cache
    → All Whole es
    → (length (run s es).pending ≤ 8) × (used (run s es) + reserved (run s es).pending ≤ max_cache)
run-disk s es none_pending small h =
    let nothing : planned s.pending ≡ 0 = rw none_pending refl in
    let no_transfer : length s.pending ≡ 0 = rw none_pending refl in
    let start : Within s = record {
      sound_Within = rw none_pending tt;
      count_Within = omega arith;
      disk_Within = omega arith;
    } in
    let w = run-Within es s h start in
    let plan = planned-Sound (run s es).pending w.sound_Within in
    let disk = w.disk_Within in (w.count_Within, omega arith)
