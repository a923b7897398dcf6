-- ===== src/Attachments.antt =====
-- crates/latte-work-server/src/attachments.rs: the files that a user pastes, received in chunks into
-- a directory of their own. Times are seconds.

pub mod Calls
pub mod Bounds
pub mod Upload
pub mod Retry
use latte_work.Common.{
  sum_of, ℕ, ◌+◌, ◌-◌, ◌*◌, String, len, concat, Bool, true, false, not, ◌&&◌, ◌||◌, List, [], ◌∷◌,
  ◌++◌, Option, none, some, ◌==◌, ltb, leb, eqb, if◌then◌else◌, length, take, is_empty, is_control,
  any_char, select, lookup, insert, remove, adjust, is_some_and, Result, ok, err, bail_if, ok_or,
  ◌>>=◌, ◌>>◌,
}
use Prim.Native.Char.{code}
use latte_work.Protocol.Values.{FileEntry}

abbrev pub max_file : ℕ
max_file = 64 * 1024 * 1024

abbrev pub max_cache : ℕ
max_cache = 2 * 1024 * 1024 * 1024

-- `bytes` is the content of the temporary file.
pub record Pending : Type 0 where
  pub bytes : List ℕ
  pub name : String
  pub size : ℕ
  pub written : ℕ
  pub touched : ℕ

-- The directory: the complete files, by their names, and the temporary files of what is pending.
pub record Attachments : Type 0 where
  pub root : String
  pub files : List (String × List ℕ)
  pub pending : List (String × Pending)

pub data AttachmentError : Type 0 where
  too_large invalid_name too_many_pending directory_full cache_full : AttachmentError
  no_temporary_file lost_upload invalid_chunk write_failed : AttachmentError
  incomplete sync_failed persist_failed : AttachmentError

abbrev pub is_expired : ℕ → Pending → Bool
is_expired now p = leb 600 (now - p.touched)

-- A temporary file is deleted with its transfer.
unfoldable pub drop_expired : ℕ → Attachments → Attachments
drop_expired now s = record {
  root = s.root;
  files = s.files;
  pending = select (λ e. not (is_expired now e.1)) s.pending;
}

-- `/`, `\` and NUL, `.` and `..`, and control characters.
unfoldable pub is_invalid_name : String → Bool
is_invalid_name n =
    is_empty n
    || ltb 180 (len n)
    || any_char (λ c. eqb (code c) b'/' || eqb (code c) 92 || eqb (code c) 0) n
    || n == "."
    || n == ".."
    || any_char is_control n

abbrev pub files_size : List (String × List ℕ) → ℕ
files_size fs = sum_of (λ f. length f.1) fs

abbrev pub temporary_size : List (String × Pending) → ℕ
temporary_size es = sum_of (λ e. length e.1.bytes) es

abbrev pub reserved : List (String × Pending) → ℕ
reserved es = sum_of (λ e. e.1.size - e.1.written) es

abbrev pub used : Attachments → ℕ
used s = files_size s.files + temporary_size s.pending

abbrev pub new_pending : String → ℕ → ℕ → Pending
new_pending name size now = record {
  bytes = [];
  name = name;
  size = size;
  written = 0;
  touched = now;
}

-- `begin` once the expired transfers are dropped. The new identifier is an argument, and whether the
-- temporary file could be made.
unfoldable pub admit :
    Attachments → String → ℕ → String → Bool → ℕ → Result AttachmentError (Attachments × String)
unfolding is_invalid_name
admit s name size id made now = do
  bail_if (ltb max_file size) too_large
  bail_if (is_invalid_name name) invalid_name
  bail_if (leb 8 (length s.pending)) too_many_pending
  bail_if (ltb 4096 (length s.files + length s.pending)) directory_full
  bail_if (ltb max_cache (used s + reserved s.pending + size)) cache_full
  bail_if (not made) no_temporary_file
  ok (
    record {
      root = s.root;
      files = s.files;
      pending = insert id (new_pending name size now) s.pending;
    },
    id,
  )

-- What a call leaves behind, with its answer.
abbrev pub settle :
    {A : Type 0}
    → Attachments
    → Result AttachmentError (Attachments × A)
    → Attachments × Result AttachmentError A
settle s (ok r) = (r.0, ok r.1)
settle s (err e) = (s, err e)

unfoldable pub begin_upload :
    Attachments → String → ℕ → String → Bool → ℕ → Attachments × Result AttachmentError String
unfolding drop_expired
begin_upload s name size id made now =
    settle (drop_expired now s) (admit (drop_expired now s) name size id made now)

-- Whether `write_all` wrote all bytes of a chunk, or failed after some.
pub data Write : Type 0 where
  all_written : Write
  failed_after : ℕ → Write

abbrev pub extend : List ℕ → ℕ → Pending → Pending
extend bytes now p = record {
  bytes = p.bytes ++ bytes;
  name = p.name;
  size = p.size;
  written = p.written + length bytes;
  touched = now;
}

-- A failed write is not counted, but its first bytes stay in the file.
abbrev pub spoil : List ℕ → Pending → Pending
spoil bytes p = record {
  bytes = p.bytes ++ bytes;
  name = p.name;
  size = p.size;
  written = p.written;
  touched = p.touched;
}

abbrev pub with_pending : Attachments → List (String × Pending) → Attachments
with_pending s pending = record { root = s.root; files = s.files; pending = pending }

abbrev pub is_invalid_chunk : Pending → ℕ → List ℕ → ℕ → Bool
is_invalid_chunk p offset bytes now =
    is_expired now p
    || leb (length bytes) 0
    || ltb 65536 (length bytes)
    || not (eqb offset p.written)
    || ltb p.size (p.written + length bytes)

unfoldable pub chunk :
    Attachments → String → ℕ → List ℕ → Write → ℕ → Attachments × Result AttachmentError (Unit {0})
chunk s id offset bytes write now = elim (lookup id s.pending) [
  | none ↦ (s, err lost_upload)
  | some p ↦ if is_invalid_chunk p offset bytes now then (s, err invalid_chunk) else elim write [
    | all_written ↦ (with_pending s (adjust id (extend bytes now) s.pending), ok tt)
    | failed_after n ↦
        (with_pending s (adjust id (spoil (take n bytes)) s.pending), err write_failed)
  ]
]

abbrev pub file_name : String → Pending → String
file_name id p = concat id (concat "-" p.name)

-- `finish`. Whether the file could be synced and renamed are arguments; it is not renamed to the name
-- of another file. The transfer is over in any case, and without its file unless the renaming is done.
unfoldable pub finish :
    Attachments
    → String
    → (synced renamed : Bool) → ℕ
    → Attachments × Result AttachmentError FileEntry
finish s id synced renamed now = elim (lookup id s.pending) [
  | none ↦ (s, err lost_upload)
  | some p ↦
      if not (eqb p.written p.size) || is_expired now p
      then (s, err incomplete)
      else if not synced
      then (with_pending s (remove id s.pending), err sync_failed)
      else if not renamed || is_some_and (λ f. true) (lookup (file_name id p) s.files)
      then (with_pending s (remove id s.pending), err persist_failed)
      else (
        record {
          root = s.root;
          files = (file_name id p, p.bytes) ∷ s.files;
          pending = remove id s.pending;
        },
        ok (record {
          name = p.name;
          path = concat s.root (concat "/" (file_name id p));
          directory = false;
        }),
      )
]

unfoldable pub abort : Attachments → String → Attachments
abort s id = with_pending s (remove id s.pending)
