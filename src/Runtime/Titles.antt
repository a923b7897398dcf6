-- ===== src/Runtime/Titles.antt =====
-- crates/latte-work-server/src/runtime.rs: which titles of native sessions are read again. Times are
-- milliseconds.
use latte_work.Common.{
  ℕ, suc, zero, ◌-◌, String, Bool, true, false, ◌&&◌, List, [], ◌∷◌, Option, none, some, ◌==◌, ltb,
  leb, if◌then◌else◌, length, lookup, insert, select, is_some_and,
}
use latte_work.Protocol.Values.{Session}

-- `reads`: by the session's id, the native id that was read and when.
abbrev pub TitleRefreshCache : Type 0
TitleRefreshCache = List (String × (String × ℕ))

abbrev pub refresh_interval : ℕ
refresh_interval = 2000

abbrev pub refresh_limit : ℕ
refresh_limit = 2048

abbrev pub is_recent : ℕ → ℕ → Bool
is_recent now read = ltb (now - read) refresh_interval

abbrev pub was_read : TitleRefreshCache → String → String → ℕ → Bool
was_read cache id native now =
    is_some_and (λ r. r.0 == native && is_recent now r.1) (lookup id cache)

abbrev pub recent_only : ℕ → TitleRefreshCache → TitleRefreshCache
recent_only now cache = select (λ e. is_recent now e.1.1) cache

abbrev pub reserve : TitleRefreshCache → String → String → ℕ → TitleRefreshCache × Bool
reserve cache id native now =
    if leb refresh_limit (length cache)
    then (cache, false)
    else (insert id (native, now) cache, true)

abbrev pub claim_native : TitleRefreshCache → String → String → ℕ → TitleRefreshCache × Bool
claim_native cache id native now =
    if was_read cache id native now
    then (cache, false)
    else reserve (if leb refresh_limit (length cache) then recent_only now cache else cache) id
        native now

-- `claim`.
unfoldable pub claim : TitleRefreshCache → Session → ℕ → TitleRefreshCache × Bool
claim cache s now = elim s.native_id [
  | none ↦ (cache, false)
  | some native ↦ claim_native cache s.id native now
]

-- The time of the last read of a session's native id, by which `select` sorts; never is first.
unfoldable pub last_read : TitleRefreshCache → Session → Option ℕ
last_read cache s = elim (lookup s.id cache) [
  | none ↦ none
  | some r ↦ elim s.native_id [
    | none ↦ none
    | some native ↦ if r.0 == native then some r.1 else none
  ]
]

abbrev pub is_earlier : Option ℕ → Option ℕ → Bool
is_earlier none none = false
is_earlier none (some b) = true
is_earlier (some a) none = false
is_earlier (some a) (some b) = ltb a b

-- `sort_by_key`, which is stable: a session goes before the first one that was read later.
unfoldable pub insert_session : TitleRefreshCache → Session → List Session → List Session
unfolding last_read
insert_session cache s [] = s ∷ []
insert_session cache s (x ∷ xs) =
    if is_earlier (last_read cache x) (last_read cache s)
    then x ∷ insert_session cache s xs
    else s ∷ x ∷ xs

unfoldable pub sort_sessions : TitleRefreshCache → List Session → List Session
unfolding insert_session
sort_sessions cache [] = []
sort_sessions cache (s ∷ ss) = insert_session cache s (sort_sessions cache ss)

-- `filter(claim).take(n)`: nothing is claimed after the last that is taken.
unfoldable pub claim_all :
    ℕ → TitleRefreshCache → List Session → ℕ → TitleRefreshCache × List Session
unfolding claim
claim_all zero cache ss now = (cache, [])
claim_all (suc n) cache [] now = (cache, [])
claim_all (suc n) cache (s ∷ ss) now =
    let skipped = claim_all (suc n) (claim cache s now).0 ss now in
    let taken = claim_all n (claim cache s now).0 ss now in
    if (claim cache s now).1 then (taken.0, s ∷ taken.1) else skipped

-- `select`.
unfoldable pub select_due : TitleRefreshCache → List Session → ℕ → TitleRefreshCache × List Session
select_due cache ss now = claim_all 16 cache (sort_sessions cache ss) now
