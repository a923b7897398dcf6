-- ===== src/Runtime/Debounce.antt =====
-- A title is not read again too soon, and the cache of the readings is bounded
-- (`TitleRefreshCache`, crates/latte-work-server/src/runtime.rs).
use latte_work.Common.{
  ℕ, suc, zero, ◌+◌, ◌-◌, ◌≤◌, ◌<◌, String, Bool, true, false, List, [], ◌∷◌, none, some, ◌==◌, leb,
  leb→gt, lt→ltb, if◌then◌else◌, length, lookup, ◌≡◌, ◌≢◌, refl, sym, inl, inr, Bool-cases,
  Option-cases, ==_refl, ==-eq, All, lookup-insert, lookup-insert_other, lookup-select,
  length-insert, select_shorter, arith,
}
use latte_work.Protocol.Values.{Session}
use latte_work.Runtime.Titles.{
  claim_native, TitleRefreshCache, refresh_interval, refresh_limit, is_recent, was_read,
  recent_only, reserve, claim, claim_all, select_due, sort_sessions,
}

-- What a claim does to what it finds of a session.
Fresh : TitleRefreshCache → String → String → ℕ → Type 0
Fresh cache id native at = lookup id cache ≡ some (native, at)

recent : (at now : ℕ) → now < at + refresh_interval → is_recent now at ≡ true
recent at now h = lt→ltb (now - at) refresh_interval (omega arith)

was_read-Fresh :
    (cache : TitleRefreshCache) (id native : String) (at now : ℕ)
    → now < at + refresh_interval
    → Fresh cache id native at
    → was_read cache id native now ≡ true
unfolding Fresh
was_read-Fresh cache id native at now soon f = rw (f, ==_refl native, recent at now soon) refl

recent_only-Fresh :
    (cache : TitleRefreshCache) (id native : String) (at now : ℕ)
    → now < at + refresh_interval
    → Fresh cache id native at
    → Fresh (recent_only now cache) id native at
unfolding Fresh
recent_only-Fresh cache id native at now soon f =
    lookup-select id (native, at) (λ e. is_recent now e.1.1) cache (λ j. recent at now soon) f

reserve-Fresh :
    (cache : TitleRefreshCache) (id native other name : String) (at now : ℕ)
    → id ≢ other
    → Fresh cache id native at
    → Fresh (reserve cache other name now).0 id native at
unfolding Fresh
reserve-Fresh cache id native other name at now ne f =
    elim (Bool-cases (leb refresh_limit (length cache))) [
      | inl e ↦ rw e f
      | inr e ↦ rw (e, lookup-insert_other other id (name, now) cache ne) f
    ]

trimmed-Fresh :
    (cache : TitleRefreshCache) (id native : String) (at now : ℕ) (full : Bool)
    → now < at + refresh_interval
    → Fresh cache id native at
    → Fresh (if full then recent_only now cache else cache) id native at
trimmed-Fresh cache id native at now true soon f = recent_only-Fresh cache id native at now soon f
trimmed-Fresh cache id native at now false soon f = f

claim_native-Fresh :
    (cache : TitleRefreshCache) (id native other name : String) (at now : ℕ)
    → now < at + refresh_interval
    → (other ≡ id → name ≡ native)
    → Fresh cache id native at
    → Fresh (claim_native cache other name now).0 id native at
claim_native-Fresh cache id native other name at now soon same f =
    elim (Bool-cases (was_read cache other name now)) [
      | inl e ↦ rw e f
      | inr e ↦
          let trimmed = if leb refresh_limit (length cache) then recent_only now cache else cache in
          let kept =
            trimmed-Fresh cache id native at now (leb refresh_limit (length cache)) soon f in
          elim (Bool-cases (id == other)) [
            | inr ne ↦ rw e (
                reserve-Fresh trimmed id native other name at now
                  (λ p. absurd (cc (p, ne, ==_refl other))) kept)
            | inl eq ↦
                let here = sym (==-eq id other eq) in
                absurd (cc (was_read-Fresh cache id native at now soon f, e, here, same here))
          ]
    ]

claim-Fresh :
    (cache : TitleRefreshCache) (s : Session) (id native : String) (at now : ℕ)
    → now < at + refresh_interval
    → (s.id ≡ id → s.native_id ≡ some native)
    → Fresh cache id native at
    → Fresh (claim cache s now).0 id native at
unfolding claim
claim-Fresh cache s id native at now soon same f = elim (Option-cases s.native_id) [
  | inl e ↦ rw (claim, e) f
  | inr (n, e) ↦
      rw (claim, e)
        (claim_native-Fresh cache id native s.id n at now soon (λ p. let q = same p in cc (q, e)) f)
]

-- The cache after claims, each of a session at its time.
unfoldable pub claims : TitleRefreshCache → List (Session × ℕ) → TitleRefreshCache
claims cache [] = cache
claims cache (c ∷ cs) = claims (claim cache c.0 c.1).0 cs

-- A claim in the interval after `at`, of the session with its native id, or of another session.
abbrev pub Meanwhile : Session → ℕ → Session × ℕ → Type 0
Meanwhile s at c = (c.1 < at + refresh_interval) × (c.0.id ≡ s.id → c.0.native_id ≡ s.native_id)

claims-Fresh :
    (cs : List (Session × ℕ)) (cache : TitleRefreshCache) (s : Session) (native : String) (at : ℕ)
    → s.native_id ≡ some native
    → All (Meanwhile s at) cs
    → Fresh cache s.id native at
    → Fresh (claims cache cs) s.id native at
unfolding claims
claims-Fresh [] cache s native at e h f = f
claims-Fresh (c ∷ cs) cache s native at e h f =
    claims-Fresh cs (claim cache c.0 c.1).0 s native at e h.1
      (claim-Fresh cache c.0 s.id native at c.1 h.0.0 (λ p. let q = h.0.1 p in cc (q, e)) f)

reserved-Fresh :
    (cache : TitleRefreshCache) (id native : String) (now : ℕ)
    → (reserve cache id native now).1 ≡ true
    → Fresh (reserve cache id native now).0 id native now
unfolding Fresh
reserved-Fresh cache id native now h = elim (Bool-cases (leb refresh_limit (length cache))) [
  | inl e ↦ absurd (cc (rw e at h))
  | inr e ↦ rw e (lookup-insert id (native, now) cache)
]

claimed-Fresh :
    (cache : TitleRefreshCache) (s : Session) (native : String) (now : ℕ)
    → s.native_id ≡ some native
    → (claim cache s now).1 ≡ true
    → Fresh (claim cache s now).0 s.id native now
unfolding claim
claimed-Fresh cache s native now e h = elim (Bool-cases (was_read cache s.id native now)) [
  | inl r ↦ absurd (cc (rw (claim, e, r) at h))
  | inr r ↦
      rw (claim, e, r)
        (reserved-Fresh (if leb refresh_limit (length cache) then recent_only now cache else cache)
          s.id native now (rw (claim, e, r) at h))
]

claim_read :
    (cache : TitleRefreshCache) (s : Session) (native : String) (now : ℕ)
    → s.native_id ≡ some native
    → was_read cache s.id native now ≡ true
    → (claim cache s now).1 ≡ false
unfolding claim
claim_read cache s native now e read = rw (claim, e, read) refl

claimed_native :
    (cache : TitleRefreshCache) (s : Session) (now : ℕ)
    → (claim cache s now).1 ≡ true
    → s.native_id ≢ none
unfolding claim
claimed_native cache s now h = λ e. absurd (cc (rw (claim, e) at h))

-- When the title of a session is claimed for reading, then for two seconds, whatever is claimed
-- meanwhile, so long as the session keeps its native id, it is not claimed again.
pub claim-once :
    (cache : TitleRefreshCache) (s : Session) (at again : ℕ) (cs : List (Session × ℕ))
    → (claim cache s at).1 ≡ true
    → All (Meanwhile s at) cs
    → again < at + refresh_interval
    → (claim (claims (claim cache s at).0 cs) s again).1 ≡ false
claim-once cache s at again cs claimed h soon = elim (Option-cases s.native_id) [
  | inl e ↦ absurd (claimed_native cache s at claimed e)
  | inr (n, e) ↦
      let f =
        claims-Fresh cs (claim cache s at).0 s n at e h (claimed-Fresh cache s n at e claimed) in
      let read = was_read-Fresh (claims (claim cache s at).0 cs) s.id n at again soon f in
      claim_read (claims (claim cache s at).0 cs) s n again e read
]

reserve-limit :
    (cache : TitleRefreshCache) (id native : String) (now : ℕ)
    → length cache ≤ refresh_limit
    → length (reserve cache id native now).0 ≤ refresh_limit
reserve-limit cache id native now h = elim (Bool-cases (leb refresh_limit (length cache))) [
  | inl e ↦ rw e h
  | inr e ↦
      let below = leb→gt refresh_limit (length cache) e in
      let more = length-insert id (native, now) cache in rw e (omega arith)
]

trimmed-limit :
    (cache : TitleRefreshCache) (now : ℕ) (full : Bool)
    → length cache ≤ refresh_limit
    → length (if full then recent_only now cache else cache) ≤ refresh_limit
trimmed-limit cache now true h =
    let fewer = select_shorter (λ e. is_recent now e.1.1) cache in omega arith
trimmed-limit cache now false h = h

claim-limit :
    (cache : TitleRefreshCache) (s : Session) (now : ℕ)
    → length cache ≤ refresh_limit
    → length (claim cache s now).0 ≤ refresh_limit
unfolding claim
claim-limit cache s now h = elim (Option-cases s.native_id) [
  | inl e ↦ rw (claim, e) h
  | inr (n, e) ↦ elim (Bool-cases (was_read cache s.id n now)) [
    | inl r ↦ rw (claim, e, r) h
    | inr r ↦
        let full = leb refresh_limit (length cache) in
        rw (claim, e, r)
          (reserve-limit (if full then recent_only now cache else cache) s.id n now
            (trimmed-limit cache now full h))
  ]
]

claim_all-limit :
    (n : ℕ) (cache : TitleRefreshCache) (ss : List Session) (now : ℕ)
    → length cache ≤ refresh_limit
    → (length (claim_all n cache ss now).0 ≤ refresh_limit)
      × (length (claim_all n cache ss now).1 ≤ n)
unfolding claim_all
claim_all-limit zero cache ss now h = (h, omega arith)
claim_all-limit (suc n) cache [] now h = (h, omega arith)
claim_all-limit (suc n) cache (s ∷ ss) now h =
    let next = claim-limit cache s now h in
    elim (Bool-cases ((claim cache s now).1)) [
      | inl e ↦
          let (size, few) = claim_all-limit n (claim cache s now).0 ss now next in
          rw e (size, omega arith)
      | inr e ↦ rw e (claim_all-limit (suc n) (claim cache s now).0 ss now next)
    ]

-- If the cache holds at most 2048 readings, so it does after a selection, which is of at most 16.
pub select_due-limit :
    (cache : TitleRefreshCache) (ss : List Session) (now : ℕ)
    → length cache ≤ refresh_limit
    → (length (select_due cache ss now).0 ≤ refresh_limit)
      × (length (select_due cache ss now).1 ≤ 16)
unfolding select_due
select_due-limit cache ss now h = claim_all-limit 16 cache (sort_sessions cache ss) now h
