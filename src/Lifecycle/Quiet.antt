-- ===== src/Lifecycle/Quiet.antt =====
-- What closing resources keeps of the service (crates/latte-work-server/src/upgrade.rs).
use latte_work.Common.{
  ◌≤◌, String, Bool, true, not, List, [], ◌∷◌, ◌==◌, is_some_and, length, lookup, select,
  select_shorter, All, All-select, ◌≡◌, refl, inl, inr, Bool-cases, Option-cases, Result-cases,
  arith,
}
use latte_work.Store.Sessions.{session}
use latte_work.Runtime.Sessions.{Run, Host, Cancelled, close_session}
use latte_work.Terminal.Table.{close}
use latte_work.Lifecycle.{
  Resource, agent_session, terminal, same_resource, Service, remove_owner, is_owner, owner_limit,
  close_resource, close_all, close_owned, is_invalid_resources,
}
use latte_work.Lifecycle.Limits.{Few}

abbrev pub SafeEntry : String × Run → Type 0
SafeEntry e = e.1.safe_to_close ≡ true

-- The server makes room: no task of a session has work, and there is no terminal.
pub record Quiet (s : Service) : Type 0 where
  pub draining_Quiet : s.draining ≡ true
  pub safe_Quiet : All SafeEntry s.host.runs
  pub terminals_Quiet : s.terminals ≡ []

close_session-safe :
    (h : Host) (id : String) (c : Cancelled)
    → All SafeEntry h.runs
    → All SafeEntry (close_session h id c).0.runs
unfolding close_session
close_session-safe h id c a = elim (Result-cases (session h.store id)) [
  | inr (x, e) ↦ rw (close_session, e) a
  | inl (s, e) ↦ elim (Option-cases (lookup id h.runs)) [
    | inl l ↦ rw (close_session, e, l) a
    | inr (run, l) ↦ elim (Bool-cases run.closed) [
      | inl t ↦ rw (close_session, e, l, t) a
      | inr t ↦ elim (Bool-cases c.removed) [
        | inl u ↦
            rw (close_session, e, l, t, u) (All-select SafeEntry (λ x. not (x.0 == id)) h.runs a)
        | inr u ↦ rw (close_session, e, l, t, u) a
      ]
    ]
  ]
]

-- A property of the service that closing a resource keeps.
module _ (answer : Host → String → Cancelled) (P : Service → Type 0)
    (closes : (s : Service) (r : Resource) → P s → P (close_resource answer s r).0) where
  close_all_keeps :
      (rs : List Resource) (s : Service) (owner : String) → P s → P (close_all answer owner rs s).0
  unfolding close_all
  close_all_keeps [] s owner p = p
  close_all_keeps (r ∷ rs) s owner p = elim (Bool-cases (is_owner s.owners r owner)) [
    | inr e ↦ rw e (close_all_keeps rs s owner p)
    | inl e ↦ elim (Result-cases ((close_resource answer s r).1)) [
      | inl (u, f) ↦
          rw (e, f) (close_all_keeps rs (close_resource answer s r).0 owner (closes s r p))
      | inr (x, f) ↦ rw (e, f) (closes s r p)
    ]
  ]

  pub close_owned_keeps :
      (s : Service) (server_id owner : String) (rs : List Resource) (admitted : Bool)
      → P s
      → P (close_owned answer s server_id owner rs admitted).0
  unfolding close_owned
  close_owned_keeps s server_id owner rs admitted p =
      elim (Bool-cases (is_invalid_resources owner rs)) [
        | inl e ↦ rw e p
        | inr e ↦ elim (Bool-cases (server_id == s.server_id)) [
          | inr f ↦ rw (e, f) p
          | inl f ↦ elim (Bool-cases admitted) [
            | inr g ↦ rw (e, f, g) p
            | inl g ↦ rw (e, f, g) (close_all_keeps rs s owner p)
          ]
        ]
      ]

module _ (answer : Host → String → Cancelled) where
  pub close_resource-Quiet :
      (s : Service) (r : Resource) → Quiet s → Quiet (close_resource answer s r).0
  unfolding close_resource close
  close_resource-Quiet s (terminal id) q = record {
    draining_Quiet = q.draining_Quiet;
    safe_Quiet = q.safe_Quiet;
    terminals_Quiet = rw q.terminals_Quiet refl;
  }
  close_resource-Quiet s (agent_session id) q =
      let safe = close_session-safe s.host id (answer s.host id) q.safe_Quiet in
      elim (Bool-cases (is_some_and (λ r. true) (lookup id s.host.runs))) [
        | inr e ↦ rw e (record {
          draining_Quiet = q.draining_Quiet;
          safe_Quiet = q.safe_Quiet;
          terminals_Quiet = q.terminals_Quiet;
        })
        | inl e ↦ elim (Result-cases ((close_session s.host id (answer s.host id)).1)) [
          | inl (u, f) ↦
              rw (e, f)
                (record {
                  draining_Quiet = q.draining_Quiet;
                  safe_Quiet = safe;
                  terminals_Quiet = q.terminals_Quiet;
                })
          | inr (x, f) ↦
              rw (e, f)
                (record {
                  draining_Quiet = q.draining_Quiet;
                  safe_Quiet = safe;
                  terminals_Quiet = q.terminals_Quiet;
                })
        ]
      ]

  pub close_resource-Few : (s : Service) (r : Resource) → Few s → Few (close_resource answer s r).0
  unfolding close_resource close remove_owner
  close_resource-Few s (terminal id) few =
      let fewer = select_shorter (λ o. not (same_resource o.0 (terminal id))) s.owners in
      omega arith
  close_resource-Few s (agent_session id) few =
      let fewer = select_shorter (λ o. not (same_resource o.0 (agent_session id))) s.owners in
      let less : length (select (λ o. not (same_resource o.0 (agent_session id))) s.owners)
          ≤ owner_limit =
        omega arith in
      elim (Bool-cases (is_some_and (λ r. true) (lookup id s.host.runs))) [
        | inr e ↦ rw e less
        | inl e ↦ elim (Result-cases ((close_session s.host id (answer s.host id)).1)) [
          | inl (u, f) ↦ rw (e, f) less
          | inr (x, f) ↦ rw (e, f) few
        ]
      ]
