-- ===== src/Lifecycle/Owners.antt =====
-- Which resources a close leaves alone (`CloseOwnedResources`,
-- crates/latte-work-server/src/upgrade.rs).
use latte_work.Common.{
  String, Bool, true, false, List, [], ◌∷◌, some, ◌==◌, if◌then◌else◌, lookup, is_some_and, ◌≡◌,
  ◌≢◌, refl, sym, ap, ◌∙◌, inl, inr, Bool-cases, Option-cases, Result-cases, ==_refl, ==-eq,
  lookup-remove_other,
}
use latte_work.Store.Sessions.{session}
use latte_work.Terminal.Table.{close}
use latte_work.Runtime.Sessions.{Host, Cancelled, close_session}
use latte_work.Lifecycle.{
  Resource, agent_session, terminal, same_resource, Service, Owners, owner_of, remove_owner,
  is_owner, close_resource, close_all, close_owned, is_invalid_resources, with_owners,
}

pub same_resource_refl : (r : Resource) → same_resource r r ≡ true
same_resource_refl (agent_session a) = ==_refl a
same_resource_refl (terminal a) = ==_refl a

pub same_resource-eq : (a b : Resource) → same_resource a b ≡ true → a ≡ b
same_resource-eq (agent_session a) (agent_session b) h = ap agent_session (==-eq a b h)
same_resource-eq (terminal a) (terminal b) h = ap terminal (==-eq a b h)
same_resource-eq (agent_session a) (terminal b) h = absurd (cc h)
same_resource-eq (terminal a) (agent_session b) h = absurd (cc h)

pub same_resource_ne : (a b : Resource) → a ≢ b → same_resource a b ≡ false
same_resource_ne a b ne = elim (Bool-cases (same_resource a b)) [
  | inl e ↦ absurd (ne (same_resource-eq a b e))
  | inr e ↦ e
]

owner_of-remove_other :
    (r q : Resource) (os : Owners) → q ≢ r → owner_of r (remove_owner q os) ≡ owner_of r os
unfolding owner_of remove_owner
owner_of-remove_other r q [] ne = refl
owner_of-remove_other r q (o ∷ os) ne = elim (Bool-cases (same_resource o.0 q)) [
  | inl t ↦
      let other : same_resource o.0 r ≡ false =
        same_resource_ne o.0 r (λ p. ne (sym (same_resource-eq o.0 q t) ∙ p)) in
      rw (t, other) (owner_of-remove_other r q os ne)
  | inr t ↦
      rw t (ap (λ w. if same_resource o.0 r then some o.1 else w) (owner_of-remove_other r q os ne))
]

-- The resource is as it was: there with its state, or not there.
abbrev pub Kept : Service → Service → Resource → Type 0
Kept s s' (agent_session id) = lookup id s'.host.runs ≡ lookup id s.host.runs
Kept s s' (terminal id) = lookup id s'.terminals ≡ lookup id s.terminals

-- It is as it was, and so is its owner.
abbrev pub Spared : Service → Service → Resource → Type 0
Spared s s' r = (owner_of r s'.owners ≡ owner_of r s.owners) × Kept s s' r

Spared-refl : (s : Service) (r : Resource) → Spared s s r
Spared-refl s (agent_session id) = (refl, refl)
Spared-refl s (terminal id) = (refl, refl)

Spared-trans : (s t u : Service) (r : Resource) → Spared s t r → Spared t u r → Spared s u r
Spared-trans s t u (agent_session id) (a, b) (c, d) = (c ∙ a, d ∙ b)
Spared-trans s t u (terminal id) (a, b) (c, d) = (c ∙ a, d ∙ b)

close_session-other :
    (h : Host) (id other : String) (c : Cancelled)
    → other ≢ id
    → lookup other (close_session h id c).0.runs ≡ lookup other h.runs
unfolding close_session
close_session-other h id other c ne = elim (Result-cases (session h.store id)) [
  | inr (x, e) ↦ rw (close_session, e) refl
  | inl (s, e) ↦ elim (Option-cases (lookup id h.runs)) [
    | inl l ↦ rw (close_session, e, l) refl
    | inr (run, l) ↦ elim (Bool-cases run.closed) [
      | inl t ↦ rw (close_session, e, l, t) refl
      | inr t ↦ elim (Bool-cases c.removed) [
        | inl u ↦ rw (close_session, e, l, t, u) (lookup-remove_other id other h.runs ne)
        | inr u ↦ rw (close_session, e, l, t, u) refl
      ]
    ]
  ]
]

-- A resource with another owner is not the one that the owner closes.
owned :
    (q r : Resource) (os : Owners) (other owner : String)
    → q ≡ r
    → owner_of r os ≡ some other
    → is_owner os q owner ≡ true
    → other ≡ owner
owned q r os other owner same h is =
    let mine : is_owner os r owner ≡ true = rw (← same) is in ==-eq other owner (rw h at mine)

module _ (answer : Host → String → Cancelled) where
  session_Kept :
      (s : Service) (a : String) (r : Resource) (os : Owners)
      → agent_session a ≢ r
      → Kept s (record s { owners = os; host = (close_session s.host a (answer s.host a)).0 }) r
  session_Kept s a (agent_session b) os ne =
      close_session-other s.host a b (answer s.host a) (λ p. ne (ap agent_session (sym p)))
  session_Kept s a (terminal b) os ne = refl

  owners_Kept : (s : Service) (r : Resource) (os : Owners) → Kept s (with_owners s os) r
  owners_Kept s (agent_session b) os = refl
  owners_Kept s (terminal b) os = refl

  close_resource-Spared :
      (s : Service) (q r : Resource) → q ≢ r → Spared s (close_resource answer s q).0 r
  unfolding close_resource close
  close_resource-Spared s (terminal a) (terminal b) ne = (
    owner_of-remove_other (terminal b) (terminal a) s.owners ne,
    lookup-remove_other a b s.terminals (λ p. ne (ap terminal (sym p))),
  )
  close_resource-Spared s (terminal a) (agent_session b) ne =
      (owner_of-remove_other (agent_session b) (terminal a) s.owners ne, refl)
  close_resource-Spared s (agent_session a) r ne =
      let others = owner_of-remove_other r (agent_session a) s.owners ne in
      elim (Bool-cases (is_some_and (λ run. true) (lookup a s.host.runs))) [
        | inr e ↦ rw e (others, owners_Kept s r (remove_owner (agent_session a) s.owners))
        | inl e ↦ elim (Result-cases ((close_session s.host a (answer s.host a)).1)) [
          | inl (u, f) ↦
              rw (e, f) (others, session_Kept s a r (remove_owner (agent_session a) s.owners) ne)
          | inr (x, f) ↦ rw (e, f) (refl, session_Kept s a r s.owners ne)
        ]
      ]

  close_all-Spared :
      (rs : List Resource) (s : Service) (owner other : String) (r : Resource)
      → owner_of r s.owners ≡ some other
      → other ≢ owner
      → Spared s (close_all answer owner rs s).0 r
  unfolding close_all
  close_all-Spared [] s owner other r h ne = Spared-refl s r
  close_all-Spared (q ∷ rs) s owner other r h ne = elim (Bool-cases (is_owner s.owners q owner)) [
    | inr e ↦ rw e (close_all-Spared rs s owner other r h ne)
    | inl e ↦
        let apart : q ≢ r = λ p. absurd (ne (owned q r s.owners other owner p h e)) in
        let first = close_resource-Spared s q r apart in
        elim (Result-cases ((close_resource answer s q).1)) [
          | inr (x, f) ↦ rw (e, f) first
          | inl (u, f) ↦
              rw (e, f)
                (Spared-trans s (close_resource answer s q).0
                  (close_all answer owner rs (close_resource answer s q).0).0 r first
                  (close_all-Spared rs (close_resource answer s q).0 owner other r (first.0 ∙ h)
                    ne))
        ]
  ]

  -- A request to close resources, of whichever, in whatever state and however the tasks of sessions
  -- answer, leaves each resource that another owner has: its owner, and the terminal or the entry of
  -- the session, are as they were.
  pub close_owned-Spared :
      (s : Service) (server_id owner other : String) (rs : List Resource) (admitted : Bool)
      (r : Resource)
      → owner_of r s.owners ≡ some other
      → other ≢ owner
      → Spared s (close_owned answer s server_id owner rs admitted).0 r
  unfolding close_owned
  close_owned-Spared s server_id owner other rs admitted r h ne =
      elim (Bool-cases (is_invalid_resources owner rs)) [
        | inl e ↦ rw e (Spared-refl s r)
        | inr e ↦ elim (Bool-cases (server_id == s.server_id)) [
          | inr f ↦ rw (e, f) (Spared-refl s r)
          | inl f ↦ elim (Bool-cases admitted) [
            | inr g ↦ rw (e, f, g) (Spared-refl s r)
            | inl g ↦ rw (e, f, g) (close_all-Spared rs s owner other r h ne)
          ]
        ]
      ]
