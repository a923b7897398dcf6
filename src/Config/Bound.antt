-- ===== src/Config/Bound.antt =====
-- What a binding changes (`bind` and `snapshot_for_host`, crates/latte-work-config/src/lib.rs).
use latte_work.Common.{
  String, Bool, false, List, ◌≡◌, ◌≢◌, refl, ap, ◌∙◌, inl, inr, Option, none, some, ◌==◌, ==-eq,
  ==_refl, lookup-remove_other, find?, lookup, lookup-insert, lookup-insert_other, lookup-remove,
  Bool-cases, Option-cases, arith, ok,
}
use latte_work.Protocol.Providers.{ProviderSnapshot}
use latte_work.Protocol.Responses.{Response}
use latte_work.Config.State.{ProviderRecord, Config, ConfigLibrary, find_provider}
use latte_work.Config.Validation.{validate_id, validate_config}
use latte_work.Config.Bindings.{
  bindings_of, bindings_or_none, snapshot_for_host, change_binding, rebound, bind,
}
use latte_work.Config.Resolved.{
  validate_config-Accepted, contains-find, bindings_or_none-Resolves, lookup-Resolves,
}
use latte_work.Config.History.{bind-ok}

rebound-own :
    (c : Config) (host agent : String) (id : Option String)
    → bindings_or_none (rebound c host agent id) host
      ≡ change_binding agent id (bindings_or_none c host)
unfolding rebound bindings_or_none bindings_of
rebound-own c host agent id =
    ground (
      arith,
      lookup-insert host (change_binding agent id (bindings_or_none c host)) c.host_bindings,
    )

rebound-elsewhere :
    (c : Config) (host other agent : String) (id : Option String)
    → (other == host) ≡ false
    → bindings_or_none (rebound c host agent id) other ≡ bindings_or_none c other
unfolding rebound bindings_or_none bindings_of
rebound-elsewhere c host other agent id ne =
    let apart : other ≢ host = λ e. absurd (cc (ne, e, ==_refl host)) in
    let kept =
      lookup-insert_other host other (change_binding agent id (bindings_or_none c host))
        c.host_bindings apart in
    elim (Bool-cases (host == "local")) [
      | inl e ↦
          let remote : (other == "local") ≡ false = rw (← ==-eq host "local" e) ne in ground arith
      | inr e ↦ ground (arith, kept)
    ]

snapshot_by :
    (c c' : Config) (host agent : String)
    → lookup agent (bindings_or_none c' host) ≡ lookup agent (bindings_or_none c host)
    → c'.providers ≡ c.providers
    → snapshot_for_host c' host agent ≡ snapshot_for_host c host agent
unfolding snapshot_for_host
snapshot_by c c' host agent e f =
    let found : (id : String) → find_provider c' id ≡ find_provider c id =
      λ id. ap (find? (λ (r : ProviderRecord). r.metadata.id == id)) f in
    elim (Option-cases (lookup agent (bindings_or_none c host))) [
      | inl n ↦ rw (e, n)
      | inr (id, n) ↦ rw (e, n, found id)
    ]

rebound-providers :
    (c : Config) (host agent : String) (id : Option String)
    → (rebound c host agent id).providers ≡ c.providers
unfolding rebound
rebound-providers c host agent id = ground arith

lookup-changed :
    (agent : String) (id : Option String) (bs : List (String × String))
    → lookup agent (change_binding agent id bs) ≡ id
unfolding change_binding
lookup-changed agent none bs = lookup-remove agent bs
lookup-changed agent (some id) bs = lookup-insert agent id bs

lookup-changed_other :
    (agent other : String) (id : Option String) (bs : List (String × String))
    → other ≢ agent
    → lookup other (change_binding agent id bs) ≡ lookup other bs
unfolding change_binding
lookup-changed_other agent other none bs ne = lookup-remove_other agent other bs ne
lookup-changed_other agent other (some id) bs ne = lookup-insert_other agent other id bs ne

-- The snapshot that a found provider gives, and none without one.
abbrev pub snapshot_of : Config → Option String → Option ProviderSnapshot
snapshot_of c none = none
snapshot_of c (some id) = elim (find_provider c id) [
  | none ↦ none
  | some r ↦ some (record { provider = r.metadata; credential = r.credential })
]

snapshot_found :
    (library : ConfigLibrary) (c : Config) (host agent : String) (id : Option String)
    → validate_config library c ≡ ok tt
    → validate_id host ≡ ok tt
    → validate_id agent ≡ ok tt
    → lookup agent (bindings_or_none c host) ≡ id
    → snapshot_for_host c host agent ≡ ok (snapshot_of c id)
unfolding snapshot_for_host
snapshot_found library c host agent none v h k e = rw (h, k, e)
snapshot_found library c host agent (some id) v h k e =
    let own = bindings_or_none-Resolves library c host (validate_config-Accepted library c v) in
    let (r, f) = contains-find c.providers id (lookup-Resolves _ agent id _ own e) in
    rw (h, k, e, snapshot_of, f)

-- After an Agent of a host is bound to a provider, or to none, its turns get that provider with its
-- credential, or none. The other Agents of the host, and all Agents of other hosts, get what they got.
pub bind-snapshot :
    (library : ConfigLibrary) (written : Bool) (c : Config)
    (host other_host agent other any_agent : String) (id : Option String) (a : Response × Config)
    → bind library written c host agent id ≡ ok a
    → other ≢ agent
    → (other_host == host) ≡ false
    → (snapshot_for_host a.1 host agent ≡ ok (snapshot_of c id))
      × (snapshot_for_host a.1 host other ≡ snapshot_for_host c host other)
      × (snapshot_for_host a.1 other_host any_agent ≡ snapshot_for_host c other_host any_agent)
bind-snapshot library written c host other_host agent other any_agent id a h ne apart =
    let (i, j, v, e) = bind-ok library written c host agent id a h in
    let providers : a.1.providers ≡ c.providers = rw e (rebound-providers c host agent id) in
    let own : bindings_or_none a.1 host ≡ change_binding agent id (bindings_or_none c host) =
      rw e (rebound-own c host agent id) in
    (
      snapshot_found library a.1 host agent id v i j
            (rw own (lookup-changed agent id (bindings_or_none c host)))
          ∙ ap ok (same_snapshot a.1 c id providers),
      snapshot_by c a.1 host other
          (rw own (lookup-changed_other agent other id (bindings_or_none c host) ne)) providers,
      snapshot_by c a.1 other_host any_agent
          (ap (lookup any_agent) (rw e (rebound-elsewhere c host other_host agent id apart)))
          providers,
    )
  where
    same_snapshot :
        (x y : Config) (id : Option String)
        → x.providers ≡ y.providers
        → snapshot_of x id ≡ snapshot_of y id
    same_snapshot x y none p = refl
    same_snapshot x y (some id) p =
        let f : find_provider x id ≡ find_provider y id =
          ap (find? (λ (r : ProviderRecord). r.metadata.id == id)) p in
        rw (snapshot_of, f)
