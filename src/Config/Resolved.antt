-- ===== src/Config/Resolved.antt =====
-- Every binding of a configuration that was accepted names one of its providers (`validate_config`,
-- crates/latte-work-config/src/lib.rs).
use latte_work.Common.{
  String, true, false, not, ◌||◌, List, [], ◌∷◌, ◌++◌, map, ◌≡◌, refl, inl, inr, ◌⊎◌, none, some,
  ◌==◌, All, contains, find?, lookup, flatten_values, length, eqb, ltb, Bool-cases, Option-cases,
  arith, ok, bail_if, bail_if-ok, >>=-eq-ok,
}
use latte_work.Protocol.Providers.{AgentProviderBinding}
use latte_work.Protocol.Responses.{Response}
use latte_work.Config.State.{
  find_provider, ProviderRecord, Config, ConfigLibrary, invalid_schema, too_many_hosts,
  unknown_provider, all_bindings,
}
use latte_work.Config.Validation.{
  validate_id, validate_bindings, validate_hosts, validate_records, validate_config,
}
use latte_work.Config.Bindings.{
  bindings_of, bindings_or_none, bound_revisions, catalog, list, list_for_host, snapshot_for_host,
}
use latte_work.Config.Steps.{}

abbrev pub provider_ids : Config → List String
provider_ids c = map (λ r. r.metadata.id) c.providers

abbrev pub Resolves : List String → String × String → Type 0
Resolves ids b = (validate_id b.0 ≡ ok tt) × (contains ids b.1 ≡ true)

validate_bindings-Resolves :
    (ids : List String) (bs : List (String × String))
    → validate_bindings ids bs ≡ ok tt
    → All (Resolves ids) bs
unfolding validate_bindings
validate_bindings-Resolves ids [] h = tt
validate_bindings-Resolves ids (b ∷ bs) h =
    let (_, a, h1) = >>=-eq-ok (validate_id b.0) _ h in
    let (_, k, h2) = >>=-eq-ok (bail_if (not (contains ids b.1)) unknown_provider) _ h1 in
    let found = bail_if-ok _ _ k in ((a, ground arith), validate_bindings-Resolves ids bs h2)

-- What an accepted configuration has.
pub record Accepted (library : ConfigLibrary) (c : Config) : Type 0 where
  pub schema : (not (eqb c.schema 2) || ltb 16 (length c.providers)) ≡ false
  pub records : validate_records library [] c.providers ≡ ok tt
  pub few_hosts : ltb 256 (length c.host_bindings) ≡ false
  pub hosts : validate_hosts (map (λ h. h.0) c.host_bindings) ≡ ok tt
  pub resolved : All (Resolves (provider_ids c)) (all_bindings c)

pub validate_config-Accepted :
    (library : ConfigLibrary) (c : Config) → validate_config library c ≡ ok tt → Accepted library c
unfolding validate_config
validate_config-Accepted library c h =
    let (_, a, h1) =
      >>=-eq-ok (bail_if (not (eqb c.schema 2) || ltb 16 (length c.providers)) invalid_schema) _
        h in
    let (_, b, h2) = >>=-eq-ok (validate_records library [] c.providers) _ h1 in
    let (_, e, h3) = >>=-eq-ok (bail_if (ltb 256 (length c.host_bindings)) too_many_hosts) _ h2 in
    let (_, f, h4) = >>=-eq-ok (validate_hosts (map (λ h. h.0) c.host_bindings)) _ h3 in
    record {
      schema = bail_if-ok _ _ a;
      records = b;
      few_hosts = bail_if-ok _ _ e;
      hosts = f;
      resolved = validate_bindings-Resolves _ _ h4;
    }

validate_bindings-ok :
    (ids : List String) (bs : List (String × String))
    → All (Resolves ids) bs
    → validate_bindings ids bs ≡ ok tt
unfolding validate_bindings
validate_bindings-ok ids [] h = refl
validate_bindings-ok ids (b ∷ bs) h = rw (h.0.0, h.0.1) (validate_bindings-ok ids bs h.1)

pub Accepted-validate_config :
    (library : ConfigLibrary) (c : Config) → Accepted library c → validate_config library c ≡ ok tt
unfolding validate_config
Accepted-validate_config library c a =
    rw (a.schema, a.records, a.few_hosts, a.hosts) (validate_bindings-ok _ _ a.resolved)

pub contains-find :
    (rs : List ProviderRecord) (id : String)
    → contains (map (λ r. r.metadata.id) rs) id ≡ true
    → (r : ProviderRecord) × (find? (λ r. r.metadata.id == id) rs ≡ some r)
contains-find [] id h = absurd (cc)
contains-find (r ∷ rs) id h = elim (Bool-cases (r.metadata.id == id)) [
  | inl e ↦ (r, rw e)
  | inr e ↦ let (q, k) = contains-find rs id (ground arith) in (q, rw e k)
]

bound_revisions-total :
    (c : Config) (bs : List (String × String))
    → All (Resolves (provider_ids c)) bs
    → (l : List AgentProviderBinding) × (bound_revisions c bs ≡ ok l)
unfolding bound_revisions
bound_revisions-total c [] h = ([], refl)
bound_revisions-total c (b ∷ bs) h =
    let (r, e) = contains-find c.providers b.1 h.0.1 in
    let (l, k) = bound_revisions-total c bs h.1 in
    (
      record { agent = b.0; provider_id = b.1; provider_revision = r.metadata.revision } ∷ l,
      rw (e, k),
    )

pub catalog-total :
    (c : Config) (bs : List (String × String))
    → All (Resolves (provider_ids c)) bs
    → (r : Response) × (catalog c bs ≡ ok r)
unfolding catalog
catalog-total c bs h =
    let (l, e) = bound_revisions-total c bs h in
    (Response.providers (map (λ r. r.metadata) c.providers) l, rw e)

module _ (P : String × String → Type 0) where
  pub All-append_left : (xs ys : List (String × String)) → All P (xs ++ ys) → All P xs
  All-append_left [] ys h = tt
  All-append_left (x ∷ xs) ys h = (h.0, All-append_left xs ys h.1)

  pub All-append_right : (xs ys : List (String × String)) → All P (xs ++ ys) → All P ys
  All-append_right [] ys h = h
  All-append_right (x ∷ xs) ys h = All-append_right xs ys h.1

  All-host :
      (host : String) (m : List (String × List (String × String))) (b : List (String × String))
      → All P (flatten_values (λ b. b) m)
      → lookup host m ≡ some b
      → All P b
  All-host host [] b h e = absurd (cc)
  All-host host (x ∷ m) b h e = elim (Bool-cases (x.0 == host)) [
    | inl k ↦ let same : x.1 ≡ b = ground arith in rw (← same) (All-append_left x.1 _ h)
    | inr k ↦ All-host host m b (All-append_right x.1 _ h) (ground arith)
  ]

pub lookup-Resolves :
    (ids : List String) (agent id : String) (bs : List (String × String))
    → All (Resolves ids) bs
    → lookup agent bs ≡ some id
    → contains ids id ≡ true
lookup-Resolves ids agent id [] h e = absurd (cc)
lookup-Resolves ids agent id (b ∷ bs) h e =
    ground (arith, lookup-Resolves ids agent id bs h.1, h.0.1)

-- The bindings of a host are this computer's, or those of an entry, or none.
bindings_cases :
    (c : Config) (host : String)
    → (bindings_or_none c host ≡ c.bindings)
      ⊎ (bindings_or_none c host ≡ [])
      ⊎ (lookup host c.host_bindings ≡ some (bindings_or_none c host))
unfolding bindings_or_none bindings_of
bindings_cases c host = elim (Bool-cases (host == "local")) [
  | inl e ↦ inl (ground arith)
  | inr e ↦ elim (Option-cases (lookup host c.host_bindings)) [
    | inl n ↦ inr (inl (ground arith))
    | inr (b, k) ↦ inr (inr (ground arith))
  ]
]

pub bindings_or_none-Resolves :
    (library : ConfigLibrary) (c : Config) (host : String)
    → Accepted library c
    → All (Resolves (provider_ids c)) (bindings_or_none c host)
bindings_or_none-Resolves library c host a =
    let P = Resolves (provider_ids c) in
    elim (bindings_cases c host) [
      | inl e ↦ rw e (All-append_left P c.bindings _ a.resolved)
      | inr (inl e) ↦ rw e tt
      | inr (inr e) ↦
          All-host P host c.host_bindings _ (All-append_right P c.bindings _ a.resolved) e
    ]

-- What the turns of an Agent get: none if it is bound to none, or the provider that it is bound to,
-- with its credential.
abbrev pub Serves : Config → String → String → Type 0
Serves c host agent =
    ((lookup agent (bindings_or_none c host) ≡ none) × (snapshot_for_host c host agent ≡ ok none))
    ⊎ ((id : String) × (r : ProviderRecord) × (lookup agent (bindings_or_none c host) ≡ some id)
        × (find_provider c id ≡ some r)
        × (snapshot_for_host c host agent
            ≡ ok (some (record { provider = r.metadata; credential = r.credential }))))

-- The answers of an accepted configuration.
abbrev pub Answers : Config → String → String → Type 0
Answers c host agent =
    ((r : Response) × (list c ≡ ok r))
    × ((r : Response) × (list_for_host c host ≡ ok r))
    × Serves c host agent

pub Accepted-Answers :
    (library : ConfigLibrary) (c : Config) (host agent : String)
    → Accepted library c
    → validate_id host ≡ ok tt
    → validate_id agent ≡ ok tt
    → Answers c host agent
unfolding list list_for_host snapshot_for_host
Accepted-Answers library c host agent a h k =
    let own = bindings_or_none-Resolves library c host a in
    let (r, e) = catalog-total c (bindings_or_none c host) own in
    (
      catalog-total c (all_bindings c) a.resolved,
      (r, rw (h, e)),
      elim (Option-cases (lookup agent (bindings_or_none c host))) [
        | inl n ↦ inl (n, rw (h, k, n))
        | inr (id, n) ↦
            let (q, f) = contains-find c.providers id (lookup-Resolves _ agent id _ own n) in
            inr (id, q, n, f, rw (h, k, n, f))
      ],
    )
