-- ===== src/Config/Deletion.antt =====
-- The deletion of a provider (`delete`, crates/latte-work-config/src/lib.rs).
use latte_work.Common.{
  has_duplicates, ◌≤◌, String, Bool, true, false, not, List, [], ◌∷◌, map, ◌≡◌, refl, inl, inr,
  none, ◌==◌, All-append, contains, find_none-select, select, any-append, flatten_values, length,
  ltb, Bool-cases, arith, ok, bail_if, bail_if-ok, >>=-eq-ok,
}
use latte_work.Protocol.Responses.{Response}
use latte_work.Config.State.{
  ProviderRecord, Config, ConfigLibrary, find_provider, all_bindings, duplicate_provider,
}
use latte_work.Config.Validation.{validate_provider, validate_records, validate_config}
use latte_work.Config.Bindings.{
  bindings_or_none, list, persist, delete, without_provider, max_config,
}
use latte_work.Config.Drafts.{bound}
use latte_work.Config.Resolved.{
  provider_ids, Resolves, Accepted, validate_config-Accepted, Accepted-validate_config,
  All-append_left, All-append_right, catalog-total,
}
use latte_work.Config.Unbound.{
  All-select, unbound, validate_hosts-unbound, length-unbound, All-unbound, contains-without,
  any-select, any-unbound, bindings-unbound,
}

module _ (library : ConfigLibrary) where
  -- Records stay accepted when some are left out, and after fewer earlier ones.
  validate_records-select :
      (p : ProviderRecord → Bool) (fewer seen : List String) (rs : List ProviderRecord)
      → ((x : String) → contains seen x ≡ false → contains fewer x ≡ false)
      → validate_records library seen rs ≡ ok tt
      → validate_records library fewer (select p rs) ≡ ok tt
  unfolding validate_records
  validate_records-select p fewer seen [] f h = refl
  validate_records-select p fewer seen (r ∷ rs) f h =
      let (_, a, h1) = >>=-eq-ok (validate_provider library r.metadata r.credential) _ h in
      let (_, b, h2) = >>=-eq-ok (bail_if (contains seen r.metadata.id) duplicate_provider) _ h1 in
      let new : contains fewer r.metadata.id ≡ false = f r.metadata.id (bail_if-ok _ _ b) in
      elim (Bool-cases (p r)) [
        | inl e ↦
            rw (e, a, new)
              (validate_records-select p (r.metadata.id ∷ fewer) (r.metadata.id ∷ seen) rs
                (λ x k. ground (arith, k, f x)) h2)
        | inr e ↦ rw e (
            validate_records-select p fewer (r.metadata.id ∷ seen) rs
              (λ x k. f x (ground (arith, k))) h2)
      ]

module _ {A : Type 0} where
  length-select-le : (p : A → Bool) (xs : List A) → length (select p xs) ≤ length xs
  length-select-le p [] = omega arith
  length-select-le p (x ∷ xs) = ground (arith, length-select-le p xs)

without_provider-Accepted :
    (library : ConfigLibrary) (c : Config) (id : String)
    → Accepted library c
    → Accepted library (without_provider c id)
unfolding without_provider unbound
without_provider-Accepted library c id a =
    let kept : List ProviderRecord = select (λ r. not (r.metadata.id == id)) c.providers in
    let P = Resolves (provider_ids c) in
    let Q = Resolves (map (λ (r : ProviderRecord). r.metadata.id) kept) in
    let still : (b : String × String) → not (b.1 == id) ≡ true → P b → Q b =
      λ b k r. (r.0, contains-without id c.providers b.1 (ground (arith, k)) r.1) in
    record {
      schema = ground (
        arith,
        a.schema,
        length-select-le (λ (r : ProviderRecord). not (r.metadata.id == id)) c.providers,
      );
      records = validate_records-select library _ [] [] c.providers (λ x k. k) a.records;
      few_hosts = ground (arith, a.few_hosts, length-unbound id c.host_bindings);
      hosts = validate_hosts-unbound id c.host_bindings a.hosts;
      resolved =
          All-append Q (select (λ b. not (b.1 == id)) c.bindings) _
            (All-select P Q (λ b. not (b.1 == id)) c.bindings still
              (All-append_left P c.bindings _ a.resolved))
            (All-unbound id P Q c.host_bindings still (All-append_right P c.bindings _ a.resolved));
    }

delete-written :
    (library : ConfigLibrary) (c : Config) (id : String)
    → validate_config library c ≡ ok tt
    → ltb max_config (library.config_len (without_provider c id)) ≡ false
    → (r : Response) × (delete library true c id ≡ ok (r, without_provider c id))
unfolding delete persist list
delete-written library c id v small =
    let a = without_provider-Accepted library c id (validate_config-Accepted library c v) in
    let (r, e) =
      catalog-total (without_provider c id) (all_bindings (without_provider c id)) a.resolved in
    (r, rw (Accepted-validate_config library _ a, small, e))

-- From an accepted configuration, whose hosts are each there once as the keys of a map are, a provider
-- can always be deleted when the file can be written and fits. Afterwards the provider is gone, no
-- Agent of any host is bound to it, and the bindings of each host, this computer being one, are those
-- that it had to other providers.
pub delete_unbinds :
    (library : ConfigLibrary) (c : Config) (id host : String)
    → validate_config library c ≡ ok tt
    → has_duplicates (map (λ h. h.0) c.host_bindings) ≡ false
    → ltb max_config (library.config_len (without_provider c id)) ≡ false
    → (r : Response) × (c' : Config) × (delete library true c id ≡ ok (r, c'))
      × (find_provider c' id ≡ none)
      × (bound c' id ≡ false)
      × (bindings_or_none c' host ≡ select (λ b. not (b.1 == id)) (bindings_or_none c host))
unfolding bound unbound
delete_unbinds library c id host v once small =
    let (r, e) = delete-written library c id v small in
    (
      r,
      without_provider c id,
      e,
      unfold without_provider in
          find_none-select (λ (r : ProviderRecord). r.metadata.id == id) c.providers,
      unfold without_provider in
          rw (
            any-append (λ b. b.1 == id) (select (λ b. not (b.1 == id)) c.bindings)
                (flatten_values (λ b. b) (unbound id c.host_bindings)),
            any-select id c.bindings,
            any-unbound id c.host_bindings,
          ),
      bindings-unbound c id host once,
    )
