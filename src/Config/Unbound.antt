-- ===== src/Config/Unbound.antt =====
-- What is left of the bindings of the hosts when a provider is deleted (`delete`,
-- crates/latte-work-config/src/lib.rs).
use latte_work.Common.{
  has_duplicates, Option, sym, ◌∙◌, ==-eq, ◌||◌, lt→ltb, ◌≤◌, String, Bool, true, false, not, List,
  [], ◌∷◌, map, ◌≡◌, refl, ap, inl, inr, none, some, ◌==◌, any, All, All-append, contains, lookup,
  select, any-append, flatten_values, length, ltb, Bool-cases, arith, ok, bail_if, bail_if-ok,
  >>=-eq-ok, eq_iff,
}
use latte_work.Config.State.{ProviderRecord, Config, local_host}
use latte_work.Config.Validation.{validate_id, validate_hosts}
use latte_work.Config.Bindings.{bindings_of, bindings_or_none, without_provider}
use latte_work.Config.Resolved.{All-append_left, All-append_right}

pub All-select :
    {A : Type 0} (P Q : A → Type 0) (p : A → Bool) (xs : List A)
    → ((a : A) → p a ≡ true → P a → Q a)
    → All P xs
    → All Q (select p xs)
All-select P Q p [] f h = tt
All-select P Q p (x ∷ xs) f h = elim (Bool-cases (p x)) [
  | inl e ↦ rw e (f x e h.0, All-select P Q p xs f h.1)
  | inr e ↦ rw e (All-select P Q p xs f h.1)
]

abbrev Hosts : Type 0
Hosts = List (String × List (String × String))

-- The bindings of each host without a provider, and without the hosts that have none left.
unfoldable pub unbound : String → Hosts → Hosts
unbound id m =
    select (λ h. ltb 0 (length h.1)) (map (λ h. (h.0, select (λ b. not (b.1 == id)) h.1)) m)

module _ (id : String) where
  pub validate_hosts-unbound :
      (m : Hosts)
      → validate_hosts (map (λ h. h.0) m) ≡ ok tt
      → validate_hosts (map (λ h. h.0) (unbound id m)) ≡ ok tt
  unfolding validate_hosts unbound
  validate_hosts-unbound [] h = refl
  validate_hosts-unbound (e ∷ m) h =
      let (_, a, h1) = >>=-eq-ok (validate_id e.0) _ h in
      let (_, b, h2) = >>=-eq-ok (bail_if (e.0 == "local") local_host) _ h1 in
      let new : (e.0 == "local") ≡ false = bail_if-ok _ _ b in
      elim (Bool-cases (ltb 0 (length (select (λ b. not (b.1 == id)) e.1)))) [
        | inl k ↦ rw (k, a, new) (validate_hosts-unbound m h2)
        | inr k ↦ rw k (validate_hosts-unbound m h2)
      ]

  pub length-unbound : (m : Hosts) → length (unbound id m) ≤ length m
  unfolding unbound
  length-unbound [] = omega arith
  length-unbound (e ∷ m) = ground (arith, length-unbound m)

  pub All-unbound :
      (P Q : String × String → Type 0) (m : Hosts)
      → ((b : String × String) → not (b.1 == id) ≡ true → P b → Q b)
      → All P (flatten_values (λ b. b) m)
      → All Q (flatten_values (λ b. b) (unbound id m))
  unfolding unbound
  All-unbound P Q [] f h = tt
  All-unbound P Q (e ∷ m) f h =
      let rest = All-unbound P Q m f (All-append_right P e.1 _ h) in
      elim (Bool-cases (ltb 0 (length (select (λ b. not (b.1 == id)) e.1)))) [
        | inl k ↦ rw k (
            All-append Q (select (λ b. not (b.1 == id)) e.1) _
              (All-select P Q (λ b. not (b.1 == id)) e.1 f (All-append_left P e.1 _ h)) rest)
        | inr k ↦ rw k rest
      ]

  pub contains-without :
      (rs : List ProviderRecord) (x : String)
      → (x == id) ≡ false
      → contains (map (λ r. r.metadata.id) rs) x ≡ true
      → contains
          (map (λ r. r.metadata.id) (select (λ (r : ProviderRecord). not (r.metadata.id == id)) rs))
          x
        ≡ true
  contains-without [] x ne h = h
  contains-without (r ∷ rs) x ne h = ground (
    arith,
    contains-without rs x ne,
    eq_iff r.metadata.id x,
    ap (λ k. k == id) {x = r.metadata.id} {y = x},
  )

  pub any-select :
      (bs : List (String × String))
      → any (λ b. b.1 == id) (select (λ b. not (b.1 == id)) bs) ≡ false
  any-select [] = refl
  any-select (b ∷ bs) = ground (arith, any-select bs)

  pub any-unbound :
      (m : Hosts) → any (λ b. b.1 == id) (flatten_values (λ b. b) (unbound id m)) ≡ false
  unfolding unbound
  any-unbound [] = refl
  any-unbound (e ∷ m) = elim (Bool-cases (ltb 0 (length (select (λ b. not (b.1 == id)) e.1)))) [
    | inl k ↦ rw (
      k,
      any-append (λ b. b.1 == id) (select (λ b. not (b.1 == id)) e.1)
          (flatten_values (λ b. b) (unbound id m)),
      any-select e.1,
      any-unbound m,
    )
    | inr k ↦ rw k (any-unbound m)
  ]

abbrev kept_of : String → Option (List (String × String)) → List (String × String)
kept_of id none = []
kept_of id (some bs) = select (λ b. not (b.1 == id)) bs

abbrev or_none : Option (List (String × String)) → List (String × String)
or_none none = []
or_none (some bs) = bs

empty_select : (bs : List (String × String)) → ltb 0 (length bs) ≡ false → bs ≡ []
empty_select [] h = refl
empty_select (b ∷ bs) h = absurd (cc (h, lt→ltb 0 (length (b ∷ bs)) (omega arith)))

lookup-gone :
    (id host : String) (m : Hosts)
    → contains (map (λ h. h.0) m) host ≡ false
    → lookup host (unbound id m) ≡ none
unfolding unbound
lookup-gone id host [] h = refl
lookup-gone id host (e ∷ m) h =
    let (here, later) = or_parts (e.0 == host) (contains (map (λ h. h.0) m) host) h in
    elim (Bool-cases (ltb 0 (length (select (λ b. not (b.1 == id)) e.1)))) [
      | inl k ↦ rw (k, here) (lookup-gone id host m later)
      | inr k ↦ rw k (lookup-gone id host m later)
    ]
  where
    or_parts : (a b : Bool) → (a || b) ≡ false → (a ≡ false) × (b ≡ false)
    or_parts false false h = (refl, refl)
    or_parts false true h = absurd (cc h)
    or_parts true b h = absurd (cc h)

-- A host keeps its bindings to other providers, whether or not its entry is left out.
lookup-unbound :
    (id host : String) (m : Hosts)
    → has_duplicates (map (λ h. h.0) m) ≡ false
    → or_none (lookup host (unbound id m)) ≡ kept_of id (lookup host m)
unfolding unbound
lookup-unbound id host [] d = refl
lookup-unbound id host (e ∷ m) d =
    let rest = lookup-unbound id host m (ground (arith, d)) in
    elim (Bool-cases (e.0 == host)) [
      | inl h ↦ elim (Bool-cases (ltb 0 (length (select (λ b. not (b.1 == id)) e.1)))) [
        | inl k ↦ rw (k, h) refl
        | inr k ↦
            let once : contains (map (λ h. h.0) m) host ≡ false =
              rw (← ==-eq e.0 host h) (ground (arith, d)) in
            let gone = lookup-gone id host m once in
            rw (k, h) (ap or_none gone ∙ sym (empty_select _ k))
      ]
      | inr h ↦ elim (Bool-cases (ltb 0 (length (select (λ b. not (b.1 == id)) e.1)))) [
        | inl k ↦ rw (k, h) rest
        | inr k ↦ rw (k, h) rest
      ]
    ]

bindings_local :
    (c : Config) (host : String) → (host == "local") ≡ true → bindings_or_none c host ≡ c.bindings
unfolding bindings_or_none bindings_of
bindings_local c host e = ground (arith, e)

bindings_remote :
    (c : Config) (host : String)
    → (host == "local") ≡ false
    → bindings_or_none c host ≡ or_none (lookup host c.host_bindings)
unfolding bindings_or_none bindings_of
bindings_remote c host e = ground (arith, e)

pub bindings-unbound :
    (c : Config) (id host : String)
    → has_duplicates (map (λ h. h.0) c.host_bindings) ≡ false
    → bindings_or_none (without_provider c id) host
      ≡ select (λ b. not (b.1 == id)) (bindings_or_none c host)
unfolding without_provider unbound
bindings-unbound c id host d =
    let others : List (String × String) → List (String × String) = select (λ b. not (b.1 == id)) in
    elim (Bool-cases (host == "local")) [
      | inl e ↦
          bindings_local (without_provider c id) host e ∙ sym (ap others (bindings_local c host e))
      | inr e ↦
          bindings_remote (without_provider c id) host e
          ∙ lookup-unbound id host c.host_bindings d
          ∙ kept_select (lookup host c.host_bindings)
          ∙ sym (ap others (bindings_remote c host e))
    ]
  where
    kept_select :
        (o : Option (List (String × String)))
        → kept_of id o ≡ select (λ b. not (b.1 == id)) (or_none o)
    kept_select none = refl
    kept_select (some bs) = refl
