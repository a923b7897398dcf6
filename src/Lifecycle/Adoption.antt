-- ===== src/Lifecycle/Adoption.antt =====
-- What an App adopts from another (`AdoptResources`, crates/latte-work-server/src/upgrade.rs).
use latte_work.Common.{
  String, true, false, ◌&&◌, ◌||◌, List, [], ◌∷◌, some, ◌==◌, if◌then◌else◌, ◌≡◌, ◌≢◌, ◌⊎◌, refl,
  sym, ap, subst, ◌∙◌, inl, inr, Bool-cases, Option-cases, ==-eq, In, arith, ok, bail_if, >>=-eq-ok,
  is_empty, ltb, len,
}
use latte_work.Lifecycle.{
  Resource, same_resource, Service, Owners, owner_of, set_owner, is_owner, is_live, adopt_all,
  adopt, is_invalid_resources, with_owners, invalid_resources, invalid_owner,
}
use latte_work.Lifecycle.Owners.{same_resource_refl, same_resource-eq, same_resource_ne}

pub owner_of-set :
    (r : Resource) (id : String) (os : Owners) → owner_of r (set_owner r id os) ≡ some id
unfolding owner_of set_owner
owner_of-set r id [] = rw (same_resource_refl r) refl
owner_of-set r id (o ∷ os) = elim (Bool-cases (same_resource o.0 r)) [
  | inl t ↦ rw (t, same_resource_refl r) refl
  | inr t ↦ rw (t, t) (owner_of-set r id os)
]

pub owner_of-set_other :
    (r q : Resource) (id : String) (os : Owners)
    → q ≢ r
    → owner_of r (set_owner q id os) ≡ owner_of r os
unfolding owner_of set_owner
owner_of-set_other r q id [] ne = rw (same_resource_ne q r ne) refl
owner_of-set_other r q id (o ∷ os) ne = elim (Bool-cases (same_resource o.0 q)) [
  | inl t ↦
      let other : same_resource o.0 r ≡ false =
        same_resource_ne o.0 r (λ p. ne (sym (same_resource-eq o.0 q t) ∙ p)) in
      rw (t, same_resource_ne q r ne, other) refl
  | inr t ↦
      rw t (ap (λ w. if same_resource o.0 r then some o.1 else w) (owner_of-set_other r q id os ne))
]

is_owner-eq :
    (os : Owners) (r : Resource) (id : String) → is_owner os r id ≡ true → owner_of r os ≡ some id
is_owner-eq os r id h = elim (Option-cases (owner_of r os)) [
  | inl e ↦ absurd (cc (rw e at h))
  | inr (o, e) ↦ e ∙ ap some (==-eq o id (rw e at h))
]

module _ (s : Service) (previous owner : String) where
  abbrev pub Among : Owners → Resource → Type 0
  Among os r = (owner_of r os ≡ some previous) ⊎ (owner_of r os ≡ some owner)

  may_adopt :
      (r : Resource) (os : Owners)
      → (is_live s r && (is_owner os r previous || is_owner os r owner)) ≡ true
      → (is_live s r ≡ true) × Among os r
  may_adopt r os h = elim (Bool-cases (is_owner os r previous)) [
    | inl e ↦ (ground arith, inl (is_owner-eq os r previous e))
    | inr e ↦
        let second : is_owner os r owner ≡ true = ground arith in
        (ground arith, inr (is_owner-eq os r owner second))
  ]

  -- Who owns a resource once the owner of another, or of it, is set.
  Among-set :
      (r q : Resource) (os : Owners) → Among os q → Among (set_owner q owner os) r → Among os r
  Among-set r q os was is = elim (Bool-cases (same_resource q r)) [
    | inl t ↦ subst (Among os) (same_resource-eq q r t) was
    | inr t ↦
        let other =
          owner_of-set_other r q owner os (λ p. absurd (cc (p, t, same_resource_refl r))) in
        elim is [ inl e ↦ inl (sym other ∙ e) | inr e ↦ inr (sym other ∙ e) ]
  ]

  -- What the loop adopts is alive, and was the previous owner's or the new one's.
  adopt_all-Among :
      (rs : List Resource) (os : Owners) (r : Resource)
      → In r (adopt_all s previous owner rs os).1
      → (is_live s r ≡ true) × Among os r
  unfolding adopt_all
  adopt_all-Among [] os r m = elim m [ ]
  adopt_all-Among (q ∷ rs) os r m =
      elim (Bool-cases (is_live s q && (is_owner os q previous || is_owner os q owner))) [
        | inr e ↦ adopt_all-Among rs os r (rw e at m)
        | inl e ↦
            let (live, was) = may_adopt q os e in
            let m' : In r (q ∷ (adopt_all s previous owner rs (set_owner q owner os)).1) =
              rw e at m in
            elim m' [
              | inl same ↦ subst (λ x. (is_live s x ≡ true) × Among os x) same (live, was)
              | inr later ↦
                  let (alive, is) = adopt_all-Among rs (set_owner q owner os) r later in
                  (alive, Among-set r q os was is)
            ]
      ]

  -- A resource of the owner stays its own through the loop.
  adopt_all-mine :
      (rs : List Resource) (os : Owners) (r : Resource)
      → owner_of r os ≡ some owner
      → owner_of r (adopt_all s previous owner rs os).0 ≡ some owner
  unfolding adopt_all
  adopt_all-mine [] os r h = h
  adopt_all-mine (q ∷ rs) os r h =
      elim (Bool-cases (is_live s q && (is_owner os q previous || is_owner os q owner))) [
        | inr e ↦ rw e (adopt_all-mine rs os r h)
        | inl e ↦
            let still : owner_of r (set_owner q owner os) ≡ some owner =
              elim (Bool-cases (same_resource q r)) [
                | inl t ↦
                    subst (λ x. owner_of x (set_owner q owner os) ≡ some owner)
                      (same_resource-eq q r t) (owner_of-set q owner os)
                | inr t ↦
                    owner_of-set_other r q owner os (λ p. absurd (cc (p, t, same_resource_refl r)))
                    ∙ h
              ] in
            rw e (adopt_all-mine rs (set_owner q owner os) r still)
      ]

  adopt_all-owned :
      (rs : List Resource) (os : Owners) (r : Resource)
      → In r (adopt_all s previous owner rs os).1
      → owner_of r (adopt_all s previous owner rs os).0 ≡ some owner
  unfolding adopt_all
  adopt_all-owned [] os r m = elim m [ ]
  adopt_all-owned (q ∷ rs) os r m =
      elim (Bool-cases (is_live s q && (is_owner os q previous || is_owner os q owner))) [
        | inr e ↦ rw e (adopt_all-owned rs os r (rw e at m))
        | inl e ↦
            let m' : In r (q ∷ (adopt_all s previous owner rs (set_owner q owner os)).1) =
              rw e at m in
            rw e (elim m' [
              | inl same ↦ adopt_all-mine rs (set_owner q owner os) r (
                  subst (λ x. owner_of x (set_owner q owner os) ≡ some owner) same
                    (owner_of-set q owner os))
              | inr later ↦ adopt_all-owned rs (set_owner q owner os) r later
            ])
      ]

  -- A resource of a third owner stays with that one.
  adopt_all-foreign :
      (rs : List Resource) (os : Owners) (r : Resource) (other : String)
      → other ≢ previous
      → other ≢ owner
      → owner_of r os ≡ some other
      → owner_of r (adopt_all s previous owner rs os).0 ≡ some other
  unfolding adopt_all
  adopt_all-foreign [] os r other np nq h = h
  adopt_all-foreign (q ∷ rs) os r other np nq h =
      elim (Bool-cases (is_live s q && (is_owner os q previous || is_owner os q owner))) [
        | inr e ↦ rw e (adopt_all-foreign rs os r other np nq h)
        | inl e ↦
            let was = (may_adopt q os e).1 in
            let apart : q ≢ r = λ p. absurd (elim (subst (Among os) p was) [
              | inl w ↦ np (ground arith)
              | inr w ↦ nq (ground arith)
            ]) in
            rw e (
              adopt_all-foreign rs (set_owner q owner os) r other np nq
                (owner_of-set_other r q owner os apart ∙ h))
      ]

-- What `AdoptResources` returns as adopted was alive, and was the previous owner's or the new owner's
-- already; it is the new owner's afterwards, and the request named this server.
pub adopt-Among :
    (s : Service) (server_id previous owner : String) (rs : List Resource)
    (end : Service × List Resource) (r : Resource)
    → adopt s server_id previous owner rs ≡ ok end
    → In r end.1
    → (is_live s r ≡ true)
      × Among s previous owner s.owners r
      × (owner_of r end.0.owners ≡ some owner)
      × (server_id ≡ s.server_id)
unfolding adopt
adopt-Among s server_id previous owner rs end r done m =
    let (_, valid, rest) =
      >>=-eq-ok (bail_if (is_invalid_resources owner rs) invalid_resources) _ done in
    let (_, named, last) =
      >>=-eq-ok (bail_if (is_empty previous || ltb 128 (len previous)) invalid_owner) _ rest in
    elim (Bool-cases (server_id == s.server_id)) [
      | inr e ↦
          let nothing : ok (s, []) ≡ ok end = rw e at last in
          let empty : [] ≡ end.1 = ground arith in
          let m' : In r [] = rw (← empty) at m in elim m' [ ]
      | inl e ↦
          let result = adopt_all s previous owner rs s.owners in
          let taken : ok (with_owners s result.0, result.1) ≡ ok end = rw e at last in
          let list : result.1 ≡ end.1 = ground arith in
          let owners : result.0 ≡ end.0.owners = ground arith in
          let m' : In r result.1 = rw (← list) at m in
          let (live, was) = adopt_all-Among s previous owner rs s.owners r m' in
          (
            live,
            was,
            rw (← owners) (adopt_all-owned s previous owner rs s.owners r m'),
            ==-eq _ _ e,
          )
    ]
