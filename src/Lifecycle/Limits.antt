-- ===== src/Lifecycle/Limits.antt =====
-- The number of owned resources, and the way to a new version of the server
-- (`handle_inner`, crates/latte-work-server/src/upgrade.rs).
use latte_work.Common.{
  ◌+◌, ◌≤◌, String, Bool, true, false, ◌&&◌, ◌||◌, List, [], ◌∷◌, some, ◌==◌, if◌then◌else◌, length,
  count_where, ltb, ltb→ge, ◌≡◌, refl, sym, ap, subst, ◌∙◌, inl, inr, Bool-cases, Option-cases,
  arith, ok, bail_if, bail_if-ok, >>=-eq-ok, ok-injective, is_empty, len,
}
use latte_work.Lifecycle.{
  Resource, same_resource, Service, Owners, owner_of, set_owner, set_owners, is_owner, is_unowned,
  is_live, adopt_all, adopt, claim, owner_limit, is_invalid_resources, with_owners,
  invalid_resources, invalid_owner, stopping, too_many_owned,
}
use latte_work.Lifecycle.Adoption.{owner_of-set, owner_of-set_other}
use latte_work.Lifecycle.Owners.{same_resource_refl, same_resource-eq}

length-set_owner :
    (r : Resource) (id : String) (os : Owners)
    → length (set_owner r id os) ≡ length os + (if is_unowned os r then 1 else 0)
unfolding set_owner owner_of
length-set_owner r id [] = omega arith
length-set_owner r id (o ∷ os) = elim (Bool-cases (same_resource o.0 r)) [
  | inl t ↦ rw t (omega arith)
  | inr t ↦ let rest = length-set_owner r id os in rw t (omega arith)
]

-- Setting an owner makes no resource unowned.
unowned-set :
    (r q : Resource) (id : String) (os : Owners)
    → is_unowned (set_owner q id os) r ≡ true
    → is_unowned os r ≡ true
unowned-set r q id os h = elim (Bool-cases (same_resource q r)) [
  | inl t ↦
      let same = same_resource-eq q r t in
      let set : owner_of r (set_owner q id os) ≡ some id =
        subst (λ x. owner_of x (set_owner q id os) ≡ some id) same (owner_of-set q id os) in
      absurd (cc (rw set at h))
  | inr t ↦
      let other = owner_of-set_other r q id os (λ p. absurd (cc (p, t, same_resource_refl r))) in
      rw other at h
]

count-set :
    (rs : List Resource) (q : Resource) (id : String) (os : Owners)
    → count_where (is_unowned (set_owner q id os)) rs ≤ count_where (is_unowned os) rs
count-set [] q id os = omega arith
count-set (r ∷ rs) q id os =
    let rest = count-set rs q id os in
    elim (Bool-cases (is_unowned (set_owner q id os) r)) [
      | inl e ↦ rw (e, unowned-set r q id os e) (omega arith)
      | inr e ↦ rw e (omega arith)
    ]

length-set_owners :
    (rs : List Resource) (id : String) (os : Owners)
    → length (set_owners rs id os) ≤ length os + count_where (is_unowned os) rs
unfolding set_owners
length-set_owners [] id os = omega arith
length-set_owners (r ∷ rs) id os =
    let rest = length-set_owners rs id (set_owner r id os) in
    let here = length-set_owner r id os in let fewer = count-set rs r id os in omega arith

-- Between requests, no more than 4096 resources are owned.
abbrev pub Few : Service → Type 0
Few s = length s.owners ≤ owner_limit

pub claim-Few :
    (s t : Service) (owner : String) (rs : List Resource)
    → claim s owner rs ≡ ok t
    → (Few t) × (s.draining ≡ false)
unfolding claim
claim-Few s t owner rs done =
    let (_, valid, rest) =
      >>=-eq-ok (bail_if (is_invalid_resources owner rs) invalid_resources) _ done in
    let (_, serving, rest') = >>=-eq-ok (bail_if s.draining stopping) _ rest in
    let past = ltb owner_limit (length s.owners + count_where (is_unowned s.owners) rs) in
    let (_, room, end) = >>=-eq-ok (bail_if past too_many_owned) _ rest' in
    let fits =
      ltb→ge owner_limit (length s.owners + count_where (is_unowned s.owners) rs)
        (bail_if-ok past too_many_owned room) in
    let size = length-set_owners rs owner s.owners in
    let owners : set_owners rs owner s.owners ≡ t.owners = ground arith in
    let more = ap length owners in (omega arith, ground arith)

-- An owned resource that is adopted adds no entry.
owned-length :
    (os : Owners) (q : Resource) (a id : String)
    → is_owner os q a ≡ true
    → length (set_owner q id os) ≡ length os
owned-length os q a id h =
    let size = length-set_owner q id os in
    let mine : is_unowned os q ≡ false = elim (Option-cases (owner_of q os)) [
      | inl e ↦ absurd (cc (rw e at h))
      | inr (o, e) ↦ rw e refl
    ] in
    let size' : length (set_owner q id os) ≡ length os + 0 = rw mine at size in omega arith

adopted-length :
    (os : Owners) (live : Bool) (q : Resource) (previous owner : String)
    → (live && (is_owner os q previous || is_owner os q owner)) ≡ true
    → length (set_owner q owner os) ≡ length os
adopted-length os live q previous owner h = elim (Bool-cases (is_owner os q previous)) [
  | inl e ↦ owned-length os q previous owner e
  | inr e ↦ owned-length os q owner owner (ground arith)
]

length-adopt_all :
    (s : Service) (previous owner : String) (rs : List Resource) (os : Owners)
    → length (adopt_all s previous owner rs os).0 ≡ length os
unfolding adopt_all
length-adopt_all s previous owner [] os = refl
length-adopt_all s previous owner (q ∷ rs) os =
    elim (Bool-cases (is_live s q && (is_owner os q previous || is_owner os q owner))) [
      | inr e ↦ rw e (length-adopt_all s previous owner rs os)
      | inl e ↦ rw e (
          length-adopt_all s previous owner rs (set_owner q owner os)
          ∙ adopted-length os (is_live s q) q previous owner e)
    ]

-- What a request other than a claim keeps of the service: the number of owners does not grow.
pub adopt-shorter :
    (s : Service) (server_id previous owner : String) (rs : List Resource)
    (end : Service × List Resource)
    → adopt s server_id previous owner rs ≡ ok end
    → (length end.0.owners ≡ length s.owners) × (end.0 ≡ with_owners s end.0.owners)
unfolding adopt
adopt-shorter s server_id previous owner rs end done =
    let (_, valid, rest) =
      >>=-eq-ok (bail_if (is_invalid_resources owner rs) invalid_resources) _ done in
    let (_, named, last) =
      >>=-eq-ok (bail_if (is_empty previous || ltb 128 (len previous)) invalid_owner) _ rest in
    let result = adopt_all s previous owner rs s.owners in
    elim (Bool-cases (server_id == s.server_id)) [
      | inr e ↦
          let same : (s, []) ≡ end = ok-injective (rw e at last) in
          let first : s ≡ end.0 = ap (λ x. x.0) same in
          (
            ap (λ t. length t.owners) (sym first),
            subst (λ t. t ≡ with_owners s t.owners) first refl,
          )
      | inl e ↦
          let same : (with_owners s result.0, result.1) ≡ end = ok-injective (rw e at last) in
          let first : with_owners s result.0 ≡ end.0 = ap (λ x. x.0) same in
          (
            ap (λ t. length t.owners) (sym first) ∙ length-adopt_all s previous owner rs s.owners,
            subst (λ t. t ≡ with_owners s t.owners) first refl,
          )
    ]
