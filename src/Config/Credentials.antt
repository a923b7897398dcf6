-- ===== src/Config/Credentials.antt =====
-- What a saved draft does to the stored credential and to the bindings (`save`,
-- crates/latte-work-config/src/lib.rs).
use latte_work.Common.{
  String, Bool, true, false, List, [], ◌∷◌, ◌≡◌, refl, sym, ap, ◌∙◌, inl, inr, none, some, ◌==◌,
  ==-eq, ==_refl, find?, Bool-cases, Option-cases, arith, ok, is_some_and,
}
use latte_work.Protocol.Providers.{ProviderAuth, ProviderDraft}
use latte_work.Protocol.Responses.{Response}
use latte_work.Config.State.{ProviderRecord, Config, ConfigLibrary, find_provider}
use latte_work.Config.Validation.{same_auth}
use latte_work.Config.Drafts.{
  save, tidy, existing, drops_credential, saved_credential, saved_record, replace_first,
}
use latte_work.Config.History.{Saved, save_tidy-ok}

same_auth-eq : (a b : ProviderAuth) → same_auth a b ≡ true → a ≡ b
same_auth-eq ProviderAuth.none ProviderAuth.none h = refl
same_auth-eq ProviderAuth.bearer ProviderAuth.bearer h = refl
same_auth-eq ProviderAuth.api_key ProviderAuth.api_key h = refl
same_auth-eq a b h = absurd (ground arith)

-- The record that replaced another is the one that its identifier finds, and no other is touched.
find-replace_first :
    (r : ProviderRecord) (rs : List ProviderRecord)
    → find? (λ x. x.metadata.id == r.metadata.id) (replace_first r rs) ≡ some r
unfolding replace_first
find-replace_first r [] = rw (==_refl r.metadata.id)
find-replace_first r (x ∷ xs) = elim (Bool-cases (x.metadata.id == r.metadata.id)) [
  | inl e ↦ rw (e, ==_refl r.metadata.id)
  | inr e ↦ rw (e, e) (find-replace_first r xs)
]

module _ (library : ConfigLibrary) (c c' : Config) (draft : ProviderDraft)
    (id fresh_id fresh_revision : String) (named : draft.id ≡ some id)
    (s : Saved library c draft fresh_id fresh_revision c') where
  before : (old : ProviderRecord) × (find_provider c id ≡ some old) × (s.old ≡ some old)
  unfolding existing
  before =
      let e : existing c (some id) ≡ ok s.old = rw named at s.found in
      elim (Option-cases (find_provider c id)) [
        | inl n ↦ absurd (ground arith)
        | inr (old, n) ↦ (old, n, ground arith)
      ]

  new_record : ProviderRecord
  new_record = saved_record draft s.credential fresh_id fresh_revision

  after_save : find_provider c' id ≡ some new_record
  unfolding new_record
  after_save =
      let e : (saved_record draft s.credential fresh_id fresh_revision).metadata.id ≡ id =
        unfold saved_record in rw named in
      rw s.result (
        ap
          (λ k.
            find? (λ (x : ProviderRecord). x.metadata.id == k)
              (replace_first new_record c.providers))
          (sym e)
        ∙ find-replace_first new_record c.providers)

-- A draft without a credential whose authentication is not `none` that is saved over a provider keeps
-- that provider's credential, and then neither the address nor the authentication differs from the
-- stored one's, so that a stored credential is never sent elsewhere.
pub credential_stays :
    (library : ConfigLibrary) (written : Bool) (c : Config) (draft : ProviderDraft)
    (id fresh_id fresh_revision : String) (a : Response × Config)
    → draft.id ≡ some id
    → draft.credential ≡ none
    → same_auth draft.auth ProviderAuth.none ≡ false
    → save library written c draft fresh_id fresh_revision ≡ ok a
    → (old : ProviderRecord) × (new : ProviderRecord) × (find_provider c id ≡ some old)
      × (find_provider a.1 id ≡ some new)
      × (new.credential ≡ old.credential)
      × (new.metadata.base_url ≡ old.metadata.base_url)
      × (new.metadata.auth ≡ old.metadata.auth)
unfolding save new_record
credential_stays library written c draft id fresh_id fresh_revision a named empty auth h =
    let s = save_tidy-ok library written c (tidy draft) fresh_id fresh_revision a h in
    let n : (tidy draft).id ≡ some id = unfold tidy in named in
    let e : (tidy draft).credential ≡ none = unfold tidy in empty in
    let f : same_auth (tidy draft).auth ProviderAuth.none ≡ false = unfold tidy in auth in
    let (old, found, k) = before library c a.1 (tidy draft) id fresh_id fresh_revision n s in
    let kept : drops_credential (tidy draft) old ≡ false =
      ap (is_some_and (drops_credential (tidy draft))) (sym k) ∙ s.address in
    let same : saved_credential (tidy draft) (some old) ≡ ok s.credential =
      ap (saved_credential (tidy draft)) (sym k) ∙ s.kept in
    let url : (old.metadata.base_url == (tidy draft).base_url) ≡ true =
      unfold drops_credential in ground (arith, kept) in
    let method : same_auth old.metadata.auth (tidy draft).auth ≡ true =
      unfold drops_credential in ground (arith, kept) in
    (
      old,
      saved_record (tidy draft) s.credential fresh_id fresh_revision,
      found,
      after_save library c a.1 (tidy draft) id fresh_id fresh_revision n s,
      unfold saved_record in unfold saved_credential in ground (arith, same),
      unfold saved_record in sym (==-eq _ _ url),
      unfold saved_record in sym (same_auth-eq _ _ method),
    )

-- The identifier of the record that a draft is saved as.
abbrev pub saved_id : ProviderDraft → String → String
saved_id draft fresh_id = elim draft.id [ none ↦ fresh_id | some id ↦ id ]
