-- ===== src/Config/History.antt =====
-- What every history of calls keeps of the configuration (crates/latte-work-config/src/lib.rs).
use latte_work.Common.{
  String, Bool, false, not, List, [], ◌∷◌, ◌≡◌, refl, ◌∙◌, Option, ltb, arith, Result, ok, err,
  bail_if, bail_if-ok, >>=-eq-ok, is_some_and,
}
use latte_work.Protocol.Providers.{ProviderDraft}
use latte_work.Protocol.Responses.{Response}
use latte_work.Config.State.{
  ProviderRecord, Config, ConfigLibrary, ConfigError, config_too_large, not_saved, address_changed,
  protocol_bound,
}
use latte_work.Config.Validation.{validate_id, validate_config, validate_provider}
use latte_work.Config.Bindings.{
  list, list_for_host, persist, bind, forget_host, delete, rebound, max_config,
}
use latte_work.Config.Drafts.{
  save, save_tidy, tidy, existing, drops_credential, changes_bound_protocol, saved_credential,
  saved_record, replace_first,
}
use latte_work.Config.Steps.{
  ConfigCall, binds, forgets, deletes, saves, written_by, config_call, config_run,
}
use latte_work.Config.Resolved.{validate_config-Accepted, Answers, Accepted-Answers}

module _ (library : ConfigLibrary) where
  pub persist-ok :
      (written : Bool) (c : Config) (a : Response × Config)
      → persist library written c ≡ ok a
      → (validate_config library c ≡ ok tt) × (a.1 ≡ c)
  unfolding persist
  persist-ok written c a h =
      let (_, v, h1) = >>=-eq-ok (validate_config library c) _ h in
      let (_, _, h2) =
        >>=-eq-ok (bail_if (ltb max_config (library.config_len c)) config_too_large) _ h1 in
      let (_, _, h3) = >>=-eq-ok (bail_if (not written) not_saved) _ h2 in
      let (r, _, h4) = >>=-eq-ok (list c) _ h3 in (v, ground arith)

  pub bind-ok :
      (written : Bool) (c : Config) (host agent : String) (id : Option String)
      (a : Response × Config)
      → bind library written c host agent id ≡ ok a
      → (validate_id host ≡ ok tt)
        × (validate_id agent ≡ ok tt)
        × (validate_config library a.1 ≡ ok tt)
        × (a.1 ≡ rebound c host agent id)
  unfolding bind
  bind-ok written c host agent id a h =
      let (_, i, h1) = >>=-eq-ok (validate_id host) _ h in
      let (_, j, h2) = >>=-eq-ok (validate_id agent) _ h1 in
      let (saved, s, h3) = >>=-eq-ok (persist library written (rebound c host agent id)) _ h2 in
      let (r, _, h4) = >>=-eq-ok (list_for_host saved.1 host) _ h3 in
      let (v, e) = persist-ok written _ saved s in
      let f : a.1 ≡ saved.1 = ground arith in (i, j, rw (f, e) v, f ∙ e)

  -- What a draft that is saved has passed.
  pub record Saved (c : Config) (draft : ProviderDraft) (fresh_id fresh_revision : String)
      (c' : Config) : Type 0 where
    pub old : Option ProviderRecord
    pub credential : String
    pub found : existing c draft.id ≡ ok old
    pub address : is_some_and (drops_credential draft) old ≡ false
    pub protocol : is_some_and (changes_bound_protocol c draft) old ≡ false
    pub kept : saved_credential draft old ≡ ok credential
    pub accepted : validate_config library c' ≡ ok tt
    pub result : c' ≡ record c {
      providers = replace_first (saved_record draft credential fresh_id fresh_revision) c.providers;
    }

  pub save_tidy-ok :
      (written : Bool) (c : Config) (draft : ProviderDraft) (fresh_id fresh_revision : String)
      (a : Response × Config)
      → save_tidy library written c draft fresh_id fresh_revision ≡ ok a
      → Saved c draft fresh_id fresh_revision a.1
  unfolding save_tidy
  save_tidy-ok written c draft fresh_id fresh_revision a h =
      let (old, e, h1) = >>=-eq-ok (existing c draft.id) _ h in
      let (_, f, h2) =
        >>=-eq-ok (bail_if (is_some_and (drops_credential draft) old) address_changed) _ h1 in
      let (_, g, h3) =
        >>=-eq-ok (bail_if (is_some_and (changes_bound_protocol c draft) old) protocol_bound) _
          h2 in
      let (credential, i, h4) = >>=-eq-ok (saved_credential draft old) _ h3 in
      let (_, j, h5) =
        >>=-eq-ok
          (validate_provider library
            (saved_record draft credential fresh_id fresh_revision).metadata
            (saved_record draft credential fresh_id fresh_revision).credential)
          _ h4 in
      let (v, k) = persist-ok written _ a h5 in
      record {
        old = old;
        credential = credential;
        found = e;
        address = bail_if-ok _ _ f;
        protocol = bail_if-ok _ _ g;
        kept = i;
        accepted = rw k v;
        result = k;
      }

  config_call-valid :
      (c : Config) (k : Bool × ConfigCall) (a : Response × Config)
      → config_call library c k ≡ ok a
      → validate_config library a.1 ≡ ok tt
  unfolding config_call forget_host delete save
  config_call-valid c (written, binds host agent id) a h = (bind-ok written c host agent id a h).2
  config_call-valid c (written, forgets host) a h =
      let (_, i, h1) = >>=-eq-ok (validate_id host) _ h in
      let (v, e) = persist-ok written _ a h1 in rw e v
  config_call-valid c (written, deletes id) a h = let (v, e) = persist-ok written _ a h in rw e v
  config_call-valid c (written, saves draft fresh_id fresh_revision) a h =
      (save_tidy-ok written c (tidy draft) fresh_id fresh_revision a h).accepted

  pub config_run-valid :
      (c : Config) (ks : List (Bool × ConfigCall))
      → validate_config library c ≡ ok tt
      → validate_config library (config_run library c ks) ≡ ok tt
  unfolding config_run
  config_run-valid c [] v = v
  config_run-valid c (k ∷ ks) v =
      config_run-valid (written_by c (config_call library c k)) ks
        (by_result (config_call library c k) refl)
    where
      by_result :
          (r : Result ConfigError (Response × Config))
          → config_call library c k ≡ r
          → validate_config library (written_by c r) ≡ ok tt
      by_result (ok a) e = config_call-valid c k a e
      by_result (err x) e = v

  -- After every history of calls on an accepted configuration, no list of the providers panics, and
  -- for each valid host and Agent the snapshot is none if the Agent is bound to none there, and
  -- otherwise the stored provider that it is bound to, with its credential.
  pub config_run-Answers :
      (c : Config) (ks : List (Bool × ConfigCall)) (host agent : String)
      → validate_config library c ≡ ok tt
      → validate_id host ≡ ok tt
      → validate_id agent ≡ ok tt
      → Answers (config_run library c ks) host agent
  config_run-Answers c ks host agent v h k =
      Accepted-Answers library (config_run library c ks) host agent
        (validate_config-Accepted library _ (config_run-valid c ks v)) h k
