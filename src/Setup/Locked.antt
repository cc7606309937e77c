-- ===== src/Setup/Locked.antt =====
-- The wizard once it has been completed.
use wispbox.Base.{
  ℕ, Text, codes, Bool, true, Option, ok, ◌≡◌, refl, inl, inr, Bool-cases, same, same_refl,
}
use wispbox.Base.Outcome.{Result-cases}
use wispbox.Base.Rows.{exists, find-update, find-append, find-exists, find-some, find-In}
use wispbox.Db.Models.{admin}
use wispbox.Db.Tables.{Store}
use wispbox.Db.Settings.{
  get_setting, get_setting_default, set_setting, is_initialized, append_audit,
}
use wispbox.Auth.Sessions.{Sessions, Request, require_session}
use wispbox.Setup.{
  Wizard, Step, complete_step, not_found, done, serve, run_step, signed_in_step, complete,
}

-- A setting that has been stored is read back.
get_setting-set_setting :
    (key value : Text) (s : Store) → get_setting key (set_setting key value s) ≡ ok value
unfolding get_setting set_setting
get_setting-set_setting key value s = elim (Bool-cases (exists (λ e. same e.0 key) s.settings)) [
  | inl h ↦
      let (x, q) = find-some (λ e. same e.0 key) s.settings h in
      let u =
        find-update (λ e. same e.0 key) (λ e. same e.0 key) (λ e. (e.0, value)) s.settings
          (λ e k. refl) in
      let (_, px) = find-In (λ e. same e.0 key) s.settings q in
      rw (get_setting, set_setting, h, u, q, px) refl
  | inr h ↦
      rw
        (
          get_setting,
          set_setting,
          h,
          find-append (λ e. same e.0 key) s.settings (key, value),
          find-exists (λ e. same e.0 key) s.settings h,
          same_refl key,
        )
        refl
]

module _ (hash mac : Text → Text) (hash_password : Text → Option Text)
    (parse_address : Text → Option Text) (valid_ip : Bool → Text → Bool) where
  complete-initialized :
      (now : ℕ) (ip : Text) (st : Sessions)
      → is_initialized (complete hash mac hash_password parse_address valid_ip now ip st).store
        ≡ true
  unfolding complete is_initialized get_setting_default append_audit get_setting
  complete-initialized now ip st =
      rw
        (
          is_initialized,
          get_setting_default,
          get_setting-set_setting (codes "initialized") (codes "true") st.store,
        )
        (same_refl (codes "true"))

  locked :
      (now : ℕ) (token ip : Text) (r : Request) (step : Step) (w : Wizard)
      → is_initialized w.sessions.store ≡ true
      → serve hash mac hash_password parse_address valid_ip now token ip r step w ≡ (w, not_found)
  unfolding serve
  locked now token ip r step w h = rw (serve, h) refl

  completed :
      (now : ℕ) (token ip : Text) (r : Request) (w : Wizard)
      → (serve hash mac hash_password parse_address valid_ip now token ip r complete_step w).1
        ≡ done
      → is_initialized
          (serve hash mac hash_password parse_address valid_ip now token ip r complete_step
            w).0.sessions.store
        ≡ true
  unfolding serve run_step signed_in_step
  completed now token ip r w h = elim (Bool-cases (is_initialized w.sessions.store)) [
    | inl i ↦ cc (rw (serve, i) at h)
    | inr i ↦ elim (Result-cases (require_session hash mac now r admin w.sessions).1) [
      | inr (e, q) ↦ cc (rw (serve, i, run_step, q) at h)
      | inl (x, q) ↦
          rw (serve, i, run_step, q)
            (complete-initialized now ip (require_session hash mac now r admin w.sessions).0)
    ]
  ]

  -- Once the wizard has been completed, no request to it, whoever sends it, gets an answer but "not found" or
  -- changes anything.
  pub complete_locks :
      (now later : ℕ) (token token' ip ip' : Text) (r r' : Request) (step : Step) (w : Wizard)
      → (serve hash mac hash_password parse_address valid_ip now token ip r complete_step w).1
        ≡ done
      → let after =
          (serve hash mac hash_password parse_address valid_ip now token ip r complete_step w).0 in
        serve hash mac hash_password parse_address valid_ip later token' ip' r' step after
        ≡ (after, not_found)
  complete_locks now later token token' ip ip' r r' step w h =
      locked later token' ip' r' step _ (completed now token ip r w h)
