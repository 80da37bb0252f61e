-- ===== src/Config/Production.antt =====
-- backend/internal/config/config.go: which environments a server starts in.
use stripe_payment_integrati.Prelude.{
  subst, sym, ◌==◌, ◌≡◌, true, false, ◌&&◌, starts_with, arith, refl, String, ◌⊎◌, Bool-cases,
  if◌then◌else◌, inl, inr, subst, ◌↔◌,
}
use stripe_payment_integrati.Config.{
  Config, accepted, contains, validate_production, weak_secret, Environment, String,
  with_dev_secret, production, read_config, validate, get_env, development, load, check_config,
}

-- What a server in production needs: public origins, encrypted connections, a live key, a secret of its
-- own, and a key for its metrics where it shows them.
pub record Hardened (c : Config) : Type 0 where
  pub public_origin : contains c.cors_origin "localhost" ≡ false
  pub https_frontend : starts_with c.app_frontend_url "https://" ≡ true
  pub encrypted_database : contains c.database_url "sslmode=disable" ≡ false
  pub live_key : starts_with c.stripe_secret_key "sk_test_" ≡ false
  pub own_secret : weak_secret c.auth_jwt_secret ≡ false
  pub guarded_metrics : (c.metrics_enabled && (c.metrics_api_key == "")) ≡ false

hardened : (c : Config) → validate_production c ≡ accepted c → Hardened c
unfolding validate_production
hardened c h = record {
  public_origin = ground arith;
  https_frontend = ground arith;
  encrypted_database = ground arith;
  live_key = ground arith;
  own_secret = ground arith;
  guarded_metrics = ground arith;
}

accepts : (c : Config) → Hardened c → validate_production c ≡ accepted c
unfolding validate_production
accepts c h =
    rw
      (
        h.public_origin, h.https_frontend, h.encrypted_database, h.live_key, h.own_secret,
        h.guarded_metrics,
      )
      refl

-- The environment's name, with that of development where there is none.
abbrev pub env_name : Environment → String
env_name os = get_env os "ENV" development

-- The configuration that is checked: that of the environment, in development with the file .env and a
-- secret for the developer.
abbrev pub candidate : (Environment → Environment) → Environment → Config
candidate dotenv os =
    with_dev_secret
      (read_config (if env_name os == development then dotenv os else os) (env_name os))

pub record Acceptable (dotenv : Environment → Environment) (os : Environment) : Type 0 where
  pub stripe_key : ((candidate dotenv os).stripe_secret_key == "") ≡ false
  pub webhook_secret : ((candidate dotenv os).stripe_webhook_secret == "") ≡ false
  pub fit : ((env_name os == production) ≡ false) ⊎ Hardened (candidate dotenv os)

module _ (dotenv : Environment → Environment) (os : Environment) where
  abbrev read : Config
  read = read_config (if env_name os == development then dotenv os else os) (env_name os)

  -- The developer's secret changes nothing else.
  same_secrets :
      (c : Config)
      → ((with_dev_secret c).stripe_secret_key ≡ c.stripe_secret_key)
        × ((with_dev_secret c).stripe_webhook_secret ≡ c.stripe_webhook_secret)
        × ((with_dev_secret c).env ≡ c.env)
  unfolding with_dev_secret
  same_secrets c = elim (Bool-cases ((c.auth_jwt_secret == "") && (c.env == development))) [
    | inl h ↦ rw h (refl, refl, refl)
    | inr h ↦ rw h (refl, refl, refl)
  ]

  env_read : (candidate dotenv os).env ≡ env_name os
  unfolding read_config
  env_read = (same_secrets read).2

  validate_iff :
      (c : Config) → (validate c ≡ accepted c) ↔ (((c.env == production) ≡ false) ⊎ Hardened c)
  unfolding validate
  validate_iff c = elim (Bool-cases (c.env == production)) [
    | inl prod ↦ rw prod (
      (λ h. inr (hardened c h)),
      (λ x. elim x [ inl other ↦ absurd (ground arith) | inr fit ↦ accepts c fit ]),
    )
    | inr other ↦ rw other ((λ h. inl refl), (λ x. refl))
  ]

  -- A server starts, with the configuration of its environment, exactly where both secrets of Stripe are
  -- set and, in production, the configuration is hardened; any other environment is refused.
  pub load_iff : (load dotenv os ≡ accepted (candidate dotenv os)) ↔ Acceptable dotenv os
  unfolding load check_config
  load_iff =
      let (key, hook, env) = same_secrets read in
      elim (Bool-cases (read.stripe_secret_key == "")) [
        | inl unset ↦
            rw unset ((λ h. absurd (ground arith)), (λ a. absurd (ground (arith, a.stripe_key))))
        | inr some_key ↦ elim (Bool-cases (read.stripe_webhook_secret == "")) [
          | inl unset ↦
              rw (some_key, unset)
                ((λ h. absurd (ground arith)), (λ a. absurd (ground (arith, a.webhook_secret))))
          | inr some_hook ↦
              rw (some_key, some_hook)
                (
                  (λ h. record {
                    stripe_key = rw (key, some_key) refl;
                    webhook_secret = rw (hook, some_hook) refl;
                    fit =
                        subst (λ e. ((e == production) ≡ false) ⊎ Hardened (candidate dotenv os))
                          env_read ((validate_iff (candidate dotenv os)).0 h);
                  }),
                  (λ a. (validate_iff (candidate dotenv os)).1 (
                      subst (λ e. ((e == production) ≡ false) ⊎ Hardened (candidate dotenv os))
                        (sym env_read) a.fit)),
                )
        ]
      ]
