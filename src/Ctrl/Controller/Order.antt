-- ===== src/Ctrl/Controller/Order.antt =====
-- What has to be ready before the driver gets its job.
use simkube.Common.{
  ◌≡◌, refl, sym, Bool, true, false, not, ◌||◌, ◌∙◌, none, List, [], ◌∷◌, String, Outcome, ◌>>>◌,
  ok, err, panic, is_some, string_eq, arith,
}
use simkube.Ctrl.Cluster.{
  Cluster, Surroundings, Write, create_service, create_certificate, patch_status,
}
use simkube.Ctrl.Controller.{
  service_step, secret_step, webhook_step, build_job_step, job_step, create, write,
  setup_sim_metaroot,
}

-- What holds of the cluster when a step fails, and after what follows it, holds of the whole.
pub bind_ind :
    {A B : Type 0} (P : Cluster → Type 0) (x : Outcome A × Cluster)
    (k : A → Cluster → Outcome B × Cluster)
    → P (x.1)
    → ((a : A) → x.0 ≡ ok a → P ((k a (x.1)).1))
    → P ((x >>> k).1)
bind_ind P (ok a, c) k base step = step a refl
bind_ind P (err e, c) k base step = base
bind_ind P (panic, c) k base step = base

pub create-keeps :
    {B : Type 0} (f : Cluster → B) (env : Surroundings) (present : Bool) (w : Write)
    (after before : Cluster)
    → f after ≡ f before
    → f ((create env present w after before).1) ≡ f before
unfolding create write
create-keeps f env true w after before e = refl
create-keeps f env false w after before e = go (env.accepts w) refl
  where
    go : (o : Outcome (Unit {0})) → env.accepts w ≡ o → f ((write env w after before).1) ≡ f before
    go (ok u) h = rw (write, h) e
    go (err m) h = rw (write, h) refl
    go panic h = rw (write, h) refl

create-sets :
    (f : Cluster → Bool) (env : Surroundings) (w : Write) (after before : Cluster) (u : Unit {0})
    → f after ≡ true
    → (create env (f before) w after before).0 ≡ ok u
    → f ((create env (f before) w after before).1) ≡ true
unfolding create write
create-sets f env w after before u e done = go (f before) refl done
  where
    go :
        (b : Bool)
        → f before ≡ b
        → (create env b w after before).0 ≡ ok u
        → f ((create env b w after before).1) ≡ true
    go true h d = h
    go false h d = ground (arith, e)

webhook_step-job :
    (env : Surroundings) (c : Cluster)
    → c.job ≡ none
    → is_some ((webhook_step env c).1).job ≡ true
    → ((webhook_step env c).1).webhook ≡ true
unfolding webhook_step build_job_step job_step create write
webhook_step-job env c absent present = ground arith

-- The list of secrets stays as it is.
secret_step-job :
    (env : Surroundings) (c : Cluster)
    → c.job ≡ none
    → is_some ((secret_step env c).1).job ≡ true
    → (((secret_step env c).1).webhook ≡ true) × (s : String) × (c.secrets ≡ s ∷ [])
unfolding secret_step
secret_step-job env c absent present = go c.secrets refl
  where
    go :
        (l : List String)
        → c.secrets ≡ l
        → (((secret_step env c).1).webhook ≡ true) × (s : String) × (c.secrets ≡ s ∷ [])
    go [] e = absurd (ground arith)
    go (s ∷ []) e =
        let step : secret_step env c ≡ webhook_step env c = ground arith in
        (rw step (webhook_step-job env c absent (rw step at present)), s, e)
    go (s ∷ t ∷ l) e = absurd (ground arith)

secret_step-service :
    (env : Surroundings) (c : Cluster) → ((secret_step env c).1).service ≡ c.service
unfolding secret_step webhook_step build_job_step job_step create write
secret_step-service env c = ground arith

pub service_step-job :
    (env : Surroundings) (c : Cluster)
    → c.job ≡ none
    → is_some ((service_step env c).1).job ≡ true
    → (((service_step env c).1).webhook ≡ true)
      × (((service_step env c).1).service ≡ true)
      × (s : String) × (c.secrets ≡ s ∷ [])
unfolding service_step
service_step-job env c absent =
    bind_ind Good made
      (λ u c.
        create env (not env.use_cert_manager || c.certificate) create_certificate
          (record c { certificate = true }) c
        >>> λ u c. secret_step env c)
      (failed (made.1) made_job) after_service
  where
    Good : Cluster → Type 0
    Good d =
        is_some d.job ≡ true
        → (d.webhook ≡ true) × (d.service ≡ true) × (s : String) × (c.secrets ≡ s ∷ [])

    made : Outcome (Unit {0}) × Cluster
    made = create env c.service create_service (record c { service = true }) c

    made_job : (made.1).job ≡ c.job
    made_job =
        create-keeps (λ d. d.job) env c.service create_service (record c { service = true }) c refl

    failed : (d : Cluster) → d.job ≡ c.job → Good d
    failed d e present = absurd (ground (arith, absent))

    after_service :
        (u : Unit {0})
        → made.0 ≡ ok u
        → Good (
            (create env
                (not env.use_cert_manager || (made.1).certificate)
                create_certificate
                (record (made.1) { certificate = true })
                (made.1)
              >>> λ u c. secret_step env c).1)
    after_service u done =
        bind_ind Good certified (λ u c. secret_step env c)
          (failed (certified.1) (certified_job ∙ made_job))
          (λ v issued present. after_secret present)
      where
        certified : Outcome (Unit {0}) × Cluster
        certified =
            create env (not env.use_cert_manager || (made.1).certificate) create_certificate
              (record (made.1) { certificate = true }) (made.1)

        keeps :
            {B : Type 0} (f : Cluster → B)
            → f (record (made.1) { certificate = true }) ≡ f (made.1)
            → f (certified.1) ≡ f (made.1)
        keeps f e =
            create-keeps f env (not env.use_cert_manager || (made.1).certificate) create_certificate
              (record (made.1) { certificate = true }) (made.1) e

        certified_job : (certified.1).job ≡ (made.1).job
        certified_job = keeps (λ d. d.job) refl

        after_secret : Good ((secret_step env (certified.1)).1)
        after_secret present =
            let (webhook, secret, one) =
              secret_step-job env (certified.1) (certified_job ∙ made_job ∙ absent) present in
            (
              webhook,
              secret_step-service env (certified.1)
                  ∙ keeps (λ d. d.service) refl
                  ∙ create-sets (λ d. d.service) env create_service (record c { service = true }) c
                      u refl done,
              secret,
              sym (
                    keeps (λ d. d.secrets) refl
                    ∙ create-keeps (λ d. d.secrets) env c.service create_service
                        (record c { service = true }) c refl)
                  ∙ one,
            )

-- The steps of a reconciliation that find what they want, or are not refused.
pub setup_sim_metaroot-present :
    (env : Surroundings) (c : Cluster) → c.metaroot ≡ true → setup_sim_metaroot env c ≡ (ok tt, c)
unfolding setup_sim_metaroot create
setup_sim_metaroot-present env c rooted = ground arith

pub patch_accepted :
    (env : Surroundings) (before after : Cluster)
    → env.accepts patch_status ≡ ok tt
    → write env patch_status after before ≡ (ok tt, after)
unfolding write
patch_accepted env before after accepted = ground arith
