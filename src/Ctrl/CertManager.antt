-- ===== src/Ctrl/CertManager.antt =====
-- sk-ctrl/src/cert_manager.rs: the certificate of the driver's webhook.
use simkube.Common.{Option, none, some, List, [], ◌∷◌, String, Outcome, ok, ◌>>=◌}
use simkube.Common.Map.{Map}
use simkube.Common.Text.{append}
use simkube.Core.Constants.{simulation_label_key}
use simkube.Core.Kube.{ObjectMeta, TypeMeta, Naming}
use simkube.Core.Simulation.{Simulation, SimulationRoot, root_owner}
use simkube.Core.Util.{build_object_meta}
use simkube.Ctrl.Context.{SimulationContext}

abbrev pub driver_cert_name : String
driver_cert_name = "sk-driver-cert"

abbrev pub cert_manager_group : String
cert_manager_group = "cert-manager.io"

abbrev pub cert_manager_version : String
cert_manager_version = "v1"

abbrev pub certificate_kind : String
certificate_kind = "Certificate"

pub record CertificateIssuerRef : Type 0 where
  pub group : Option String
  pub kind : Option String
  pub name : String

pub record CertificateSecretTemplate : Type 0 where
  pub annotations : Option (Map String String)
  pub labels : Option (Map String String)

pub record PartialCertificateSpec : Type 0 where
  pub secret_name : String
  pub secret_template : Option CertificateSecretTemplate
  pub issuer_ref : CertificateIssuerRef
  pub dns_names : Option (List String)

-- The status, which is never set, is left out.
pub record PartialCertificate : Type 0 where
  pub metadata : ObjectMeta
  pub spec : PartialCertificateSpec
  pub types : Option TypeMeta

unfoldable pub api_version : String
api_version = append cert_manager_group (append "/" cert_manager_version)

unfoldable pub build_certificate :
    ⦃n : Naming⦄ → SimulationContext → Simulation → SimulationRoot → Outcome PartialCertificate
build_certificate ctx sim metaroot =
    build_object_meta sim.spec.driver.namespace driver_cert_name ctx.name (root_owner metaroot)
    >>= λ metadata. ok (record {
      metadata = metadata;
      spec = record {
        secret_name = driver_cert_name;
        secret_template =
            some (record {
              annotations = none;
              labels = some ((simulation_label_key, ctx.name) ∷ []);
            });
        issuer_ref = record {
          group = none;
          kind = some "ClusterIssuer";
          name = ctx.opts.cert_manager_issuer;
        };
        dns_names =
            some
              (append ctx.driver_svc (append "." (append sim.spec.driver.namespace ".svc")) ∷ []);
      };
      types = some (record { api_version = api_version; kind = certificate_kind });
    })

-- What the server has under the name, and its answer to the new object; the certificate that is there
-- at the end.
unfoldable pub create_certificate_if_not_present :
    ⦃n : Naming⦄
    → SimulationContext
    → Simulation
    → SimulationRoot
    → Outcome (Option PartialCertificate)
    → (PartialCertificate → Outcome (Unit {0}))
    → Outcome PartialCertificate
create_certificate_if_not_present ctx sim metaroot there create = there >>= λ found. elim found [
  | some cert ↦ ok cert
  | none ↦ build_certificate ctx sim metaroot >>= λ obj. create obj >>= λ created. ok obj
]
