-- ===== src/ControlPlane/Pki.antt =====
-- clusterPKISecretData and decodeClusterPKI of controllers/hypervisorconfig_controller.go, which the
-- control-plane controller shares.
use cluster_api_hypervisor.Common.{
  String, Option, none, some, List, [], ◌∷◌, ◌==◌, ◌≡◌, refl, if◌then◌else◌, ◌++◌,
}
use cluster_api_hypervisor.Exec.{Result, ok, err, other}

-- pki.ClusterPKI; a document is its bytes.
pub record ClusterPki : Type 0 where
  pub ca : String
  pub ca_key : String
  pub front_proxy_ca : String
  pub front_proxy_ca_key : String
  pub api_server : String
  pub api_server_key : String
  pub front_proxy : String
  pub front_proxy_key : String
  pub service_account : String
  pub service_account_key : String

-- A read of a Go map.
unfoldable pub lookup : String → List (String × String) → Option String
lookup key [] = none
lookup key (entry ∷ entries) =
    let rest = lookup key entries in if entry.0 == key then some entry.1 else rest

-- clusterPKISecretData
unfoldable pub cluster_pki_secret_data : ClusterPki → List (String × String)
cluster_pki_secret_data pk =
    ("CA", pk.ca)
    ∷ ("CAKey", pk.ca_key)
    ∷ ("FrontProxyCA", pk.front_proxy_ca)
    ∷ ("FrontProxyCAKey", pk.front_proxy_ca_key)
    ∷ ("APIServer", pk.api_server)
    ∷ ("APIServerKey", pk.api_server_key)
    ∷ ("FrontProxy", pk.front_proxy)
    ∷ ("FrontProxyKey", pk.front_proxy_key)
    ∷ ("ServiceAccount", pk.service_account)
    ∷ ("ServiceAccountKey", pk.service_account_key)
    ∷ []

abbrev value_of : Option String → String
value_of none = ""
value_of (some value) = value

abbrev pub pki_keys : List String
pki_keys =
    "CA" ∷ "CAKey" ∷ "FrontProxyCA" ∷ "FrontProxyCAKey" ∷ "APIServer" ∷ "APIServerKey"
    ∷ "FrontProxy" ∷ "FrontProxyKey" ∷ "ServiceAccount" ∷ "ServiceAccountKey" ∷ []

-- The keys that the loop of decodeClusterPKI finds missing.
unfoldable pub missing_keys : List String → List (String × String) → List String
missing_keys [] entries = []
missing_keys (key ∷ keys) entries =
    let later = missing_keys keys entries in
    elim (lookup key entries) [ none ↦ key ∷ later | some _ ↦ later ]

abbrev decoded : List String → ClusterPki → Result ClusterPki
decoded [] pk = ok pk
decoded (key ∷ keys) pk = err (other key)

-- decodeClusterPKI
unfoldable pub decode_cluster_pki : List (String × String) → Result ClusterPki
decode_cluster_pki entries = decoded (missing_keys pki_keys entries) record {
  ca = value_of (lookup "CA" entries);
  ca_key = value_of (lookup "CAKey" entries);
  front_proxy_ca = value_of (lookup "FrontProxyCA" entries);
  front_proxy_ca_key = value_of (lookup "FrontProxyCAKey" entries);
  api_server = value_of (lookup "APIServer" entries);
  api_server_key = value_of (lookup "APIServerKey" entries);
  front_proxy = value_of (lookup "FrontProxy" entries);
  front_proxy_key = value_of (lookup "FrontProxyKey" entries);
  service_account = value_of (lookup "ServiceAccount" entries);
  service_account_key = value_of (lookup "ServiceAccountKey" entries);
}

-- What is read from the data of a Secret that was written for a PKI is that PKI, whatever further
-- keys the data has.
pub decode-secret_data :
    (pk : ClusterPki) (more : List (String × String))
    → decode_cluster_pki (cluster_pki_secret_data pk ++ more) ≡ ok pk
unfolding decode_cluster_pki cluster_pki_secret_data missing_keys lookup
decode-secret_data pk more = refl
