-- ===== src/Domain/Security.antt =====
-- `DDSManager::EnableSecurity`, and what `joinDomain` makes of it (src/dds_manager.cpp): the properties
-- of the new participant.
use open_ddw.Base.{Bool, true, false, List, [], ◌∷◌, ◌++◌, if◌then◌else◌}
use open_ddw.Base.Text.{Text, text}

-- `m_enableSecurity` and the members for the files.
pub record Security : Type 0 where
  pub enabled : Bool
  pub auth_ca_file : Text
  pub perm_ca_file : Text
  pub id_cert_file : Text
  pub id_key_file : Text
  pub governance_file : Text
  pub permissions_file : Text

abbrev pub no_security : Security
no_security = record {
  enabled = false;
  auth_ca_file = [];
  perm_ca_file = [];
  id_cert_file = [];
  id_key_file = [];
  governance_file = [];
  permissions_file = [];
}

unfoldable pub enable_security : Text → Text → Text → Text → Text → Text → Security → Security
enable_security auth_ca_file perm_ca_file id_cert_file id_key_file governance_file permissions_file
      security =
    let file_prefix = text "file:" in
    record {
      enabled = true;
      auth_ca_file = file_prefix ++ auth_ca_file;
      perm_ca_file = file_prefix ++ perm_ca_file;
      id_cert_file = file_prefix ++ id_cert_file;
      id_key_file = file_prefix ++ id_key_file;
      governance_file = file_prefix ++ governance_file;
      permissions_file = file_prefix ++ permissions_file;
    }

-- `DDS::Property_t`
pub record Property : Type 0 where
  pub name : Text
  pub value : Text
  pub propagate : Bool

unfoldable pub append_prop : List Property → Text → Text → List Property
append_prop props name value =
    props ++ record { name = name; value = value; propagate = false } ∷ []

-- The properties of the QoS of the new participant, over those of the default QoS. `built` says that
-- the program is built with OPENDDS_SECURITY.
unfoldable pub participant_properties : Bool → Security → List Property → List Property
unfolding append_prop
participant_properties built s props =
    if s.enabled
    then (if built
        then (let p₁ = append_prop props (text "dds.sec.auth.identity_ca") s.auth_ca_file in
            let p₂ = append_prop p₁ (text "dds.sec.auth.identity_certificate") s.id_cert_file in
            let p₃ = append_prop p₂ (text "dds.sec.auth.private_key") s.id_key_file in
            let p₄ = append_prop p₃ (text "dds.sec.access.permissions_ca") s.perm_ca_file in
            let p₅ = append_prop p₄ (text "dds.sec.access.governance") s.governance_file in
            append_prop p₅ (text "dds.sec.access.permissions") s.permissions_file)
        else props)
    else props
