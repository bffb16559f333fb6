-- ===== src/Config/Versions.antt =====
-- src/config.rs: the validated port, and the version of the configuration.
use proof_stell_contract.Base.{ℕ, ◌==◌, ltb, if◌then◌else◌, Bool, true, false, Option, none, some}

abbrev pub port_min : ℕ
port_min = 1

abbrev pub port_max : ℕ
port_max = 65535

abbrev pub config_version : ℕ
config_version = 1

-- `ValidatedPort::new`; its errors are one here.
unfoldable pub new_port : ℕ → Bool
new_port port = if ltb port port_min then false else if ltb port_max port then false else true

-- `ConfigVersion::new`
unfoldable pub new_version : ℕ → Option ℕ
new_version version =
    if version == 0 then none else if ltb config_version version then none else some version

unfoldable pub validate_compatible : ℕ → Bool
validate_compatible previous_version = if ltb config_version previous_version then false else true
