-- ===== src/Tests/Host.antt =====
-- internal/evidence, internal/preflight, internal/repair, internal/state and internal/upgrade on
-- concrete inputs.
use appliance_ctl.Common.{
  String, ◌==◌, ◌||◌, arith, true, false, Option, none, some, List, [], ◌∷◌, Subset, ◌≡◌, refl, inl,
  inr, if◌then◌else◌,
}
use appliance_ctl.Common.Text.{trim_space}
use appliance_ctl.Evidence
use appliance_ctl.Evidence.{overall_status, status_priority}
use appliance_ctl.Preflight
use appliance_ctl.Preflight.{Facts, run}
use appliance_ctl.Preflight.Baseline.{overall_status-MeetsBaseline}
use appliance_ctl.Repair.{Ops, repair}
use appliance_ctl.Repair.Bounds.{repair-outcome}
use appliance_ctl.State.{InstalledState, Cluster, new_single_server_cluster}
use appliance_ctl.State.Endpoints.{
  Url, api_url, known_api_endpoints, add_api_endpoints, accepts_api_endpoint,
}
use appliance_ctl.State.Endpoints.Enrolled.{IsLiteral, add_api_endpoints-accepts}
use appliance_ctl.Upgrade.Version.{is_downgrade}
use appliance_ctl.Upgrade.Version.Written.{IsVersion}
use appliance_ctl.Upgrade.Version.Precedence.{is_downgrade_iff}

abbrev check : Evidence.Status → Evidence.Check
check s = record { id = "c"; category = "host"; status = s; message = ""; remediation = "" }

abbrev report : List Evidence.Check
report =
    check Evidence.Status.pass
    ∷ check Evidence.Status.unsupported
    ∷ check Evidence.Status.auto_fix
    ∷ []

abbrev pub host : Facts
host = record {
  os = "ubuntu";
  os_version = "24.04";
  arch = "arm64";
  kernel_release = "6.8.0-45-generic";
  cpu_count = 4;
  mem_total_bytes = 8589934592;
  cgroup_version = 2;
  user_namespaces_enabled = true;
  ipv4_forwarding_enabled = true;
  data_dir = "/var/lib/appliance";
  data_dir_filesystem = "ext4";
  data_dir_free_bytes = 107374182400;
  data_dir_free_inodes = 6000000;
  time_sync_active = true;
  hostname = "box-1.example.org";
  hostname_resolves_internally = true;
  required_ports = 6443 ∷ 10250 ∷ 8472 ∷ [];
  ports_in_use = [];
  firewall_active = true;
  firewall_name = "ufw";
  firewall_missing_rules = [];
  conflicting_services = [];
}

overall_status-MeetsBaseline_example : Preflight.overall_status (run host) ≡ Preflight.Status.pass
unfolding Preflight.is_linux_host Preflight.is_tls_san
overall_status-MeetsBaseline_example = (overall_status-MeetsBaseline host).1 (record {
  platform = (refl, inr refl, inr refl);
  linux = refl;
  cpus = omega arith;
  memory = omega arith;
  filesystem = refl;
  space = omega arith;
  inodes = omega arith;
  cgroups = refl;
  namespaces = refl;
  forwarding = refl;
  clock = refl;
  dns = refl;
  san = refl;
  ports = refl;
  firewall = inr (refl, refl);
  services = refl;
})

-- Forwarding alone is left to the installer.
forwarding_off :
    Preflight.overall_status (run (record host { ipv4_forwarding_enabled = false }))
    ≡ Preflight.Status.auto_fix
unfolding Preflight.overall_status run Preflight.is_linux_host Preflight.is_tls_san
    Preflight.is_supported_os_version Preflight.is_supported_arch
forwarding_off = refl

abbrev pub receipt : InstalledState
receipt = record {
  runtimes = [];
  schema_version = 1;
  appliance_instance_id = "i1";
  installed_version = "1.4.0";
  installed_release_id = "r7";
  appliance_profile = "edge";
  appliance_name = "box";
  dns_zone = "box.lan";
  cluster = none;
  components = record {
    k3s_version = "v1.30.2+k3s1";
    chart_version = "1.4.0";
    database_engine = "postgres";
    postgres_image_reference = "";
    artifact_server_version = "";
    dns_version = "";
    inference_version = "";
    video_version = "";
    metadata_version = "";
    metadata_digest = "";
  };
  k3s_ownership = record { owned = true; owner_appliance_version = "1.4.0" };
  last_operation = record {
    type = "install";
    status = "completed";
    transaction_id = "t1";
    started_at = 5;
    completed_at = some 9;
    source_version = "";
    target_version = "1.4.0";
  };
  history = [];
  created_at = 5;
  updated_at = 9;
}

-- A host whose K3s is stopped and cannot be restarted.
abbrev stopped : Ops
stopped = record {
  detect = λ unit. some (record {
    detected = true;
    active = false;
    healthy = false;
    running_version = "";
    foreign_namespaces = [];
  });
  detect_error = "";
  restart_error = λ unit. some "exit status 1";
}

repair-outcome_example :
    (repair (record stopped { restart_error = λ unit. none }) (some receipt) "k3s.service").error
    ≡ none
repair-outcome_example =
    (repair-outcome (record stopped { restart_error = λ unit. none }) (some receipt)
        "k3s.service").1.1
      (refl, inr ((refl, refl), refl))

abbrev parse_ipv4 : String → Option String
parse_ipv4 s = if s == "10.0.0.1" || s == "10.0.0.2" then some s else none

abbrev parse_url : String → Option Url
parse_url s =
    if s == "https://10.0.0.1:6443"
    then some
        (record { scheme = "https"; host = "10.0.0.1:6443"; hostname = "10.0.0.1"; port = "6443" })
    else if s == "https://10.0.0.2:6443"
    then some
        (record { scheme = "https"; host = "10.0.0.2:6443"; hostname = "10.0.0.2"; port = "6443" })
    else if s == "https://10.0.0.1"
    then some (record { scheme = "https"; host = "10.0.0.1"; hostname = "10.0.0.1"; port = "" })
    else none

abbrev cluster : Cluster
cluster = record (new_single_server_cluster "c1" "10-0-0-1" "10.44.0.0/16" "10.43.0.0/16") {
  control_endpoint = "https://10.0.0.1";
}

bravo-IsLiteral : IsLiteral parse_ipv4 parse_url "10.0.0.2"
unfolding trim_space
bravo-IsLiteral = record { not_empty = refl; trimmed = refl; parses = refl; url = refl }

abbrev joined : Cluster
joined = add_api_endpoints parse_ipv4 parse_url (" 10.0.0.2" ∷ []) cluster

add_api_endpoints-accepts_example :
    Subset
      (known_api_endpoints parse_ipv4 parse_url cluster)
      (known_api_endpoints parse_ipv4 parse_url joined)
    × (accepts_api_endpoint parse_ipv4 parse_url joined (api_url "10.0.0.2") ≡ true)
unfolding trim_space
add_api_endpoints-accepts_example =
    add_api_endpoints-accepts parse_ipv4 parse_url cluster (" 10.0.0.2" ∷ []) " 10.0.0.2" "10.0.0.2"
      refl refl bravo-IsLiteral

target_is : IsVersion "1.9.3-rc.2" 1 9 3
target_is = record {
  major = "1";
  minor = "9";
  patch = "3";
  suffix = "-rc.2";
  is = refl;
  writes_major = (refl, refl, refl, omega arith);
  writes_minor = (refl, refl, refl, omega arith);
  writes_patch = (refl, refl, refl, omega arith);
  is_suffix = inr ("rc.2", refl);
}

current_is : IsVersion "1.10.0" 1 10 0
current_is = record {
  major = "1";
  minor = "10";
  patch = "0";
  suffix = "";
  is = refl;
  writes_major = (refl, refl, refl, omega arith);
  writes_minor = (refl, refl, refl, omega arith);
  writes_patch = (refl, refl, refl, omega arith);
  is_suffix = inl refl;
}

is_downgrade_iff_example : is_downgrade "1.10.0" "1.9.3-rc.2" ≡ true
is_downgrade_iff_example =
    (is_downgrade_iff "1.10.0" "1.9.3-rc.2" 1 9 3 1 10 0 target_is current_is).1
      (inr (inl (refl, omega arith)))
