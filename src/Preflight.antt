-- ===== src/Preflight.antt =====
-- internal/preflight (baseline.go, checks.go, report.go) and host.Facts of internal/host/facts.go:
-- the checks of a host against the qualified baseline. Message and Remediation, which only the
-- operator reads, and the clock's Timestamp and DurationMs are left out.
pub mod Baseline
use Prim.Native.Char.{code}
use Prim.Native.String.{len}
use appliance_ctl.Common.{
  String, ◌==◌, ℕ, ◌+◌, ◌*◌, ltb, leb, eqb, Bool, true, false, not, ◌&&◌, ◌||◌, List, [], ◌∷◌, map,
  All, contains, if◌then◌else◌,
}
use appliance_ctl.Common.Split.{split}
use appliance_ctl.Common.Text.{is_empty, all_chars, count, last_char}
use appliance_ctl.Evidence

-- `host.Facts` without DetectedAt.
pub record Facts : Type 0 where
  pub os : String
  pub os_version : String
  pub arch : String
  pub kernel_release : String
  pub cpu_count : ℕ
  pub mem_total_bytes : ℕ
  pub cgroup_version : ℕ
  pub user_namespaces_enabled : Bool
  pub ipv4_forwarding_enabled : Bool
  pub data_dir : String
  pub data_dir_filesystem : String
  pub data_dir_free_bytes : ℕ
  pub data_dir_free_inodes : ℕ
  pub time_sync_active : Bool
  pub hostname : String
  pub hostname_resolves_internally : Bool
  pub required_ports : List ℕ
  pub ports_in_use : List (ℕ × String)
  pub firewall_active : Bool
  pub firewall_name : String
  pub firewall_missing_rules : List String
  pub conflicting_services : List String

pub data Status : Type 0 where
  pass auto_fix operator_action unsupported : Status

pub record Check : Type 0 where
  pub id : String
  pub category : String
  pub status : Status

abbrev pub supported_os : String
supported_os = "ubuntu"

abbrev pub supported_filesystem : String
supported_filesystem = "ext4"

abbrev pub min_cpu_count : ℕ
min_cpu_count = 1

abbrev pub min_memory_bytes : ℕ
min_memory_bytes = 2147483648

abbrev pub min_data_dir_free_bytes : ℕ
min_data_dir_free_bytes = 21474836480

abbrev pub min_data_dir_free_inodes : ℕ
min_data_dir_free_inodes = 200000

abbrev pub supported_archs : List String
supported_archs = "amd64" ∷ "arm64" ∷ []

abbrev pub supported_os_versions : List String
supported_os_versions = "22.04" ∷ "24.04" ∷ []

unfoldable pub is_supported_os_version : String → Bool
is_supported_os_version version = contains version supported_os_versions

unfoldable pub is_supported_arch : String → Bool
is_supported_arch arch = contains arch supported_archs

unfoldable pub is_linux_host : Facts → Bool
is_linux_host f = not (is_empty f.kernel_release)

unfoldable pub check_os_arch : Facts → Status
check_os_arch f =
    if (f.os == supported_os) && is_supported_os_version f.os_version && is_supported_arch f.arch
    then pass
    else unsupported

unfoldable pub check_cpu_count : Facts → Status
check_cpu_count f = if leb min_cpu_count f.cpu_count then pass else operator_action

unfoldable pub check_memory : Facts → Status
check_memory f = if leb min_memory_bytes f.mem_total_bytes then pass else operator_action

unfoldable pub check_filesystem : Facts → Status
check_filesystem f =
    if not (is_linux_host f)
    then unsupported
    else if f.data_dir_filesystem == supported_filesystem
    then pass
    else unsupported

-- What the Linux-only checks share: without the Linux detector's facts they are unsupported.
abbrev pub on_linux : Facts → Bool → Status → Status
on_linux f ok otherwise =
    if not (is_linux_host f) then unsupported else if ok then pass else otherwise

unfoldable pub check_free_space : Facts → Status
check_free_space f = on_linux f (leb min_data_dir_free_bytes f.data_dir_free_bytes) operator_action

unfoldable pub check_free_inodes : Facts → Status
check_free_inodes f =
    on_linux f (leb min_data_dir_free_inodes f.data_dir_free_inodes) operator_action

unfoldable pub check_cgroup_v2 : Facts → Status
check_cgroup_v2 f = on_linux f (eqb f.cgroup_version 2) operator_action

unfoldable pub check_user_namespaces : Facts → Status
check_user_namespaces f = on_linux f f.user_namespaces_enabled operator_action

unfoldable pub check_ipv4_forwarding : Facts → Status
check_ipv4_forwarding f = on_linux f f.ipv4_forwarding_enabled auto_fix

unfoldable pub check_time_sync : Facts → Status
check_time_sync f = on_linux f f.time_sync_active operator_action

unfoldable pub check_dns : Facts → Status
check_dns f = on_linux f f.hostname_resolves_internally operator_action

-- `[a-zA-Z0-9]`
unfoldable pub is_letter_or_digit : ℕ → Bool
is_letter_or_digit c =
    (leb b'a' c && leb c b'z') || (leb b'A' c && leb c b'Z') || (leb b'0' c && leb c b'9')

-- One label of `validTLSSANHostname`: [a-zA-Z0-9]([a-zA-Z0-9-]{0,61}[a-zA-Z0-9])?
unfoldable pub is_dns_label : String → Bool
unfolding is_letter_or_digit
is_dns_label String.[] = false
is_dns_label (String.◌∷◌ c s) =
    is_letter_or_digit (code c)
    && (is_empty s
        || (all_chars (λ d. is_letter_or_digit d || eqb d b'-') s
            && is_letter_or_digit (last_char 0 s)
            && leb (count s) 62))

unfoldable pub all_labels : List String → Bool
all_labels [] = true
all_labels (l ∷ ls) = is_dns_label l && all_labels ls

-- The test of `checkHostnameTLSSAN`.
unfoldable pub is_tls_san : String → Bool
unfolding is_dns_label all_labels split
is_tls_san hostname =
    not (is_empty hostname) && leb (len hostname) 253 && all_labels (split b'.' hostname)

unfoldable pub check_hostname_tls_san : Facts → Status
unfolding is_tls_san
check_hostname_tls_san f = if is_tls_san f.hostname then pass else operator_action

abbrev pub is_nil {ℓ} : {A : Type ℓ} → List A → Bool
is_nil [] = true
is_nil (x ∷ xs) = false

unfoldable pub check_ports : Facts → Status
check_ports f = if is_nil f.ports_in_use then pass else operator_action

unfoldable pub check_firewall : Facts → Status
check_firewall f =
    if not f.firewall_active
    then pass
    else if (f.firewall_name == "ufw") && is_nil f.firewall_missing_rules
    then pass
    else operator_action

unfoldable pub check_conflicting_services : Facts → Status
check_conflicting_services f = if is_nil f.conflicting_services then pass else operator_action

pub record CheckDef : Type 0 where
  pub id : String
  pub category : String
  pub eval : Facts → Status

-- `checkDefs`
unfoldable pub check_defs : List CheckDef
unfolding check_os_arch check_cpu_count check_memory check_filesystem check_free_space
    check_free_inodes check_cgroup_v2 check_user_namespaces check_ipv4_forwarding check_time_sync
    check_dns check_hostname_tls_san check_ports check_firewall check_conflicting_services
check_defs =
    record { id = "os-arch-supported"; category = "host"; eval = check_os_arch }
    ∷ record { id = "cpu-count-min"; category = "host"; eval = check_cpu_count }
    ∷ record { id = "memory-min"; category = "host"; eval = check_memory }
    ∷ record { id = "data-dir-filesystem-ext4"; category = "storage"; eval = check_filesystem }
    ∷ record { id = "data-dir-free-space"; category = "storage"; eval = check_free_space }
    ∷ record { id = "data-dir-free-inodes"; category = "storage"; eval = check_free_inodes }
    ∷ record { id = "cgroup-v2-enabled"; category = "host"; eval = check_cgroup_v2 }
    ∷ record {
      id = "kernel-user-namespaces-enabled";
      category = "host";
      eval = check_user_namespaces;
    }
    ∷ record { id = "ipv4-forwarding-enabled"; category = "host"; eval = check_ipv4_forwarding }
    ∷ record { id = "time-sync-active"; category = "host"; eval = check_time_sync }
    ∷ record { id = "internal-dns-resolvable"; category = "network"; eval = check_dns }
    ∷ record { id = "hostname-valid-tls-san"; category = "network"; eval = check_hostname_tls_san }
    ∷ record { id = "required-ports-available"; category = "network"; eval = check_ports }
    ∷ record { id = "firewall-detected"; category = "security"; eval = check_firewall }
    ∷ record {
      id = "no-conflicting-services";
      category = "host";
      eval = check_conflicting_services;
    }
    ∷ []

-- The loop of `Run`.
unfoldable pub run_defs : Facts → List CheckDef → List Check
run_defs facts [] = []
run_defs facts (def ∷ rest) =
    record { id = def.id; category = def.category; status = def.eval facts } ∷ run_defs facts rest

-- `Run`
unfoldable pub run : Facts → List Check
unfolding check_defs run_defs
run facts = run_defs facts check_defs

-- `statusPriority`
abbrev pub status_priority : Status → ℕ
status_priority unsupported = 0
status_priority operator_action = 1
status_priority auto_fix = 2
status_priority pass = 3

-- The loop of `OverallStatus`, with `overall` and `best`.
unfoldable pub overall_from : Status → ℕ → List Check → Status
overall_from overall best [] = overall
overall_from overall best (c ∷ rest) =
    let p = status_priority c.status in
    overall_from (if ltb p best then c.status else overall) (if ltb p best then p else best) rest

-- `OverallStatus`
unfoldable pub overall_status : List Check → Status
unfolding overall_from
overall_status checks = overall_from pass (status_priority pass) checks
