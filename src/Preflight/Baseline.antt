-- ===== src/Preflight/Baseline.antt =====
-- What a preflight run shows of the host.
use appliance_ctl.Common.{
  eq_iff, ◌≤◌, Bool, true, false, List, [], ◌∷◌, ◌≡◌, ◌≢◌, refl, ◌↔◌, ◌⊎◌, inl, inr, arith, All,
  ltb, Bool-cases,
}
use appliance_ctl.Preflight.{
  Facts, Status, pass, Check, is_supported_os_version, is_supported_arch, is_linux_host, on_linux,
  check_os_arch, check_cpu_count, check_memory, check_filesystem, check_free_space,
  check_free_inodes, check_cgroup_v2, check_user_namespaces, check_ipv4_forwarding, check_time_sync,
  check_dns, is_tls_san, check_hostname_tls_san, check_ports, check_firewall,
  check_conflicting_services, check_defs, run_defs, run, status_priority, overall_from,
  overall_status,
}

-- The platform that the baseline is qualified on.
abbrev pub IsQualified : Facts → Type 0
IsQualified f =
    (f.os ≡ "ubuntu")
    × ((f.os_version ≡ "22.04") ⊎ (f.os_version ≡ "24.04"))
    × ((f.arch ≡ "amd64") ⊎ (f.arch ≡ "arm64"))

-- No firewall stands in the way.
abbrev pub LetsThrough : Facts → Type 0
LetsThrough f =
    (f.firewall_active ≡ false) ⊎ ((f.firewall_name ≡ "ufw") × (f.firewall_missing_rules ≡ []))

-- The host meets the qualified baseline.
pub record MeetsBaseline (f : Facts) : Type 0 where
  pub platform : IsQualified f
  pub linux : is_linux_host f ≡ true
  pub cpus : 1 ≤ f.cpu_count
  pub memory : 2147483648 ≤ f.mem_total_bytes
  pub filesystem : f.data_dir_filesystem ≡ "ext4"
  pub space : 21474836480 ≤ f.data_dir_free_bytes
  pub inodes : 200000 ≤ f.data_dir_free_inodes
  pub cgroups : f.cgroup_version ≡ 2
  pub namespaces : f.user_namespaces_enabled ≡ true
  pub forwarding : f.ipv4_forwarding_enabled ≡ true
  pub clock : f.time_sync_active ≡ true
  pub dns : f.hostname_resolves_internally ≡ true
  pub san : is_tls_san f.hostname ≡ true
  pub ports : f.ports_in_use ≡ []
  pub firewall : LetsThrough f
  pub services : f.conflicting_services ≡ []

overall_from-pass :
    (s : Status) (checks : List Check)
    → overall_from s (status_priority s) checks ≡ pass
    → (s ≡ pass) × All (λ c. c.status ≡ pass) checks
unfolding overall_from
overall_from-pass s [] h = (h, tt)
overall_from-pass s (c ∷ rest) h =
    elim (Bool-cases (ltb (status_priority c.status) (status_priority s))) [
      | inl worse ↦ ground (arith, overall_from-pass c.status rest)
      | inr same ↦ ground (arith, overall_from-pass s rest)
    ]

overall_from_pass :
    (checks : List Check)
    → All (λ c. c.status ≡ pass) checks
    → overall_from pass (status_priority pass) checks ≡ pass
unfolding overall_from
overall_from_pass [] h = refl
overall_from_pass (c ∷ rest) h = rw h.0 (overall_from_pass rest h.1)

-- The report passes exactly when each of its checks does.
overall_status-pass :
    (checks : List Check) → (overall_status checks ≡ pass) ↔ All (λ c. c.status ≡ pass) checks
unfolding overall_status
overall_status-pass checks = (λ h. (overall_from-pass pass checks h).1, overall_from_pass checks)

module _ (f : Facts) where
  check_os_arch-pass : (check_os_arch f ≡ pass) ↔ (IsQualified f)
  unfolding is_supported_os_version is_supported_arch check_os_arch
  check_os_arch-pass = (
    λ h. ground (
      arith,
      eq_iff f.os "ubuntu",
      eq_iff f.os_version "22.04",
      eq_iff f.os_version "24.04",
      eq_iff f.arch "amd64",
      eq_iff f.arch "arm64",
    ),
    λ h. ground (
      arith,
      eq_iff f.os "ubuntu",
      eq_iff f.os_version "22.04",
      eq_iff f.os_version "24.04",
      eq_iff f.arch "amd64",
      eq_iff f.arch "arm64",
    ),
  )

  check_cpu_count-pass : (check_cpu_count f ≡ pass) ↔ (1 ≤ f.cpu_count)
  unfolding check_cpu_count
  check_cpu_count-pass = (λ h. ground (arith), λ h. ground (arith))

  check_memory-pass : (check_memory f ≡ pass) ↔ (2147483648 ≤ f.mem_total_bytes)
  unfolding check_memory
  check_memory-pass = (λ h. ground (arith), λ h. ground (arith))

  check_filesystem-pass :
      (check_filesystem f ≡ pass) ↔ ((is_linux_host f ≡ true) × (f.data_dir_filesystem ≡ "ext4"))
  unfolding check_filesystem
  check_filesystem-pass = (
    λ h. ground (arith, eq_iff f.data_dir_filesystem "ext4"),
    λ h. ground (arith, eq_iff f.data_dir_filesystem "ext4"),
  )

  check_free_space-pass :
      (check_free_space f ≡ pass)
      ↔ ((is_linux_host f ≡ true) × (21474836480 ≤ f.data_dir_free_bytes))
  unfolding check_free_space
  check_free_space-pass = (λ h. ground (arith), λ h. ground (arith))

  check_free_inodes-pass :
      (check_free_inodes f ≡ pass) ↔ ((is_linux_host f ≡ true) × (200000 ≤ f.data_dir_free_inodes))
  unfolding check_free_inodes
  check_free_inodes-pass = (λ h. ground (arith), λ h. ground (arith))

  check_cgroup_v2-pass :
      (check_cgroup_v2 f ≡ pass) ↔ ((is_linux_host f ≡ true) × (f.cgroup_version ≡ 2))
  unfolding check_cgroup_v2
  check_cgroup_v2-pass = (λ h. ground (arith), λ h. ground (arith))

  check_firewall-pass : (check_firewall f ≡ pass) ↔ (LetsThrough f)
  unfolding check_firewall
  check_firewall-pass = (
    λ h. ground (arith, eq_iff f.firewall_name "ufw"),
    λ h. ground (arith, eq_iff f.firewall_name "ufw"),
  )

  on_linux-pass :
      (ok : Bool) (s : Status)
      → s ≢ pass
      → (on_linux f ok s ≡ pass) ↔ ((is_linux_host f ≡ true) × (ok ≡ true))
  on_linux-pass ok s n = (λ h. ground arith, λ h. ground arith)

  baseline_of_checks : All (λ c. c.status ≡ pass) (run f) → MeetsBaseline f
  unfolding run run_defs check_defs check_user_namespaces check_ipv4_forwarding check_time_sync
      check_dns check_hostname_tls_san check_ports check_conflicting_services check_cgroup_v2
  baseline_of_checks (a, (b, (c, (d, (e, (g, (k, (l, (m, (n, (o, (p, (q, (r, (s, _))))))))))))))) =
      record {
        platform = check_os_arch-pass.0 a;
        linux = (check_filesystem-pass.0 d).0;
        cpus = check_cpu_count-pass.0 b;
        memory = check_memory-pass.0 c;
        filesystem = (check_filesystem-pass.0 d).1;
        space = (check_free_space-pass.0 e).1;
        inodes = (check_free_inodes-pass.0 g).1;
        cgroups = (check_cgroup_v2-pass.0 k).1;
        namespaces = ground (arith, l);
        forwarding = ground (arith, m);
        clock = ground (arith, n);
        dns = ground (arith, o);
        san = ground (arith, p);
        ports = ground (arith, q);
        firewall = check_firewall-pass.0 r;
        services = ground (arith, s);
      }

  checks_of_baseline : MeetsBaseline f → All (λ c. c.status ≡ pass) (run f)
  unfolding run run_defs check_defs check_user_namespaces check_ipv4_forwarding check_time_sync
      check_dns check_hostname_tls_san check_ports check_conflicting_services
  checks_of_baseline b = (
    check_os_arch-pass.1 b.platform,
    (
      check_cpu_count-pass.1 b.cpus,
      (
        check_memory-pass.1 b.memory,
        (
          check_filesystem-pass.1 (b.linux, b.filesystem),
          (
            check_free_space-pass.1 (b.linux, b.space),
            (
              check_free_inodes-pass.1 (b.linux, b.inodes),
              (
                check_cgroup_v2-pass.1 (b.linux, b.cgroups),
                (
                  rw b.linux (rw b.namespaces),
                  (
                    rw b.linux (rw b.forwarding),
                    (
                      rw b.linux (rw b.clock),
                      (
                        rw b.linux (rw b.dns),
                        (
                          rw b.san,
                          (rw b.ports, (check_firewall-pass.1 b.firewall, (rw b.services, tt))),
                        ),
                      ),
                    ),
                  ),
                ),
              ),
            ),
          ),
        ),
      ),
    ),
  )

  -- Preflight passes exactly when the host meets the whole qualified baseline: the platform, the
  -- resource minimums, the kernel settings, the network name, free ports and no foreign service.
  pub overall_status-MeetsBaseline : (overall_status (run f) ≡ pass) ↔ MeetsBaseline f
  overall_status-MeetsBaseline =
      let checks = overall_status-pass (run f) in
      (λ h. baseline_of_checks (checks.0 h), λ b. checks.1 (checks_of_baseline b))
