-- ===== src/Teardown.antt =====
-- internal/teardown/teardown.go, and Uninstall of internal/zonctlhost/install.go. The calls that
-- change the host are logged, newest first; each may fail in the light of the calls before it. The
-- error of os.Remove is one other than that the file does not exist.
pub mod Log
pub mod Steps
pub mod Kept
pub mod Reset
use appliance_ctl.Common.{
  String, ◌<>◌, ◌==◌, Bool, true, false, not, ◌&&◌, ◌||◌, if◌then◌else◌, Option, none, some, List,
  [], ◌∷◌, ◌++◌, map, Result, ok, err,
}
use appliance_ctl.Common.Effects.{Outcome, Run, ◌>>=◌, ◌>>◌, return, fail_with, attempt, in_context}
use appliance_ctl.Common.Text.{trim_space, is_blank, is_empty, join}
use appliance_ctl.Evidence.{Check, Status, pass, fail}
use appliance_ctl.Evidence.Sanitize.{sanitize_id_segment}
use appliance_ctl.K3s.Ownership.{ServiceSignal}
use appliance_ctl.Verify.Artifacts.{check_of}

pub data Call : Type 0 where
  stop remove remove_all : String → Call
  cleanup_node_network : String → List String → Call
  remove_kubectl_symlink : String → String → Call
  daemon_reload restore_host_dns : Call

-- `k3s.Ops`, os, path/filepath, fmt's %q, and the hook RestoreHostDNS, which may be nil.
pub record System : Type 0 where
  pub detect : List Call → String → Result String ServiceSignal
  pub fails : List Call → Call → Option String
  pub dir : String → String
  pub base : String → String
  pub clean : String → String
  pub join_path : String → String → String
  pub is_abs : String → Bool
  pub quote : String → String
  pub has_dns_hook : Bool

pub record World : Type 0 where
  pub calls : List Call
  pub checks : List Check

-- The paths of K3s that both operations take.
pub record Layout : Type 0 where
  pub unit_name : String
  pub binary_path : String
  pub config_path : String
  pub registries_path : String
  pub unit_path : String
  pub kubectl_symlink_path : String
  pub cni_network_dir : String
  pub cni_interface_names : List String

abbrev pub note : String → String → Status → String → Run World (Unit {0})
note id category status message w = record {
  world = record w { checks = w.checks ++ (check_of id category status message ∷ []) };
  result = ok tt;
}

module _ (sys : System) where
  unfoldable pub perform : Call → Run World (Unit {0})
  perform c w = record {
    world = record w { calls = c ∷ w.calls };
    result = elim (sys.fails w.calls c) [ none ↦ ok tt | some e ↦ err e ];
  }

  -- A failed check and the error behind a call that failed.
  unfoldable pub checked :
      String → String → String → Result String (Unit {0}) → Run World (Unit {0})
  checked id category context (err e) = do note id category fail e; fail_with (context <> ": " <> e)
  checked id category context (ok done) = return tt

  unfoldable pub checked_call : String → String → String → Call → Run World (Unit {0})
  unfolding perform checked
  checked_call id category context c = do o ← attempt (perform c); checked id category context o

  -- The service is stopped if it exists.
  unfoldable pub stop_service : String → ServiceSignal → Run World (Unit {0})
  unfolding perform
  stop_service unit signal =
      if signal.detected
      then in_context "teardown: stop k3s" (perform (stop unit))
        >> note "teardown-stop-k3s" "k3s" pass "k3s stopped"
      else note "teardown-stop-k3s" "k3s" pass "k3s service already absent"

  -- The join secret beside the K3s configuration.
  unfoldable pub token_path : String → String
  token_path config_path =
      let dir = sys.dir (trim_space config_path) in
      if dir == "." || dir == "/" then "" else sys.join_path dir "zon-server-token"

  abbrev pub k3s_files : Layout → List String
  k3s_files l =
      l.unit_path
      ∷ l.binary_path
      ∷ l.config_path
      ∷ l.registries_path
      ∷ token_path l.config_path
      ∷ []

  -- The loop over the files.
  unfoldable pub remove_files : List String → Run World (Unit {0})
  unfolding checked_call
  remove_files [] = return tt
  remove_files (path ∷ rest) =
      let later = remove_files rest in
      if is_blank path
      then later
      else checked_call ("teardown-remove-" <> sanitize_id_segment (sys.base path)) "k3s"
          ("teardown: remove " <> path) (remove path)
        >> later

  -- `removeK3s`
  unfoldable pub remove_k3s : Layout → Run World (Unit {0})
  unfolding stop_service checked_call remove_files token_path
  remove_k3s l = do
    signal ←
        in_context "teardown: detect k3s service"
          (λ w. record { world = w; result = sys.detect w.calls l.unit_name })
    stop_service l.unit_name signal
    checked_call "teardown-clean-k3s-network-state" "k3s" "teardown: clean k3s network state"
        (cleanup_node_network l.cni_network_dir l.cni_interface_names)
    note "teardown-clean-k3s-network-state" "k3s" pass "stale K3s CNI/IPAM state removed"
    checked_call "teardown-remove-kubectl-symlink" "k3s" "teardown: remove kubectl symlink"
        (remove_kubectl_symlink l.binary_path l.kubectl_symlink_path)
    remove_files (k3s_files l)
    note "teardown-remove-k3s-files" "k3s" pass "k3s unit, binary, config, and registries removed"
    checked_call "teardown-daemon-reload" "k3s" "teardown: daemon-reload" daemon_reload
    note "teardown-daemon-reload" "k3s" pass "systemd unit-file cache refreshed"

  -- `restoreHostDNSCheck`
  unfoldable pub restore_host_dns_check : Run World (Unit {0})
  unfolding checked_call
  restore_host_dns_check =
      if sys.has_dns_hook
      then checked_call "teardown-restore-host-dns" "host" "teardown: restore host DNS"
          restore_host_dns
        >> note "teardown-restore-host-dns" "host" pass
            "restored systemd-resolved DNSStubListener / resolv.conf after removing appliance DNS (node /etc/hosts entry kept)"
      else return tt

  -- `Uninstall`
  unfoldable pub uninstall : Layout → String → Run World (Unit {0})
  unfolding remove_k3s perform restore_host_dns_check
  uninstall l installed_state_path = do
    remove_k3s l
    in_context "teardown: remove installed-state" (perform (remove installed_state_path))
    note "teardown-preserve-data" "backup-restore" pass "appliance data directory preserved"
    restore_host_dns_check
