-- ===== src/Teardown/Steps.antt =====
-- The steps that Uninstall and FactoryReset share, under a rule on the next call that allows the
-- calls of removeK3s.
use appliance_ctl.Common.{String, true, List, [], ◌∷◌, contains, ◌≡◌, arith, eq_refl}
use appliance_ctl.Common.Text.{is_blank}
use appliance_ctl.K3s.Ownership.{ServiceSignal}
use appliance_ctl.Teardown.{
  Call, stop, remove, cleanup_node_network, remove_kubectl_symlink, daemon_reload, restore_host_dns,
  System, Layout, k3s_files, stop_service, remove_files, remove_k3s, restore_host_dns_check,
}
use appliance_ctl.Teardown.Log.{
  Step, return-Step, note-Step, >>=-Step, >>-Step, perform-Step, forget-Step, in_context-Step,
  checked_call-Step, if-Step, tested-Step,
}

-- The rule lets these calls through, whatever came before.
pub record AllowsK3s (sys : System) (l : Layout) (Next : List Call → Call → Type 0) : Type 0 where
  pub stops : (past : List Call) → Next past (stop l.unit_name)
  pub cleans :
      (past : List Call) → Next past (cleanup_node_network l.cni_network_dir l.cni_interface_names)
  pub unlinks :
      (past : List Call) → Next past (remove_kubectl_symlink l.binary_path l.kubectl_symlink_path)
  pub reloads : (past : List Call) → Next past daemon_reload
  pub resolves : (past : List Call) → sys.has_dns_hook ≡ true → Next past restore_host_dns
  pub removes :
      (past : List Call) (p : String) → contains p (k3s_files sys l) ≡ true → Next past (remove p)

module _ (sys : System) (l : Layout) (Next : List Call → Call → Type 0)
    (allows : AllowsK3s sys l Next) (cs : List Call) where
  stop_service-Step :
      (signal : ServiceSignal) → Step Next cs cs (stop_service sys l.unit_name signal)
  unfolding stop_service
  stop_service-Step signal =
      if-Step Next signal.detected
        (>>-Step Next
          (in_context-Step Next _ (
            forget-Step Next
              (perform-Step Next sys cs (stop l.unit_name) (λ past h. allows.stops past))))
          (note-Step Next _ _ _ _))
        (note-Step Next _ _ _ _)

  remove_files-Step :
      (paths : List String)
      → ((p : String) → contains p paths ≡ true → (past : List Call) → Next past (remove p))
      → Step Next cs cs (remove_files sys paths)
  unfolding remove_files
  remove_files-Step [] h = return-Step Next tt
  remove_files-Step (p ∷ rest) h =
      let later = remove_files-Step rest (λ q m. h q (ground (arith, m))) in
      if-Step Next (is_blank p) later (
        >>-Step Next
          (checked_call-Step Next sys cs _ _ _ (remove p)
            (λ past k. h p (ground (arith, eq_refl p)) past))
          later)

  pub remove_k3s-Step : Step Next cs cs (remove_k3s sys l)
  unfolding remove_k3s
  remove_k3s-Step =
      >>=-Step Next (in_context-Step Next _ (record { run = λ w h k. (k, λ a e. h) })) (λ signal.
        >>-Step Next (stop_service-Step signal) (
          >>-Step Next (checked_call-Step Next sys cs _ _ _ _ (λ past h. allows.cleans past)) (
            >>-Step Next (note-Step Next _ _ _ _) (
              >>-Step Next (checked_call-Step Next sys cs _ _ _ _ (λ past h. allows.unlinks past)) (
                >>-Step Next
                  (remove_files-Step (k3s_files sys l) (λ p m past. allows.removes past p m))
                  (>>-Step Next (note-Step Next _ _ _ _) (
                    >>-Step Next
                      (checked_call-Step Next sys cs _ _ _ _ (λ past h. allows.reloads past))
                      (note-Step Next _ _ _ _))))))))

  pub restore_host_dns_check-Step : Step Next cs cs (restore_host_dns_check sys)
  unfolding restore_host_dns_check
  restore_host_dns_check-Step =
      tested-Step Next sys.has_dns_hook
        (λ hooked.
          >>-Step Next
            (checked_call-Step Next sys cs _ _ _ _ (λ past h. allows.resolves past hooked))
            (note-Step Next _ _ _ _))
        (λ none. return-Step Next tt)
