-- ===== src/Upgrade/Undo/Restarts.antt =====
-- internal/upgrade/upgrade.go: how the rollback of Upgrade leaves K3s.
use appliance_ctl.Common.{
  String, Bool, true, false, List, [], ◌∷◌, ◌++◌, map, Option, none, some, Result, ok, err, ◌≡◌,
  refl, ap, ◌∙◌, sym, ◌⊎◌, inl, inr,
}
use appliance_ctl.Common.Effects.{Outcome, Run, ◌>>=◌, continue}
use mathlib.Core.Path.{subst}
use appliance_ctl.Backup as Recovery
use appliance_ctl.Backup.{stop, enable_and_start}
use appliance_ctl.Backup.Integrity.{verify}
use appliance_ctl.Backup.Restore.{restore_server}
use appliance_ctl.Backup.Restore.Refuses.{Ends, restore-Ends}
use appliance_ctl.Backup.Starts.{Newest}
use appliance_ctl.Upgrade.Host.{
  Undo, Call, in_backup, restoring, restore_dns, remove_packages, remove_agent, System, World,
  front, entered, undone, note, add_checks, operate, ask,
}
use appliance_ctl.Upgrade.Options.{Options}
use appliance_ctl.Upgrade.Protocol.Holds.{Assertion, Holds}
use appliance_ctl.Upgrade.Protocol.Retreat.{revert_if-Holds, undo_if-Holds}
use appliance_ctl.Upgrade.Undo.{
  restore_request, undo_if, revert_if, report_errors, restore_backup, k3s_paths, rollback_of,
  rollback,
}

-- The last call that was made.
abbrev pub Last : Call → Assertion
Last c [] = ⊥
Last c (d ∷ past) = d ≡ c

-- How backup.Restore leaves K3s: started as the last call, not stopped because that failed, or
-- untouched because the host as it is has no intact backup.
abbrev pub Leaves : System → Options → String → World → Assertion
Leaves sys opts dir w calls =
    Last (in_backup (enable_and_start opts.k3s_unit_name)) calls
    ⊎ ((Last (in_backup (stop opts.k3s_unit_name)) calls
          × ((e : String) × ((sys.recovery w.calls).fails [] (stop opts.k3s_unit_name) ≡ some e)))
        ⊎ (Last (restoring dir (front w)) calls
            × ((e : String) × ((verify (sys.recovery w.calls) dir (front w)).1 ≡ some e))))

module _ (sys : System) (opts : Options) (dir bundles_dir : String) where
  newest-Last :
      (c : Recovery.Call) (cs : List Recovery.Call) (past : List Call)
      → Newest c cs
      → Last (in_backup c) (map in_backup cs ++ past)
  newest-Last c [] past h = elim h [ ]
  newest-Last c (d ∷ cs) past h = cc

  abbrev pub restored : World → Outcome Recovery.World (Unit {0})
  restored w =
      restore_server (sys.recovery w.calls) (restore_request opts dir bundles_dir) (front w)

  Ends-Leaves :
      (w : World) (answer : Option String)
      → (verify (sys.recovery w.calls) dir (front w)).1 ≡ answer
      → Last (restoring dir (front w)) w.calls
      → Ends
          (sys.recovery w.calls)
          (restore_request opts dir bundles_dir)
          (front w)
          answer
          (restored w)
      → Leaves sys opts dir w (map in_backup (restored w).world.calls ++ w.calls)
  Ends-Leaves w (some e) found last (none_made, rest) = inr (inr (rw none_made last, (e, found)))
  Ends-Leaves w none found last (inl (e, failed_stop, made, rest)) =
      inr (inl (rw made refl, (e, failed_stop)))
  Ends-Leaves w none found last (inr (stopped, restarted)) = inl (
      newest-Last (enable_and_start opts.k3s_unit_name) (restored w).world.calls w.calls
        restarted.newest)

  -- What is taken back in front of the restore, by what was pending.
  abbrev pub taken_back : World → World
  taken_back w =
      let files = (revert_if sys w.pending.binary (k3s_paths opts) w).world in
      let dns = (undo_if sys w.pending.dns restore_dns files).world in
      let packages = (undo_if sys w.pending.packages remove_packages dns).world in
      (undo_if sys w.pending.agent remove_agent packages).world

  -- The calls, with that which takes a change back if it was pending.
  abbrev pub pended : Bool → Undo → List Call → List Call
  pended true u calls = undone u ∷ calls
  pended false u calls = calls

  undo_if-pended :
      (test : Bool) (u : Undo) (w : World)
      → (undo_if sys test u w).world.calls ≡ pended test u w.calls
  unfolding undo_if ask
  undo_if-pended true u w = refl
  undo_if-pended false u w = refl

  -- Behind the files of K3s come the DNS of the host, the packages and the agent, each if pending.
  abbrev pub TakesBack : World → World → Type 0
  TakesBack w v =
      v.calls
      ≡ pended w.pending.agent remove_agent (
          pended w.pending.packages remove_packages (
            pended w.pending.dns restore_dns
              (revert_if sys w.pending.binary (k3s_paths opts) w).world.calls))

  taken_back-TakesBack : (w : World) → TakesBack w (taken_back w)
  taken_back-TakesBack w =
      let files = (revert_if sys w.pending.binary (k3s_paths opts) w).world in
      let dns = (undo_if sys w.pending.dns restore_dns files).world in
      let packages = (undo_if sys w.pending.packages remove_packages dns).world in
      undo_if-pended w.pending.agent remove_agent packages
      ∙ ap (pended w.pending.agent remove_agent) (
          undo_if-pended w.pending.packages remove_packages dns
          ∙ ap (pended w.pending.packages remove_packages)
              (undo_if-pended w.pending.dns restore_dns files))

  -- The host behind the call of backup.Restore.
  abbrev pub entering : World → World
  entering w = entered sys (restoring dir) (taken_back w)

  abbrev pub Anything : Assertion
  Anything calls = Unit {0}

  abbrev pub Never : String → Assertion
  Never e calls = ⊥

  abbrev pub anything_kept :
      (u : Undo) (past : List Call) → Anything past → Anything (undone u ∷ past)
  anything_kept u past h = h

  ok_of : {A : Type 0} (r : Result String A) → ((e : String) → r ≡ err e → ⊥) → (a : A) × (r ≡ ok a)
  ok_of (err e) never = elim (never e refl) [ ]
  ok_of (ok a) never = (a, refl)

  -- A run that returns no error.
  pub returns :
      {A : Type 0} (m : Run World A) (w : World)
      → Holds Anything (λ a. Anything) Never m
      → (a : A) × ((m w).result ≡ ok a)
  returns m w h = ok_of (m w).result (h.run w tt).1

  bind-ok :
      {A B : Type 0} (m : Run World A) (k : A → Run World B) (w : World) (a : A)
      → (m w).result ≡ ok a
      → (m >>= k) w ≡ k a (m w).world
  bind-ok m k w a h = ap (λ r. continue (m w).world r k) h

  -- A rollback that went on to the restore from this world.
  abbrev Rolls : World → Outcome World (Unit {0}) → Type 0
  Rolls v o =
      (o.result ≡ ok tt)
      × (o.world.calls ≡ map in_backup (restored v).world.calls ++ v.calls)
      × (o.world.disk ≡ (restored v).world.disk)

  report-Rolls :
      (errors : List String) (v u : World)
      → u.calls ≡ map in_backup (restored v).world.calls ++ v.calls
      → u.disk ≡ (restored v).world.disk
      → Rolls v (report_errors sys errors u)
  unfolding report_errors note add_checks
  report-Rolls [] v u calls disk = (refl, calls, disk)
  report-Rolls (e ∷ rest) v u calls disk = (refl, calls, disk)

  restore-Rolls :
      (more : List String → List String) (w : World)
      → Rolls
          (entered sys (restoring dir) w)
          ((restore_backup sys opts dir bundles_dir >>= λ e. report_errors sys (more e)) w)
  unfolding restore_backup operate
  restore-Rolls more w = report-Rolls _ (entered sys (restoring dir) w) _ refl refl

  rollback-Rolls : (w : World) → Rolls (entering w) (rollback sys opts dir bundles_dir w)
  unfolding rollback rollback_of
  rollback-Rolls w =
      let p = w.pending in
      let m_files = revert_if sys p.binary (k3s_paths opts) in
      let m_dns = undo_if sys p.dns restore_dns in
      let m_packages = undo_if sys p.packages remove_packages in
      let m_agent = undo_if sys p.agent remove_agent in
      let k_agent = λ (files dns packages agent : List String).
        restore_backup sys opts dir bundles_dir >>= λ backup.
        report_errors sys (files ++ (dns ++ (packages ++ (agent ++ backup)))) in
      let k_packages =
        λ (files dns packages : List String). m_agent >>= k_agent files dns packages in
      let k_dns = λ (files dns : List String). m_packages >>= k_packages files dns in
      let k_files = λ (files : List String). m_dns >>= k_dns files in
      let (files, f) =
        returns m_files w (revert_if-Holds sys Anything anything_kept p.binary (k3s_paths opts)) in
      let w1 = (m_files w).world in
      let (dns, d) =
        returns m_dns w1 (undo_if-Holds sys Anything anything_kept p.dns restore_dns) in
      let w2 = (m_dns w1).world in
      let (packages, g) =
        returns m_packages w2
          (undo_if-Holds sys Anything anything_kept p.packages remove_packages) in
      let w3 = (m_packages w2).world in
      let (agent, a) =
        returns m_agent w3 (undo_if-Holds sys Anything anything_kept p.agent remove_agent) in
      let whole : rollback sys opts dir bundles_dir w
          ≡ k_agent files dns packages agent (m_agent w3).world =
        bind-ok m_files k_files w files f
        ∙ bind-ok m_dns (k_dns files) w1 dns d
        ∙ bind-ok m_packages (k_packages files dns) w2 packages g
        ∙ bind-ok m_agent (k_agent files dns packages) w3 agent a in
      subst (Rolls (entering w)) (sym whole) (
        restore-Rolls (λ backup. files ++ (dns ++ (packages ++ (agent ++ backup))))
          (m_agent w3).world)

  pub rollback-Restarts :
      (w : World)
      → let o = rollback sys opts dir bundles_dir w in
        (o.result ≡ ok tt)
        × TakesBack w (taken_back w)
        × (o.world.calls ≡ map in_backup (restored (entering w)).world.calls ++ (entering w).calls)
        × (o.world.disk ≡ (restored (entering w)).world.disk)
        × Leaves sys opts dir (entering w) o.world.calls
  rollback-Restarts w =
      let v = entering w in
      let (done, calls, disk) = rollback-Rolls w in
      let answer = (verify (sys.recovery v.calls) dir (front v)).1 in
      (
        done,
        taken_back-TakesBack w,
        calls,
        disk,
        subst (Leaves sys opts dir v) (sym calls) (
            Ends-Leaves v answer refl refl (
              restore-Ends (sys.recovery v.calls) (restore_request opts dir bundles_dir)
                (front v))),
      )
