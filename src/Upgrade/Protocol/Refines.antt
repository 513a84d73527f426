-- ===== src/Upgrade/Protocol/Refines.antt =====
-- Every run of Upgrade keeps to the protocol.
use appliance_ctl.Common.{String, ◌<>◌, Option, none, some, List, ◌∷◌, Result, ok, err, ◌≡◌, refl}
use appliance_ctl.Common.Effects.{fail_with}
use appliance_ctl.Backup as Recovery
use appliance_ctl.Backup.Create.{create_server}
use appliance_ctl.Backup.Integrity.{verify}
use appliance_ctl.Evidence.{Check}
use appliance_ctl.State.{ClusterNode, InstalledState}
use appliance_ctl.Upgrade.Charts.{undo_product}
use appliance_ctl.Upgrade.Host.{
  Call, backing_up, verifying, saved, remove_zonctl, System, front, entered,
}
use appliance_ctl.Upgrade.Options.{Options, Resolved}
use appliance_ctl.Upgrade.Protocol.{
  preparing, backing, changing, unsaved, recorded, from_save, Move, Reaches, move, Ends,
}
use appliance_ctl.Upgrade.Protocol.Charts.{host_steps-Keeps, chart_steps-Keeps}
use appliance_ctl.Upgrade.Protocol.Foundation.{
  preload_step-Keeps, k3s_steps-Keeps, packages_step-Keeps, cluster_steps-Keeps,
}
use appliance_ctl.Upgrade.Protocol.Holds.{
  Assertion, Holds, return-Holds, add_checks-Holds, >>=-Holds, >>-Holds, attempt-Holds, look-Holds,
  operate-Holds, answer-Holds,
}
use appliance_ctl.Upgrade.Protocol.Retreat.{In, Stops, stopped-Holds, fail_upgrade-Holds}
use appliance_ctl.Upgrade.Receipt.{recorded_cluster, set_node_uid}
use appliance_ctl.Upgrade.Steps.{Plan, guard}
use appliance_ctl.Upgrade.Transaction.{
  no_control_plane, save_step, record_state, finish, change, request_of, created, answered,
  create_backup, found, verify_backup, back_up_and_change,
}
use appliance_ctl.Upgrade.Undo.{result_of}

-- The state is recorded.
abbrev pub Recorded : System → String → InstalledState → Assertion
Recorded sys dir s = In sys (recorded dir s)

module _ (sys : System) (opts : Options) (r : Resolved) (p : Plan) (dir : String) where
  abbrev pub Stopped : String → Assertion
  Stopped = Stops sys opts.preserve_failed_state (sys.quote opts.node_name)

  -- What is known behind the answer of state.Save.
  abbrev Saved : InstalledState → Option String → Assertion
  Saved s none = Recorded sys dir s
  Saved s (some e) = In sys (unsaved dir)

  save-Saved :
      (s : InstalledState) (past : List Call) (problem : Option String)
      → (sys.answer past (saved opts.installed_state_path s)).problem ≡ problem
      → In sys (changing dir) past
      → Saved s problem (saved opts.installed_state_path s ∷ past)
  save-Saved s past none done h = move (Move.record_in dir opts.installed_state_path s done) h
  save-Saved s past (some e) failed h =
      move (Move.save_failed dir opts.installed_state_path e s failed) h

  guard-saved-Holds :
      (s : InstalledState) (imported : List String) (problem : Option String)
      → Holds
          (Saved s problem)
          (λ done. Recorded sys dir s)
          Stopped
          (guard sys opts p dir "upgrade: "
            (remove_zonctl ∷ undo_product sys opts r p dir imported)
            (result_of problem))
  unfolding guard
  guard-saved-Holds s imported none = return-Holds tt
  guard-saved-Holds s imported (some e) =
      fail_upgrade-Holds sys dir opts p.bundles_dir (sys.quote opts.node_name) ("upgrade: " <> e)
        (remove_zonctl ∷ undo_product sys opts r p dir imported) (unsaved dir) (from_save dir)
        (Ends.kept_unsaved dir ("upgrade: " <> e))

  save_step-Holds :
      (imported : List String) (s : InstalledState)
      → Holds
          (In sys (changing dir))
          (Recorded sys dir)
          Stopped
          (save_step sys opts r p dir imported s)
  unfolding save_step
  save_step-Holds imported s =
      >>=-Holds
        (answer-Holds {Q = λ a. Saved s a.problem} sys (saved opts.installed_state_path s)
          (λ past h. save-Saved s past _ refl h))
        λ a. >>-Holds (guard-saved-Holds s imported a.problem) (return-Holds s)

  record_state-Holds :
      (imported : List String) (nodes : Option (List ClusterNode))
      → Holds
          (In sys (changing dir))
          (Recorded sys dir)
          Stopped
          (record_state sys opts r p dir imported nodes)
  unfolding record_state
  record_state-Holds imported none =
      stopped-Holds sys opts.preserve_failed_state (sys.quote opts.node_name)
        (no_control_plane (sys.quote opts.node_name)) (changing dir) (Ends.abandoned dir)
  record_state-Holds imported (some nodes) = save_step-Holds imported _

  finish-Holds :
      (imported : List String) (uid : String)
      → Holds
          (In sys (changing dir))
          (Recorded sys dir)
          Stopped
          (finish sys opts r p dir imported uid)
  unfolding finish
  finish-Holds imported uid =
      record_state-Holds imported
        (set_node_uid opts.node_name uid (recorded_cluster p.installed opts.node_name).nodes)

  pub change-Holds :
      Holds (In sys (changing dir)) (Recorded sys dir) Stopped (change sys opts r p dir)
  unfolding change
  change-Holds = >>=-Holds (preload_step-Keeps sys opts r p dir) λ imported.
      >>-Holds (k3s_steps-Keeps sys opts r p dir imported) (
        >>-Holds (packages_step-Keeps sys opts r p dir) (
          >>=-Holds (cluster_steps-Keeps sys opts r p dir imported) λ uid.
            >>-Holds (host_steps-Keeps sys opts r p dir)
              (>>-Holds (chart_steps-Keeps sys opts r p dir imported) (finish-Holds imported uid))))

-- What is known where the run succeeded: the state was recorded, behind a verified backup.
abbrev pub Upgraded : System → InstalledState → Assertion
Upgraded sys s calls = (dir : String) × Reaches sys calls (recorded dir s)

module _ (sys : System) (opts : Options) (p : Plan) where
  abbrev pub Halted : String → Assertion
  Halted = Stops sys opts.preserve_failed_state (sys.quote opts.node_name)

  not_backed_up-Holds :
      {A : Type 0} {Q : A → Assertion} (e : String) → Holds (In sys backing) Q Halted (fail_with e)
  not_backed_up-Holds e =
      stopped-Holds sys opts.preserve_failed_state (sys.quote opts.node_name) e backing
        (Ends.not_backed_up e)

  created-Holds :
      (made : Recovery.Manifest × Option String)
      → Holds (In sys backing) (λ dir. In sys backing) Halted (created sys opts p made)
  unfolding created
  created-Holds (m, some e) = not_backed_up-Holds ("upgrade: pre-upgrade backup failed: " <> e)
  created-Holds (m, none) =
      look-Holds λ w. return-Holds ((sys.recovery w.calls).join opts.backup_root m.backup_id)

  answered-Holds :
      (o : Result String (Recovery.Manifest × Option String))
      → Holds (In sys backing) (λ dir. In sys backing) Halted (answered sys opts p o)
  unfolding answered
  answered-Holds (err e) = not_backed_up-Holds ("upgrade: pre-upgrade backup failed: " <> e)
  answered-Holds (ok made) = created-Holds made

  create_backup-Holds :
      Holds (In sys preparing) (λ dir. In sys backing) Halted (create_backup sys opts p)
  unfolding create_backup
  create_backup-Holds =
      let request = request_of sys opts p in
      >>=-Holds
        (attempt-Holds (
          operate-Holds sys backing_up (λ host. create_server host request)
            (λ past seen h. Reaches.back_up request seen h)))
        λ o. answered-Holds o

  -- What is known behind the answer of backup.Verify.
  abbrev Verified : String → Option String → Assertion
  Verified dir none = In sys (changing dir)
  Verified dir (some e) = In sys backing

  verify-Verified :
      (dir : String) (seen : Recovery.World) (past : List Call) (answer : Option String)
      → (verify (sys.recovery past) dir seen).1 ≡ answer
      → In sys backing past
      → Verified dir answer (verifying dir seen ∷ past)
  verify-Verified dir seen past none good h = move (Move.intact dir seen good) h
  verify-Verified dir seen past (some e) bad h = move (Move.damaged dir e seen bad) h

  found-Holds :
      (dir : String) (answer : List Check × Option String)
      → Holds
          (Verified dir answer.1)
          (λ done. In sys (changing dir))
          Halted
          (found sys opts p answer)
  unfolding found
  found-Holds dir (checks, none) = add_checks-Holds checks
  found-Holds dir (checks, some e) = >>-Holds (add_checks-Holds checks) (not_backed_up-Holds _)

  verify_backup-Holds :
      (dir : String)
      → Holds (In sys backing) (λ done. In sys (changing dir)) Halted (verify_backup sys opts p dir)
  unfolding verify_backup
  verify_backup-Holds dir = record {
    run = λ w h.
        let answer = verify (sys.recovery w.calls) dir (front w) in
        (found-Holds dir answer).run (entered sys (verifying dir) w)
          (verify-Verified dir (front w) w.calls answer.1 refl h);
  }

  pub back_up_and_change-Holds :
      (r : Resolved)
      → Holds (In sys preparing) (Upgraded sys) Halted (back_up_and_change sys opts p r)
  unfolding back_up_and_change
  back_up_and_change-Holds r = >>=-Holds create_backup-Holds λ dir.
      >>-Holds (verify_backup-Holds dir) (record {
        run = λ w h.
            let (value, error) = (change-Holds sys opts r p dir).run w h in
            (λ s same. (dir, value s same), error);
      })
