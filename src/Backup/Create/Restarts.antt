-- ===== src/Backup/Create/Restarts.antt =====
-- A backup does not leave K3s down.
use appliance_ctl.Common.{
  ◌<>◌, Option-cases, String, Option, none, some, List, [], ◌∷◌, Result, ok, err, Bool, true, false,
  ◌≡◌, refl, ◌⊎◌, inl, inr, if◌then◌else◌,
}
use appliance_ctl.Common.Effects.{Outcome, ◌>>=◌, attempt}
use appliance_ctl.Common.Text.{trim_space, is_empty}
use appliance_ctl.Backup.{
  FileEntry, Manifest, stop, enable_and_start, Stat, exists, not_exist, failed, System, World,
  perform, answered, copy_dir,
}
use appliance_ctl.Backup.Create.{
  Request, manifest_of, copied, copied_text, copy_bundles, bundles_step, models_step, saved,
  data_step, save_step, restart_step, restarted, snapshot, create,
}
use appliance_ctl.Backup.Starts.{
  Newest, Answered, StartsOnError, IsRestarted, perform-Newest, perform-Answered,
  bail-StartsOnError, step-IsRestarted,
}

-- The manifest came without an error.
abbrev pub NoError : Manifest × Option String → Type 0
NoError r = r.1 ≡ none

error_given :
    {m : Manifest} {e : String} {r : Manifest × Option String}
    → Path (Result String (Manifest × Option String)) (ok (m, some e)) (ok r)
    → NoError r
    → ⊥
error_given h clean = cc

module _ (sys : System) (unit : String) where
  copied-StartsOnError :
      (id context : String) (what : List FileEntry → String) (o : Result String (List FileEntry))
      (w : World)
      → StartsOnError unit (copied sys unit id context what o w)
  unfolding copied
  copied-StartsOnError id context what (err e) w = bail-StartsOnError sys unit _ _
  copied-StartsOnError id context what (ok entries) w = λ e h. cc

  data_step-StartsOnError :
      (dir backup_dir : String) (w : World)
      → StartsOnError unit (data_step sys unit dir backup_dir w)
  unfolding data_step
  data_step-StartsOnError dir backup_dir w = copied-StartsOnError _ _ _ _ _

  copy_bundles-StartsOnError :
      (dir backup_dir : String) (s : Stat) (w : World)
      → StartsOnError unit (copy_bundles sys unit dir backup_dir s w)
  unfolding copy_bundles
  copy_bundles-StartsOnError dir backup_dir exists w = copied-StartsOnError _ _ _ _ _
  copy_bundles-StartsOnError dir backup_dir not_exist w = λ e h. cc
  copy_bundles-StartsOnError dir backup_dir (failed e) w = bail-StartsOnError sys unit _ _

  bundles_step-StartsOnError :
      (dir backup_dir : String) (w : World)
      → StartsOnError unit (bundles_step sys unit dir backup_dir w)
  unfolding bundles_step
  bundles_step-StartsOnError dir backup_dir w = go (is_empty dir)
    where
      go :
          (b : Bool)
          → StartsOnError unit (
              if b
              then record { world = w; result = ok [] }
              else copy_bundles sys unit dir backup_dir (sys.stat w.disk dir) w)
      go true = λ e h. cc
      go false = copy_bundles-StartsOnError dir backup_dir (sys.stat w.disk dir) w

  models_step-StartsOnError :
      (dir backup_dir : String) (w : World)
      → StartsOnError unit (models_step sys unit dir backup_dir w)
  unfolding models_step
  models_step-StartsOnError dir backup_dir w = go (is_empty dir)
    where
      go :
          (b : Bool)
          → StartsOnError unit (
              if b
              then record { world = w; result = ok [] }
              else (attempt (copy_dir sys dir (sys.join backup_dir "models")) >>= λ o.
                    copied sys unit "backup-copy-models" "backup: model data"
                      (copied_text sys " model file(s) from " dir)
                      o)
                  w)
      go true = λ e h. cc
      go false = copied-StartsOnError _ _ _ _ _

  saved-StartsOnError :
      (o : Result String (Unit {0})) (w : World) → StartsOnError unit (saved sys unit o w)
  unfolding saved
  saved-StartsOnError (err e) w = bail-StartsOnError sys unit _ _
  saved-StartsOnError (ok done) w = λ e h. cc

  save_step-StartsOnError :
      (backup_dir : String) (m : Manifest) (w : World)
      → StartsOnError unit (save_step sys unit backup_dir m w)
  unfolding save_step
  save_step-StartsOnError backup_dir m w = saved-StartsOnError _ _

  -- The last start and what is returned behind it.
  restarted-IsRestarted :
      (m : Manifest) (o : Outcome World (Unit {0}))
      → Newest (enable_and_start unit) o.world.calls
      → (o.result ≡ ok tt → Answered sys (enable_and_start unit) o.world.calls)
      → IsRestarted sys unit NoError (restarted sys m o.result o.world)
  unfolding restarted
  restarted-IsRestarted m o newest answered = go o.result newest answered
    where
      go :
          (r : Result String (Unit {0}))
          → Newest (enable_and_start unit) o.world.calls
          → (r ≡ ok tt → Answered sys (enable_and_start unit) o.world.calls)
          → IsRestarted sys unit NoError (restarted sys m r o.world)
      go (err e) n a = record { newest = n; started = λ x h clean. absurd (error_given h clean) }
      go (ok done) n a = record { newest = n; started = λ x h clean. a refl }

  restart_step-IsRestarted :
      (m : Manifest) (w : World) → IsRestarted sys unit NoError (restart_step sys unit m w)
  unfolding restart_step
  restart_step-IsRestarted m w =
      restarted-IsRestarted m (perform sys (enable_and_start unit) w)
        (perform-Newest sys unit (enable_and_start unit) w)
        (perform-Answered sys unit (enable_and_start unit) w)

-- What follows the stop.
snapshot-IsRestarted :
    (sys : System) (r : Request) (w : World)
    → IsRestarted sys r.unit_name NoError (snapshot sys r w)
unfolding snapshot
snapshot-IsRestarted sys r w =
    let unit = r.unit_name in
    let backup_dir = sys.join r.backup_root r.backup_id in
    step-IsRestarted sys unit NoError (data_step sys unit r.data_dir backup_dir) _ w
      (data_step-StartsOnError sys unit r.data_dir backup_dir)
      (λ files w1.
        step-IsRestarted sys unit NoError
          (bundles_step sys unit (trim_space r.metadata_bundles_dir) backup_dir) _ w1
          (bundles_step-StartsOnError sys unit _ backup_dir)
          (λ policy_files w2.
            step-IsRestarted sys unit NoError
              (models_step sys unit (trim_space r.models_dir) backup_dir) _ w2
              (models_step-StartsOnError sys unit _ backup_dir)
              (λ model_files w3.
                let m = manifest_of r files policy_files model_files in
                step-IsRestarted sys unit NoError (save_step sys unit backup_dir m) _ w3
                  (save_step-StartsOnError sys unit backup_dir m)
                  (λ done w4. restart_step-IsRestarted sys unit m w4))))

-- If stopping K3s fails, the backup makes no other call and returns the error. Otherwise the last
-- call of every run, whatever failed in between, starts K3s again, and a run without an error has
-- seen that start succeed.
pub create-restarts :
    (sys : System) (r : Request) (w : World)
    → let o = create sys r w in
      ((e : String) × (sys.fails w.calls (stop r.unit_name) ≡ some e)
        × (o.world.calls ≡ stop r.unit_name ∷ w.calls)
        × (o.result ≡ err ("backup: stop k3s" <> ": " <> e)))
      ⊎ ((sys.fails w.calls (stop r.unit_name) ≡ none) × IsRestarted sys r.unit_name NoError o)
unfolding create perform answered
create-restarts sys r w = elim (Option-cases (sys.fails w.calls (stop r.unit_name))) [
  | inl stopped ↦ inr (stopped, rw stopped (snapshot-IsRestarted sys r _))
  | inr (e, failed_stop) ↦ rw failed_stop (inl (e, refl, refl, refl))
]
