-- ===== src/Lifecycle/Atomic/Safety.antt =====
-- A reader never sees a partly written file.
use appliance_ctl.Common.{String, eq_iff, some, All, ◌≡◌, ◌≢◌, ◌⊎◌, arith, if◌then◌else◌}
use appliance_ctl.Lifecycle.Atomic.{Disk, Outcomes, write_file_atomic}

module _ (o : Outcomes) (tmp path content : String) (disk : Disk) (fresh : tmp ≢ path) where
  -- Behind every system call, so also after a crash there, the file holds what it held before or
  -- the whole new content. On return it holds the new content if the function succeeded, and what
  -- it held before if not. The temporary file's name must be another one.
  pub write_file_atomic-old_or_new :
      let t = write_file_atomic o tmp path content disk in
      All (λ d. (d path ≡ disk path) ⊎ (d path ≡ some content)) t.disks
      × (t.final path ≡ (if t.success then some content else disk path))
  unfolding write_file_atomic
  write_file_atomic-old_or_new =
      ground (arith, eq_iff tmp path, eq_iff path tmp, eq_iff path path, eq_iff tmp tmp)

  -- No other file is touched.
  pub write_file_atomic-others :
      (p : String)
      → p ≢ path
      → p ≢ tmp
      → All (λ d. d p ≡ disk p) (write_file_atomic o tmp path content disk).disks
  unfolding write_file_atomic
  write_file_atomic-others p not_path not_tmp = ground (arith, eq_iff p path, eq_iff p tmp)
