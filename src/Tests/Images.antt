-- ===== src/Tests/Images.antt =====
-- The wait for containerd on concrete inputs.
use appliance_ctl.Common.{
  arith, String, ◌*◌, eqb, if◌then◌else◌, none, some, Result, ok, err, ◌≡◌, refl, [], ◌∷◌,
}
use appliance_ctl.Images.{Waiting, imported, new_image_references, after_failure, poll, wait_ready}
use appliance_ctl.Images.Ready.{Answered, wait_ready-Returns}

-- Containerd is up behind two listings; a listing and the sleep behind it take three seconds.
abbrev starting : Waiting
starting = record {
  reply = λ n.
      if eqb n 2
      then ok "docker.io/a:1\n\ndocker.io/b:2\ndocker.io/a:1\n"
      else err "connection refused";
  time = λ n. 3 * n;
  ended = λ n. none;
  duration = λ n. "10s";
}

listed : imported (starting.reply 2) ≡ ok ("docker.io/b:2" ∷ "docker.io/a:1" ∷ [])
unfolding imported
listed = refl

added :
    new_image_references ("docker.io/a:1" ∷ []) ("docker.io/b:2" ∷ "docker.io/a:1" ∷ [])
    ≡ ("docker.io/b:2" ∷ [])
unfolding new_image_references
added = refl

ready : wait_ready starting 10 7 0 ≡ some (ok tt)
unfolding wait_ready poll after_failure imported
ready = refl

too_late :
    wait_ready starting 2 3 0
    ≡ some (
        err
          "images: containerd did not become ready within 10s: images: list imported images: connection refused")
unfolding wait_ready poll after_failure imported
too_late = refl

wait_ready-Returns_example :
    (r : Result String (Unit {0})) × (wait_ready starting 10 7 0 ≡ some r)
    × (r ≡ ok tt → Answered starting)
wait_ready-Returns_example =
    wait_ready-Returns starting 10 2 (λ n. omega arith) 0 6 (omega arith) (omega arith)
