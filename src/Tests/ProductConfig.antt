-- ===== src/Tests/ProductConfig.antt =====
-- The product configuration on concrete inputs.
use appliance_ctl.Common.{err, ok, ◌≡◌, refl}
use appliance_ctl.ProductConfig.Identity.{
  ApplianceIdentity, reserved_zone, normalize_dns_zone, resolve_appliance_identity,
}
use appliance_ctl.ProductConfig.Identity.Stable.{IsStable, resolve_appliance_identity-IsStable}

abbrev identity : ApplianceIdentity
identity = record { name = "kiosk-1"; zone = "lab.example"; fqdn = "kiosk-1.lab.example" }

resolved : resolve_appliance_identity " Kiosk-1 " "Lab.Example." ≡ ok identity
unfolding resolve_appliance_identity
resolved = refl

resolve_appliance_identity-IsStable_example : IsStable identity
resolve_appliance_identity-IsStable_example =
    resolve_appliance_identity-IsStable " Kiosk-1 " "Lab.Example." identity resolved

local_zone : normalize_dns_zone "office.LOCAL" ≡ err reserved_zone
unfolding normalize_dns_zone
local_zone = refl
