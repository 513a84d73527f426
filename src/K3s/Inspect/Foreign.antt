-- ===== src/K3s/Inspect/Foreign.antt =====
-- What the inspection of a cluster reports.
use appliance_ctl.Common.{
  String, ◌==◌, true, false, not, ◌||◌, if◌then◌else◌, List, [], ◌∷◌, All, contains, ◌≡◌,
}
use Prim.Native.Char.{Char}
use appliance_ctl.Common.Text.{is_empty, is_space, all_chars}
use appliance_ctl.Common.Order.{text_lt}
use appliance_ctl.K3s.Inspect.{is_known}

-- The keys behind one more field.
abbrev keep : String → String → List String → List String
keep owned x seen = if is_known owned x || contains x seen then seen else x ∷ seen

-- Each text stands in front of those behind it, so none occurs twice.
abbrev pub IsSorted : List String → Type 0
IsSorted [] = Unit
IsSorted (x ∷ xs) = All (λ y. text_lt x y ≡ true) xs × IsSorted xs

-- The namespaces of K3s and of the platform.
abbrev pub reserved : List String
reserved =
    "kube-system" ∷ "kube-public" ∷ "kube-node-lease" ∷ "traefik" ∷ "ace-apps" ∷ "ace-system"
    ∷ "artifacts" ∷ "dns" ∷ "inference" ∷ "video" ∷ "workflows" ∷ []

-- A text that is not empty and neither reserved nor the appliance's own namespace.
abbrev pub IsForeign : String → String → Type 0
IsForeign owned z = (is_empty z ≡ false) × (contains z reserved ≡ false) × ((z == owned) ≡ false)

-- A name: no white space, not empty.
abbrev pub IsName : String → Type 0
IsName s = (is_empty s ≡ false) × (all_chars (λ c. not (is_space c)) s ≡ true)

-- A name with a line feed, in front of a text.
abbrev pub line : String → String → String
line String.[] rest = String.◌∷◌ "\n" rest
line (String.◌∷◌ c s) rest = String.◌∷◌ c (line s rest)

-- One name on each line.
abbrev pub lines : List String → String
lines [] = ""
lines (name ∷ rest) = line name (lines rest)
