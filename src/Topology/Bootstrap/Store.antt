-- ===== src/Topology/Bootstrap/Store.antt =====
-- `LoadBootstrapState` and `SaveBootstrapState`. json.Marshal and the strict decoder are parameters:
-- of a file's text `parse` gives the first value and whether it is the only one.
use appliance_ctl.Common.{
  String, ltb, Bool, true, false, not, Option, none, some, [], ◌∷◌, Result, ok, err, ◌>>=◌, ◌>>◌,
  fail_if, from_option, ◌≡◌, ◌≢◌, refl, sym, ap, ◌∙◌, arith, if◌then◌else◌, Bool-cases, inl, inr,
}
use Prim.Native.String.{len}
use appliance_ctl.Topology.Bootstrap.{BootstrapState, Error, validate}
use appliance_ctl.Topology.Inventory.{max_inventory_bytes}
use appliance_ctl.Lifecycle.Atomic.{Disk, Outcomes, Trace, write_file_atomic}
use appliance_ctl.Lifecycle.Atomic.Safety.{write_file_atomic-old_or_new}

pub data Problem : Type 0 where
  not_opened not_regular_or_too_large not_decoded trailing_data : Problem
  not_valid : Error → Problem

unfoldable pub checked :
    Result Error (Unit {0}) → BootstrapState → Result Problem (Option BootstrapState)
checked (err e) s = err (not_valid e)
checked (ok _) s = ok (some s)

-- What the strict decoder makes of a text: the first value, and whether the text ends behind it.
pub record Parsed : Type 0 where
  pub state : BootstrapState
  pub at_end : Bool

module _ (marshal : BootstrapState → Option String) (parse : String → Option Parsed) where
  -- `LoadBootstrapState` behind the opening of a regular file.
  unfoldable pub load_text : String → Result Problem (Option BootstrapState)
  unfolding checked
  load_text text = do
    fail_if (ltb max_inventory_bytes (len text)) not_regular_or_too_large
    parsed ← from_option not_decoded (parse text)
    fail_if (not parsed.at_end) trailing_data
    checked (validate parsed.state) parsed.state

  -- `LoadBootstrapState`; `opens` and `regular` are whether an existing file opens and is regular.
  unfoldable pub load : Bool → Bool → String → Disk → Result Problem (Option BootstrapState)
  load opens regular path disk = elim (disk path) [
    | none ↦ ok none
    | some text ↦
        if not opens
        then err not_opened
        else if not regular
        then err not_regular_or_too_large
        else load_text text
  ]

  -- Nothing done, and an error.
  abbrev refused : Disk → Trace
  refused disk = record { disks = disk ∷ []; final = disk; success = false }

  -- `SaveBootstrapState` behind the validation. `absolute` is `filepath.IsAbs`, and `made` whether
  -- the directory could be made.
  unfoldable pub save_valid :
      Bool → Bool → Outcomes → String → String → BootstrapState → Disk → Trace
  save_valid absolute made o tmp path s disk =
      if not absolute then refused disk else elim (marshal s) [
        | none ↦ refused disk
        | some text ↦ if made then write_file_atomic o tmp path text disk else refused disk
      ]

  -- What follows a validation.
  unfoldable pub if_valid : Result Error (Unit {0}) → Trace → Disk → Trace
  if_valid (err e) rest disk = refused disk
  if_valid (ok _) rest disk = rest

  -- `SaveBootstrapState`
  unfoldable pub save : Bool → Bool → Outcomes → String → String → BootstrapState → Disk → Trace
  unfolding if_valid save_valid
  save absolute made o tmp path s disk =
      if_valid (validate s) (save_valid absolute made o tmp path s disk) disk

  -- The decoder reads this text back.
  abbrev pub ReadsBack : BootstrapState → String → Type 0
  ReadsBack s text =
      (marshal s ≡ some text) × (parse text ≡ some (record { state = s; at_end = true }))

  -- What a load gives of a text: nothing of one that is longer than 64 KiB.
  abbrev pub loaded : BootstrapState → String → Result Problem (Option BootstrapState)
  loaded s text = if ltb 65536 (len text) then err not_regular_or_too_large else ok (some s)

  load_text-ReadsBack :
      (s : BootstrapState) (text : String)
      → ReadsBack s text
      → validate s ≡ ok tt
      → load_text text ≡ loaded s text
  unfolding load_text
  load_text-ReadsBack s text (_, parsed) v =
      elim (Bool-cases (ltb max_inventory_bytes (len text))) [
        | inl long ↦ rw (long, load_text) refl
        | inr fits ↦ rw (fits, parsed, v, load_text) refl
      ]

  load-some :
      (path text : String) (disk : Disk)
      → disk path ≡ some text
      → load true true path disk ≡ load_text text
  unfolding load
  load-some path text disk h = rw (h, load) refl

  if_valid-success :
      (v : Result Error (Unit {0})) (rest : Trace) (disk : Disk)
      → (if_valid v rest disk).success ≡ true
      → (v ≡ ok tt) × (if_valid v rest disk ≡ rest)
  unfolding if_valid
  if_valid-success (err e) rest disk h = cc
  if_valid-success (ok _) rest disk h = (refl, refl)

  module _ (absolute made : Bool) (o : Outcomes) (tmp path text : String) (s : BootstrapState)
      (disk : Disk) where
    save_valid-success :
        marshal s ≡ some text
        → (save_valid absolute made o tmp path s disk).success ≡ true
        → save_valid absolute made o tmp path s disk ≡ write_file_atomic o tmp path text disk
    unfolding save_valid
    save_valid-success m h = ground (arith, m, h)

    -- A save that returned nil leaves a receipt that `LoadBootstrapState` reads as the one saved if
    -- its text has at most 64 KiB, and refuses as too large if it is longer: the save does not look
    -- at that. The decoder must read back what was written, the file open and be regular, and the
    -- temporary file's name be another one.
    pub save-load :
        tmp ≢ path
        → ReadsBack s text
        → (save absolute made o tmp path s disk).success ≡ true
        → load true true path (save absolute made o tmp path s disk).final ≡ loaded s text
    unfolding save
    save-load fresh back done =
        let written = write_file_atomic o tmp path text disk in
        let (v, same) =
          if_valid-success (validate s) (save_valid absolute made o tmp path s disk) disk done in
        let all : save absolute made o tmp path s disk ≡ written =
          same ∙ save_valid-success back.0 (sym (ap (λ t. t.success) same) ∙ done) in
        let success : written.success ≡ true = sym (ap (λ t. t.success) all) ∙ done in
        let content : written.final path ≡ some text =
          (write_file_atomic-old_or_new o tmp path text disk fresh).1
          ∙ ap (λ b. if b then some text else disk path) success in
        ap (λ t. load true true path t.final) all
        ∙ load-some path text written.final content
        ∙ load_text-ReadsBack s text back v
