-- ===== src/Registry.antt =====
-- module_registry/models.py: declarations, receipts and live records of the module registry.
pub mod Watcher
pub mod Store
pub mod Methods
pub mod Layer
pub mod Invariant
pub mod Lifecycle
pub mod Registration
pub mod Traces
pub mod Defects
pub mod DefectCodes
pub mod Listing
pub mod Inspection
pub mod InspectionReason
mod Examples
use lbe_ci_validation.Base.{
  Bool, List, Option, Result, String, [], concat, err, filter, forward_slashes, if◌then◌else◌, none,
  not, ok, raise_if, some, strip, traverse, true, value_error, ◌==◌, ◌>>=◌, ◌>>◌, ◌||◌, ◌∷◌,
}

pub data ModuleType : Type 0 where
  service controller provider adapter ui registry tool store : ModuleType

pub data ModuleState : Type 0 where
  registered not_loaded loaded running idle blocked failed stopped disabled : ModuleState

pub data ReceiptType : Type 0 where
  registered loaded started activity stopped failed : ReceiptType

pub data RegistryDefectCode : Type 0 where
  module_unregistered registered_not_loaded expected_module_not_loaded : RegistryDefectCode
  module_dependency_unregistered module_instance_conflict disabled_module_loaded :
      RegistryDefectCode
  receipt_for_unknown_module invalid_loader_relationship : RegistryDefectCode
  contradictory_lifecycle_state : RegistryDefectCode

-- `_clean`
unfoldable pub clean : String → String → Result String
clean value name =
    let cleaned = strip value in
    if cleaned == "" then err (value_error (concat name " must not be empty")) else ok cleaned

-- `_unique`: `dict.fromkeys` keeps the first of each.
drop_repeats : List String → List String
drop_repeats [] = []
drop_repeats (x ∷ xs) = x ∷ filter (λ y. not (x == y)) (drop_repeats xs)

unfoldable pub unique : List String → Result (List String)
unfolding drop_repeats clean
unique values = do
  cleaned ← traverse (λ value. clean value "list value") values
  ok (drop_repeats cleaned)

pub record ModuleDeclaration : Type 0 where
  pub id : String
  pub path : String
  pub type : ModuleType
  pub purpose : String
  pub provides : List String
  pub depends_on : List String
  pub loaded_by : String
  pub expected_profiles : List String
  pub singleton : Bool
  pub disabled : Bool

-- `ModuleDeclaration.__post_init__`
unfoldable pub make_declaration : ModuleDeclaration → Result ModuleDeclaration
unfolding clean unique forward_slashes
make_declaration d = do
  id ← clean d.id "id"
  path ← clean d.path "path"
  purpose ← clean d.purpose "purpose"
  loaded_by ← clean d.loaded_by "loaded_by"
  provides ← unique d.provides
  depends_on ← unique d.depends_on
  expected_profiles ← unique d.expected_profiles
  ok (record d {
    id = id;
    path = forward_slashes path;
    purpose = purpose;
    loaded_by = loaded_by;
    provides = provides;
    depends_on = depends_on;
    expected_profiles = expected_profiles;
  })

pub record ModuleActivity : Type 0 where
  pub action : String
  pub detail : String
  pub started_at : String

-- `ModuleActivity.__post_init__`
unfoldable pub make_activity : String → String → String → Result ModuleActivity
unfolding clean
make_activity action detail started_at = do
  a ← clean action "action"
  d ← clean detail "detail"
  t ← clean started_at "started_at"
  ok (record { action = a; detail = d; started_at = t })

pub record LifecycleReceipt : Type 0 where
  pub module_id : String
  pub type : ReceiptType
  pub timestamp : String
  pub instance_id : Option String
  pub action : Option String
  pub detail : Option String
  pub reason : Option String
  pub code : Option String
  pub error : Option String

-- `not value` for `str | None`.
abbrev pub is_missing : Option String → Bool
is_missing none = true
is_missing (some s) = s == ""

-- The last three checks of `LifecycleReceipt.__post_init__`, by the receipt's type.
check_receipt : ReceiptType → LifecycleReceipt → Result (Unit {0})
check_receipt loaded r =
    raise_if (is_missing r.instance_id) (value_error "loaded receipt requires instance_id")
check_receipt activity r =
    raise_if (is_missing r.action || is_missing r.detail)
      (value_error "activity receipt requires action and detail")
check_receipt failed r =
    raise_if (is_missing r.code || is_missing r.error)
      (value_error "failed receipt requires code and error")
check_receipt _ r = ok tt

unfoldable pub make_receipt : LifecycleReceipt → Result LifecycleReceipt
unfolding clean check_receipt
make_receipt r = do
  module_id ← clean r.module_id "module_id"
  timestamp ← clean r.timestamp "timestamp"
  check_receipt r.type r
  ok (record r { module_id = module_id; timestamp = timestamp })

pub record RegistryDefect : Type 0 where
  pub code : RegistryDefectCode
  pub module_id : String
  pub blocking : Bool
  pub evidence : List String

pub record LastError : Type 0 where
  pub code : String
  pub error : String
  pub timestamp : String

-- `instances` is a set: a list of its members.
pub record LiveModuleRecord : Type 0 where
  pub declaration : ModuleDeclaration
  pub state : ModuleState
  pub registered : Bool
  pub loaded : Bool
  pub running : Bool
  pub healthy : Bool
  pub instances : List String
  pub current_activity : Option ModuleActivity
  pub recent_activity : List ModuleActivity
  pub last_error : Option LastError
  pub loaded_at : Option String
  pub updated_at : Option String
