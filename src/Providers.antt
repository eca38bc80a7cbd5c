-- ===== src/Providers.antt =====
-- provider_registry.py and provider_health.py: the providers of reasoning. A factory and a backend act
-- on a world W and may raise. A timeout is in milliseconds.
pub mod Continuation
pub mod Continued
use lbe_ci_validation.Base.Exec.{Exec, lift, pure, ◌>>=◌, ◌>>◌}
use lbe_ci_validation.Base.{
  Bool, Dict, List, Option, Result, String, [], concat, err, false, if◌then◌else◌, insert, is_blank,
  is_some, key_error, keys, lookup, nat_eq, none, not, ok, some, sorted, strip, value_error, ℕ,
  ◌==◌, ◌∷◌,
}

pub record ProviderConfig : Type 0 where
  pub endpoint : String
  pub model : String
  pub timeout : ℕ
  pub api_key : Option String

pub record ProviderCapabilities : Type 0 where
  pub streaming : Bool
  pub tool_calls : Bool
  pub structured_output : Bool
  pub context_limit : Option ℕ

pub record ProviderDescriptor : Type 0 where
  pub provider_id : String
  pub model_id : String
  pub capabilities : ProviderCapabilities

pub record ProviderHealthResult : Type 0 where
  pub provider_id : String
  pub model_id : String
  pub status : String
  pub capabilities : ProviderCapabilities

-- The `plan` of a backend, of a request that LBE writes.
abbrev pub Backend : Type 0 → Type 0
Backend W = String → Exec W (Unit {0})

pub record ProviderHandle (W : Type 0) : Type 0 where
  pub descriptor : ProviderDescriptor
  pub backend : Backend W

abbrev pub Factory : Type 0 → Type 0
Factory W = ProviderConfig → Exec W (ProviderHandle W)

abbrev pub Factories : Type 0 → Type 0
Factories W = Dict (Factory W)

abbrev pub no_limit : Option ℕ → Bool
no_limit none = false
no_limit (some n) = nat_eq n 0

-- `ProviderCapabilities.__post_init__`
unfoldable pub make_capabilities : ProviderCapabilities → Result ProviderCapabilities
make_capabilities c =
    if no_limit c.context_limit
    then err (value_error "provider context_limit must be positive when supplied")
    else ok c

-- `ProviderDescriptor.__post_init__`
unfoldable pub make_descriptor : ProviderDescriptor → Result ProviderDescriptor
make_descriptor d =
    if is_blank d.provider_id
    then err (value_error "provider_id must be a non-empty string")
    else if is_blank d.model_id
    then err (value_error "model_id must be a non-empty string")
    else ok d

-- `_provider_id`
unfoldable pub provider_id_of : String → Result String
provider_id_of value =
    if is_blank value
    then err (value_error "provider_id must be a non-empty string")
    else ok (strip value)

module _ {W : Type 0} where
  -- `ProviderRegistry.register`
  unfoldable pub register_provider : String → Factory W → Factories W → Result (Factories W)
  unfolding provider_id_of
  register_provider provider_id factory factories = elim (provider_id_of provider_id) [
    | err e ↦ err e
    | ok id ↦
        if is_some (lookup id factories)
        then err (value_error (concat "provider already registered: " id))
        else ok (insert id factory factories)
  ]

  -- `ProviderRegistry.__init__`
  unfoldable pub register_all : List (String × Factory W) → Factories W → Result (Factories W)
  unfolding register_provider
  register_all [] factories = ok factories
  register_all ((id, factory) ∷ rest) factories = elim (register_provider id factory factories) [
    | err e ↦ err e
    | ok more ↦ register_all rest more
  ]

  -- `ProviderRegistry.provider_ids`
  unfoldable pub provider_ids : Factories W → List String
  provider_ids factories = sorted (keys factories)

  abbrev pub registered_factory : String → Factories W → Result (Factory W)
  registered_factory id factories = elim (lookup id factories) [
    | none ↦ err (key_error (concat "provider is not registered: " id))
    | some factory ↦ ok factory
  ]

  -- The checks of what a factory returns.
  unfoldable pub check_handle :
      String → ProviderConfig → ProviderHandle W → Result (ProviderHandle W)
  check_handle id config handle =
      if not (handle.descriptor.provider_id == id)
      then err (value_error "provider factory descriptor does not match registered provider_id")
      else if not (handle.descriptor.model_id == strip config.model)
      then err (value_error "provider factory descriptor model_id does not match config model")
      else ok handle

  -- `ProviderRegistry.build`
  unfoldable pub build_provider : Factories W → String → ProviderConfig → Exec W (ProviderHandle W)
  unfolding provider_id_of check_handle
  build_provider factories provider_id config = do
    id ← lift (provider_id_of provider_id)
    factory ← lift (registered_factory id factories)
    handle ← factory config
    lift (check_handle id config handle)

  -- `check_provider_health`
  unfoldable pub check_provider_health :
      Factories W → String → ProviderConfig → Exec W ProviderHealthResult
  unfolding build_provider
  check_provider_health factories provider_id config = do
    handle ← build_provider factories provider_id config
    handle.backend "Provider capability check. Return a minimal valid planning response."
    pure (record {
      provider_id = handle.descriptor.provider_id;
      model_id = handle.descriptor.model_id;
      status = "READY";
      capabilities = handle.descriptor.capabilities;
    })
