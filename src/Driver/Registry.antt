-- ===== src/Driver/Registry.antt =====
-- crates/nclav-driver/src/registry.rs.
use nclav.Base.{
  ◌≡◌, ◌≢◌, none, some, unwrap_or, List, [], map, Map, get, insert, get-insert, Result, ok, err,
  ==_iff, arith,
}
use nclav.Domain.{Enclave, CloudTarget, cloud_eq}
use nclav.Driver.{Driver, DriverError, driver_not_configured}

pub record DriverRegistry (V W : Type 0) : Type 0 where
  pub default_cloud : CloudTarget
  pub drivers : Map CloudTarget (Driver V W)

module _ {V W : Type 0} where
  abbrev pub new_registry : CloudTarget → DriverRegistry V W
  new_registry default_cloud = record { default_cloud = default_cloud; drivers = [] }

  unfoldable pub register : CloudTarget → Driver V W → DriverRegistry V W → DriverRegistry V W
  unfolding insert
  register cloud driver r = record r { drivers = insert cloud driver r.drivers }

  unfoldable pub resolved_cloud : DriverRegistry V W → Enclave → CloudTarget
  resolved_cloud r enc = unwrap_or enc.cloud r.default_cloud

  unfoldable pub for_cloud : DriverRegistry V W → CloudTarget → Result DriverError (Driver V W)
  unfolding get
  for_cloud r cloud = elim (get cloud r.drivers) [
    | none ↦ err (driver_not_configured cloud)
    | some d ↦ ok d
  ]

  unfoldable pub for_enclave : DriverRegistry V W → Enclave → Result DriverError (Driver V W)
  unfolding resolved_cloud for_cloud
  for_enclave r enc = for_cloud r (resolved_cloud r enc)

  unfoldable pub active_clouds : DriverRegistry V W → List CloudTarget
  active_clouds r = map (λ p. p.0) r.drivers

  -- After a registration an enclave gets the new driver exactly where its own cloud, or the default
  -- cloud in its absence, is the registered one; otherwise what it got before.
  pub for_enclave-register :
      (r : DriverRegistry V W) (cloud : CloudTarget) (d : Driver V W) (enc : Enclave)
      → (unwrap_or enc.cloud r.default_cloud ≡ cloud → for_enclave (register cloud d r) enc ≡ ok d)
        × (unwrap_or enc.cloud r.default_cloud ≢ cloud
            → for_enclave (register cloud d r) enc ≡ for_enclave r enc)
  unfolding for_enclave register
  for_enclave-register r cloud d enc =
      let c = unwrap_or enc.cloud r.default_cloud in
      (
        (λ e. ground (arith, get-insert cloud c d r.drivers, ==_iff cloud c)),
        (λ e. ground (arith, get-insert cloud c d r.drivers, ==_iff cloud c)),
      )
