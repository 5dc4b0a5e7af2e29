-- ===== src/Owner/PortMatcher.antt =====
-- src/owner/port-matcher.ts, and the device filters of src/core/defaults.ts. A port is a number, with
-- what its `getInfo()` gives as a function.
pub mod Laws
mod Tests
use serial_broker.Prelude.{
  ℕ, Bool, true, false, not, ◌&&◌, Option, none, some, List, [], ◌∷◌, if◌then◌else◌, is_value,
  is_some,
}

pub record SerialPortInfo : Type 0 where
  pub usb_vendor_id : Option ℕ
  pub usb_product_id : Option ℕ

pub data ResolvedDevice : Type 0 where
  usb : ℕ → ℕ → ResolvedDevice
  non_usb : ResolvedDevice

-- `NormalizedDeviceFilter`
pub data DeviceFilter : Type 0 where
  resolved : ResolvedDevice → DeviceFilter
  any : DeviceFilter
  auto : Option ResolvedDevice → DeviceFilter

-- What a filter matches against, once it is known.
pub data EffectiveDevice : Type 0 where
  is_device : ResolvedDevice → EffectiveDevice
  is_any : EffectiveDevice

abbrev effective_resolved : Option ResolvedDevice → Option EffectiveDevice
effective_resolved none = none
effective_resolved (some d) = some (is_device d)

abbrev pub effective_device : DeviceFilter → Option EffectiveDevice
effective_device (resolved d) = some (is_device d)
effective_device any = some is_any
effective_device (auto d) = effective_resolved d

abbrev pub has_usb_identity : SerialPortInfo → Bool
has_usb_identity info = is_some info.usb_vendor_id && is_some info.usb_product_id

abbrev matches_effective : SerialPortInfo → Option EffectiveDevice → Bool
matches_effective info none = false
matches_effective info (some is_any) = true
matches_effective info (some (is_device non_usb)) = not (has_usb_identity info)
matches_effective info (some (is_device (usb vendor_id product_id))) =
    is_value info.usb_vendor_id vendor_id && is_value info.usb_product_id product_id

pub matches_device : SerialPortInfo → DeviceFilter → Bool
matches_device info filter = matches_effective info (effective_device filter)

abbrev resolve_ids : Option ℕ → Option ℕ → ResolvedDevice
resolve_ids (some vendor_id) (some product_id) = usb vendor_id product_id
resolve_ids _ _ = non_usb

pub resolve_device : SerialPortInfo → ResolvedDevice
resolve_device info = resolve_ids info.usb_vendor_id info.usb_product_id

-- `ports.filter(…)`
abbrev pub matching : (ℕ → SerialPortInfo) → DeviceFilter → List ℕ → List ℕ
matching get_info filter [] = []
matching get_info filter (p ∷ ports) =
    let rest = matching get_info filter ports in
    if matches_device (get_info p) filter then p ∷ rest else rest

abbrev first_of : List ℕ → Option ℕ
first_of [] = none
first_of (p ∷ ports) = some p

-- `findGrantedPort`, of the ports that `getPorts()` gave.
pub find_granted_port : (ℕ → SerialPortInfo) → DeviceFilter → List ℕ → Option ℕ
find_granted_port get_info filter ports = first_of (matching get_info filter ports)

-- The one entry of `filters`, if there are any.
abbrev request_effective : Option EffectiveDevice → Option (ℕ × ℕ)
request_effective (some (is_device (usb vendor_id product_id))) = some (vendor_id, product_id)
request_effective _ = none

pub to_request_options : DeviceFilter → Option (ℕ × ℕ)
to_request_options filter = request_effective (effective_device filter)
