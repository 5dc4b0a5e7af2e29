-- ===== src/Owner/PortMatcher/Tests.antt =====
-- Three granted ports, of which the second is the chosen one.
use serial_broker.Prelude.{ℕ, zero, suc, true, some, none, [], ◌∷◌, ◌≡◌, ◌↔◌, refl}
use serial_broker.Owner.PortMatcher.{
  SerialPortInfo, DeviceFilter, resolved, auto, usb, matches_device, resolve_device,
  find_granted_port, to_request_options,
}
use serial_broker.Owner.PortMatcher.Laws.{
  matches_device-resolve_device, IsFirst, find_granted_port-IsFirst,
}

abbrev get_info : ℕ → SerialPortInfo
get_info zero = record { usb_vendor_id = none; usb_product_id = none }
get_info (suc n) = record { usb_vendor_id = some 9025; usb_product_id = some 67 }

abbrev filter : DeviceFilter
filter = auto (some (usb 9025 67))

finds_second : find_granted_port get_info filter (0 ∷ 1 ∷ 2 ∷ []) ≡ some 1
unfolding find_granted_port matches_device
finds_second = refl

find_granted_port-IsFirst_example :
    IsFirst get_info filter (0 ∷ 1 ∷ 2 ∷ []) (find_granted_port get_info filter (0 ∷ 1 ∷ 2 ∷ []))
find_granted_port-IsFirst_example = find_granted_port-IsFirst get_info filter (0 ∷ 1 ∷ 2 ∷ [])

matches_device-resolve_device_example :
    ((matches_device (get_info 2) (auto (some (resolve_device (get_info 1)))) ≡ true)
      ↔ (resolve_device (get_info 2) ≡ resolve_device (get_info 1)))
    × ((matches_device (get_info 2) (resolved (resolve_device (get_info 1))) ≡ true)
        ↔ (resolve_device (get_info 2) ≡ resolve_device (get_info 1)))
    × (matches_device (get_info 1) (auto (some (resolve_device (get_info 1)))) ≡ true)
matches_device-resolve_device_example = matches_device-resolve_device (get_info 1) (get_info 2)

matches_second : matches_device (get_info 1) filter ≡ true
unfolding matches_device
matches_second = refl

asks_for : to_request_options filter ≡ some (9025, 67)
unfolding to_request_options
asks_for = refl
