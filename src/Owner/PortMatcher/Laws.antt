-- ===== src/Owner/PortMatcher/Laws.antt =====
-- The functions of src/owner/port-matcher.ts against each other, and against what a filter is for.
use serial_broker.Prelude.{
  ℕ, Bool, true, false, ◌&&◌, Option, none, some, List, [], ◌∷◌, ◌++◌, is_value, ◌≡◌, ◌↔◌, refl,
  ◌⊎◌, inl, inr, is_some, not, ◌∙◌, ap, arith, All, by_if, ==_iff,
}
use serial_broker.Owner.PortMatcher.{
  SerialPortInfo, ResolvedDevice, usb, non_usb, DeviceFilter, resolved, any, auto, is_device,
  matches_effective, matches_device, resolve_ids, resolve_device, matching, first_of,
  find_granted_port, to_request_options,
}

-- A port that is matched by its identity, and one that is matched by having none.
ids_iff :
    (v p w q : Option ℕ)
    → (matches_effective
          (record { usb_vendor_id = w; usb_product_id = q })
          (some (is_device (resolve_ids v p)))
        ≡ true)
      ↔ (resolve_ids w q ≡ resolve_ids v p)
ids_iff (some v) (some p) (some w) (some q) = ground arith
ids_iff (some v) (some p) (some w) none = ground arith
ids_iff (some v) (some p) none q = ground arith
ids_iff (some v) none (some w) (some q) = ground arith
ids_iff (some v) none (some w) none = ground arith
ids_iff (some v) none none q = ground arith
ids_iff none p (some w) (some q) = ground arith
ids_iff none p (some w) none = ground arith
ids_iff none p none q = ground arith

-- A port is matched by what another port was resolved to, chosen for a configuration or as the
-- resolution of auto mode, exactly when it would be resolved to the same device; so a port that was
-- resolved is always found again.
pub matches_device-resolve_device :
    (chosen port : SerialPortInfo)
    → ((matches_device port (auto (some (resolve_device chosen))) ≡ true)
        ↔ (resolve_device port ≡ resolve_device chosen))
      × ((matches_device port (resolved (resolve_device chosen)) ≡ true)
          ↔ (resolve_device port ≡ resolve_device chosen))
      × (matches_device chosen (auto (some (resolve_device chosen))) ≡ true)
unfolding matches_device resolve_device
matches_device-resolve_device chosen port =
    let iff =
      ids_iff chosen.usb_vendor_id chosen.usb_product_id port.usb_vendor_id port.usb_product_id in
    let self =
      ids_iff chosen.usb_vendor_id chosen.usb_product_id chosen.usb_vendor_id
        chosen.usb_product_id in
    (iff, iff, self.1 refl)

is_value-some : (o : Option ℕ) (n : ℕ) → is_value o n ≡ true → o ≡ some n
is_value-some none n h = cc
is_value-some (some a) n h = ap some ((==_iff a n).0 h)

both : (a b : Bool) → a && b ≡ true → (a ≡ true) × (b ≡ true)
both true b h = (refl, h)
both false b h = cc

differ : (b : Bool) → b ≡ false → b ≡ true → ⊥
differ b f t = cc

-- The ports a filter is for: of a USB device, those with its two ids; of a device that is not a USB
-- one, those that lack an id; of any device, all; in auto mode, those of the device it was resolved to,
-- and none before it was.
abbrev pub FitsDevice : SerialPortInfo → ResolvedDevice → Type 0
FitsDevice info (usb v p) = (info.usb_vendor_id ≡ some v) × (info.usb_product_id ≡ some p)
FitsDevice info non_usb = (info.usb_vendor_id ≡ none) ⊎ (info.usb_product_id ≡ none)

abbrev pub Fits : SerialPortInfo → DeviceFilter → Type 0
Fits info (resolved d) = FitsDevice info d
Fits info any = Unit
Fits info (auto none) = ⊥
Fits info (auto (some d)) = FitsDevice info d

is_value_refl : (o : Option ℕ) (n : ℕ) → o ≡ some n → is_value o n ≡ true
is_value_refl none n h = cc
is_value_refl (some a) n h = (==_iff a n).1 (ground (arith, h))

lacks_id : (v p : Option ℕ) → (not (is_some v && is_some p) ≡ true) ↔ ((v ≡ none) ⊎ (p ≡ none))
lacks_id none p = (λ h. inl refl, λ h. refl)
lacks_id (some v) none = (λ h. inr refl, λ h. refl)
lacks_id (some v) (some p) = (λ h. cc, λ h. elim h [ inl e ↦ cc | inr e ↦ cc ])

device_iff :
    (info : SerialPortInfo) (d : ResolvedDevice)
    → (matches_effective info (some (is_device d)) ≡ true) ↔ FitsDevice info d
device_iff info (usb v p) = (
  λ h.
      let ids = both _ _ h in
      (is_value-some info.usb_vendor_id v ids.0, is_value-some info.usb_product_id p ids.1),
  λ h. rw (is_value_refl info.usb_vendor_id v h.0, is_value_refl info.usb_product_id p h.1),
)
device_iff info non_usb = lacks_id info.usb_vendor_id info.usb_product_id

matches_iff :
    (info : SerialPortInfo) (filter : DeviceFilter)
    → (matches_device info filter ≡ true) ↔ Fits info filter
unfolding matches_device
matches_iff info (resolved d) = device_iff info d
matches_iff info any = (λ h. tt, λ h. refl)
matches_iff info (auto none) = (λ h. cc, λ h. elim h [ ])
matches_iff info (auto (some d)) = device_iff info d

-- A port that the filter is not for.
abbrev pub IsOther : (ℕ → SerialPortInfo) → DeviceFilter → ℕ → Type 0
IsOther get_info filter p = ¬ Fits (get_info p) filter

-- The result is the first port of the list that the filter is for, or there is none.
abbrev pub IsFirst : (ℕ → SerialPortInfo) → DeviceFilter → List ℕ → Option ℕ → Type 0
IsFirst get_info filter ports none = All (IsOther get_info filter) ports
IsFirst get_info filter ports (some p) =
    (before : List ℕ) × (after : List ℕ) × (ports ≡ before ++ p ∷ after)
    × All (IsOther get_info filter) before
    × Fits (get_info p) filter

IsFirst-later :
    (get_info : ℕ → SerialPortInfo) (filter : DeviceFilter) (q : ℕ) (ports : List ℕ) (o : Option ℕ)
    → IsOther get_info filter q
    → IsFirst get_info filter ports o
    → IsFirst get_info filter (q ∷ ports) o
IsFirst-later get_info filter q ports none other h = (other, h)
IsFirst-later get_info filter q ports (some p) other (before, after, e, all, same) =
    (q ∷ before, after, ap (λ ps. q ∷ ps) e, (other, all), same)

-- Whatever ports are granted, the port found is the first of the list that the filter is for, and none
-- is found only if the filter is for none of them: a USB filter is for the ports with both its ids,
-- one of no USB device for those that lack an id, `any` for all, and one in auto mode for those of the
-- device it was resolved to, which are none before it was.
pub find_granted_port-IsFirst :
    (get_info : ℕ → SerialPortInfo) (filter : DeviceFilter) (ports : List ℕ)
    → IsFirst get_info filter ports (find_granted_port get_info filter ports)
unfolding find_granted_port
find_granted_port-IsFirst get_info filter [] = tt
find_granted_port-IsFirst get_info filter (q ∷ ports) =
    let iff = matches_iff (get_info q) filter in
    by_if (λ (ps : List ℕ). IsFirst get_info filter (q ∷ ports) (first_of ps))
      (matches_device (get_info q) filter) _ _ (λ same. ([], ports, refl, tt, iff.0 same))
      (λ other.
        IsFirst-later get_info filter q ports (first_of (matching get_info filter ports))
          (λ fits. differ _ other (iff.1 fits)) (find_granted_port-IsFirst get_info filter ports))

identity_fits :
    (info : SerialPortInfo) (w q v p : ℕ)
    → is_value info.usb_vendor_id w && is_value info.usb_product_id q ≡ true
    → ◌≡◌ {A = Option (ℕ × ℕ)} (some (w, q)) (some (v, p))
    → (info.usb_vendor_id ≡ some v) × (info.usb_product_id ≡ some p)
identity_fits info w q v p h e =
    let same : w ≡ v = cc in
    let same' : q ≡ p = cc in
    let ids = both _ _ h in
    (
      is_value-some info.usb_vendor_id w ids.0 ∙ ap some same,
      is_value-some info.usb_product_id q ids.1 ∙ ap some same',
    )

-- A port that the configuration matches has the identity that the picker is asked for, if it is asked
-- for one: the picker hides no port that would match.
pub to_request_options-fits :
    (info : SerialPortInfo) (filter : DeviceFilter) (v p : ℕ)
    → matches_device info filter ≡ true
    → to_request_options filter ≡ some (v, p)
    → (info.usb_vendor_id ≡ some v) × (info.usb_product_id ≡ some p)
unfolding matches_device to_request_options
to_request_options-fits info (resolved (usb w q)) v p h e = identity_fits info w q v p h e
to_request_options-fits info (resolved non_usb) v p h e = cc
to_request_options-fits info any v p h e = cc
to_request_options-fits info (auto none) v p h e = cc
to_request_options-fits info (auto (some non_usb)) v p h e = cc
to_request_options-fits info (auto (some (usb w q))) v p h e = identity_fits info w q v p h e
