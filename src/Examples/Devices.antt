-- ===== src/Examples/Devices.antt =====
-- The theorem on slots, at concrete buses.
use kuasar.Prelude.{◌≡◌, refl, none, some, [], ◌∷◌, ◌==◌, List}
use kuasar.Device.{
  Bus, SlotStatus, empty, occupied, pci, device_slot, attach, first_slot, attach_slots,
  attach-device_slot,
}

abbrev bus_of : List SlotStatus → Bus
bus_of slots = record { type = pci; id = "bus"; bus_addr = "1"; slots = slots }

attach-device_slot_example :
    device_slot "d" (bus_of (occupied "c" ∷ occupied "d" ∷ empty ∷ [])) ≡ some 1
unfolding device_slot attach first_slot attach_slots ◌==◌
attach-device_slot_example =
    attach-device_slot "d" (bus_of (occupied "c" ∷ empty ∷ empty ∷ [])) 1
      (bus_of (occupied "c" ∷ occupied "d" ∷ empty ∷ [])) refl refl

-- The first device of a new bus is not found.
attach_first :
    attach "d" (bus_of (empty ∷ empty ∷ [])) ≡ some (0, bus_of (occupied "d" ∷ empty ∷ []))
unfolding attach attach_slots
attach_first = refl

device_slot_first : device_slot "d" (bus_of (occupied "d" ∷ empty ∷ [])) ≡ none
unfolding device_slot first_slot ◌==◌
device_slot_first = refl
