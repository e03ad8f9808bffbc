-- ===== src/Device.antt =====
-- The slots of a bus (vmm/sandbox/src/device.rs).
use kuasar.Prelude.{
  ℕ, ◌+◌, String, ◌≡◌, refl, Bool, true, false, Option, none, some, List, [], ◌∷◌, ◌==◌, ==_refl,
  eqb, arith, Option-cases, inl, inr, if◌then◌else◌, subst,
}

pub data BusType : Type 0 where
  pci pcie ccw scsi mmio serial null : BusType

pub data SlotStatus : Type 0 where
  empty : SlotStatus
  occupied : String → SlotStatus

pub record Bus : Type 0 where
  pub type : BusType
  pub id : String
  pub bus_addr : String
  pub slots : List SlotStatus

abbrev is_empty : SlotStatus → Bool
is_empty empty = true
is_empty (occupied id) = false

abbrev holds : String → SlotStatus → Bool
holds id empty = false
holds id (occupied o) = o == id

-- The first slot from index `i` on that passes the test; slot 0 is passed over.
unfoldable pub first_slot : (SlotStatus → Bool) → ℕ → List SlotStatus → Option ℕ
first_slot test i [] = none
first_slot test i (s ∷ slots) =
    let rest = first_slot test (i + 1) slots in
    if eqb i 0 then rest else if test s then some i else rest

unfoldable pub empty_slot : Bus → Option ℕ
empty_slot bus = first_slot is_empty 0 bus.slots

unfoldable pub device_slot : String → Bus → Option ℕ
device_slot id bus = first_slot (holds id) 0 bus.slots

abbrev occupied_after : String → Option (ℕ × List SlotStatus) → Option (ℕ × List SlotStatus)
occupied_after o none = none
occupied_after o (some (i, slots)) = some (i + 1, occupied o ∷ slots)

unfoldable pub attach_slots : String → List SlotStatus → Option (ℕ × List SlotStatus)
attach_slots id [] = none
attach_slots id (empty ∷ slots) = some (0, occupied id ∷ slots)
attach_slots id (occupied o ∷ slots) = occupied_after o (attach_slots id slots)

abbrev with_slots : Bus → Option (ℕ × List SlotStatus) → Option (ℕ × Bus)
with_slots bus none = none
with_slots bus (some (i, slots)) = some (i, record bus { slots = slots })

-- `none` is the error that the bus is full.
unfoldable pub attach : String → Bus → Option (ℕ × Bus)
attach id bus = with_slots bus (attach_slots id bus.slots)

abbrev beyond_zero : ℕ → Option ℕ
beyond_zero i = if eqb i 0 then none else some i

abbrev FoundAfter : ℕ → List SlotStatus → String → Option (ℕ × List SlotStatus) → Type 0
FoundAfter i slots id none = first_slot is_empty i slots ≡ none
FoundAfter i slots id (some (j, slots')) = first_slot (holds id) i slots' ≡ beyond_zero (i + j)

attach_slots-first_slot :
    (id : String) (i : ℕ) (slots : List SlotStatus)
    → first_slot (holds id) i slots ≡ none
    → FoundAfter i slots id (attach_slots id slots)
unfolding attach_slots first_slot
attach_slots-first_slot id i [] h = refl
attach_slots-first_slot id i (empty ∷ slots) h = ground (arith, ==_refl id)
attach_slots-first_slot id i (occupied o ∷ slots) h =
    let later = attach_slots-first_slot id (i + 1) slots (ground arith) in
    elim (Option-cases (attach_slots id slots)) [
      | inl e ↦ let ih = subst (FoundAfter (i + 1) slots id) e later in rw e (ground (arith, ih))
      | inr ((j, slots'), e) ↦
          let ih = subst (FoundAfter (i + 1) slots id) e later in rw e (ground (arith, ih))
    ]

-- A device that was not on the bus, once attached, is found in the slot that `attach` answered, but
-- for slot 0: there it is not found at all.
pub attach-device_slot :
    (id : String) (bus : Bus) (i : ℕ) (bus' : Bus)
    → device_slot id bus ≡ none
    → attach id bus ≡ some (i, bus')
    → device_slot id bus' ≡ (if eqb i 0 then none else some i)
unfolding device_slot attach
attach-device_slot id bus i bus' h e =
    let found = attach_slots-first_slot id 0 bus.slots h in
    elim (Option-cases (attach_slots id bus.slots)) [
      | inl none_left ↦ ground arith
      | inr ((j, slots), at) ↦
          let here : first_slot (holds id) 0 slots ≡ beyond_zero (0 + j) =
            subst (FoundAfter 0 bus.slots id) at found in
          ground (arith, here)
    ]
