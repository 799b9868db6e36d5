-- ===== src/Xrce/Reliable.antt =====
-- xrce/src/reliable_stream.c: the window of messages of a reliable output stream.
pub mod Window
pub mod Sweeping
use rtos_kernel_from_scratch.Common.{
  ℕ, zero, suc, ◌+◌, ◌-◌, ◌%◌, ◌^◌, Bool, true, false, not, ◌&&◌, Option, none, some, List, [], ◌∷◌,
  length, ◌==◌, ltb, if◌then◌else◌,
}

-- `XRCE_RELIABLE_WINDOW` and `XRCE_RELIABLE_MSG_MAX`
abbrev pub window : ℕ
window = 32

abbrev msg_max : ℕ
msg_max = 256

abbrev pub u16 : ℕ → ℕ
u16 n = n % 2 ^ 16

-- `xrce_reliable_out_t`. A slot holds its message, of its length, and whether it is occupied.
pub record Slot : Type 0 where
  pub msg : List ℕ
  pub occupied : Bool

pub record ReliableOut : Type 0 where
  pub slots : ℕ → Slot
  pub last_acknown : ℕ
  pub last_sent : ℕ
  pub any_sent : Bool
  pub send_lost : Bool
  pub retransmit_cursor : ℕ
  pub retransmit_count : ℕ

-- `slot_for`
abbrev pub slot_for : ℕ → ℕ
slot_for seq = seq % window

abbrev put_slot : (ℕ → Slot) → ℕ → Slot → ℕ → Slot
put_slot slots i s j = if i == j then s else slots j

-- `xrce_reliable_out_init`
unfoldable pub reliable_out_init : ReliableOut
reliable_out_init = record {
  slots = λ i. record { msg = []; occupied = false };
  last_acknown = 0;
  last_sent = 0;
  any_sent = false;
  send_lost = false;
  retransmit_cursor = 0;
  retransmit_count = 0;
}

-- `(uint16_t)(seq - ro->last_acknown)`
abbrev pub outstanding : ReliableOut → ℕ → ℕ
outstanding ro seq = u16 (seq + 2 ^ 16 - ro.last_acknown)

-- `xrce_reliable_out_track`
unfoldable pub reliable_out_track : ReliableOut → ℕ → List ℕ → ReliableOut × Bool
reliable_out_track ro seq msg =
    if ltb msg_max (length msg)
    then (ro, false)
    else if ro.any_sent && ltb window (outstanding ro seq)
    then (ro, false)
    else (
      record ro {
        slots = put_slot ro.slots (slot_for seq) (record { msg = msg; occupied = true });
        last_sent = seq;
        any_sent = true;
      },
      true,
    )

abbrev pub free_slot : (ℕ → Slot) → ℕ → ℕ → Slot
free_slot slots i = put_slot slots i (record { msg = (slots i).msg; occupied = false })

-- The loop of `xrce_reliable_out_on_acknack`, with fuel: `none` if it runs out.
unfoldable pub free_until : ℕ → (ℕ → Slot) → ℕ → ℕ → Option (ℕ → Slot)
free_until zero slots seq first = none
free_until (suc fuel) slots seq first =
    let rest = free_until fuel (free_slot slots (slot_for seq)) (u16 (seq + 1)) first in
    if seq == first then some slots else rest

abbrev acked : ReliableOut → ℕ → Option (ℕ → Slot) → Option ReliableOut
acked ro first none = none
acked ro first (some slots) =
    some (record ro { slots = slots; last_acknown = u16 (first + 2 ^ 16 - 1) })

abbrev arm : ℕ → Option ReliableOut → Option ReliableOut
arm bitmap none = none
arm bitmap (some ro) =
    some (record ro { send_lost = not (bitmap == 0); retransmit_cursor = ro.last_acknown })

-- `xrce_reliable_out_on_acknack`; the loop goes round the 16 bit numbers once at most.
unfoldable pub reliable_out_on_acknack : ReliableOut → ℕ → ℕ → Option ReliableOut
reliable_out_on_acknack ro first bitmap = arm bitmap (
    if ro.any_sent
    then acked ro first (free_until (2 ^ 16) ro.slots ro.last_acknown first)
    else some ro)

-- The loop of `xrce_reliable_out_next_retransmit`, with fuel: `none` if it runs out. It returns the
-- message to send again, or none of it when the sweep is over.
pub sweep : ℕ → ReliableOut → Option (ReliableOut × Option (List ℕ))
sweep zero ro = none
sweep (suc fuel) ro =
    let cursor = u16 (ro.retransmit_cursor + 1) in
    let rest = sweep fuel (record ro { retransmit_cursor = cursor }) in
    if ro.retransmit_cursor == ro.last_sent
    then some (record ro { send_lost = false }, none)
    else if (ro.slots (slot_for cursor)).occupied
    then some (
      record ro {
        retransmit_cursor = cursor;
        retransmit_count = (ro.retransmit_count + 1) % 2 ^ 32;
      },
      some (ro.slots (slot_for cursor)).msg,
    )
    else rest

-- `xrce_reliable_out_next_retransmit`
pub reliable_out_next_retransmit : ReliableOut → Option (ReliableOut × Option (List ℕ))
reliable_out_next_retransmit ro = if ro.send_lost then sweep (2 ^ 16) ro else some (ro, none)
