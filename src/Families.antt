-- ===== src/Families.antt =====
-- src/io/families.rs: the Ethernet family of a frame, and the bounded queue of AIL frames.
pub mod Queue
use snak_machine_rs.Base.{
  ℕ, ◌+◌, ◌-◌, Bool, true, false, ◌||◌, Option, none, some, List, [], ◌∷◌, ◌++◌, ltb, leb, ◌==◌,
  if◌then◌else◌, Bytes, byte, length, u16_of,
}

pub data Family : Type 0 where
  ipv6 ipv4 arp : Family

unfoldable pub ethernet_family : Bytes → Option Family
ethernet_family frame =
    if ltb (length frame) 14
    then none
    else (let kind = u16_of (byte frame 12) (byte frame 13) in
        if kind == 0x86dd
        then some ipv6
        else if kind == 0x0800
        then some ipv4
        else if kind == 0x0806
        then some arp
        else none)

pub record AilFrames : Type 0 where
  pub frames : List Bytes
  pub bytes : ℕ

abbrev pub no_frames : AilFrames
no_frames = record { frames = []; bytes = 0 }

unfoldable pub push : AilFrames → Bytes → AilFrames × Bool
push q frame =
    if leb 64 (length q.frames) || ltb 65535 (length frame) || ltb 65535 (q.bytes + length frame)
    then (q, false)
    else (record { frames = q.frames ++ frame ∷ []; bytes = q.bytes + length frame }, true)

-- The counter would panic below zero, which is `none` outside; inside, an empty queue gives none.
unfoldable pub pop : AilFrames → Option (AilFrames × Option Bytes)
pop q = elim q.frames [
  | [] ↦ some (q, none)
  | frame ∷ frames ↦
      if ltb q.bytes (length frame)
      then none
      else some (record { frames = frames; bytes = q.bytes - length frame }, some frame)
]
