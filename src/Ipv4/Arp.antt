-- ===== src/Ipv4/Arp.antt =====
-- `Arp` of src/ipv4/wire.rs.
use snak_machine_rs.Base.{
  ℕ, ◌&&◌, ◌||◌, not, [], ◌∷◌, ◌++◌, ltb, ◌==◌, Bytes, byte, slice, take, length, u16_of, has_bit,
  to_be, from_be, Io, ok, invalid_data, ◌>>◌, fail_if,
}
use snak_machine_rs.Ipv4.Wire.{Ipv4Addr, Mac, unicast}

pub record Arp : Type 0 where
  pub operation : ℕ
  pub sender_mac : Mac
  pub sender : Ipv4Addr
  pub target_mac : Mac
  pub target : Ipv4Addr

-- Ethernet and IPv4, in an ARP frame: [8, 6, 0, 1, 8, 0, 6, 4] and the operation, 1 or 2.
unfoldable pub parse : Bytes → Io Arp
parse frame = do
  let sender_mac = from_be (slice 22 28 frame)
  let sender = from_be (slice 28 32 frame)
  let target_mac = from_be (slice 32 38 frame)
  let target = from_be (slice 38 42 frame)
  let operation = u16_of (byte frame 20) (byte frame 21)
  fail_if
      (ltb (length frame) 42
        || not (
            from_be (slice 12 20 frame) == 0x0806_0001_0800_0604
            && (operation == 1 || operation == 2)))
      invalid_data
  fail_if
      (has_bit (byte frame 22) 1
        || sender_mac == 0
        || not (from_be (slice 6 12 frame) == sender_mac)
        || (operation == 2 && sender == 0)
        || (operation == 2
            && not (has_bit (byte frame 0) 1)
            && not (from_be (take 6 frame) == target_mac))
        || (not (sender == 0) && not (unicast sender))
        || not (unicast target || (operation == 2 && target == 0)))
      invalid_data
  ok (record {
    operation = operation;
    sender_mac = sender_mac;
    sender = sender;
    target_mac = target_mac;
    target = target;
  })

unfoldable pub encode : Arp → Mac → Bytes
encode a destination =
    to_be 6 destination
    ++ (to_be 6 a.sender_mac
        ++ ((8 ∷ 6 ∷ 0 ∷ 1 ∷ 8 ∷ 0 ∷ 6 ∷ 4 ∷ [])
            ++ (to_be 2 a.operation
                ++ (to_be 6 a.sender_mac
                    ++ (to_be 4 a.sender ++ (to_be 6 a.target_mac ++ to_be 4 a.target))))))
