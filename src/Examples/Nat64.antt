-- ===== src/Examples/Nat64.antt =====
-- Theorems on the code of src/nat64 at concrete inputs.
use snak_machine_rs.Base.{ℕ, ◌≡◌, refl, subst, false, Option, none, some, [], ◌∷◌, arith, Io, ok}
use snak_machine_rs.Base.Maps.{place, assign, lookup, insert, pair_key, nat_key, contains, size}
use snak_machine_rs.Wire.Address.{Ipv6Addr}
use snak_machine_rs.Nat64.Tcp.{v6_init}
use snak_machine_rs.Ports.{empty, claim, occupied, enter, translation}
use snak_machine_rs.Ports.Accounting.{empty-IsCounted}
use snak_machine_rs.Nat64.Bindings.Tables.{
  Bindings, BindingKey, Remote, Session, binding_key, session_key, binding_equal, session_equal,
  with_ports, admit, charged_bytes, error_in, error_out, domain_for, remote_equal,
}
use snak_machine_rs.Nat64.Bindings.Expire.{Released, expire}
use snak_machine_rs.Nat64.Bindings.Allocate.{allocate, free}
use snak_machine_rs.Nat64.Bindings.Sessions.{
  bind, claim_binding, add_binding, udp_session, icmp_session, tcp_session, plain_session, count_in,
  fresh_session,
}
use snak_machine_rs.Nat64.Bindings.Udp.{udp_out, udp_in}
use snak_machine_rs.Nat64.Bindings.Icmp.{icmp_out, icmp_in, nothing_taken}
use snak_machine_rs.Nat64.Bindings.Tcp.{tcp_out, tcp_in, tcp_in_packet}
use snak_machine_rs.Nat64.Bindings.Invariant.{IsConsistent}
use snak_machine_rs.Nat64.Bindings.Invariant.Remove.{Removes, remove_session-Removes}
use snak_machine_rs.Nat64.Bindings.Invariant.Expiry.{expire-IsConsistent}
use snak_machine_rs.Nat64.Bindings.Invariant.Bind.{allocate_lem}
use snak_machine_rs.Nat64.Bindings.Invariant.Outbound.{udp_out-IsConsistent, icmp_out-IsConsistent}
use snak_machine_rs.Nat64.Bindings.Invariant.Inbound.{udp_in-IsConsistent, icmp_in-IsConsistent}
use snak_machine_rs.Nat64.Bindings.Invariant.OutboundTcp.{tcp_out-IsConsistent}
use snak_machine_rs.Nat64.Bindings.Invariant.InboundTcp.{tcp_in-IsConsistent}
use snak_machine_rs.Nat64.Bindings.Invariant.Errors.{udp_out-errors, with_ports-IsConsistent}
use snak_machine_rs.Nat64.Bindings.Invariant.Quotes.{tcp_in_packet-IsConsistent}

abbrev start : Bindings
start = with_ports empty

start-IsConsistent : IsConsistent start
start-IsConsistent = with_ports-IsConsistent empty empty-IsCounted

abbrev server : Remote
server = record { ip = 0x0a00_0001; port = 53 }

abbrev echo_server : Remote
echo_server = record { ip = 0x0a00_0001; port = 0 }

abbrev key_for : ℕ → BindingKey
key_for protocol = record { protocol = protocol; host = 7; port = 5000; domain = 0 }

-- The tables after one packet of host 7.
abbrev opened_by : ℕ → Remote → Session → Bindings
opened_by protocol remote s = record start {
  ports = record {
    entries = ((protocol, 5000), (1, translation)) ∷ [];
    locals = 0;
    translations = 1;
    next = 1;
  };
  bindings = (key_for protocol, record { lease = 1; port = 5000; sessions = 1 }) ∷ [];
  reverse = ((protocol, 5000), key_for protocol) ∷ [];
  sessions = (record { binding = key_for protocol; remote = remote }, s) ∷ [];
  hosts = (7, (1, 1)) ∷ [];
  next = some s.expires;
}

abbrev after_udp : Bindings
after_udp = opened_by 17 server (fresh_session 301000 none)

abbrev after_tcp : Bindings
after_tcp = opened_by 6 server (fresh_session 241000 (some v6_init))

abbrev after_echo : Bindings
after_echo = opened_by 1 echo_server (fresh_session 61000 none)

after_udp_run : udp_out start 7 5000 server 1000 [] nothing_taken ≡ some (after_udp, ok 5000)
unfolding udp_out expire with_ports admit charged_bytes size contains lookup bind allocate free
    occupied empty claim enter udp_session plain_session count_in claim_binding add_binding insert
    place assign binding_equal
after_udp_run = refl

after_tcp_run : tcp_out start 7 5000 server 2 1000 [] ≡ some (after_tcp, ok (some 5000))
unfolding tcp_out tcp_session expire with_ports admit charged_bytes size contains lookup bind
    allocate free occupied empty claim enter udp_session plain_session count_in claim_binding
    add_binding insert place assign binding_equal
after_tcp_run = refl

after_echo_run : icmp_out start 7 5000 0x0a00_0001 1000 [] ≡ some (after_echo, ok 5000)
unfolding icmp_out icmp_session expire with_ports admit charged_bytes size contains lookup bind
    allocate free occupied empty claim enter udp_session plain_session count_in claim_binding
    add_binding insert place assign binding_equal
after_echo_run = refl

after_udp-IsConsistent : IsConsistent after_udp
after_udp-IsConsistent =
    let (b', r, run, v, _, _) =
      udp_out-IsConsistent start 7 5000 server 1000 [] nothing_taken start-IsConsistent in
    let same : b' ≡ after_udp = ground (arith, after_udp_run) in subst IsConsistent same v

after_tcp-IsConsistent : IsConsistent after_tcp
after_tcp-IsConsistent =
    let (_, b', _, r, _, run, v, _, _) =
      tcp_out-IsConsistent start 7 5000 server 2 1000 [] start-IsConsistent in
    let same : b' ≡ after_tcp = ground (arith, after_tcp_run) in subst IsConsistent same v

after_echo-IsConsistent : IsConsistent after_echo
after_echo-IsConsistent =
    let (b', r, run, v, _, _) =
      icmp_out-IsConsistent start 7 5000 0x0a00_0001 1000 [] start-IsConsistent in
    let same : b' ≡ after_echo = ground (arith, after_echo_run) in subst IsConsistent same v

udp_out-IsConsistent_example :
    (b' : Bindings) × (r : Io ℕ) × (udp_out after_udp 7 5001 server 2000 [] nothing_taken
      ≡ some (b', r))
    × IsConsistent b'
udp_out-IsConsistent_example =
    let (b', r, run, v, _, _) =
      udp_out-IsConsistent after_udp 7 5001 server 2000 [] nothing_taken after_udp-IsConsistent in
    (b', r, run, v)

udp_in-IsConsistent_example :
    (b' : Bindings) × (r : Io (Option (Ipv6Addr × ℕ))) × (udp_in after_udp 5000 server 2000
      ≡ some (b', r))
    × IsConsistent b'
udp_in-IsConsistent_example =
    let (_, b', _, r, _, run, v, _) =
      udp_in-IsConsistent after_udp 5000 server 2000 after_udp-IsConsistent in
    (b', r, run, v)

tcp_out-IsConsistent_example :
    (b' : Bindings) × (r : Io (Option ℕ)) × (tcp_out after_tcp 7 5000 server 2 2000 []
      ≡ some (b', r))
    × IsConsistent b'
tcp_out-IsConsistent_example =
    let (_, b', _, r, _, run, v, _, _) =
      tcp_out-IsConsistent after_tcp 7 5000 server 2 2000 [] after_tcp-IsConsistent in
    (b', r, run, v)

tcp_in-IsConsistent_example :
    (b' : Bindings) × (r : Io (Option (Ipv6Addr × ℕ))) × (tcp_in after_tcp 5000 server 18 2000
      ≡ some (b', r))
    × IsConsistent b'
tcp_in-IsConsistent_example =
    let (_, b', _, r, _, run, v, _) =
      tcp_in-IsConsistent after_tcp 5000 server 18 2000 after_tcp-IsConsistent in
    (b', r, run, v)

icmp_out-IsConsistent_example :
    (b' : Bindings) × (r : Io ℕ) × (icmp_out after_echo 8 5000 0x0a00_0001 2000 [] ≡ some (b', r))
    × IsConsistent b'
icmp_out-IsConsistent_example =
    let (b', r, run, v, _, _) =
      icmp_out-IsConsistent after_echo 8 5000 0x0a00_0001 2000 [] after_echo-IsConsistent in
    (b', r, run, v)

icmp_in-IsConsistent_example :
    (b' : Bindings) × (r : Io (Option (Ipv6Addr × ℕ))) × (icmp_in after_echo 5000 0x0a00_0001 2000
      ≡ some (b', r))
    × IsConsistent b'
icmp_in-IsConsistent_example =
    let (_, b', _, r, _, run, v, _) =
      icmp_in-IsConsistent after_echo 5000 0x0a00_0001 2000 after_echo-IsConsistent in
    (b', r, run, v)

tcp_in_packet-IsConsistent_example :
    (b' : Bindings) × (r : Io (Option (Ipv6Addr × ℕ))) × (tcp_in_packet after_tcp 5000 echo_server 2
        2000
        (0x45 ∷ 0 ∷ [])
      ≡ some (b', r))
    × IsConsistent b'
tcp_in_packet-IsConsistent_example =
    tcp_in_packet-IsConsistent after_tcp 5000 echo_server 2 2000 (0x45 ∷ 0 ∷ [])
      after_tcp-IsConsistent (omega arith)

-- At the end of its time the session goes, and the port is given back.
expire-IsConsistent_example :
    (b' : Bindings) × (released : Released) × (expire after_udp 301000 ≡ some (b', released))
    × IsConsistent b'
expire-IsConsistent_example =
    let (b', released, run, v, _, _, _) =
      expire-IsConsistent after_udp 301000 after_udp-IsConsistent in
    (b', released, run, v)

after_udp_found :
    lookup (record { binding = key_for 17; remote = server }) after_udp.sessions
    ≡ some (fresh_session 301000 none)
unfolding lookup session_equal binding_equal remote_equal
after_udp_found = refl

remove_session-Removes_example :
    Removes (record { binding = key_for 17; remote = server }) after_udp
remove_session-Removes_example =
    remove_session-Removes after_udp (record { binding = key_for 17; remote = server })
      (fresh_session 301000 none) after_udp-IsConsistent after_udp_found

udp_out-errors_example :
    (error_in after_udp 17 5000 server 2000 ≡ some (7, 5000))
    × (domain_for after_udp 17 5000 ≡ some start.domain)
    × (error_out after_udp 17 7 5000 server 2000 ≡ some 5000)
unfolding with_ports
udp_out-errors_example =
    udp_out-errors start after_udp 7 5000 5000 server 1000 2000 [] nothing_taken start-IsConsistent
      after_udp_run (omega arith)

allocated : allocate start 17 5000 [] nothing_taken ≡ ok (5000, [])
unfolding allocate contains lookup with_ports occupied empty
allocated = refl

allocate_lem_example :
    (lookup (17, 5000) start.reverse ≡ none)
    × (lookup (17, 5000) start.ports.entries ≡ none)
    × (nothing_taken 5000 ≡ false)
allocate_lem_example = allocate_lem start 17 5000 [] [] nothing_taken 5000 allocated
