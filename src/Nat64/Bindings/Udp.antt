-- ===== src/Nat64/Bindings/Udp.antt =====
-- `udp_out` and `udp_in` of src/nat64/bindings.rs.
-- An operation gives none where the code panics, else the new tables and its result.
use snak_machine_rs.Base.{
  ℕ, Bool, true, false, ◌&&◌, Option, none, some, leb, ◌==◌, if◌then◌else◌, Io, ok, err, u16_max,
}
use snak_machine_rs.Base.Maps.{nat_key, pair_key, lookup, count}
use snak_machine_rs.Time.{Rng}
use snak_machine_rs.Wire.Address.{Ipv6Addr}
use snak_machine_rs.Nat64.Bindings.Tables.{
  Bindings, BindingKey, Remote, Session, SessionKey, binding_equal, key_of, admit, UdpFiltering,
  address_dependent, endpoint_independent,
}
use snak_machine_rs.Nat64.Bindings.Expire.{◌>>=◌, expire}
use snak_machine_rs.Nat64.Bindings.Sessions.{bind, udp_session}

-- The session is made once the binding is there.
unfoldable pub udp_out :
    Bindings → Ipv6Addr → ℕ → Remote → ℕ → Rng → (ℕ → Bool) → Option (Bindings × Io ℕ)
udp_out b source port remote now rng taken = do
  (b', _) ← expire b now
  let key = key_of b' 17 source port
  elim (admit b' key remote) [
    | err e ↦ some (b', err e)
    | ok _ ↦
        let (b'', assigned) = bind key rng taken b' in
        elim assigned [
          | err e ↦ some (b'', err e)
          | ok p ↦ udp_session key remote now b'' >>= λ b'''. some (b''', ok p)
        ]
  ]

-- A session of the key with any port of the remote address: the range from port 0 to 65535.
abbrev pub from_address : BindingKey → Remote → SessionKey → Session → Bool
from_address key remote k _ =
    binding_equal k.binding key && k.remote.ip == remote.ip && leb k.remote.port u16_max

abbrev pub filters : UdpFiltering → Bool
filters address_dependent = true
filters endpoint_independent = false

unfoldable pub udp_in : Bindings → ℕ → Remote → ℕ → Option (Bindings × Io (Option (Ipv6Addr × ℕ)))
udp_in b port remote now = do
  (b', _) ← expire b now
  elim (lookup (17, port) b'.reverse) [
    | none ↦ some (b', ok none)
    | some key ↦
        if filters b'.udp_filtering && count (from_address key remote) b'.sessions == 0
        then some (b', ok none)
        else elim (admit b' key remote) [
          | err e ↦ some (b', err e)
          | ok _ ↦ do
            b'' ← udp_session key remote now b'
            some (record b'' { domain = key.domain }, ok (some (key.host, key.port)))
        ]
  ]
