-- ===== src/Nat64/Bindings/Icmp.antt =====
-- src/nat64/bindings/icmp.rs.
use snak_machine_rs.Base.{ℕ, Bool, false, not, Option, none, some, if◌then◌else◌, Io, ok, err}
use snak_machine_rs.Base.Maps.{pair_key, lookup, contains}
use snak_machine_rs.Time.{Rng}
use snak_machine_rs.Wire.Address.{Ipv6Addr}
use snak_machine_rs.Nat64.Bindings.Tables.{Bindings, session_key, key_of, admit}
use snak_machine_rs.Nat64.Bindings.Expire.{◌>>=◌, expire}
use snak_machine_rs.Nat64.Bindings.Sessions.{bind, icmp_session}

abbrev pub nothing_taken : ℕ → Bool
nothing_taken p = false

unfoldable pub icmp_out : Bindings → Ipv6Addr → ℕ → ℕ → ℕ → Rng → Option (Bindings × Io ℕ)
icmp_out b source id ip now rng = do
  (b', _) ← expire b now
  let key = key_of b' 1 source id
  elim (admit b' key (record { ip = ip; port = 0 })) [
    | err e ↦ some (b', err e)
    | ok _ ↦
        let (b'', assigned) = bind key rng nothing_taken b' in
        elim assigned [
          | err e ↦ some (b'', err e)
          | ok p ↦ icmp_session key ip now b'' >>= λ b'''. some (b''', ok p)
        ]
  ]

unfoldable pub icmp_in : Bindings → ℕ → ℕ → ℕ → Option (Bindings × Io (Option (Ipv6Addr × ℕ)))
icmp_in b id ip now = do
  (b', _) ← expire b now
  elim (lookup (1, id) b'.reverse) [
    | none ↦ some (b', ok none)
    | some key ↦
        if not
          (contains (record { binding = key; remote = record { ip = ip; port = 0 } }) b'.sessions)
        then some (b', ok none)
        else (do
          b'' ← icmp_session key ip now b'
          some (record b'' { domain = key.domain }, ok (some (key.host, key.port))))
  ]
