-- ===== src/Nat64/Bindings/Invariant/Filtering.antt =====
-- What the filter of inbound UDP packets lets in.
use snak_machine_rs.Base.{
  ℕ, ◌≡◌, ◌⊎◌, inl, inr, true, false, ◌&&◌, some, arith, ◌<◌, ◌≤◌, u16_max, leb, ◌==◌, Bool-cases,
}
use snak_machine_rs.Base.Maps.{lookup, count, pair_key}
use snak_machine_rs.Base.Maps.Every.{count_found, count_none}
use snak_machine_rs.Nat64.Bindings.Tables.{
  Bindings, BindingKey, Remote, Session, SessionKey, binding_key, session_key, binding_equal,
  binding_equal_iff, UdpFiltering, address_dependent, endpoint_independent,
}
use snak_machine_rs.Nat64.Bindings.Udp.{filters, from_address}

-- The binding has a session with some port of the address.
abbrev pub HasSession : Bindings → BindingKey → ℕ → Type 0
HasSession b key ip =
    (k : SessionKey) × (s : Session) × (lookup k b.sessions ≡ some s)
    × (k.binding ≡ key)
    × (k.remote.ip ≡ ip)
    × (k.remote.port ≤ u16_max)

HasSession-counted :
    (b : Bindings) (key : BindingKey) (remote : Remote)
    → HasSession b key remote.ip
    → 0 < count (from_address key remote) b.sessions
HasSession-counted b key remote (k, s, found, same, ip, port) =
    count_found (from_address key remote) k s b.sessions found
      (ground (arith, (binding_equal_iff k.binding key).1 same))

HasSession-uncounted :
    (b : Bindings) (key : BindingKey) (remote : Remote)
    → ¬ HasSession b key remote.ip
    → count (from_address key remote) b.sessions ≡ 0
HasSession-uncounted b key remote h =
    count_none
      (λ k. binding_equal k.binding key && k.remote.ip == remote.ip && leb k.remote.port u16_max)
      b.sessions
      (λ k s found.
        elim (Bool-cases
          (binding_equal k.binding key && k.remote.ip == remote.ip && leb k.remote.port u16_max)) [
            | inl hit ↦ absurd (
                h (
                  k,
                  s,
                  found,
                  (binding_equal_iff k.binding key).0 (ground arith),
                  ground arith,
                  ground arith,
                ))
            | inr miss ↦ miss
          ])

-- The filter lets in what it should, and nothing else.
pub filter_passes :
    (b : Bindings) (key : BindingKey) (remote : Remote) (f : UdpFiltering)
    → (f ≡ endpoint_independent) ⊎ HasSession b key remote.ip
    → (filters f && count (from_address key remote) b.sessions == 0) ≡ true
    → ⊥
filter_passes b key remote f (inl independent) shut = absurd (ground (arith, independent, shut))
filter_passes b key remote f (inr has) shut =
    let counted = HasSession-counted b key remote has in absurd (ground arith)

pub filter_shuts :
    (b : Bindings) (key : BindingKey) (remote : Remote) (f : UdpFiltering)
    → f ≡ address_dependent
    → ¬ HasSession b key remote.ip
    → (filters f && count (from_address key remote) b.sessions == 0) ≡ false
    → ⊥
filter_shuts b key remote f dependent absent passes =
    absurd (ground (arith, dependent, passes, HasSession-uncounted b key remote absent))
