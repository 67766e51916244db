-- ===== src/Ipv4/Neighbors/Replies.antt =====
-- What `receive` does with an ARP reply.
use mathlib.Core.List.{append-nil}
use snak_machine_rs.Base.{
  ℕ, ◌<◌, ◌≡◌, ◌≢◌, refl, ap, true, false, not, ◌&&◌, ◌||◌, ◌==◌, none, some, List, [], arith,
  Bytes, slice, from_be, map, Bool-cases, ◌⊎◌, inl, inr, ok, saturating_add,
}
use snak_machine_rs.Base.Maps.{nat_key, lookup, contains, lookup-insert, lookup-insert-same}
use snak_machine_rs.Ipv4.Wire.{Ipv4Addr, Mac}
use snak_machine_rs.Ipv4.Arp
use snak_machine_rs.Ipv4.Arp.{Arp}
use snak_machine_rs.Ipv4.Routing.{Neighbor, Ipv4, same_prefix}
use snak_machine_rs.Ipv4.Neighbors.{resolved, ethernet, is_foreign, is_news, learn, answer, receive}
use snak_machine_rs.Ipv4.Neighbors.Receiving.{known_entry}

answer_reply :
    (s : Ipv4) (address : Ipv4Addr) (a : Arp) (now : ℕ)
    → a.operation ≡ 2
    → answer s address a now ≡ (s, [])
unfolding answer
answer_reply s address a now reply = rw (answer, reply) refl

-- A reply to this host is given to `learn`, whose frames are the answer.
receive_learns :
    (s t : Ipv4) (out : List Bytes) (f : Bytes) (now address len : ℕ) (a : Arp)
    → learn s a now ≡ (t, out)
    → s.address ≡ some (address, len)
    → is_foreign s f ≡ false
    → from_be (slice 12 14 f) ≡ 0x0806
    → Arp.parse f ≡ ok a
    → a.operation ≡ 2
    → a.sender_mac ≢ s.mac
    → a.sender ≢ address
    → a.target ≡ address
    → same_prefix address a.sender len ≡ true
    → receive s f now ≡ (t, ok out)
unfolding receive
receive_learns s t out f now address len a learned home ours kind good reply other apart target
      near =
    let arp : (from_be (slice 12 14 f) == 0x0800) ≡ false = ground (arith, kind) in
    let taken : (a.sender_mac == s.mac
          || a.sender == address
          || not (a.target == address)
          || (not (a.sender == 0) && not (same_prefix address a.sender len)))
        ≡ false =
      ground arith in
    rw (receive, home, ours, arp, good, learned, answer_reply t address a now reply, taken)
      (ap (λ (x : List Bytes). (t, ok x)) (append-nil out))

learn_ignores : (s : Ipv4) (a : Arp) (now : ℕ) → is_news s a ≡ false → learn s a now ≡ (s, [])
unfolding learn
learn_ignores s a now old = rw (learn, old) refl

-- The hosts that a reply is not from.
learn_keeps :
    (s : Ipv4) (a : Arp) (now : ℕ) (ip : Ipv4Addr)
    → ip ≢ a.sender
    → lookup ip (learn s a now).0.neighbors ≡ lookup ip s.neighbors
unfolding learn
learn_keeps s a now ip apart = elim (Bool-cases (is_news s a)) [
  | inr old ↦ rw (learn, old) refl
  | inl news ↦
      rw (learn, news) (ground (arith, lookup-insert a.sender ip (known_entry a now) s.neighbors))
]

learn_told :
    (s : Ipv4) (a : Arp) (now later : ℕ) (n : Neighbor)
    → is_news s a ≡ true
    → lookup a.sender s.neighbors ≡ some n
    → later < saturating_add now 60000
    → ((learn s a now).1 ≡ map (ethernet s.mac a.sender_mac) n.queue)
      × (resolved (learn s a now).0 a.sender later ≡ some a.sender_mac)
      × ((k : Neighbor) → lookup a.sender (learn s a now).0.neighbors ≡ some k → k.queue ≡ [])
unfolding learn resolved
learn_told s a now later n news there soon =
    let found = lookup-insert-same a.sender (known_entry a now) s.neighbors in
    (
      rw (learn, news, there) refl,
      rw (learn, news) (rw (resolved, found) (ground (arith, soon))),
      λ k e. ground (arith, news, found, e),
    )

-- An ARP reply to this host comes from another host of its network, with another hardware address than
-- this one. If nothing was asked from the sender, or another hardware address of it is known than the one
-- in the reply, the reply changes nothing and sends nothing. If the sender's hardware address is not
-- known yet, or is the one in the reply, the packets that wait for the sender are sent, framed for that
-- address, in their order and each once. Then none waits for it any longer, for a minute the address
-- is used, and all other neighbors are as before.
pub receive_reply :
    (s : Ipv4) (f : Bytes) (now later address len : ℕ) (a : Arp) (ip : Ipv4Addr)
    → s.address ≡ some (address, len)
    → is_foreign s f ≡ false
    → from_be (slice 12 14 f) ≡ 0x0806
    → Arp.parse f ≡ ok a
    → a.operation ≡ 2
    → a.sender ≢ 0
    → a.sender_mac ≢ s.mac
    → a.sender ≢ address
    → a.target ≡ address
    → same_prefix address a.sender len ≡ true
    → later < saturating_add now 60000
    → ip ≢ a.sender
    → (lookup a.sender s.neighbors ≡ none → receive s f now ≡ (s, ok []))
      × ((n : Neighbor) (m : Mac)
          → lookup a.sender s.neighbors ≡ some n
          → n.mac ≡ some m
          → m ≢ a.sender_mac
          → receive s f now ≡ (s, ok []))
      × ((n : Neighbor)
          → lookup a.sender s.neighbors ≡ some n
          → (n.mac ≡ none) ⊎ (n.mac ≡ some a.sender_mac)
          → ((receive s f now).1 ≡ ok (map (ethernet s.mac a.sender_mac) n.queue))
            × (resolved (receive s f now).0 a.sender later ≡ some a.sender_mac)
            × ((k : Neighbor)
                → lookup a.sender (receive s f now).0.neighbors ≡ some k
                → k.queue ≡ [])
            × (lookup ip (receive s f now).0.neighbors ≡ lookup ip s.neighbors))
unfolding is_news contains
receive_reply s f now later address len a ip home ours kind good reply named other apart target near
      soon away =
    let through = λ (t : Ipv4) (out : List Bytes) (learned : learn s a now ≡ (t, out)).
      receive_learns s t out f now address len a learned home ours kind good reply other apart
        target near in
    (
      λ absent.
          let old : is_news s a ≡ false = ground (arith, absent, reply) in
          through s [] (learn_ignores s a now old),
      λ n m there known spoofed.
          let old : is_news s a ≡ false = ground (arith, there, known, spoofed, reply) in
          through s [] (learn_ignores s a now old),
      λ n there agreed.
          let news : is_news s a ≡ true = ground (arith, there, agreed, reply, named) in
          let (sent, used, emptied) = learn_told s a now later n news there soon in
          rw (through (learn s a now).0 (learn s a now).1 refl)
            (ap (λ (x : List Bytes). ok x) sent, used, emptied, learn_keeps s a now ip away),
    )
