-- ===== src/Nat64/Selection/Disabled.antt =====
-- A disabled selector only withdraws.
use snak_machine_rs.Base.{
  ℕ, ◌≡◌, refl, ap, subst, sym, ◌∙◌, Bool, false, Option, List, [], ◌∷◌, ◌++◌, arith, any, min,
  Bool-cases, inl, inr, u32_max,
}
use snak_machine_rs.Base.Maps.{Map}
use snak_machine_rs.Wire.Address.{Ipv6Addr}
use snak_machine_rs.Wire.Prefix.{Prefix}
use snak_machine_rs.Wire.Rio.{Rio}
use snak_machine_rs.Wire.Advertisement.{Link}
use snak_machine_rs.Nat64.Observations.{prefix_key}
use snak_machine_rs.Nat64.Selection.{
  Policy, Readiness, disabled, Announcement, Decision, Promise, Selector, expire,
  administratively_disabled,
}
use snak_machine_rs.Nat64.Selection.Select.{
  settled, select_active, empty, route_life, keep_promises, select, names,
}

abbrev pub NoneAnnounced : List Announcement → Type 0
NoneAnnounced [] = Unit
NoneAnnounced (a ∷ as') = (a.pref64.lifetime ≡ 0) × NoneAnnounced as'

abbrev pub NoneRouted : List Rio → Type 0
NoneRouted [] = Unit
NoneRouted (r ∷ rs) = (r.lifetime ≡ 0) × NoneRouted rs

announced_append :
    (xs ys : List Announcement) → NoneAnnounced xs → NoneAnnounced ys → NoneAnnounced (xs ++ ys)
announced_append [] ys h k = k
announced_append (x ∷ xs) ys h k = (h.0, announced_append xs ys h.1 k)

routed_append : (xs ys : List Rio) → NoneRouted xs → NoneRouted ys → NoneRouted (xs ++ ys)
routed_append [] ys h k = k
routed_append (x ∷ xs) ys h k = (h.0, routed_append xs ys h.1 k)

settled_policy : (s : Selector) (now : ℕ) → (settled s now).policy ≡ s.policy
unfolding settled expire
settled_policy s now = ground arith

route_life_off :
    (s : Selector) (now : ℕ) (ready : Readiness) (p : Promise)
    → s.policy.enabled ≡ false
    → route_life s now ready p ≡ 0
unfolding route_life
route_life_off s now ready p off = rw off refl

keep_promises_off :
    (s : Selector) (now : ℕ) (ready : Readiness) (m : Map Prefix Promise) (d : Decision)
    → s.policy.enabled ≡ false
    → NoneAnnounced d.announcements
    → NoneRouted d.routes
    → NoneAnnounced (keep_promises s now ready m d).announcements
      × NoneRouted (keep_promises s now ready m d).routes
      × ((keep_promises s now ready m d).mode ≡ d.mode)
unfolding keep_promises
keep_promises_off s now ready [] d off h k = (h, k, refl)
keep_promises_off s now ready ((p, promise) ∷ m) d off h k =
    elim (Bool-cases (any (names p) d.announcements)) [
      | inl named ↦ rw (keep_promises, named) (keep_promises_off s now ready m d off h k)
      | inr absent ↦
          let life : min (route_life s now ready promise) u32_max ≡ 0 =
            subst (λ (n : ℕ). min n u32_max ≡ 0) (sym (route_life_off s now ready promise off))
              (omega arith) in
          elim (Bool-cases promise.withdrawn) [
            | inl gone ↦
                rw (keep_promises, absent, gone)
                  (keep_promises_off s now ready m _ off h (routed_append d.routes _ k (life, tt)))
            | inr running ↦
                rw (keep_promises, absent, running)
                  (keep_promises_off s now ready m _ off
                    (announced_append d.announcements _ h (refl, tt))
                    (routed_append d.routes _ k (life, tt)))
          ]
    ]

-- With the service disabled every announcement is a withdrawal, every route has no lifetime, and the mode
-- says so, whatever is ready and was promised.
pub select_disabled :
    (s : Selector) (now : ℕ) (ready : Readiness) (reachable : Link → Ipv6Addr → Bool)
    (route : Prefix → Option ℕ)
    → s.policy.enabled ≡ false
    → let d = (select s now ready reachable route).1 in
      NoneAnnounced d.announcements × NoneRouted d.routes × (d.mode ≡ disabled)
unfolding select select_active
select_disabled s now ready reachable route off =
    let t = settled s now in
    let t_off : t.policy.enabled ≡ false =
      ap (λ (p : Policy). p.enabled) (settled_policy s now) ∙ off in
    let active : select_active s now ready reachable route
        ≡ (t, empty disabled administratively_disabled) =
      ground (arith, t_off) in
    let kept =
      keep_promises_off t now ready t.promised (empty disabled administratively_disabled) t_off tt
        tt in
    subst
      (λ (r : Selector × Decision).
        NoneAnnounced (keep_promises r.0 now ready r.0.promised r.1).announcements
        × NoneRouted (keep_promises r.0 now ready r.0.promised r.1).routes
        × ((keep_promises r.0 now ready r.0.promised r.1).mode ≡ disabled))
      (sym active) kept
