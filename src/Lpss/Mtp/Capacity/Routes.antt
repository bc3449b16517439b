-- ===== src/Lpss/Mtp/Capacity/Routes.antt =====
-- modules/lpss/src/node_rmtp.cpp: outbound_mtu chooses the network with the longest prefix, and of
-- several the smallest MTU.
use rmvl.Prelude.{
  All, All-map, Bool-cases, List, [], arith, false, if◌then◌else◌, inl, inr, leb, length, ltb, refl,
  true, ℕ, ◌&&◌, ◌<◌, ◌==◌, ◌||◌, ◌∷◌, ◌≡◌, ◌⊎◌,
}
use rmvl.Bytes.{Bytes}
use rmvl.Lpss.Guid.{Locator}
use rmvl.Lpss.Mtp.Capacity.{
  Network, NetworkInterface, prefix_length, same_subnet, Route, no_route, try_network, try_networks,
  usable, try_interface, try_interfaces, outbound_mtu,
}

-- The prefix length and the MTU of each network of a usable interface that the address is on.
unfoldable pub networks_on : Bytes → ℕ → List Network → List (ℕ × ℕ) → List (ℕ × ℕ)
networks_on addr mtu [] seen = seen
networks_on addr mtu (n ∷ ns) seen =
    networks_on addr mtu ns
      (if same_subnet addr n then (prefix_length n.netmask, mtu) ∷ seen else seen)

unfoldable pub routes_to : Bytes → List NetworkInterface → List (ℕ × ℕ) → List (ℕ × ℕ)
routes_to addr [] seen = seen
routes_to addr (i ∷ is) seen =
    routes_to addr is (if usable i then networks_on addr i.mtu i.ipv4 seen else seen)

abbrev pub Among : ℕ → ℕ → List (ℕ × ℕ) → Type 0
Among p m [] = 0 < 0
Among p m ((q, n) ∷ routes) = ((p ≡ q) × (m ≡ n)) ⊎ Among p m routes

-- The route is no better than the one of prefix length `p` and MTU `m`.
abbrev pub IsNoBetter : ℕ → ℕ → ℕ × ℕ → Type 0
IsNoBetter p m e = (ltb e.0 p || (e.0 == p && leb m e.1)) ≡ true

record IsBest (routes : List (ℕ × ℕ)) (r : Route) : Type 0 where
  empty : r.matched ≡ false → length routes ≡ 0
  among : r.matched ≡ true → Among r.best_prefix r.selected routes
  best : All (IsNoBetter r.best_prefix r.selected) routes

All-empty : (P : ℕ × ℕ → Type 0) (routes : List (ℕ × ℕ)) → length routes ≡ 0 → All P routes
All-empty P [] h = tt
All-empty P (e ∷ routes) h = absurd (omega (arith, h))

-- Nothing that is no better than a route is better than one that beats it.
All-IsNoBetter :
    (p m q n : ℕ) (routes : List (ℕ × ℕ))
    → IsNoBetter q n (p, m)
    → All (IsNoBetter p m) routes
    → All (IsNoBetter q n) routes
All-IsNoBetter p m q n routes h = All-map (IsNoBetter p m) (λ e k. ground arith) routes

try_network-IsBest :
    (addr : Bytes) (mtu : ℕ) (n : Network) (r : Route) (routes : List (ℕ × ℕ))
    → IsBest routes r
    → IsBest
        (if same_subnet addr n then (prefix_length n.netmask, mtu) ∷ routes else routes)
        (try_network addr mtu n r)
unfolding try_network
try_network-IsBest addr mtu n r routes b = elim (Bool-cases (same_subnet addr n)) [
  | inr away ↦ rw (try_network, away) b
  | inl here ↦
      let p = prefix_length n.netmask in
      elim (Bool-cases r.matched) [
        | inr first ↦
            rw (try_network, here, first)
              (record {
                empty = λ k. absurd (ground arith);
                among = λ _. inl (refl, refl);
                best = (ground arith, All-empty _ routes (b.empty first));
              })
        | inl matched ↦
            elim (Bool-cases (ltb r.best_prefix p || (p == r.best_prefix && ltb mtu r.selected))) [
              | inl better ↦
                  rw (try_network, here, matched, better)
                    (record {
                      empty = λ k. absurd (ground arith);
                      among = λ _. inl (refl, refl);
                      best = (
                        ground arith,
                        All-IsNoBetter r.best_prefix r.selected p mtu routes (ground arith) b.best,
                      );
                    })
              | inr worse ↦
                  rw (try_network, here, matched, worse)
                    (record {
                      empty = λ k. absurd (ground arith);
                      among = λ _. inr (b.among matched);
                      best = (ground arith, b.best);
                    })
            ]
      ]
]

try_networks-IsBest :
    (addr : Bytes) (mtu : ℕ) (ns : List Network) (r : Route) (routes : List (ℕ × ℕ))
    → IsBest routes r
    → IsBest (networks_on addr mtu ns routes) (try_networks addr mtu ns r)
unfolding try_networks networks_on
try_networks-IsBest addr mtu [] r routes b = b
try_networks-IsBest addr mtu (n ∷ ns) r routes b =
    try_networks-IsBest addr mtu ns _ _ (try_network-IsBest addr mtu n r routes b)

try_interfaces-IsBest :
    (addr : Bytes) (is : List NetworkInterface) (r : Route) (routes : List (ℕ × ℕ))
    → IsBest routes r
    → IsBest (routes_to addr is routes) (try_interfaces addr is r)
unfolding try_interfaces try_interface routes_to
try_interfaces-IsBest addr [] r routes b = b
try_interfaces-IsBest addr (i ∷ is) r routes b = elim (Bool-cases (usable i)) [
  | inr idle ↦
      rw (routes_to, try_interfaces, try_interface, idle) (try_interfaces-IsBest addr is r routes b)
  | inl running ↦
      rw (routes_to, try_interfaces, try_interface, running)
        (try_interfaces-IsBest addr is _ _ (
          try_networks-IsBest addr i.mtu i.ipv4 _ routes
            (record { empty = b.empty; among = b.among; best = b.best })))
]

-- Where the address is on a network of some interface that is up, running, with an MTU and an
-- address, outbound_mtu is the MTU of such an interface, and no such network has a longer prefix, or
-- the same one and a smaller MTU.
pub outbound_mtu-best :
    (interfaces : List NetworkInterface) (l : Locator)
    → 0 < length (routes_to l.addr interfaces [])
    → (p : ℕ) × Among p (outbound_mtu interfaces l) (routes_to l.addr interfaces [])
      × All (IsNoBetter p (outbound_mtu interfaces l)) (routes_to l.addr interfaces [])
unfolding outbound_mtu
outbound_mtu-best interfaces l some_route =
    let r = try_interfaces l.addr interfaces no_route in
    let b : IsBest (routes_to l.addr interfaces []) r =
      try_interfaces-IsBest l.addr interfaces no_route []
        (record { empty = λ _. refl; among = λ k. absurd (ground arith); best = tt }) in
    elim (Bool-cases r.matched) [
      | inl matched ↦ rw (outbound_mtu, matched) (r.best_prefix, b.among matched, b.best)
      | inr missed ↦ absurd (omega (arith, b.empty missed))
    ]
