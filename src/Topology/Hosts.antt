-- ===== src/Topology/Hosts.antt =====
-- The hosts that backend/app/libs/topology/db_topology_adapter.py offers to workspaces.
use devnest.Base.{
  ℕ, zero, suc, ◌+◌, ◌-◌, ◌≤◌, ◌<◌, ◌≡◌, ◌≢◌, ap, true, ◌&&◌, ◌||◌, some, List, [], ◌∷◌, leb, ◌==◌,
  length, Bool-cases, inl, inr, arith,
}
use Prim.Native.Nat.{◌^◌}
use mathlib.Core.Path.{subst}
use devnest.Topology.Net.{
  Ipv4Network, num_addresses, broadcast_address, in_network, range_from, hosts, hosts_after,
  workspace_hosts, get_elem?,
}

abbrev pub All {ℓ κ} : {A : Type ℓ} → (A → Type κ) → List A → Type κ
All P [] = Unit
All P (x ∷ xs) = P x × All P xs

All-get_elem? {ℓ κ} :
    {A : Type ℓ} (P : A → Type κ) (xs : List A) (i : ℕ) (x : A)
    → All P xs
    → get_elem? xs i ≡ some x
    → P x
All-get_elem? P [] i x a h = absurd (cc)
All-get_elem? P (y ∷ xs) zero x a h = subst P (cc) a.0
All-get_elem? P (y ∷ xs) (suc i) x a h = All-get_elem? P xs i x a.1 h

abbrev pub Within : Ipv4Network → ℕ → Type 0
Within net h = (net.network_address ≤ h) × (h ≤ broadcast_address net)

range_from-Within :
    (net : Ipv4Network) (a n : ℕ)
    → net.network_address ≤ a
    → (0 < n → a + n ≤ broadcast_address net + 1)
    → All (Within net) (range_from a n)
range_from-Within net a zero lo hi = tt
range_from-Within net a (suc n) lo hi = (
  (lo, omega (arith, hi (omega arith))),
  range_from-Within net (a + 1) n (omega (arith, lo)) (λ p. omega (arith, hi (omega arith))),
)

num_addresses-at :
    (net : Ipv4Network) (p : ℕ) → net.prefixlen ≡ p → num_addresses net ≡ 2 ^ (32 - p)
num_addresses-at net p e = ap (λ (q : ℕ). 2 ^ (32 - q)) e

pub hosts-Within : (net : Ipv4Network) → All (Within net) (hosts net)
unfolding hosts
hosts-Within net = elim (Bool-cases (net.prefixlen == 32)) [
  | inl e ↦ rw e ((omega arith, omega (arith, num_addresses-at net 32 (ground (arith, e)))), tt)
  | inr e ↦ rw e (elim (Bool-cases (net.prefixlen == 31)) [
    | inl e ↦ rw e (
      (omega arith, omega (arith, num_addresses-at net 31 (ground (arith, e)))),
      ((omega arith, omega (arith, num_addresses-at net 31 (ground (arith, e)))), tt),
    )
    | inr e ↦ rw e (
        range_from-Within net (net.network_address + 1) (num_addresses net - 2) (omega arith)
          (λ p. omega (arith, p)))
  ])
]

hosts_after-ne :
    (P : ℕ → Type 0) (reserved gateway i : ℕ) (hs : List ℕ)
    → All P hs
    → All (λ h. P h × (h ≢ gateway)) (hosts_after reserved gateway i hs)
hosts_after-ne P reserved gateway i [] a = tt
hosts_after-ne P reserved gateway i (h ∷ hs) a =
    elim (Bool-cases (h == gateway || leb (i + 1) reserved)) [
      | inl e ↦ rw e (hosts_after-ne P reserved gateway (i + 1) hs a.1)
      | inr e ↦
          rw e ((a.0, λ q. ground (arith, e, q)), hosts_after-ne P reserved gateway (i + 1) hs a.1)
    ]

-- Every host that is offered lies in the network, and none is the gateway.
pub workspace_hosts-in_network :
    (net : Ipv4Network) (gateway i h : ℕ)
    → get_elem? (workspace_hosts net gateway) i ≡ some h
    → (in_network h net ≡ true) × (h ≢ gateway)
unfolding workspace_hosts in_network
workspace_hosts-in_network net gateway i h g =
    let r = All-get_elem? _ (workspace_hosts net gateway) i h offered g in
    (ground (arith, r.0.0, r.0.1), r.1)
  where
    offered : All (λ (h : ℕ). Within net h × (h ≢ gateway)) (workspace_hosts net gateway)
    offered =
        elim (Bool-cases (
          length (hosts_after 10 gateway 0 (hosts net)) == 0
          && leb 1 (length (hosts net))
          && leb (length (hosts net)) 10)) [
            | inl e ↦ rw e (hosts_after-ne (Within net) 0 gateway 0 (hosts net) (hosts-Within net))
            | inr e ↦ rw e (hosts_after-ne (Within net) 10 gateway 0 (hosts net) (hosts-Within net))
          ]
