-- ===== src/Server/Current.antt =====
-- Connections see the catalog that is current: swaps of the registry, new connections and lookups,
-- in any order.
use mcfreeze.Base.{ℕ, zero, suc, ◌≡◌, ◌<◌, ◌≤◌, refl, sym, ap, List, [], ◌∷◌, Bytes}
use mcfreeze.Base.{All, arith, inl, inr, Bool-cases, ◌==◌, get_elem?}
use mcfreeze.Base.{some, set, subst, ==_iff}
use mcfreeze.Server.{ActiveCatalog, Registry, ConnectionLookup, registry_load, registry_swap}
use mcfreeze.Server.{for_connection, refresh, connection_get, answer}

-- A server: its registry and the lookups of its connections.
pub record Server : Type 0 where
  pub registry : Registry
  pub connections : List ConnectionLookup

abbrev pub generation_of : Server → ℕ
generation_of s = (registry_load s.registry).generation

-- A reload swaps in a catalog of a later generation; a connection is accepted; a connection looks a
-- key up.
pub data Step : Server → Server → Type 0 where
  reloads :
      (s : Server) (next : ActiveCatalog)
      → generation_of s < next.generation
      → Step s (record s { registry = (registry_swap s.registry next).0 })
  accepts :
      (s : Server) → Step s (record s { connections = for_connection s.registry ∷ s.connections })
  gets :
      (s : Server) (i : ℕ) (c : ConnectionLookup) (key : Bytes)
      → get_elem? s.connections i ≡ some c
      → Step s (record s { connections = set s.connections i (connection_get s.registry c key).1 })

-- The servers that come of a start without connections.
pub data IsReachable : Server → Type 0 where
  starts : (r : Registry) → IsReachable (record { registry = r; connections = [] })
  goes : (s s' : Server) → IsReachable s → Step s s' → IsReachable s'

-- A cached catalog is not newer than the current one, and is the current one if it is as new.
abbrev IsFresh : Registry → ConnectionLookup → Type 0
IsFresh r c =
    (c.catalog.generation ≤ (registry_load r).generation)
    × (c.catalog.generation ≡ (registry_load r).generation → c.catalog ≡ registry_load r)

IsFresh-swap :
    (r : Registry) (next : ActiveCatalog) (c : ConnectionLookup)
    → (registry_load r).generation < next.generation
    → IsFresh r c
    → IsFresh (registry_swap r next).0 c
unfolding registry_swap registry_load
IsFresh-swap r next c later h = (omega arith, λ e. absurd (omega arith))

refresh-current :
    (r : Registry) (c : ConnectionLookup) → IsFresh r c → (refresh r c).catalog ≡ registry_load r
unfolding refresh registry_load
refresh-current r c h = elim (Bool-cases (r.inner.generation == c.catalog.generation)) [
  | inl same ↦ rw same (h.1 (sym ((==_iff r.inner.generation c.catalog.generation).0 same)))
  | inr other ↦ rw other refl
]

All-swap :
    (r : Registry) (next : ActiveCatalog) (cs : List ConnectionLookup)
    → (registry_load r).generation < next.generation
    → All (IsFresh r) cs
    → All (IsFresh (registry_swap r next).0) cs
All-swap r next [] later h = tt
All-swap r next (c ∷ cs) later h = (IsFresh-swap r next c later h.0, All-swap r next cs later h.1)

All-set :
    (r : Registry) (cs : List ConnectionLookup) (i : ℕ) (c : ConnectionLookup)
    → IsFresh r c
    → All (IsFresh r) cs
    → All (IsFresh r) (set cs i c)
All-set r [] i c f h = tt
All-set r (x ∷ cs) zero c f h = (f, h.1)
All-set r (x ∷ cs) (suc i) c f h = (h.0, All-set r cs i c f h.1)

All-get :
    (r : Registry) (cs : List ConnectionLookup) (i : ℕ) (c : ConnectionLookup)
    → All (IsFresh r) cs
    → get_elem? cs i ≡ some c
    → IsFresh r c
All-get r [] i c h e = cc
All-get r (x ∷ cs) zero c h e = let same : x ≡ c = cc in subst (IsFresh r) same h.0
All-get r (x ∷ cs) (suc i) c h e = All-get r cs i c h.1 e

IsFresh-of : (r : Registry) (c : ConnectionLookup) → c.catalog ≡ registry_load r → IsFresh r c
IsFresh-of r c e = let same = ap (λ (k : ActiveCatalog). k.generation) e in (omega arith, λ _. e)

reachable-IsFresh : (s : Server) → IsReachable s → All (IsFresh s.registry) s.connections
unfolding connection_get for_connection
reachable-IsFresh s (starts r) = tt
reachable-IsFresh s (goes s0 _ h (reloads _ next later)) =
    All-swap s0.registry next s0.connections later (reachable-IsFresh s0 h)
reachable-IsFresh s (goes s0 _ h (accepts _)) =
    (IsFresh-of s0.registry (for_connection s0.registry) refl, reachable-IsFresh s0 h)
reachable-IsFresh s (goes s0 _ h (gets _ i c key e)) =
    let old = reachable-IsFresh s0 h in
    All-set s0.registry s0.connections i (refresh s0.registry c)
      (IsFresh-of s0.registry (refresh s0.registry c)
        (refresh-current s0.registry c (All-get s0.registry s0.connections i c old e)))
      old

-- In whatever order catalogs were swapped in, connections accepted and keys looked up, the next
-- lookup of any connection is answered by the catalog that the registry holds, and leaves that
-- catalog with the connection. Every swap brings a later generation.
pub connection_get-current :
    (s : Server) (i : ℕ) (c : ConnectionLookup) (key : Bytes)
    → IsReachable s
    → get_elem? s.connections i ≡ some c
    → ((connection_get s.registry c key).0 ≡ answer (registry_load s.registry) key)
      × ((connection_get s.registry c key).1.catalog ≡ registry_load s.registry)
unfolding connection_get
connection_get-current s i c key h e =
    let current =
      refresh-current s.registry c
        (All-get s.registry s.connections i c (reachable-IsFresh s h) e) in
    (ap (λ k. answer k key) current, current)
