-- ===== src/Server/Examples.antt =====
-- A run of the server: a connection is accepted, a later catalog is swapped in, and the connection
-- looks a key up.
pub mod Streams
pub mod Steady
pub mod Lawful
pub mod Sessions
use mcfreeze.Base.{ℕ, ◌≡◌, refl, [], ◌∷◌, some, arith, inr}
use mcfreeze.Server.{ActiveCatalog, DatasetHandle, registry_load}
use mcfreeze.Server.{connection_get, answer, registry_swap, for_connection}
use mcfreeze.Server.Current.{Server, IsReachable, starts, goes, accepts, reloads}
use mcfreeze.Server.Current.{connection_get-current}
use mcfreeze.V5.Reader.{hit}

abbrev users : ℕ → DatasetHandle
users n = record { name = 117 ∷ []; version = n ∷ []; reader = λ key. some (inr (hit (n ∷ key))) }

abbrev first_catalog : ActiveCatalog
first_catalog = record { datasets = (117 ∷ [], users 1) ∷ []; generation = 1 }

abbrev second_catalog : ActiveCatalog
second_catalog = record { datasets = (117 ∷ [], users 2) ∷ []; generation = 2 }

abbrev connected : Server
connected = record {
  registry = record { inner = first_catalog };
  connections = record { catalog = first_catalog } ∷ [];
}

abbrev reloaded : Server
reloaded = record {
  registry = record { inner = second_catalog };
  connections = record { catalog = first_catalog } ∷ [];
}

reloaded-IsReachable : IsReachable reloaded
unfolding registry_load registry_swap for_connection
reloaded-IsReachable =
    goes connected reloaded
      (goes (record { registry = record { inner = first_catalog }; connections = [] }) connected
        (starts (record { inner = first_catalog })) (accepts _))
      (reloads connected second_catalog (omega arith))

-- The key `u:k`.
connection_get-current_example :
    ((connection_get reloaded.registry
        (record { catalog = first_catalog })
        (117 ∷ (58 ∷ (107 ∷ [])))).0
      ≡ answer (registry_load reloaded.registry) (117 ∷ (58 ∷ (107 ∷ []))))
    × ((connection_get reloaded.registry
          (record { catalog = first_catalog })
          (117 ∷ (58 ∷ (107 ∷ [])))).1.catalog
        ≡ registry_load reloaded.registry)
connection_get-current_example =
    connection_get-current reloaded 0 (record { catalog = first_catalog }) (117 ∷ (58 ∷ (107 ∷ [])))
      reloaded-IsReachable refl
