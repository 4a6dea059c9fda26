-- ===== src/Proxy/Forward/Accept.antt =====
-- proxy/proxy.go: the loops of `listenProxies` and `listenPort` over what `Accept` returns.
use k8_p2p_failover_poc.Prelude.{ℕ, ◌≡◌, refl, Bool, true, false, List, [], ◌∷◌, ◌++◌, map, arith}

-- What `Accept` returns: a connection, on which these bytes arrive, the error of a listener that has
-- been closed, or another error.
pub data Arrival : Type 0 where
  client : List ℕ → Arrival
  listener_closed accept_error : Arrival

-- How a loop ends, if it does not wait for the next connection.
pub data Ending : Type 0 where
  waits returns panics : Ending

-- `listenProxies`: the connections that get a goroutine. Any error of `Accept` ends the loop.
unfoldable pub accept_proxies : List Arrival → List (List ℕ) × Ending
accept_proxies [] = ([], waits)
accept_proxies (client bytes ∷ more) =
    (let (served, ending) = accept_proxies more in (bytes ∷ served, ending))
accept_proxies (listener_closed ∷ more) = ([], returns)
accept_proxies (accept_error ∷ more) = ([], returns)

unfoldable pub listen_proxies : Bool → List Arrival → List (List ℕ) × Ending
unfolding accept_proxies
listen_proxies false arrivals = ([], panics)
listen_proxies true arrivals = accept_proxies arrivals

-- The loop of `listenPort`, which logs an address of the connection on an error that is not of a closed
-- listener; the connection is nil then.
unfoldable pub accept_clients : List Arrival → List (List ℕ) × Ending
accept_clients [] = ([], waits)
accept_clients (client bytes ∷ more) =
    (let (served, ending) = accept_clients more in (bytes ∷ served, ending))
accept_clients (listener_closed ∷ more) = ([], returns)
accept_clients (accept_error ∷ more) = ([], panics)

-- What the loops do at an error.
abbrev ending_at : Arrival → Ending × Ending
ending_at (client bytes) = (waits, waits)
ending_at listener_closed = (returns, returns)
ending_at accept_error = (returns, panics)

abbrev IsError : Arrival → Type 0
IsError (client bytes) = ⊥
IsError listener_closed = Unit
IsError accept_error = Unit

-- Both loops serve the connections that come before the first error, and none after it; a peer's
-- connections end with any error, and those of a port's clients with a panic unless the listener was
-- closed.
accept-first_error :
    (clients : List (List ℕ)) (e : Arrival) (more : List Arrival)
    → IsError e
    → (accept_proxies (map client clients ++ e ∷ more) ≡ (clients, (ending_at e).0))
      × (accept_clients (map client clients ++ e ∷ more) ≡ (clients, (ending_at e).1))
unfolding accept_proxies accept_clients
accept-first_error [] (client bytes) more h = absurd h
accept-first_error [] listener_closed more h = (refl, refl)
accept-first_error [] accept_error more h = (refl, refl)
accept-first_error (bytes ∷ clients) e more h = ground (arith, accept-first_error clients e more h)
