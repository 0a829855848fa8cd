-- ===== src/Net/Route.antt =====
-- kernel/net/ipv4/route.c: the list of routes. Its mutex makes each call one step.
pub mod Best
use monolith.Prelude.{
  Bool, List, Option, [], bit_and, if◌then◌else◌, ltb, none, some, ℕ, ◌&&◌, ◌++◌, ◌==◌, ◌∷◌,
}

-- `struct ip_route_entry`, with the device's number
pub record RouteEntry : Type 0 where
  pub device : ℕ
  pub dest : ℕ
  pub gateway : ℕ
  pub mask : ℕ
  pub metric : ℕ

unfoldable pub ip_route_add : List RouteEntry → RouteEntry → List RouteEntry
ip_route_add table entry = table ++ (entry ∷ [])

-- `(ip & mask) == (dest & mask)`
unfoldable pub route_matches : ℕ → RouteEntry → Bool
route_matches ip cur = bit_and ip cur.mask == bit_and cur.dest cur.mask

-- the loop of `ip_route_get`
unfoldable pub route_loop : ℕ → List RouteEntry → Option RouteEntry → ℕ → Option RouteEntry
unfolding route_matches
route_loop ip [] best best_metric = best
route_loop ip (cur ∷ rest) best best_metric =
    let better = route_matches ip cur && ltb best_metric cur.metric in
    route_loop ip rest (if better then some cur else best)
      (if better then cur.metric else best_metric)

unfoldable pub ip_route_get : List RouteEntry → ℕ → Option RouteEntry
unfolding route_loop
ip_route_get table ip = route_loop ip table none 0
