-- ===== src/Server/Routes.antt =====
-- The routes of `create_app` and `create_admin_routes`, in their order. The SDK's routes, and when a
-- route matches a request, are arguments: Starlette takes the first route that matches.
use hermes_a2a_v.Prelude.{
  ◌≡◌, String, Bool, true, Option, List, [], ◌∷◌, ◌++◌, find_first, is_some, arith,
}

pub data Endpoint : Type 0 where
  health metrics list_peers discover_peers relay_message ws_endpoint dashboard : Endpoint
  admin_peers_list admin_peers_add admin_peers_remove admin_peers_check : Endpoint
  admin_tasks_list admin_tasks_delete admin_metrics admin_metrics_stream : Endpoint
  sdk : String → Endpoint

-- `Route` takes HTTP requests of its method only; `Mount` takes a path and all below it.
pub data Route : Type 0 where
  http : (method path : String) → Endpoint → Route
  mount : (path : String) → Endpoint → Route

unfoldable pub endpoint_of : Route → Endpoint
endpoint_of (http method path e) = e
endpoint_of (mount path e) = e

abbrev pub create_admin_routes : List Route
create_admin_routes =
    http "GET" "/admin/peers" admin_peers_list
    ∷ http "POST" "/admin/peers" admin_peers_add
    ∷ http "DELETE" "/admin/peers/{name}" admin_peers_remove
    ∷ http "POST" "/admin/peers/{name}/check" admin_peers_check
    ∷ http "GET" "/admin/tasks" admin_tasks_list
    ∷ http "DELETE" "/admin/tasks/{task_id}" admin_tasks_delete
    ∷ http "GET" "/admin/metrics" admin_metrics
    ∷ http "GET" "/admin/metrics/stream" admin_metrics_stream
    ∷ []

abbrev pub peer_routes : List Route
peer_routes =
    http "GET" "/a2a/peers" list_peers
    ∷ http "POST" "/a2a/peers/discover" discover_peers
    ∷ http "POST" "/a2a/relay" relay_message
    ∷ []

-- The dashboard, the SDK's REST routes, and what is appended to them
unfoldable pub later_routes : List Route → List Route
later_routes rest_routes =
    mount "/admin/dashboard" dashboard ∷ http "GET" "/admin/ws" ws_endpoint ∷ rest_routes
    ++ http "GET" "/health" health ∷ http "GET" "/metrics" metrics ∷ []

-- The `app.routes.extend` and `append` calls
unfoldable pub routes : (card_routes rpc_routes rest_routes : List Route) → List Route
routes card_routes rpc_routes rest_routes =
    card_routes ++ rpc_routes ++ (peer_routes ++ create_admin_routes) ++ later_routes rest_routes

module _ {Q : Type 0} (matches : Q → Route → Bool) where
  -- The route that takes a request
  unfoldable pub resolve : Q → List Route → Option Route
  resolve request rs = find_first (matches request) rs

  found_before :
      (request : Q) (xs ys zs : List Route)
      → is_some (resolve request xs) ≡ true
      → resolve request (xs ++ ys) ≡ resolve request (xs ++ zs)
  unfolding resolve
  found_before request [] ys zs h = absurd (ground arith)
  found_before request (x ∷ xs) ys zs h = ground (arith, found_before request xs ys zs)

  found_in :
      (request : Q) (xs ys : List Route)
      → is_some (resolve request ys) ≡ true
      → is_some (resolve request (xs ++ ys)) ≡ true
  unfolding resolve
  found_in request [] ys h = h
  found_in request (x ∷ xs) ys h = ground (arith, found_in request xs ys h)

  -- A request that one of the peer or admin routes matches goes to the same route whatever the SDK's
  -- REST routes are: none of them shadows it, a catch-all route included.
  pub custom_not_shadowed :
      (card_routes rpc_routes rest_routes other_routes : List Route) (request : Q)
      → is_some (resolve request (peer_routes ++ create_admin_routes)) ≡ true
      → resolve request (routes card_routes rpc_routes rest_routes)
        ≡ resolve request (routes card_routes rpc_routes other_routes)
  unfolding routes
  custom_not_shadowed card_routes rpc_routes rest_routes other_routes request h =
      let custom = peer_routes ++ create_admin_routes in
      found_before request (card_routes ++ rpc_routes ++ custom) (later_routes rest_routes)
        (later_routes other_routes) (found_in request (card_routes ++ rpc_routes) custom h)
