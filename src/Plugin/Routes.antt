-- ===== src/Plugin/Routes.antt =====
-- Registration and routes of src/host/plugin_host.c.
use edgehost.Prelude.{
  ℕ, ◌-◌, Bool, true, false, not, ◌&&◌, ◌||◌, List, [], ◌∷◌, ◌++◌, Option, none, some, leb, ◌==◌,
  if◌then◌else◌, length, get_or,
}
use edgehost.Prelude.Text.{Bytes, is_empty, starts_with}
use edgehost.Plugin.{Program, Route, Host, done}
use edgehost.Plugin.Api.{run}

abbrev pub max_plugins : ℕ
max_plugins = 16

abbrev pub max_routes : ℕ
max_routes = 32

-- `edge_plugin_host_register`; false is -1. `init` is what the handler of that name does, when there is
-- one; it fails when it does not return 0.
unfoldable pub register : Host → ℕ → Option Program → Bool × Host
unfolding run
register h plugin none =
    if plugin == 0 || leb max_plugins (length h.plugins)
    then (false, h)
    else (true, record h { plugins = h.plugins ++ (plugin ∷ []) })
register h plugin (some init) =
    let (st, res, w) = run init h in
    if plugin == 0 || leb max_plugins (length h.plugins) then (false, h) else elim st [
      | done ↦ (true, record w { plugins = w.plugins ++ (plugin ∷ []) })
      | _ ↦ (false, w)
    ]

-- `edge_plugin_host_add_route`; false is -1.
unfoldable pub add_route : Host → Option Bytes → ℕ → Bool × Host
add_route h none plugin = (false, h)
add_route h (some prefix) plugin =
    if is_empty prefix || plugin == 0 || leb max_routes (length h.routes) || leb 128 (length prefix)
    then (false, h)
    else (
      true,
      record h { routes = h.routes ++ (record { prefix = prefix; plugin = plugin } ∷ []) },
    )

-- `path[i]`, with the NUL that ends it.
abbrev pub char_at : Bytes → ℕ → ℕ
char_at s i = get_or s i 0

unfoldable pub route_matches : Bytes → Bytes → Bool
unfolding starts_with
route_matches prefix path =
    not (is_empty prefix)
    && starts_with prefix path
    && (char_at path (length prefix) == 0
        || char_at path (length prefix) == b'/'
        || char_at prefix (length prefix - 1) == b'/')

-- The loop of `edge_plugin_host_match`, with the best route so far and its length.
unfoldable pub best_route : List Route → Bytes → ℕ → ℕ → ℕ
unfolding route_matches
best_route [] path best best_len = best
best_route (r ∷ routes) path best best_len =
    let better = route_matches r.prefix path && leb best_len (length r.prefix) in
    best_route routes path (if better then r.plugin else best)
      (if better then length r.prefix else best_len)

-- `edge_plugin_host_match`; 0 is NULL.
unfoldable pub match_route : Host → Option Bytes → ℕ
unfolding best_route
match_route h none = 0
match_route h (some path) = best_route h.routes path 0 0
