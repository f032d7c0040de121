-- ===== src/Routing.antt =====
-- packages/gateway/src/routing/matcher.ts and rewrite.ts
pub mod Fits
pub mod Laws
pub mod Rewrite
use apigateaway.Common.{
  ℕ, ◌-◌, Bool, true, false, not, ◌&&◌, ◌||◌, Option, none, some, List, [], ◌∷◌, ◌++◌,
  if◌then◌else◌, ◌==◌, ◌<?◌, Text, lit, text_eq, starts_with, ends_with, to_lower, includes, length,
  drop, take, find, split_head,
}
use apigateaway.Config.{RouteConfig, MatchConfig}

-- `.replace(/\.$/, '')`
abbrev pub drop_final_dot : Text → Text
drop_final_dot [] = []
drop_final_dot (c ∷ []) = if c == b'.' then [] else c ∷ []
drop_final_dot (c ∷ d ∷ s) = c ∷ drop_final_dot (d ∷ s)

-- `x === '' ? undefined : x`
abbrev pub none_if_empty : Text → Option Text
none_if_empty [] = none
none_if_empty (c ∷ s) = some (c ∷ s)

unfoldable pub normalize_host : Option Text → Option Text
normalize_host none = none
normalize_host (some []) = none
normalize_host (some (c ∷ s)) = none_if_empty (drop_final_dot (to_lower (c ∷ s)))

unfoldable pub matches_method : Option (List Text) → Text → Bool
matches_method none method = true
matches_method (some methods) method = includes methods method

-- `text.slice(0, -n)`
abbrev pub drop_last : ℕ → Text → Text
drop_last n s = take (length s - n) s

unfoldable pub matches_path : Text → Text → Bool
matches_path pattern path =
    if ends_with pattern (lit "/*")
    then (let prefix = drop_last 2 pattern in
        text_eq path prefix || starts_with path (prefix ++ lit "/"))
    else text_eq path pattern

-- The pattern is in lower case.
abbrev pub matches_host_name : Text → Text → Bool
matches_host_name pattern host =
    if starts_with pattern (lit "*.")
    then (let suffix = drop 1 pattern in (length suffix <? length host) && ends_with host suffix)
    else text_eq host pattern

unfoldable pub matches_host : Option Text → Option Text → Bool
matches_host none host = true
matches_host (some pattern) none = false
matches_host (some pattern) (some host) = matches_host_name (to_lower pattern) host

abbrev pub accepts : Text → Text → Option Text → RouteConfig → Bool
accepts method path host route =
    matches_method route.match_on.methods method
    && matches_path route.match_on.path path
    && matches_host route.match_on.host host

unfoldable pub match_route : List RouteConfig → Text → Text → Option Text → Option RouteConfig
match_route routes method path host = find (accepts method path (normalize_host host)) routes

abbrev pub accepts_path : Text → Option Text → RouteConfig → Bool
accepts_path path host route =
    matches_path route.match_on.path path && matches_host route.match_on.host host

unfoldable pub match_route_by_path : List RouteConfig → Text → Option Text → Option RouteConfig
match_route_by_path routes path host = find (accepts_path path (normalize_host host)) routes

-- `splitUrl`: what stands before the first `?`, and what stands after it, if there is one.
unfoldable pub split_url : Text → Text × Option Text
split_url [] = ([], none)
split_url (c ∷ s) =
    let (path, query) = split_url s in if c == b'?' then ([], some s) else (c ∷ path, query)

abbrev pub with_slash : Text → Text
with_slash path = if starts_with path (lit "/") then path else lit "/" ++ path

-- `stripPrefix && path.startsWith(stripPrefix)`, where an empty prefix counts as none
abbrev pub strip_path : Option Text → Text → Text
strip_path none path = path
strip_path (some []) path = path
strip_path (some (c ∷ p)) path =
    if starts_with path (c ∷ p) then with_slash (drop (length (c ∷ p)) path) else path

abbrev pub with_query : Text → Option Text → Text
with_query path none = path
with_query path (some query) = path ++ (lit "?" ++ query)

unfoldable pub rewrite_path : Text → Option Text → Text
rewrite_path original_url strip_prefix =
    let (path, query) = split_url original_url in with_query (strip_path strip_prefix path) query
