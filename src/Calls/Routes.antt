-- ===== src/Calls/Routes.antt =====
-- internal/calls/sfu.go, the room routing table: which subscriber legs a published track has.
pub mod Laws
use combox_backend.Prelude.{
  ℕ, String, Bool, true, false, not, ◌&&◌, ◌||◌, ◌==◌, eqb, if◌then◌else◌, Option, none, some, List,
  [], ◌∷◌, ◌++◌, any, keep, map,
}
use combox_backend.Prelude.Dict.{Dict, lookup, insert, erase}
use combox_backend.Calls.Types.{topology_broadcast, Participant}
use combox_backend.Calls.Room.{Room, OutRoute, ForwardedTrack, is_publisher}
use combox_backend.Calls.Tracks.{normalize_track_key, default_track_source}

-- What indexing a Go map of slices gives: nil where the key is not there.
abbrev or_nil {ℓ} : {A : Type ℓ} → Option (List A) → List A
or_nil none = []
or_nil (some xs) = xs

abbrev pub routes_at : Dict (List OutRoute) → String → List OutRoute
routes_at m key = or_nil (lookup key m)

abbrev pub is_leg : ForwardedTrack → OutRoute → Bool
is_leg ft route = eqb route.track.leg ft.leg

-- `addRoute`
unfoldable pub add_route : Room → OutRoute → Room
unfolding any
add_route r route =
    let key = route.track.key in
    if any (is_leg route.track) (routes_at r.routes key)
    then r
    else record r { routes = insert key (routes_at r.routes key ++ route ∷ []) r.routes }

put_kept : Dict (List OutRoute) → String → List OutRoute → Dict (List OutRoute)
put_kept m key [] = erase key m
put_kept m key (x ∷ xs) = insert key (x ∷ xs) m

-- `removeRoute`
unfoldable pub remove_route : Room → String → ForwardedTrack → Room
unfolding put_kept keep
remove_route r key ft = record r {
  routes = put_kept r.routes key (keep (λ x. not (is_leg ft x)) (routes_at r.routes key));
}

-- A leg that a participant owns as its publisher or receives as its subscriber.
abbrev pub touches : String → OutRoute → Bool
touches user_id route = route.owner_id == user_id || route.track.peer_user == user_id

-- A row of the rewritten table: an empty one goes.
put_row : String → List OutRoute → Dict (List OutRoute) → Dict (List OutRoute)
put_row key [] rest = rest
put_row key (x ∷ xs) rest = (key, x ∷ xs) ∷ rest

prune : String → Dict (List OutRoute) → Dict (List OutRoute)
unfolding put_row keep
prune user_id [] = []
prune user_id ((key, rs) ∷ m) =
    put_row key (keep (λ x. not (touches user_id x)) rs) (prune user_id m)

-- `removeRoutesFor`
unfoldable pub remove_routes_for : Room → String → Room
unfolding prune
remove_routes_for r user_id = record r { routes = prune user_id r.routes }

-- `removeAllRoutes`
unfoldable pub remove_all_routes : Room → Room
remove_all_routes r = record r { routes = [] }

-- `dropPeerCaches`
unfoldable pub drop_peer_caches : Room → Room
drop_peer_caches r = record r { peers = []; track_sources = [] }

-- The legs that `fanout` writes a packet of the track to.
unfoldable pub fanout : Room → String → List ForwardedTrack
fanout r key = map (λ route. route.track) (routes_at r.routes key)

may_publish : Option Participant → Bool
may_publish none = false
may_publish (some p) = is_publisher p

-- `allowsPublish`
unfoldable pub allows_publish : Room → String → Bool
unfolding may_publish
allows_publish r user_id =
    if not (r.topology == topology_broadcast)
    then true
    else may_publish (lookup user_id r.participants)

source_or : Option String → String → String
source_or none fallback = fallback
source_or (some src) fallback = if src == "" then fallback else src

tracks_of : Option (Dict String) → Dict String
tracks_of none = []
tracks_of (some m) = m

-- `sourceFor`, of whether the codec of the track is audio
unfoldable pub source_for : Room → String → String → Bool → String
unfolding source_or tracks_of default_track_source
source_for r user_id track_id is_audio =
    source_or (lookup (normalize_track_key track_id) (tracks_of (lookup user_id r.track_sources)))
      (default_track_source is_audio)
