-- ===== src/Calls/Routes/Laws.antt =====
-- internal/calls/sfu.go: what the routing table holds after each operation on it.
use combox_backend.Prelude.{
  String, Bool, true, false, not, ◌&&◌, ◌||◌, ◌==◌, eq_iff, if◌then◌else◌, List, [], ◌∷◌, ◌++◌, ◌≡◌,
  refl, arith, keep, any,
}
use combox_backend.Prelude.Dict.{
  Dict, Distinct, lookup, has, lookup-insert, lookup-erase, insert-Distinct, erase-Distinct,
}
use combox_backend.Calls.Room.{Room, OutRoute, ForwardedTrack}
use combox_backend.Calls.Routes.{
  routes_at, is_leg, touches, add_route, remove_route, remove_routes_for, put_kept, put_row, prune,
}

put_kept-at :
    (m : Dict (List OutRoute)) (key j : String) (rs : List OutRoute)
    → routes_at (put_kept m key rs) j ≡ (if key == j then rs else routes_at m j)
unfolding put_kept
put_kept-at m key j [] = ground (arith, lookup-erase key j m)
put_kept-at m key j (x ∷ xs) = ground (arith, lookup-insert key j (x ∷ xs) m)

-- Removing a leg takes it out of the row of its key and leaves the other legs and rows as they are.
pub remove_route_lem :
    (r : Room) (key j : String) (ft : ForwardedTrack)
    → routes_at (remove_route r key ft).routes j ≡ (
        if key == j
        then keep (λ x. not (is_leg ft x)) (routes_at r.routes j)
        else routes_at r.routes j)
unfolding remove_route
remove_route_lem r key j ft = ground (
  arith,
  eq_iff key j,
  put_kept-at r.routes key j (keep (λ x. not (is_leg ft x)) (routes_at r.routes key)),
)

put_row-has :
    (i key : String) (rs : List OutRoute) (m : Dict (List OutRoute))
    → has i m ≡ false
    → (key == i) ≡ false
    → has i (put_row key rs m) ≡ false
unfolding put_row has
put_row-has i key [] m h e = h
put_row-has i key (x ∷ xs) m h e = rw e h

prune-has :
    (user_id i : String) (m : Dict (List OutRoute))
    → has i m ≡ false
    → has i (prune user_id m) ≡ false
unfolding prune has
prune-has user_id i [] h = refl
prune-has user_id i ((key, rs) ∷ m) h = ground (
  arith,
  prune-has user_id i m,
  put_row-has i key (keep (λ x. not (touches user_id x)) rs) (prune user_id m),
)

routes_absent : (j : String) (m : Dict (List OutRoute)) → has j m ≡ false → routes_at m j ≡ []
unfolding lookup has
routes_absent j [] h = refl
routes_absent j ((key, rs) ∷ m) h = ground (arith, routes_absent j m)

put_row-at :
    (key j : String) (rs : List OutRoute) (m : Dict (List OutRoute))
    → has key m ≡ false
    → routes_at (put_row key rs m) j ≡ (if key == j then rs else routes_at m j)
unfolding put_row lookup
put_row-at key j [] m h = ground (arith, routes_absent key m h, eq_iff key j)
put_row-at key j (x ∷ xs) m h = ground arith

prune-at :
    (user_id j : String) (m : Dict (List OutRoute))
    → Distinct m
    → routes_at (prune user_id m) j ≡ keep (λ x. not (touches user_id x)) (routes_at m j)
unfolding prune lookup keep
prune-at user_id j [] d = refl
prune-at user_id j ((key, rs) ∷ m) d = ground (
  arith,
  prune-at user_id j m d.1,
  put_row-at key j (keep (λ x. not (touches user_id x)) rs) (prune user_id m)
      (prune-has user_id key m d.0),
)

-- When a participant goes, in a table with one row for each key, every track keeps exactly the legs that neither come from nor lead to
-- that participant, in their order.
pub remove_routes_for_lem :
    (r : Room) (user_id key : String)
    → Distinct r.routes
    → routes_at (remove_routes_for r user_id).routes key
      ≡ keep (λ x. not (touches user_id x)) (routes_at r.routes key)
unfolding remove_routes_for
remove_routes_for_lem r user_id key d = prune-at user_id key r.routes d

-- A leg that is already there is not added again; a new one goes to the end of its track's row.
pub add_route_lem :
    (r : Room) (route : OutRoute) (j : String)
    → routes_at (add_route r route).routes j ≡ (
        if (route.track.key == j) && not (any (is_leg route.track) (routes_at r.routes j))
        then routes_at r.routes j ++ route ∷ []
        else routes_at r.routes j)
unfolding add_route
add_route_lem r route j = ground (
  arith,
  eq_iff route.track.key j,
  lookup-insert route.track.key j (routes_at r.routes route.track.key ++ route ∷ []) r.routes,
)

-- The identity of the legs of a row, and that none stands twice.
abbrev pub NoTwin : List OutRoute → Type 0
NoTwin [] = Unit
NoTwin (x ∷ xs) = (any (is_leg x.track) xs ≡ false) × NoTwin xs

any-keep :
    (p q : OutRoute → Bool) (xs : List OutRoute) → any p xs ≡ false → any p (keep q xs) ≡ false
unfolding any keep
any-keep p q [] h = refl
any-keep p q (x ∷ xs) h = ground (arith, any-keep p q xs)

keep-NoTwin : (q : OutRoute → Bool) (xs : List OutRoute) → NoTwin xs → NoTwin (keep q xs)
unfolding keep
keep-NoTwin q [] h = tt
keep-NoTwin q (x ∷ xs) h = ground (arith, any-keep (is_leg x.track) q xs h.0, keep-NoTwin q xs h.1)

any-snoc :
    (p : OutRoute → Bool) (xs : List OutRoute) (x : OutRoute)
    → any p (xs ++ x ∷ []) ≡ (any p xs || p x)
unfolding any
any-snoc p [] x = ground arith
any-snoc p (y ∷ xs) x = ground (arith, any-snoc p xs x)

NoTwin-snoc :
    (xs : List OutRoute) (x : OutRoute)
    → NoTwin xs
    → any (is_leg x.track) xs ≡ false
    → NoTwin (xs ++ x ∷ [])
unfolding any
NoTwin-snoc [] x h n = (refl, tt)
NoTwin-snoc (y ∷ xs) x h n = ground (arith, any-snoc (is_leg y.track) xs x, NoTwin-snoc xs x h.1)

-- Each key has one row, and no leg stands twice in a row.
pub record IsRouted (r : Room) : Type 0 where
  pub rows : Distinct r.routes
  pub legs : (key : String) → NoTwin (routes_at r.routes key)

if_NoTwin :
    (b : Bool) (xs ys : List OutRoute)
    → (b ≡ true → NoTwin xs)
    → (b ≡ false → NoTwin ys)
    → NoTwin (if b then xs else ys)
if_NoTwin true xs ys f g = f refl
if_NoTwin false xs ys f g = g refl

put_kept-Distinct :
    (m : Dict (List OutRoute)) (key : String) (rs : List OutRoute)
    → Distinct m
    → Distinct (put_kept m key rs)
unfolding put_kept
put_kept-Distinct m key [] d = erase-Distinct key m d
put_kept-Distinct m key (x ∷ xs) d = insert-Distinct key (x ∷ xs) m d

put_row-Distinct :
    (key : String) (rs : List OutRoute) (m : Dict (List OutRoute))
    → has key m ≡ false
    → Distinct m
    → Distinct (put_row key rs m)
unfolding put_row
put_row-Distinct key [] m h d = d
put_row-Distinct key (x ∷ xs) m h d = (h, d)

prune-Distinct :
    (user_id : String) (m : Dict (List OutRoute)) → Distinct m → Distinct (prune user_id m)
unfolding prune
prune-Distinct user_id [] d = tt
prune-Distinct user_id ((key, rs) ∷ m) d =
    put_row-Distinct key _ (prune user_id m) (prune-has user_id key m d.0)
      (prune-Distinct user_id m d.1)

pub add_route-IsRouted : (r : Room) (route : OutRoute) → IsRouted r → IsRouted (add_route r route)
add_route-IsRouted r route h = record {
  rows =
      unfold add_route in
      ground (
        arith,
        h.rows,
        insert-Distinct route.track.key (routes_at r.routes route.track.key ++ route ∷ []) r.routes,
      );
  legs = λ j. rw add_route_lem (
      if_NoTwin _ _ _ (λ new. NoTwin-snoc (routes_at r.routes j) route (h.legs j) (ground arith))
        (λ old. h.legs j));
}

pub remove_route-IsRouted :
    (r : Room) (key : String) (ft : ForwardedTrack) → IsRouted r → IsRouted (remove_route r key ft)
remove_route-IsRouted r key ft h = record {
  rows = unfold remove_route in put_kept-Distinct r.routes key _ h.rows;
  legs = λ j. rw remove_route_lem (
      if_NoTwin (key == j) (keep (λ x. not (is_leg ft x)) (routes_at r.routes j)) _
        (λ hit. keep-NoTwin (λ x. not (is_leg ft x)) (routes_at r.routes j) (h.legs j))
        (λ miss. h.legs j));
}

pub remove_routes_for-IsRouted :
    (r : Room) (user_id : String) → IsRouted r → IsRouted (remove_routes_for r user_id)
remove_routes_for-IsRouted r user_id h = record {
  rows = unfold remove_routes_for in prune-Distinct user_id r.routes h.rows;
  legs = λ j.
      rw (remove_routes_for_lem r user_id j h.rows)
        (keep-NoTwin _ (routes_at r.routes j) (h.legs j));
}
