-- ===== src/Media/Pool.antt =====
-- apps/server/src/sfu/worker-manager.ts. A worker is known by its pid, a router by a number; what the
-- media library answers, a new router or a failure, is an argument.
use zvonok.Prelude.{
  ℕ, String, Bool, true, false, Option, none, some, List, [], ◌∷◌, ◌++◌, if◌then◌else◌, ltb, ◌==◌,
  Map, get, put, remove, remove_all, has, add, discard, length, is_some, map,
}

pub record Router : Type 0 where
  pub id : ℕ
  pub closed : Bool

pub record PoolEntry : Type 0 where
  pub pid : ℕ
  pub room_ids : List String

pub record Pool : Type 0 where
  pub entries : List PoolEntry
  pub routers : Map Router
  pub is_closing : Bool

abbrev pub load : PoolEntry → ℕ
load e = length e.room_ids

better : Option PoolEntry → PoolEntry → PoolEntry
better none e = e
better (some best) e = if ltb (load e) (load best) then e else best

unfoldable pub least_loaded_from : Option PoolEntry → List PoolEntry → Option PoolEntry
unfolding better
least_loaded_from best [] = best
least_loaded_from best (e ∷ es) = least_loaded_from (some (better best e)) es

abbrev pub least_loaded_entry : Pool → Option PoolEntry
least_loaded_entry p = least_loaded_from none p.entries

-- `entry.roomIds.add(roomId)`, for the entry with the pid.
unfoldable pub add_room : ℕ → String → List PoolEntry → List PoolEntry
add_room pid room [] = []
add_room pid room (e ∷ es) =
    let rest = add_room pid room es in
    if e.pid == pid then record e { room_ids = add room e.room_ids } ∷ es else e ∷ rest

unfoldable pub create_router_on : ℕ → String → Option ℕ → Pool → Pool × Option Router
create_router_on pid room none p = (p, none)
create_router_on pid room (some id) p = (
  record p {
    entries = add_room pid room p.entries;
    routers = put room (record { id = id; closed = false }) p.routers;
  },
  some (record { id = id; closed = false }),
)

-- A router of the room that is open.
unfoldable pub open_router : Option Router → Option Router
open_router none = none
open_router (some r) = if r.closed then none else some r

unfoldable pub create_router : String → Option ℕ → Pool → Pool × Option Router
create_router room answer p = elim (open_router (get room p.routers)) [
  | some r ↦ (p, some r)
  | none ↦ elim (least_loaded_entry p) [
    | none ↦ (p, none)
    | some e ↦ create_router_on e.pid room answer p
  ]
]

unfoldable pub close_router : String → Pool → Pool
close_router room p = record p {
  routers = remove room p.routers;
  entries = map (λ (e : PoolEntry). record e { room_ids = discard room e.room_ids }) p.entries;
}

rooms_of : ℕ → List PoolEntry → List String
rooms_of pid [] = []
rooms_of pid (e ∷ es) = let rest = rooms_of pid es in if e.pid == pid then e.room_ids else rest

without : ℕ → List PoolEntry → List PoolEntry
without pid [] = []
without pid (e ∷ es) = let rest = without pid es in if e.pid == pid then es else e ∷ rest

-- The death of a worker: the rooms that it served, and the pool without it.
unfoldable pub bury : ℕ → Pool → Pool × List String
unfolding rooms_of without
bury pid p =
    let lost = rooms_of pid p.entries in
    (record p { routers = remove_all lost p.routers; entries = without pid p.entries }, lost)

unfoldable pub create_pool_entry : ℕ → Pool → Pool
create_pool_entry pid p = record p {
  entries = p.entries ++ (record { pid = pid; room_ids = [] }) ∷ [];
}

-- The rooms that have no router yet get one on the new worker; those that did are told.
unfoldable pub recover : ℕ → (String → Option ℕ) → List String → Pool → Pool × List String
recover pid answer [] p = (p, [])
recover pid answer (room ∷ rooms) p = elim (is_some (get room p.routers)) [
  | true ↦ recover pid answer rooms p
  | false ↦
      let made = create_router_on pid room (answer room) p in
      let rest = recover pid answer rooms made.0 in
      elim made.1 [ none ↦ rest | some r ↦ (rest.0, room ∷ rest.1) ]
]

-- `handleWorkerDeath`, once the replacement has started.
unfoldable pub handle_worker_death : ℕ → ℕ → (String → Option ℕ) → Pool → Pool × List String
handle_worker_death dead fresh answer p =
    let (buried, lost) = bury dead p in
    if p.is_closing then (p, []) else recover fresh answer lost (create_pool_entry fresh buried)

-- The pid of the worker that serves the room.
unfoldable pub worker_pid_from : String → List PoolEntry → Option ℕ
worker_pid_from room [] = none
worker_pid_from room (e ∷ es) = if has room e.room_ids then some e.pid else worker_pid_from room es

abbrev pub get_worker_pid : Pool → String → Option ℕ
get_worker_pid p room = worker_pid_from room p.entries

abbrev pub on_module_destroy : Pool → Pool
on_module_destroy p = record { entries = []; routers = []; is_closing = true }
