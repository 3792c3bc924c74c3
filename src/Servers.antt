-- ===== src/Servers.antt =====
-- The list of game servers (src/share_data/server_list.go), from which the login server picks one
-- for a new player. What `json.Unmarshal` leaves in the fields, whether it reports an error, and the
-- random number are arguments; an entry of the list of servers is never null.
pub mod Choice
pub mod Config
use mm_server.Prelude.{
  ℕ, suc, Bool, true, false, Option, none, some, List, [], ◌∷◌, if◌then◌else◌, ◌==◌,
}
use mm_server.Prelude.Int.{ℤ, pos, ltb_ℤ, leb_ℤ, eqb_ℤ, int_eq}
use mm_server.Prelude.Int32.{add32, sub32}
use mm_server.Prelude.Dict.{Dict, lookup, insert}

pub record HallServerInfo : Type 0 where
  pub id : ℤ
  pub weight : ℤ

pub record CrossInfo : Type 0 where
  pub id : ℤ
  pub server_ids : List ℤ

-- What `json.Unmarshal` leaves of the two lists of the configuration file, and whether it reports an
-- error: a text that is not JSON leaves them as they were, an entry of the wrong type leaves the rest
-- in place. Both lists are there; a file that leaves one out, or has null for it, is not modelled.
pub record Loaded : Type 0 where
  pub servers : List HallServerInfo
  pub cross_list : List (Option CrossInfo)
  pub failed : Bool

-- The maps of the code hold pointers into `CrossList`; here they hold positions in it.
pub record ServerList : Type 0 where
  pub servers : List HallServerInfo
  pub total_weight : ℤ
  pub cross_list : List (Option CrossInfo)
  pub id2cross : Dict ℤ ℕ
  pub server_id2cross : Dict ℤ ℕ

-- The loop that sums the weights; a negative one ends it.
unfoldable pub sum_weights : List HallServerInfo → ℤ → Option ℤ
sum_weights [] total = some total
sum_weights (s ∷ ss) total =
    let rest = sum_weights ss (add32 total s.weight) in
    if ltb_ℤ s.weight (pos 0) then none else rest

-- `this.ServerId2Cross[c.ServerIds[n]] = c`
unfoldable pub file_servers : ℕ → List ℤ → Dict ℤ ℕ → Dict ℤ ℕ
file_servers i [] m = m
file_servers i (id ∷ ids) m = file_servers i ids (insert id i m)

-- The loop over `CrossList`, from position `i` on.
unfoldable pub file_crosses :
    ℕ → List (Option CrossInfo) → Dict ℤ ℕ × Dict ℤ ℕ → Dict ℤ ℕ × Dict ℤ ℕ
file_crosses i [] maps = maps
file_crosses i (none ∷ cs) maps = file_crosses (suc i) cs maps
file_crosses i (some c ∷ cs) (by_id, by_server) =
    file_crosses (suc i) cs (insert c.id i by_id, file_servers i c.server_ids by_server)

-- `_read_config` after the lists are in place.
check_config : Loaded → ServerList → ServerList × Bool
check_config f put = elim (sum_weights f.servers (pos 0)) [
  | none ↦ (put, false)
  | some total ↦
      let (by_id, by_server) = file_crosses 0 f.cross_list ([], []) in
      if leb_ℤ total (pos 0) then (put, false) else (
        record put { total_weight = total; id2cross = by_id; server_id2cross = by_server },
        true,
      )
]

-- `_read_config`: the lists are in place before the error and the weights are looked at.
unfoldable pub read_config : Loaded → ServerList → ServerList × Bool
unfolding check_config
read_config f l =
    let put = record l { servers = f.servers; cross_list = f.cross_list } in
    let checked = check_config f put in if f.failed then (put, false) else checked

-- `RereadConfig` of a file that was read: one that did not change is left at that.
unfoldable pub reread_config : Bool → Loaded → ServerList → ServerList × Bool
reread_config true f l = (l, true)
reread_config false f l = read_config f (record l { servers = []; total_weight = pos 0 })

-- `GetServerById`
unfoldable pub get_server_by_id : ℤ → List HallServerInfo → Option HallServerInfo
get_server_by_id id [] = none
get_server_by_id id (s ∷ ss) = if eqb_ℤ s.id id then some s else get_server_by_id id ss

-- `HasServerId`
unfoldable pub has_server_id : ℤ → List HallServerInfo → Bool
has_server_id id [] = false
has_server_id id (s ∷ ss) = if eqb_ℤ s.id id then true else has_server_id id ss

-- The loop of `RandomOneServer`.
unfoldable pub choose_server : List HallServerInfo → ℤ → Option HallServerInfo
choose_server [] r = none
choose_server (s ∷ ss) r =
    let after = choose_server ss (sub32 r s.weight) in
    let same = choose_server ss r in
    if leb_ℤ s.weight (pos 0) then same else if ltb_ℤ r s.weight then some s else after

-- `RandomOneServer`, where `rand` is what `rand.Int31n` returns for its argument; it panics where
-- that is not positive.
unfoldable pub random_one_server : (ℤ → ℤ) → ServerList → Option (Option HallServerInfo)
random_one_server rand l =
    if leb_ℤ l.total_weight (pos 0)
    then none
    else some (choose_server l.servers (rand l.total_weight))

-- `GetCrossByServerId`, as a position.
unfoldable pub get_cross_by_server_id : ℤ → ServerList → Option ℕ
get_cross_by_server_id id l = lookup id l.server_id2cross

-- `GetCrossServers`, as a position.
unfoldable pub get_cross_servers : ℤ → ServerList → Option ℕ
get_cross_servers id l = lookup id l.id2cross

-- Equal pointers: two servers without a cross are in the same one.
same_position : Option ℕ → Option ℕ → Bool
same_position none none = true
same_position (some i) (some j) = i == j
same_position _ _ = false

-- `IsSameCross`
unfoldable pub is_same_cross : ℤ → ℤ → ServerList → Bool
unfolding same_position
is_same_cross a b l = same_position (get_cross_by_server_id a l) (get_cross_by_server_id b l)
