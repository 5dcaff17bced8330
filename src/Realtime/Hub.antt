-- ===== src/Realtime/Hub.antt =====
-- The connections of `WebSocketHub` (backend/src/realtime/hub.py). A socket is a number; ids are texts.
use Prim.Native.String
use watari.Base.{
  List, Option, String, [], contains, if◌then◌else◌, keep_if, none, not, some, str_eq, ℕ, ◌*◌, ◌++◌,
  ◌-◌, ◌==◌, ◌∷◌,
}

-- `_CASE_CHANNEL.format(…)` and `_TENANT_CHANNEL.format(…)`
unfoldable pub case_text : String → String
case_text case_id = String.◌++◌ "case:" case_id

unfoldable pub tenant_text : String → String
tenant_text tenant_id = String.◌++◌ "tenant:" tenant_id

-- What follows the prefix, if the text starts with it.
unfoldable pub after_prefix : String → String → Option String
after_prefix String.[] t = some t
after_prefix (String.◌∷◌ c p) String.[] = none
after_prefix (String.◌∷◌ c p) (String.◌∷◌ d t) =
    let rest = after_prefix p t in if str_eq (String.◌∷◌ c "") (String.◌∷◌ d "") then rest else none

-- A `defaultdict(set)` of the sockets of each id. A set is a list without repetition.
abbrev pub Connections : Type 0
Connections = List (String × List ℕ)

-- `.get(id, ())`
abbrev pub sockets : String → Connections → List ℕ
sockets id [] = []
sockets id ((k, ws) ∷ rest) = if str_eq k id then ws else sockets id rest

abbrev pub add_to_set : ℕ → List ℕ → List ℕ
add_to_set w ws = if contains w ws then ws else ws ++ w ∷ []

abbrev pub discard_from_set : ℕ → List ℕ → List ℕ
discard_from_set w ws = keep_if (λ x. not (x == w)) ws

-- `connections[id].add(websocket)`
unfoldable pub connect : String → ℕ → Connections → Connections
connect id w [] = (id, w ∷ []) ∷ []
connect id w ((k, ws) ∷ rest) =
    let rest' = connect id w rest in
    if str_eq k id then (k, add_to_set w ws) ∷ rest else (k, ws) ∷ rest'

-- The entry, if its set is not empty.
abbrev pub put_unless_empty : String → List ℕ → Connections → Connections
put_unless_empty k [] rest = rest
put_unless_empty k (w ∷ ws) rest = (k, w ∷ ws) ∷ rest

-- `connections[id].discard(websocket)`, and `pop` when nothing is left. An id that is missing gets
-- an empty set, which goes at once.
unfoldable pub disconnect : String → ℕ → Connections → Connections
disconnect id w [] = []
disconnect id w ((k, ws) ∷ rest) =
    let rest' = disconnect id w rest in
    if str_eq k id then put_unless_empty k (discard_from_set w ws) rest else (k, ws) ∷ rest'

pub record Hub : Type 0 where
  pub case_connections : Connections
  pub tenant_connections : Connections

-- The sorted sets of Redis in which the viewers of a case are kept.
pub record SortedSets (R : Type 0) : Type 0 where
  pub zadd : (key member : String) (score : ℕ) → R → R
  pub expire : (key : String) (ttl : ℕ) → R → R
  pub zrem : (key member : String) → R → R
  pub zremrangebyscore : (key : String) (low high : ℕ) → R → R
  pub zrange : (key : String) → R → List String

unfoldable pub presence_key : String → String
presence_key case_id = String.◌++◌ "presence:case:" case_id

abbrev pub presence_ttl_seconds : ℕ
presence_ttl_seconds = 30

module _ {R : Type 0} (redis : SortedSets R) where
  -- `_touch_presence`
  unfoldable pub touch_presence : (case_id user_id : String) (now : ℕ) → R → R
  unfolding presence_key
  touch_presence case_id user_id now r =
      redis.expire (presence_key case_id) (presence_ttl_seconds * 4)
        (redis.zadd (presence_key case_id) user_id now r)

  -- `_remove_presence`
  unfoldable pub remove_presence : (case_id user_id : String) → R → R
  unfolding presence_key
  remove_presence case_id user_id r = redis.zrem (presence_key case_id) user_id r

  -- The viewers, and the set without the old ones.
  unfoldable pub get_active_viewers : String → ℕ → R → List String × R
  unfolding presence_key
  get_active_viewers case_id now r =
      let r' = redis.zremrangebyscore (presence_key case_id) 0 (now - presence_ttl_seconds) r in
      (redis.zrange (presence_key case_id) r', r')

  unfoldable pub connect_case : ℕ → (case_id user_id : String) (now : ℕ) → Hub × R → Hub × R
  unfolding connect touch_presence
  connect_case w case_id user_id now (h, r) = (
    record h { case_connections = connect case_id w h.case_connections },
    touch_presence case_id user_id now r,
  )

  unfoldable pub disconnect_case : ℕ → (case_id user_id : String) → Hub × R → Hub × R
  unfolding disconnect remove_presence
  disconnect_case w case_id user_id (h, r) = (
    record h { case_connections = disconnect case_id w h.case_connections },
    remove_presence case_id user_id r,
  )

  unfoldable pub connect_tenant : ℕ → String → Hub × R → Hub × R
  unfolding connect
  connect_tenant w tenant_id (h, r) =
      (record h { tenant_connections = connect tenant_id w h.tenant_connections }, r)

  unfoldable pub disconnect_tenant : ℕ → String → Hub × R → Hub × R
  unfolding disconnect
  disconnect_tenant w tenant_id (h, r) =
      (record h { tenant_connections = disconnect tenant_id w h.tenant_connections }, r)

-- `_deliver`: the sockets that a message on the channel is sent to.
unfoldable pub deliver : String → Hub → List ℕ
unfolding after_prefix
deliver channel h = elim (after_prefix "case:" channel) [
  | some case_id ↦ sockets case_id h.case_connections
  | none ↦ elim (after_prefix "tenant:" channel) [
    | some tenant_id ↦ sockets tenant_id h.tenant_connections
    | none ↦ []
  ]
]
