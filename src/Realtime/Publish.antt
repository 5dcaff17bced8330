-- ===== src/Realtime/Publish.antt =====
-- `WebSocketHub.publish_case_event`, `publish_tenant_event`, and the two functions of publisher.py.
use watari.Base.{ℕ, ◌+◌, String, Option, none, some, [], ◌∷◌, ◌++◌, if◌then◌else◌}
use watari.Store.{Message, Metadata, Channel, case_channel, tenant_channel}
use watari.Exec.{Action, ok, err, redis_error, now, suppress, ◌>>=◌, ◌>>◌}

-- `redis.publish`, which may raise.
unfoldable pub redis_publish : Channel → Message → Action (Unit {0})
redis_publish ch m s =
    if s.world.redis_up s.redis_calls
    then (
      ok tt,
      record s { redis_calls = s.redis_calls + 1; published = s.published ++ (ch, m) ∷ [] },
    )
    else (err redis_error, record s { redis_calls = s.redis_calls + 1 })

-- The arguments of `publish_case_event` but for the ids.
pub record Event : Type 0 where
  pub type : String
  pub entry_id : Option ℕ
  pub description : String
  pub category : Option String
  pub metadata : Metadata
  pub actor_id : Option ℕ

-- `RealtimeEvent(…)`
abbrev pub realtime_event : Option ℕ → ℕ → Event → ℕ → Message
realtime_event case_id tenant_id e t = record {
  type = e.type;
  case_id = case_id;
  tenant_id = tenant_id;
  entry_id = e.entry_id;
  description = e.description;
  category = e.category;
  metadata = e.metadata;
  actor_id = e.actor_id;
  timestamp = t;
}

unfoldable pub publish_case_event : ℕ → ℕ → Event → Action (Unit {0})
unfolding redis_publish
publish_case_event case_id tenant_id e = do
  t ← now
  redis_publish (case_channel case_id) (realtime_event (some case_id) tenant_id e t)
  redis_publish (tenant_channel tenant_id) (realtime_event (some case_id) tenant_id e t)

unfoldable pub publish_tenant_event : ℕ → Event → Action (Unit {0})
unfolding redis_publish
publish_tenant_event tenant_id e = do
  t ← now
  redis_publish (tenant_channel tenant_id) (realtime_event none tenant_id e t)

unfoldable pub publish_case : ℕ → ℕ → Event → Action (Unit {0})
unfolding publish_case_event
publish_case case_id tenant_id e = suppress (publish_case_event case_id tenant_id e)

unfoldable pub publish_tenant : ℕ → Event → Action (Unit {0})
unfolding publish_tenant_event
publish_tenant tenant_id e = suppress (publish_tenant_event tenant_id e)
