-- ===== src/Tests/Realtime.antt =====
-- Two clients of a case and one of a tenant.
use watari.Base.{List, [], contains, refl, ℕ, ◌∷◌, ◌≡◌}
use watari.Realtime.Delivery.{
  Change, IsTidyHub, Room, apply_change, apply_changes, audience, audience_after, channel_of,
  deliver-refines,
}
use watari.Realtime.Hub.{Hub, SortedSets, connect_case, connect_tenant, deliver, disconnect_case}

-- A store of viewers that forgets them.
abbrev forgetful : SortedSets (Unit {0})
forgetful = record {
  zadd = λ key member score r. r;
  expire = λ key ttl r. r;
  zrem = λ key member r. r;
  zremrangebyscore = λ key low high r. r;
  zrange = λ key r. [];
}

abbrev changes : List Change
changes =
    Change.case_joined 1 "c" "kim" 10
    ∷ Change.case_joined 2 "c" "lee" 11
    ∷ Change.tenant_joined 3 "t"
    ∷ Change.case_left 1 "c" "kim"
    ∷ []

abbrev no_connections : Hub
no_connections = record { case_connections = []; tenant_connections = [] }

one_listener : deliver "case:c" (apply_changes forgetful changes (no_connections, tt)).0 ≡ 2 ∷ []
unfolding deliver apply_changes apply_change connect_case disconnect_case connect_tenant
one_listener = refl

deliver-refines_example :
    let h' = (apply_changes forgetful changes (no_connections, tt)).0 in
    IsTidyHub h'
    × ((room : Room) (v : ℕ)
        → contains v (deliver (channel_of room) h')
          ≡ audience_after changes (audience no_connections) room v)
deliver-refines_example = deliver-refines forgetful changes no_connections tt (tt, tt)
