-- ===== src/Realtime/Delivery.antt =====
-- Whom a message on a channel reaches (backend/src/realtime/hub.py).
use Prim.Native.String
use Prim.Native.String.append
use watari.Base.{
  Bool, List, String, [], ap, arith, contains, false, if◌then◌else◌, none, refl, some, str_eq,
  str_eq_iff, true, ℕ, ◌&&◌, ◌==◌, ◌∙◌, ◌∷◌, ◌≡◌,
}
use watari.Realtime.Hub.{
  Hub, SortedSets, after_prefix, case_text, connect_case, connect_tenant, deliver, disconnect_case,
  disconnect_tenant, sockets, tenant_text,
}
use watari.Realtime.Registry.{
  IsTidy, connect-IsTidy, connect_lem, disconnect-IsTidy, disconnect_lem,
}

-- What a client watches.
pub data Room : Type 0 where
  case_room tenant_room : String → Room

-- A change of the connections: a socket joins or leaves.
pub data Change : Type 0 where
  case_joined : (socket : ℕ) (case_id user_id : String) (now : ℕ) → Change
  case_left : (socket : ℕ) (case_id user_id : String) → Change
  tenant_joined tenant_left : (socket : ℕ) (tenant_id : String) → Change

abbrev pub channel_of : Room → String
channel_of (case_room id) = case_text id
channel_of (tenant_room id) = tenant_text id

-- The abstract hub: who is in a room.
abbrev pub Audience : Type 0
Audience = Room → ℕ → Bool

abbrev pub same_room : Room → Room → Bool
same_room (case_room a) (case_room b) = str_eq a b
same_room (tenant_room a) (tenant_room b) = str_eq a b
same_room _ _ = false

-- Sets whether the socket is in the room, and nothing else.
abbrev pub set_present : Room → ℕ → Bool → Audience → Audience
set_present room w present a other v = if same_room room other && w == v then present else a other v

abbrev pub change_audience : Change → Audience → Audience
change_audience (case_joined w id user now) = set_present (case_room id) w true
change_audience (case_left w id user) = set_present (case_room id) w false
change_audience (tenant_joined w id) = set_present (tenant_room id) w true
change_audience (tenant_left w id) = set_present (tenant_room id) w false

abbrev pub audience_after : List Change → Audience → Audience
audience_after [] a = a
audience_after (c ∷ cs) a = audience_after cs (change_audience c a)

abbrev pub room_sockets : Room → Hub → List ℕ
room_sockets (case_room id) h = sockets id h.case_connections
room_sockets (tenant_room id) h = sockets id h.tenant_connections

abbrev pub audience : Hub → Audience
audience h room v = contains v (room_sockets room h)

abbrev pub IsTidyHub : Hub → Type 0
IsTidyHub h = IsTidy h.case_connections × IsTidy h.tenant_connections

after_prefix-append : (p t : String) → after_prefix p (String.◌++◌ p t) ≡ some t
unfolding after_prefix
after_prefix-append String.[] t = ap (after_prefix String.[]) (append.nil t)
after_prefix-append (String.◌∷◌ c p) t =
    let same : str_eq (String.◌∷◌ c "") (String.◌∷◌ c "") ≡ true =
      (str_eq_iff (String.◌∷◌ c "") (String.◌∷◌ c "")).1 refl in
    ap (after_prefix (String.◌∷◌ c p)) (append.cons c p t) ∙ rw same (after_prefix-append p t)

tenant_text-case : (t : String) → after_prefix "case:" (tenant_text t) ≡ none
unfolding after_prefix tenant_text
tenant_text-case t = ap (after_prefix "case:") (append.cons _ "enant:" t)

-- A message reaches the sockets of its room.
deliver_lem : (room : Room) (h : Hub) → deliver (channel_of room) h ≡ room_sockets room h
unfolding deliver case_text tenant_text
deliver_lem (case_room id) h = ground (arith, after_prefix-append "case:" id)
deliver_lem (tenant_room id) h =
    ground (arith, tenant_text-case id, after_prefix-append "tenant:" id)

module _ {R : Type 0} (redis : SortedSets R) where
  unfoldable pub apply_change : Change → Hub × R → Hub × R
  unfolding connect_case disconnect_case connect_tenant disconnect_tenant
  apply_change (case_joined w id user now) = connect_case redis w id user now
  apply_change (case_left w id user) = disconnect_case redis w id user
  apply_change (tenant_joined w id) = connect_tenant redis w id
  apply_change (tenant_left w id) = disconnect_tenant redis w id

  unfoldable pub apply_changes : List Change → Hub × R → Hub × R
  unfolding apply_change
  apply_changes [] h = h
  apply_changes (c ∷ cs) h = apply_changes cs (apply_change c h)

  apply_change-IsTidyHub :
      (c : Change) (h : Hub × R) → IsTidyHub h.0 → IsTidyHub (apply_change c h).0
  unfolding apply_change connect_case disconnect_case connect_tenant disconnect_tenant
  apply_change-IsTidyHub (case_joined w id user now) (h, r) (p, q) =
      (connect-IsTidy id w h.case_connections p, q)
  apply_change-IsTidyHub (case_left w id user) (h, r) (p, q) =
      (disconnect-IsTidy id w h.case_connections p, q)
  apply_change-IsTidyHub (tenant_joined w id) (h, r) (p, q) =
      (p, connect-IsTidy id w h.tenant_connections q)
  apply_change-IsTidyHub (tenant_left w id) (h, r) (p, q) =
      (p, disconnect-IsTidy id w h.tenant_connections q)

  apply_change-audience :
      (c : Change) (h : Hub × R) (room : Room) (v : ℕ)
      → IsTidyHub h.0
      → audience (apply_change c h).0 room v ≡ change_audience c (audience h.0) room v
  unfolding apply_change connect_case disconnect_case connect_tenant disconnect_tenant
  apply_change-audience (case_joined w id user now) (h, r) (case_room j) v (p, q) =
      connect_lem id w j v h.case_connections
  apply_change-audience (case_joined w id user now) (h, r) (tenant_room j) v (p, q) = refl
  apply_change-audience (case_left w id user) (h, r) (case_room j) v (p, q) =
      disconnect_lem id w j v h.case_connections p
  apply_change-audience (case_left w id user) (h, r) (tenant_room j) v (p, q) = refl
  apply_change-audience (tenant_joined w id) (h, r) (case_room j) v (p, q) = refl
  apply_change-audience (tenant_joined w id) (h, r) (tenant_room j) v (p, q) =
      connect_lem id w j v h.tenant_connections
  apply_change-audience (tenant_left w id) (h, r) (case_room j) v (p, q) = refl
  apply_change-audience (tenant_left w id) (h, r) (tenant_room j) v (p, q) =
      disconnect_lem id w j v h.tenant_connections q

  -- Two audiences that agree still do after the same change.
  audience_after-same :
      (cs : List Change) (a b : Audience)
      → ((room : Room) (v : ℕ) → a room v ≡ b room v)
      → (room : Room) (v : ℕ) → audience_after cs a room v ≡ audience_after cs b room v
  audience_after-same [] a b same room v = same room v
  audience_after-same (c ∷ cs) a b same room v =
      audience_after-same cs (change_audience c a) (change_audience c b)
        (λ other u. change_same c other u) room v
    where
      change_same :
          (d : Change) (other : Room) (u : ℕ)
          → change_audience d a other u ≡ change_audience d b other u
      change_same (case_joined w id user now) other u = ground (arith, same other u)
      change_same (case_left w id user) other u = ground (arith, same other u)
      change_same (tenant_joined w id) other u = ground (arith, same other u)
      change_same (tenant_left w id) other u = ground (arith, same other u)

  -- If each id has one entry in the maps of connections, with a set that is not empty, this still
  -- holds after any sequence of clients connecting and disconnecting, and a message on the channel
  -- of a case or a tenant is then sent to exactly the sockets that have joined that room and not
  -- left it since.
  pub deliver-refines :
      (cs : List Change) (h : Hub) (r : R)
      → IsTidyHub h
      → let h' = (apply_changes cs (h, r)).0 in
        IsTidyHub h'
        × ((room : Room) (v : ℕ)
            → contains v (deliver (channel_of room) h') ≡ audience_after cs (audience h) room v)
  unfolding apply_changes
  deliver-refines [] h r tidy = (tidy, λ room v. ap (contains v) (deliver_lem room h))
  deliver-refines (c ∷ cs) h r tidy =
      let (h1, r1) = apply_change c (h, r) in
      let (tidy', reach) = deliver-refines cs h1 r1 (apply_change-IsTidyHub c (h, r) tidy) in
      (
        tidy',
        λ room v.
            reach room v
            ∙ audience_after-same cs (audience h1) (change_audience c (audience h))
                (λ other u. apply_change-audience c (h, r) other u tidy) room v,
      )
