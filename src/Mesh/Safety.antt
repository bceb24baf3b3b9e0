-- ===== src/Mesh/Safety.antt =====
-- The invariant of the interleavings.
use zero_conf_mesh.Prelude.{
  Bool, true, false, ◌||◌, ◌≡◌, refl, ◌∙◌, arith, List, [], ◌∷◌, ◌++◌, All, Bool-cases, inl, inr,
}
use zero_conf_mesh.Error.{Result}
use zero_conf_mesh.Config.{ZeroConfConfig}
use zero_conf_mesh.Types.Announcement.{AgentAnnouncement}
use zero_conf_mesh.Types.Announcement.Valid
use zero_conf_mesh.Types.Txt.{TxtApi}
use zero_conf_mesh.Types.Auth.{MacApi}
use zero_conf_mesh.Broadcaster.{MdnsApi}
use zero_conf_mesh.Mesh.{signed, ZeroConfMesh}
use zero_conf_mesh.Mesh.Runtime.{
  announcing, store, sign_local, sweep, request_shutdown, leave, join_tasks,
}
use zero_conf_mesh.Mesh.Updates.{
  SameNode, mutator-IsValid, mutator-SameNode, signed-SameNode, signed-IsValid,
}
use zero_conf_mesh.Mesh.Invariant.{
  IsOwn, IsSound, upsert-IsSound, remove-IsSound, evict-IsSound, round-IsSound,
}
use zero_conf_mesh.Mesh.Steps.{
  Pending, to_refresh, publishing, storing, leaving, is_ok, then_storing, System, Step, updates,
  signs, skips, beats, announces, stores, sweeps, listens, stops, leaves, joins, Reach, here,
  further,
}

-- An element of a list, and the list without it.
pub All-at {ℓ κ} :
    {A : Type ℓ} (P : A → Type κ) (before later : List A) (x : A)
    → All P (before ++ x ∷ later)
    → P x
All-at P [] later x h = h.0
All-at P (y ∷ before) later x h = All-at P before later x h.1

pub All-without {ℓ κ} :
    {A : Type ℓ} (P : A → Type κ) (before later : List A) (x : A)
    → All P (before ++ x ∷ later)
    → All P (before ++ later)
All-without P [] later x h = h.1
All-without P (y ∷ before) later x h = (h.0, All-without P before later x h.1)

SameNode-IsOwn :
    (c : ZeroConfConfig) (a b : AgentAnnouncement)
    → IsOwn c a
    → Valid.IsValid b
    → SameNode a b
    → IsOwn c b
SameNode-IsOwn c a b w v s = record {
  well_formed = v;
  agent_id = s.agent_id ∙ w.agent_id;
  instance_name = s.instance_name ∙ w.instance_name;
}

module _ (txt : TxtApi) (mac : MacApi) (mdns : MdnsApi txt) where
  -- What a pending task holds is the node's own.
  abbrev pub IsOwnTask : ZeroConfConfig → Pending → Type 0
  IsOwnTask c to_refresh = Unit
  IsOwnTask c (publishing _ a) = IsOwn c a
  IsOwnTask c (storing a) = IsOwn c a
  IsOwnTask c (leaving a) = IsOwn c a

  -- A node with this configuration: its announcement and its pending tasks its own, its registry sound.
  pub record IsRunning (c : ZeroConfConfig) (s : System txt mac mdns) : Type 0 where
    pub config : s.0.config ≡ c
    pub local_agent : IsOwn c s.0.local_agent
    pub registry : IsSound txt mac c s.0.registry
    pub pending : All (IsOwnTask c) s.1

  -- A snapshot that may go on to be stored is the node's own.
  then_storing-IsOwn :
      (c : ZeroConfConfig) (goes_on : Bool) (a : AgentAnnouncement) (ps : List Pending)
      → IsOwn c a
      → All (IsOwnTask c) ps
      → All (IsOwnTask c) (then_storing goes_on a ps)
  then_storing-IsOwn c true a ps own h = (own, h)
  then_storing-IsOwn c false a ps own h = h

  leave-rest :
      (c : ZeroConfConfig) (a : AgentAnnouncement) (m : ZeroConfMesh txt mac mdns)
      → IsSound txt mac c m.registry
      → ((leave txt mac mdns a m).config ≡ m.config)
        × ((leave txt mac mdns a m).local_agent ≡ m.local_agent)
        × IsSound txt mac c (leave txt mac mdns a m).registry
  unfolding leave
  leave-rest c a m w = elim (Bool-cases m.config.advertise_local) [
    | inl e ↦ rw e (refl, refl, remove-IsSound txt mac c a.agent_id m.registry w)
    | inr e ↦ rw e (refl, refl, w)
  ]

  joins-rest :
      (a b c : Result (Unit {0})) (m : ZeroConfMesh txt mac mdns)
      → ((join_tasks txt mac mdns a b c m).0.config ≡ m.config)
        × ((join_tasks txt mac mdns a b c m).0.local_agent ≡ m.local_agent)
        × ((join_tasks txt mac mdns a b c m).0.registry ≡ m.registry)
  unfolding join_tasks
  joins-rest a b c m = ground arith

  pub Step-IsRunning :
      (c : ZeroConfConfig) (s t : System txt mac mdns)
      → Step txt mac mdns s t
      → IsRunning c s
      → IsRunning c t
  unfolding sign_local sweep request_shutdown announcing store
  Step-IsRunning c s t (updates {m} {ps} u a e) w = record {
    config = w.config;
    local_agent =
        SameNode-IsOwn c m.local_agent a w.local_agent
          (mutator-IsValid u m.local_agent w.local_agent.well_formed e)
          (mutator-SameNode u m.local_agent e);
    registry = w.registry;
    pending = (tt, w.pending);
  }
  Step-IsRunning c s t (signs {m} before later e) w =
      let auth = m.config.shared_secret_auth in
      let own =
        SameNode-IsOwn c m.local_agent (signed mac auth m.local_agent) w.local_agent
          (signed-IsValid mac auth m.local_agent w.local_agent.well_formed)
          (signed-SameNode mac auth m.local_agent) in
      record {
        config = w.config;
        local_agent = own;
        registry = w.registry;
        pending = (own, All-without (IsOwnTask c) before later to_refresh w.pending);
      }
  Step-IsRunning c s t (skips before later e) w = record {
    config = w.config;
    local_agent = w.local_agent;
    registry = w.registry;
    pending = All-without (IsOwnTask c) before later to_refresh w.pending;
  }
  Step-IsRunning c s t (beats e) w = record {
    config = w.config;
    local_agent = w.local_agent;
    registry = w.registry;
    pending = (w.local_agent, w.pending);
  }
  Step-IsRunning c s t (announces {m} before later always a) w = record {
    config = w.config;
    local_agent = w.local_agent;
    registry = w.registry;
    pending =
        then_storing-IsOwn c (always || is_ok (announcing txt mac mdns a m).1) a (before ++ later)
          (All-at (IsOwnTask c) before later (publishing always a) w.pending)
          (All-without (IsOwnTask c) before later (publishing always a) w.pending);
  }
  Step-IsRunning c s t (stores {m} before later now a) w = record {
    config = w.config;
    local_agent = w.local_agent;
    registry =
        upsert-IsSound txt mac c a now m.registry
          (All-at (IsOwnTask c) before later (storing a) w.pending) w.registry;
    pending = All-without (IsOwnTask c) before later (storing a) w.pending;
  }
  Step-IsRunning c s t (sweeps {m} now e) w = record {
    config = w.config;
    local_agent = w.local_agent;
    registry = evict-IsSound txt mac c now m.registry w.registry;
    pending = w.pending;
  }
  Step-IsRunning c s t (listens {m} now input e) w = record {
    config = w.config;
    local_agent = w.local_agent;
    registry = rw w.config (round-IsSound txt mac c now input m.registry w.registry);
    pending = w.pending;
  }
  Step-IsRunning c s t (stops e) w = record {
    config = w.config;
    local_agent = w.local_agent;
    registry = w.registry;
    pending = (w.local_agent, w.pending);
  }
  Step-IsRunning c s t (leaves {m} before later a) w =
      let (p, q, v) = leave-rest c a m w.registry in
      record {
        config = p ∙ w.config;
        local_agent = rw q w.local_agent;
        registry = v;
        pending = All-without (IsOwnTask c) before later (leaving a) w.pending;
      }
  Step-IsRunning c s t (joins {m} x y z e) w =
      let (p, q, v) = joins-rest x y z m in
      record {
        config = p ∙ w.config;
        local_agent = rw q w.local_agent;
        registry = rw v w.registry;
        pending = w.pending;
      }

  -- However the owner's calls, the heartbeat, the sweeper, the listener and the shutdown
  -- interleave, from a state that satisfies the invariant: the node keeps its configuration, a
  -- well-formed announcement under its own id and instance name, pending snapshots that are its
  -- own, and a registry that is valid, mirrored by its events, and, under authentication that
  -- verifies, holds only signed peers.
  pub Reach-IsRunning :
      (c : ZeroConfConfig) (s t : System txt mac mdns)
      → Reach txt mac mdns s t
      → IsRunning c s
      → IsRunning c t
  Reach-IsRunning c s t here w = w
  Reach-IsRunning c s t (further {t = u} p e) w = Step-IsRunning c u t e (Reach-IsRunning c s u p w)
