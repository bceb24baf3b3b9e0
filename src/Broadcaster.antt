-- ===== src/Broadcaster.antt =====
-- src/broadcaster.rs: registering and unregistering the local service. The mDNS daemon is another
-- crate's: each call gives the daemon after it and its result.
use zero_conf_mesh.Prelude.{ℕ, String, List}
use zero_conf_mesh.Error.{Result, ok, err}
use zero_conf_mesh.Config.{NetworkInterface}
use zero_conf_mesh.Types.Announcement.{IpAddr, AgentAnnouncement}
use zero_conf_mesh.Types.Txt.{TxtApi, to_txt_properties}

-- `ServiceDaemon` and `ServiceInfo`, by the calls that the crate makes.
pub record MdnsApi (txt : TxtApi) : Type 1 where
  pub ServiceDaemon : Type 0
  pub ServiceInfo : Type 0
  -- service type, name, host name, addresses, port, properties
  pub new_service_info :
      String → String → String → List IpAddr → ℕ → List txt.TxtProperty → Result ServiceInfo
  pub enable_addr_auto : ServiceInfo → ServiceInfo
  pub new_with_port : ℕ → Result ServiceDaemon
  pub enable_interface : NetworkInterface → ServiceDaemon → ServiceDaemon × Result (Unit {0})
  pub disable_interface : NetworkInterface → ServiceDaemon → ServiceDaemon × Result (Unit {0})
  pub browse : String → ServiceDaemon → ServiceDaemon × Result (Unit {0})
  pub register : ServiceInfo → ServiceDaemon → ServiceDaemon × Result (Unit {0})
  pub unregister : String → ServiceDaemon → ServiceDaemon × Result (Unit {0})
  pub shutdown : ServiceDaemon → ServiceDaemon

pub record Broadcaster : Type 0 where
  pub service_type : String
  pub host_name : String

module _ (txt : TxtApi) (mdns : MdnsApi txt) where
  unfoldable pub to_service_info : AgentAnnouncement → String → String → Result mdns.ServiceInfo
  to_service_info a service_type host_name =
      mdns.new_service_info service_type a.agent_id host_name a.addresses a.port
        (to_txt_properties txt a)

  unfoldable pub announce :
      Broadcaster → AgentAnnouncement → mdns.ServiceDaemon → mdns.ServiceDaemon × Result (Unit {0})
  announce b a daemon = elim (to_service_info a b.service_type b.host_name) [
    | err e ↦ (daemon, err e)
    | ok service ↦ mdns.register (mdns.enable_addr_auto service) daemon
  ]

  -- Every reply of the daemon to the call counts as done.
  unfoldable pub unregister :
      Broadcaster → AgentAnnouncement → mdns.ServiceDaemon → mdns.ServiceDaemon × Result (Unit {0})
  unregister b a daemon = mdns.unregister a.instance_name daemon
