-- ===== src/Domain.antt =====
-- `DDSManager::joinDomain` and `enableDomain` (src/dds_manager.cpp): the participant and its
-- transports. Domain numbers are from 0 on. What the configuration heap, the factory and the transport
-- registry answer is an argument; the global counters are part of the state.
pub mod Transports
pub mod Security
pub mod Race
use open_ddw.Base.{
  ℕ, ◌+◌, ◌*◌, ◌%◌, ◌^◌, Bool, true, false, not, ◌&&◌, Option, none, some, List, [], ◌∷◌, ◌++◌,
  ◌==◌, is_empty, is_some, if◌then◌else◌,
}
use open_ddw.Base.Text.{Text, text, same}
use open_ddw.Base.Decimal.{to_string}
use open_ddw.Dds.{ReturnCode, Outcome, done, throws, terminates}
use open_ddw.Dds.Status.{is_ok}

-- `ACE_INET_Addr`
pub record Address : Type 0 where
  pub host : Text
  pub port : ℕ

-- What is copied of an `RtpsUdpInst`. Durations and sizes are numbers.
pub record RtpsUdp : Type 0 where
  pub anticipated_fragments : ℕ
  pub heartbeat_period : ℕ
  pub max_message_size : ℕ
  pub max_packet_size : ℕ
  pub max_samples_per_packet : ℕ
  pub multicast_group_address : Address
  pub multicast_interface : Text
  pub nak_depth : ℕ
  pub nak_response_delay : ℕ
  pub optimum_packet_size : ℕ
  pub rcv_buffer_size : ℕ
  pub receive_address_duration : ℕ
  pub responsive_mode : Bool
  pub send_buffer_size : ℕ
  pub send_delay : ℕ
  pub thread_per_connection : Bool
  pub ttl : ℕ
  pub use_multicast : Bool

-- A transport of the global configuration. The getter of its group address takes the domain; the
-- settings are read only where the type is rtps_udp.
pub record GlobalTransport : Type 0 where
  pub transport_type : Text
  pub settings : RtpsUdp
  pub group_address : ℕ → Address

-- What the transport registry is told: a new transport with its name and settings, or that the
-- global one with an index is in the configuration.
pub data Setting : Type 0 where
  create_config : Text → Setting
  create_inst : Text → RtpsUdp → Setting
  insert_existing : ℕ → Setting
  bind_config : Text → Setting

-- `g_transportInstances`
abbrev pub Instances : Type 0
Instances = ℕ → Option ℕ

pub record Site : Type 0 where
  pub domain : Option ℕ
  pub monitored : Bool
  pub instances : Instances
  pub settings : List Setting

-- The answers: whether the heap opens, the file is read, the factory and the participant come to
-- be, and whether a configuration with the name is there; and the transports of the global one.
pub record Answers : Type 0 where
  pub heap_opens : Bool
  pub imported : Bool
  pub has_factory : Bool
  pub has_participant : Bool
  pub config_exists : Text → Bool
  pub global_transports : List GlobalTransport

-- The counter after `g_transportInstances[domainID]` was raised or set to 1.
abbrev pub next_instance : Option ℕ → ℕ
next_instance none = 1
next_instance (some n) = n + 1

abbrev pub count_join : ℕ → Instances → Instances
count_join domain_id instances d =
    if d == domain_id then some (next_instance (instances domain_id)) else instances d

abbrev pub config_name : ℕ → ℕ → Text
config_name domain_id instance =
    text "config-" ++ (to_string domain_id ++ (b'-' ∷ to_string instance))

abbrev pub transport_name : Text → ℕ → ℕ → Text
transport_name transport_type domain_id instance =
    transport_type ++ (b'-' ∷ (to_string domain_id ++ (b'-' ∷ to_string instance)))

-- `PB + DG * static_cast<uint16_t>(domainID) + D2`, kept in 16 bits.
unfoldable pub rtps_port : ℕ → ℕ
rtps_port domain_id = (7400 + 250 * (domain_id % 2 ^ 16) + 1) % 2 ^ 16

-- The settings of the new transport: those of the global one, but for the port.
unfoldable pub rtps_settings : ℕ → GlobalTransport → RtpsUdp
unfolding rtps_port
rtps_settings domain_id t = record (t.settings) {
  multicast_group_address = record (t.group_address domain_id) { port = rtps_port domain_id };
}

-- The loop over the transports of the global configuration, with the index of the first.
unfoldable pub build_transports : ℕ → ℕ → ℕ → List GlobalTransport → List Setting
unfolding rtps_settings
build_transports domain_id instance i [] = []
build_transports domain_id instance i (t ∷ ts) =
    (if same t.transport_type (text "rtps_udp")
      then create_inst (transport_name t.transport_type domain_id instance)
          (rtps_settings domain_id t)
      else insert_existing i)
    ∷ build_transports domain_id instance (i + 1) ts

-- From the counter on, for the participant that was made.
unfoldable pub set_transports : Answers → ℕ → Text → Site → Bool × Site
unfolding build_transports
set_transports a domain_id config site =
    let instance = next_instance (site.instances domain_id) in
    let site₁ = record site { instances = count_join domain_id site.instances } in
    if not (is_empty config)
    then (if not (a.config_exists config)
        then (false, site₁)
        else (true, record site₁ { settings = site.settings ++ bind_config config ∷ [] }))
    else (let name = config_name domain_id instance in
        if a.config_exists name then (true, site₁) else (
          true,
          record site₁ {
            settings =
                site.settings
                ++ create_config name
                  ∷ (build_transports domain_id instance 0 a.global_transports
                      ++ bind_config name ∷ []);
          },
        ))

-- `wants_monitor` is `onAdd || onRemove`; `exit(1)` ends the program.
unfoldable pub join_domain : Answers → ℕ → Text → Bool → Site → Outcome (Bool × Site)
unfolding set_transports
join_domain a domain_id config wants_monitor site = elim site.domain [
  | some joined ↦ if domain_id == joined then done (true, site) else done (false, site)
  | none ↦
      if not a.heap_opens
      then terminates
      else if not a.imported
      then throws (text "Unable to open the configuration file")
      else if not (a.has_factory && a.has_participant)
      then done (false, site)
      else done (
          set_transports a domain_id config
            (record site { domain = some domain_id; monitored = wants_monitor }))
]

-- `status` is what `enable` returns.
unfoldable pub enable_domain : ReturnCode → Site → Bool
enable_domain status site = is_some site.domain && is_ok status
