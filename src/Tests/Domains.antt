-- ===== src/Tests/Domains.antt =====
-- Theorems on joining domains, applied to concrete answers.
use open_ddw.Base.{ℕ, ◌≡◌, refl, true, false, none, some, List, [], ◌∷◌, arith}
use open_ddw.Base.Text.{Text, text}
use open_ddw.Dds.{done}
use open_ddw.Domain.{RtpsUdp, GlobalTransport, Answers, Instances, Site, rtps_port, join_domain}
use open_ddw.Domain.Race.{Joins, waiting, Steps, name_of, own_mutexes_clash}
use open_ddw.Domain.Transports.{
  new_site, join_all, AllDistinct, join_all-AllDistinct, join_domain-again,
}

abbrev nothing_joined : Instances
nothing_joined d = none

abbrev plain_settings : RtpsUdp
plain_settings = record {
  anticipated_fragments = 8;
  heartbeat_period = 1000;
  max_message_size = 65466;
  max_packet_size = 65466;
  max_samples_per_packet = 10;
  multicast_group_address = record { host = text "239.255.0.2"; port = 7401 };
  multicast_interface = [];
  nak_depth = 0;
  nak_response_delay = 200;
  optimum_packet_size = 4096;
  rcv_buffer_size = 65535;
  receive_address_duration = 5;
  responsive_mode = false;
  send_buffer_size = 65535;
  send_delay = 10;
  thread_per_connection = false;
  ttl = 1;
  use_multicast = true;
}

abbrev transport : Text → GlobalTransport
transport transport_type = record {
  transport_type = transport_type;
  settings = plain_settings;
  group_address = λ d. record { host = text "239.255.0.2"; port = 7401 };
}

abbrev plain : Answers
plain = record {
  heap_opens = true;
  imported = true;
  has_factory = true;
  has_participant = true;
  config_exists = λ name. false;
  global_transports = transport (text "rtps_udp") ∷ transport (text "tcp") ∷ [];
}

rtps_port_test : rtps_port 233 ≡ 115
unfolding rtps_port
rtps_port_test = refl

join_all-AllDistinct_example :
    (names : List Text) × (join_all plain (3 ∷ 12 ∷ 3 ∷ []) nothing_joined ≡ done names)
    × AllDistinct names
join_all-AllDistinct_example =
    join_all-AllDistinct plain (3 ∷ 12 ∷ 3 ∷ []) nothing_joined refl refl refl refl

join_domain-again_example :
    (site : Site) × (join_domain plain 3 (text "x") false (new_site nothing_joined)
      ≡ done (false, site))
    × (join_domain plain 3 [] false site ≡ done (true, site))
    × (site.settings ≡ [])
join_domain-again_example =
    join_domain-again plain plain 3 b'x' [] [] false false nothing_joined refl refl refl refl refl

-- Three managers that join domain 3 at the same time.
abbrev same_domain : ℕ → ℕ
same_domain i = 3

abbrev own : ℕ → ℕ
own i = i

abbrev about_to_join : Joins
about_to_join = record { instances = nothing_joined; held = λ k. false; phase = λ i. waiting }

own_mutexes_clash_example :
    (t : Joins) × Steps same_domain own about_to_join t
    × (name : Text) × (name_of same_domain own t 0 ≡ some name)
    × (name_of same_domain own t 1 ≡ some name)
own_mutexes_clash_example =
    own_mutexes_clash same_domain own about_to_join 0 1 (λ e. absurd (omega (arith, e)))
      (λ e. absurd (omega (arith, e))) refl (refl, refl) (refl, refl)
