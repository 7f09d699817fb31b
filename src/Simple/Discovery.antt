-- ===== src/Simple/Discovery.antt =====
-- `DDSSimpleManager::joinDomain`, `GetSubscriberAddress` and `GetPublisherAddress`
-- (src/dds_simple.h). The connections of writers and readers are of OpenDDS, and parameters.
use open_ddw.Base.{ℕ, Bool, true, Option, none, some, List, ◌++◌}
use open_ddw.Base.Text.{Text, text}
use open_ddw.Base.Dict.{lookup}
use open_ddw.Base.Decimal.{to_string}
use open_ddw.Dds.{Outcome}
use open_ddw.Domain.{Answers, Site, join_domain}
use open_ddw.Manager.Addresses.{get_writer_address, get_reader_address}
use open_ddw.Monitor.{ParticipantInfo}
use open_ddw.Simple.{SimpleManager, generate_reader_name}

-- What the two functions that are given to the participant monitor tell the message handler.
abbrev about : ParticipantInfo → Text
about info =
    text ".  IP Address:"
    ++ (info.location
        ++ (text " guid:"
            ++ (info.guid ++ (text " at time:" ++ (info.discovered_timestamp ++ text ".")))))

unfoldable pub join_domain_fn : ℕ → ParticipantInfo → Text
unfolding to_string
join_domain_fn domain info =
    text "New participant joined domain " ++ (to_string domain ++ about info)

unfoldable pub leave_domain_fn : ℕ → ParticipantInfo → Text
unfolding to_string
leave_domain_fn domain info = text "Participant left domain " ++ (to_string domain ++ about info)

-- With the two functions, so that there is a monitor.
unfoldable pub simple_join_domain : Answers → ℕ → Text → Site → Outcome (Bool × Site)
unfolding join_domain
simple_join_domain a domain_id config site = join_domain a domain_id config true site

module _ {Transport Locator : Type 0} (locators : Transport → List Locator)
    (address : Locator → Option Text) (connection : ℕ → Option (List Transport)) where
  unfoldable pub get_subscriber_address : Text → SimpleManager → Text
  unfolding lookup get_writer_address
  get_subscriber_address index s = elim (lookup index s.pub_map) [
    | none ↦ text "Invalid Publisher for " ++ index
    | some topic ↦ get_writer_address locators address connection topic s.manager
  ]

  unfoldable pub get_publisher_address : Text → Text → SimpleManager → Text
  unfolding lookup get_reader_address
  get_publisher_address index reader_name s = elim (lookup index s.sub_map) [
    | none ↦ text "Invalid Subscriber for " ++ index
    | some topic ↦
        get_reader_address locators address connection topic
          (generate_reader_name topic reader_name) s.manager
  ]
