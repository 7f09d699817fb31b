-- ===== src/Manager/Precpp11.antt =====
-- `registerTopic` as it is built with OPENDDW_PRECPP11 (src/dds_manager.hpp): the topic data holds
-- the type. How the type code is marshalled is of TAO, and an argument.
use open_ddw.Base.{
  ℕ, ◌≡◌, refl, Bool, true, false, Option, none, some, List, [], ◌∷◌, arith, is_some, if◌then◌else◌,
  inl, inr, ◌∙◌,
}
use open_ddw.Base.Text.{Text}
use open_ddw.Qos.{QosType}
use open_ddw.Dds.{Dds, Outcome, done, throws, register_type, create_topic}
use open_ddw.Group.{TopicGroup, new_group}
use open_ddw.Types.{Extensibility, usr_topic_data}
use open_ddw.Manager.{Manager, missing, null, found, slot, call}
use open_ddw.Manager.Register.{create_topic_for, failed_participant}
use open_ddw.Manager.Presets.{StartsFrom, with_topic, create_topic_for-made}
use open_ddw.Qos.Presets.{topic_preset}

-- What is known of the type: `marshalled` is `none` where its code could not be marshalled.
pub record TypeInfo : Type 0 where
  pub has_dcps_key : Bool
  pub extensibility : Extensibility
  pub marshalled : Option (List ℕ)

unfoldable pub stuff_topic_data : TypeInfo → TopicGroup → TopicGroup
unfolding usr_topic_data
stuff_topic_data info g = elim info.marshalled [
  | none ↦ g
  | some type_code ↦ record g {
    topic_qos = record (g.topic_qos) {
      topic_data = usr_topic_data info.has_dcps_key info.extensibility type_code;
    };
  }
]

module _ (d : Dds) (info : TypeInfo) where
  unfoldable pub stuff_and_register :
      Text → Text → QosType → Bool → TopicGroup → Manager → Outcome (Bool × Manager)
  unfolding create_topic_for stuff_topic_data
  stuff_and_register type_name name qos_type stored g m =
      create_topic_for d name qos_type stored
        (stuff_topic_data info (record g { type_name = type_name }))
        (call (register_type type_name) m)

  unfoldable pub register_topic_precpp11 :
      Text → Text → QosType → Manager → Outcome (Bool × Manager)
  unfolding slot stuff_and_register
  register_topic_precpp11 type_name name qos_type m =
      if is_some m.participant
      then (elim (slot m name) [
        | missing ↦ stuff_and_register type_name name qos_type false (new_group m.order) m
        | null ↦ done (true, m)
        | found g ↦
            if is_some g.topic
            then done (true, m)
            else stuff_and_register type_name name qos_type true g m
      ])
      else throws failed_participant

register_topic_precpp11-starts :
    (d : Dds) (info : TypeInfo) (type_name name : Text) (qos : QosType) (m : Manager)
    (g : TopicGroup) (p : ℕ)
    → m.participant ≡ some p
    → StartsFrom m name g
    → g.topic ≡ none
    → (stored : Bool) × (register_topic_precpp11 d info type_name name qos m
        ≡ stuff_and_register d info type_name name qos stored g m)
unfolding register_topic_precpp11
register_topic_precpp11-starts d info type_name name qos m g p joined starts bare = elim starts [
  | inl e ↦ (true, ground arith)
  | inr (e, new) ↦ (false, ground arith)
]

-- The group with the topic data that the type gives.
abbrev stuffed : TypeInfo → List ℕ → TopicGroup → TopicGroup
stuffed info type_code g = record g {
  topic_qos = record (g.topic_qos) {
    topic_data = usr_topic_data info.has_dcps_key info.extensibility type_code;
  };
}

stuff_and_register-marshalled :
    (d : Dds) (info : TypeInfo) (type_name name : Text) (qos : QosType) (stored : Bool)
    (g : TopicGroup) (m : Manager) (type_code : List ℕ)
    → info.marshalled ≡ some type_code
    → stuff_and_register d info type_name name qos stored g m
      ≡ create_topic_for d name qos stored
          (record (stuffed info type_code g) { type_name = type_name })
          (call (register_type type_name) m)
unfolding stuff_and_register stuff_topic_data
stuff_and_register-marshalled d info type_name name qos stored g m code e =
    rw (stuff_and_register, stuff_topic_data, e)

-- Of a topic that OpenDDS can make, in a group that has no topic, reader, writer or preset yet: the
-- topic is created with the type in its topic data, but the group has the QoS of the preset after,
-- without it.
register_topic_precpp11-made :
    (d : Dds) (info : TypeInfo) (type_name name : Text) (qos : QosType) (m : Manager)
    (g : TopicGroup) (p t : ℕ) (type_code : List ℕ)
    → m.participant ≡ some p
    → StartsFrom m name g
    → g.topic ≡ none
    → g.writer ≡ none
    → g.readers ≡ []
    → g.qos_preset ≡ none
    → info.marshalled ≡ some type_code
    → d.object (
        create_topic name type_name (stuffed info type_code g).topic_qos
        ∷ register_type type_name
        ∷ m.calls)
      ≡ some t
    → (m' : Manager) × (register_topic_precpp11 d info type_name name qos m ≡ done (true, m'))
      × ((g' : TopicGroup) × (slot m' name ≡ found g') × (g'.topic_qos ≡ topic_preset qos m.order))
      × (m'.calls
          ≡ create_topic name type_name (stuffed info type_code g).topic_qos
            ∷ register_type type_name
            ∷ m.calls)
unfolding with_topic
register_topic_precpp11-made d info type_name name qos m g p t code joined starts bare unwritten
      unread unset marshalled made =
    let (stored, begins) =
      register_topic_precpp11-starts d info type_name name qos m g p joined starts bare in
    let (m', made_it, h) =
      create_topic_for-made d type_name name qos m (stuffed info code g) t unwritten unread unset
        made stored in
    let marshals =
      stuff_and_register-marshalled d info type_name name qos stored g m code marshalled in
    (m', begins ∙ marshals ∙ made_it, (_, h.0, refl), h.1)
