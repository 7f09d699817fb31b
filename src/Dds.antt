-- ===== src/Dds.antt =====
-- OpenDDS as the program sees it: return codes, the calls that it makes, and what answers them.
-- An entity (`DDS::Topic_var` and the like) is the number of the object behind the pointer, a nil
-- pointer is `none`. `Dds` is a parameter of the whole model: what a call returns may depend on all
-- the calls made so far, the latest first, so nothing is assumed of OpenDDS.
pub mod Status
use open_ddw.Base.{ℕ, ◌≡◌, refl, Option, List, ◌∷◌}
use open_ddw.Base.Text.{Text}
use open_ddw.Qos.{TopicQos, DataReaderQos, DataWriterQos, GroupQos}

-- `DDS::ReturnCode_t`; `other` is a value without a name.
pub data ReturnCode : Type 0 where
  retcode_ok retcode_error retcode_unsupported retcode_bad_parameter : ReturnCode
  retcode_precondition_not_met retcode_out_of_resources retcode_not_enabled : ReturnCode
  retcode_immutable_policy retcode_inconsistent_policy retcode_already_deleted : ReturnCode
  retcode_timeout retcode_no_data retcode_illegal_operation : ReturnCode
  other : ℕ → ReturnCode

-- What the manager does to the outside: calls of OpenDDS with their arguments, and the stopping and
-- starting of the reading threads.
pub data Event : Type 0 where
  enable : ℕ → Event
  register_type : Text → Event
  create_topic : Text → Text → TopicQos → Event
  domain_create_publisher domain_create_subscriber : GroupQos → Event
  create_contentfilteredtopic : Text → Option ℕ → Text → List Text → Event
  create_datareader : ℕ → Option ℕ → DataReaderQos → Event
  create_datawriter : ℕ → ℕ → DataWriterQos → Event
  delete_datareader delete_datawriter delete_publisher delete_subscriber : ℕ → ℕ → Event
  delete_contentfilteredtopic delete_topic : ℕ → ℕ → Event
  delete_contained_entities : ℕ → Event
  publisher_set_qos subscriber_set_qos : ℕ → GroupQos → Event
  writer_set_qos : ℕ → DataWriterQos → Event
  reader_set_qos : ℕ → DataReaderQos → Event
  set_listener : ℕ → Option ℕ → ℕ → Event
  set_expression_parameters : ℕ → List Text → Event
  run_emitter stop_emitter : Text → Event
  delete_participant : Option ℕ → Event
  shutdown_dispatcher : Event

-- The calls made so far, the latest first.
abbrev pub Trace : Type 0
Trace = List Event

-- `object` and `code` are what the latest call of a trace returned. The other fields answer calls
-- that only look: they may depend on the trace, and are not part of it.
pub record Dds : Type 0 where
  pub object : Trace → Option ℕ
  pub code : Trace → ReturnCode
  pub topic_name : Trace → ℕ → Text
  pub topicdescription : Trace → ℕ → Option ℕ
  pub narrow_to_filtered : Trace → Option ℕ → Option ℕ

-- What a function of the program comes to: a value, a call through a null pointer, an exception, or
-- `std::terminate`.
pub data Outcome {ℓ} (A : Type ℓ) : Type ℓ where
  done : A → Outcome A
  null_dereference : Outcome A
  throws : Text → Outcome A
  terminates : Outcome A

infixl 5 ◌>>=◌
abbrev pub ◌>>=◌ {ℓ κ} : {A : Type ℓ} {B : Type κ} → Outcome A → (A → Outcome B) → Outcome B
done a >>= f = f a
null_dereference >>= f = null_dereference
throws message >>= f = throws message
terminates >>= f = terminates

-- `p->`, on a pointer that may be null.
abbrev pub deref {ℓ} : {A : Type ℓ} → Option A → Outcome A
deref Option.none = null_dereference
deref (Option.some a) = done a

-- A chain that comes to a value had one in its first part.
pub >>=-eq-done {ℓ κ} :
    {A : Type ℓ} {B : Type κ} (r : Outcome A) (f : A → Outcome B) {b : B}
    → (r >>= f) ≡ done b
    → (a : A) × (r ≡ done a) × (f a ≡ done b)
>>=-eq-done (done a) f h = (a, refl, h)
>>=-eq-done null_dereference f h = absurd (cc)
>>=-eq-done (throws message) f h = absurd (cc)
>>=-eq-done terminates f h = absurd (cc)
