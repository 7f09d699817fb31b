-- ===== src/Simple/Messages.antt =====
-- What `DDSSimpleManager` (src/dds_simple.h) tells the message handler, in order.
use open_ddw.Base.{
  ℕ, ◌+◌, ◌≡◌, Bool, true, false, Option, none, some, List, [], ◌∷◌, ◌++◌, arith, leb, ltb,
  if◌then◌else◌, length, Option-cases, inl, inr, ap, ◌∙◌,
}
use open_ddw.Base.Int.{ℤ, pos, negsuc}
use open_ddw.Base.Text.{Text, text}
use open_ddw.Base.Dict.{lookup}
use open_ddw.Base.Decimal.{to_string}
use open_ddw.Logging.{LogMessageType, dds_error, dds_info}
use open_ddw.Manager.{get_reader, get_writer}
use open_ddw.Simple.{SimpleManager, generate_reader_name, topic_for}
use open_ddw.Simple.Waiting.{
  Look, number_of_matches, wait_for_subscriber, get_number_of_subscribers-mapped,
}

abbrev pub Messages : Type 0
Messages = List (LogMessageType × Text)

-- `Write` and `Dispose`, which say `act` of what they were asked to do.
unfoldable pub unmapped_messages : Text → Text → Text → SimpleManager → Messages
unfolding lookup
unmapped_messages act index topic_name s = elim (topic_for index topic_name s) [
  | none ↦
      (
        dds_error,
        text "Trying to "
            ++ (act ++ (text " a DDS type that has no topic mapped:" ++ (index ++ text "."))),
      )
      ∷ []
  | some topic ↦ []
]

-- `Callback`, by what `createSubscriber` and `addCallback` return.
unfoldable pub callback_messages : Text → Bool → Bool → Messages
callback_messages topic_name false ret_val =
    (dds_error, text "Failed to create subscriber for topic: " ++ (topic_name ++ text ".")) ∷ []
callback_messages topic_name true false =
    (dds_error, text "Failed to add callback for topic:" ++ (topic_name ++ text ".")) ∷ []
callback_messages topic_name true true = []

abbrev pub integer_text : ℤ → Text
unfolding to_string
integer_text (pos n) = to_string n
integer_text (negsuc n) = b'-' ∷ to_string (n + 1)

-- The destructor.
unfoldable pub destructor_message : ℤ → SimpleManager → LogMessageType × Text
destructor_message domain s = (
  dds_info,
  text "DDSSimpleManager destructor domain:"
      ++ (integer_text domain ++ (text " event:" ++ (integer_text s.event_id ++ text "."))),
)

-- The waits: `peers` is what they count, `missing` what they call an object that is not there. The
-- stream is not emptied, so a later message begins with the first.
abbrev pub waiting_text : ℕ → ℕ → Text → Text → Text
unfolding to_string
waiting_text min_count max_wait peers index =
    text "Waiting a max of "
    ++ (to_string max_wait
        ++ (text " ms for "
            ++ (to_string min_count ++ (peers ++ (text " of topic: " ++ (index ++ text "."))))))

abbrev pub failed_text : ℕ → Text → Text → ℕ → Text
unfolding to_string
failed_text min_count address counted found =
    text "Failed to find "
    ++ (to_string min_count ++ (text " on " ++ (address ++ (counted ++ to_string found))))

abbrev pub no_text : Text → Text → Text
no_text object index = text "No " ++ (object ++ (text " found for: " ++ (index ++ text ".")))

-- The looks and the address are what the writer or the reader shows.
module _ (min_count max_wait : ℕ) (index address : Text) (s : SimpleManager) (current_count : ℕ)
    (looks : List Look) where
  unfoldable pub wait_messages : Text → Text → Text → Option ℕ → Messages
  unfolding number_of_matches
  wait_messages peers counted object found =
      let waiting = waiting_text min_count max_wait peers index in
      let failure : Messages = elim found [
        | none ↦ (dds_error, waiting ++ no_text object index) ∷ []
        | some x ↦ elim (number_of_matches min_count max_wait current_count looks) [
          | none ↦ []
          | some c ↦
              if leb min_count c
              then []
              else (dds_info, waiting ++ failed_text min_count address counted c) ∷ []
        ]
      ] in
      (dds_info, waiting) ∷ failure

  unfoldable pub subscribers_messages : Messages
  unfolding lookup wait_messages
  subscribers_messages = elim (lookup index s.pub_map) [
    | none ↦ (dds_error, no_text (text "Publisher") index) ∷ []
    | some topic ↦
        wait_messages (text " Subscriber(s)") (text ".  Subscribers(s)... Only found ")
          (text "writer") (get_writer s.manager topic)
  ]

  unfoldable pub publishers_messages : Text → Messages
  unfolding lookup wait_messages
  publishers_messages reader_name = elim (lookup index s.sub_map) [
    | none ↦ (dds_error, no_text (text "subscriber") index) ∷ []
    | some topic ↦
        wait_messages (text " Publisher(s)") (text ".  Publisher(s)... Only found ") (text "reader")
          (get_reader s.manager topic (generate_reader_name topic reader_name))
  ]

wait_messages-length :
    (max_wait : ℕ) (index address peers counted object : Text) (s : SimpleManager) (c w n : ℕ)
    (looks : List Look)
    → number_of_matches 1 max_wait c looks ≡ some n
    → length (wait_messages 1 max_wait index address s c looks peers counted object (some w))
      ≡ (if ltb 0 n then 1 else 2)
unfolding wait_messages
wait_messages-length max_wait index address peers counted object s c w n looks e =
    rw (e, wait_messages) (ground arith)

-- Where the type is published under a topic with a writer, a wait for a subscriber that finds one
-- tells the handler once, and a wait that does not twice.
subscribers_messages-wait :
    (max_wait : ℕ) (index address topic : Text) (s : SimpleManager) (c w : ℕ) (looks : List Look)
    (b : Bool)
    → lookup index s.pub_map ≡ some topic
    → get_writer s.manager topic ≡ some w
    → wait_for_subscriber max_wait index s c looks ≡ some b
    → length (subscribers_messages 1 max_wait index address s c looks) ≡ (if b then 1 else 2)
unfolding subscribers_messages wait_for_subscriber
subscribers_messages-wait max_wait index address topic s c w looks b mapped there e =
    let told =
      rw
        (
          wait_for_subscriber,
          get_number_of_subscribers-mapped 1 max_wait index topic s w c looks mapped there,
        )
        at e in
    elim (Option-cases (number_of_matches 1 max_wait c looks)) [
      | inl waits ↦ absurd (ground (arith, waits))
      | inr (n, found) ↦
          let eq : ltb 0 n ≡ b = ground (arith, found) in
          rw (mapped, subscribers_messages, there)
            (wait_messages-length max_wait index address (text " Subscriber(s)")
                (text ".  Subscribers(s)... Only found ") (text "writer") s c w n looks found
              ∙ ap (λ (x : Bool). if x then 1 else 2) eq)
    ]
