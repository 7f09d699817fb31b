-- ===== src/Manager/Stages/Calls.antt =====
-- What callbacks, listeners, filters and handlers do to the stage of a topic: nothing.
use open_ddw.Base.{
  ℕ, zero, suc, ◌≡◌, refl, ◌∙◌, inl, inr, ap, subst, sym, Bool, true, false, Option, none, some,
  List, [], ◌∷◌, Bool-cases, Option-cases,
}
use open_ddw.Base.Int.{ℤ, pos, negsuc}
use open_ddw.Base.Text.{Text, same}
use open_ddw.Base.Dict.{Dict, lookup}
use open_ddw.Dds.{
  Dds, Outcome, done, null_dereference, throws, terminates, ◌>>=◌, >>=-eq-done, run_emitter,
}
use open_ddw.Emitter
use open_ddw.Emitter.{Setup}
use open_ddw.Group.{TopicGroup}
use open_ddw.Manager.{
  Manager, slot, slot_of, call, found, get_reader, get_subscriber, get_reader_qos,
}
use open_ddw.Manager.Settings.{group_at, handle_readers, handle_topic_readers}
use open_ddw.Manager.Settings
use open_ddw.Manager.Callbacks.{add_callback, add_callback_to, add_data_listener, emitter_for}
use open_ddw.Manager.Filter.{
  set_params, replace_filter_params, limit_rate, set_max_data_rate, filter_key,
}
use open_ddw.Manager.Footprint.{Slot-cases}
use open_ddw.Manager.Stages.{absent, stage, stage_of, Gives, GivesState, stage-put_group}

asking-Gives {ℓ} :
    {A : Type ℓ} (P : Bool → Manager → Type 0) (r : Outcome A) (f : A → Outcome (Bool × Manager))
    → ((a : A) → Gives P (f a))
    → Gives P (r >>= f)
asking-Gives P (done a) f k = k a
asking-Gives P null_dereference f k = tt
asking-Gives P (throws message) f k = tt
asking-Gives P terminates f k = tt

module _ (k name : Text) where
  abbrev Keeps : Manager → Bool → Manager → Type 0
  Keeps m b m' = stage k name m' ≡ stage k name m

  add_callback_to-Gives :
      (setup : Setup) (index reader : Text) (func : ℕ) (queue async : Bool) (r : ℕ) (g : TopicGroup)
      (m : Manager)
      → slot m name ≡ found g
      → Gives (Keeps m) (add_callback_to setup index name reader func queue async r g m)
  unfolding add_callback_to
  add_callback_to-Gives setup index reader func true async r g m e =
      stage-put_group k name _ m ∙ sym (ap (stage_of k) e)
  add_callback_to-Gives setup index reader func false async r g m e =
      let e₁ =
        Emitter.set_async async
          (Emitter.add_callback index func (emitter_for r (lookup reader g.emitters))) in
      elim (Option-cases (Emitter.run setup e₁)) [
        | inl stuck ↦ rw stuck tt
        | inr (x, ran) ↦
            rw ran
              (stage-put_group k name _ (call (run_emitter reader) m) ∙ sym (ap (stage_of k) e))
      ]

  pub add_callback-Gives :
      (setup : Setup) (index reader : Text) (func : ℕ) (queue async : Bool) (m : Manager)
      → Gives (Keeps m) (add_callback setup index name reader func queue async m)
  unfolding add_callback
  add_callback-Gives setup index reader func queue async m = elim (Slot-cases (slot m name)) [
    | inl e ↦ rw (e, add_callback) refl
    | inr (inl e) ↦ rw (e, add_callback) refl
    | inr (inr (g, e)) ↦ elim (Option-cases (get_reader m name reader)) [
      | inl nowhere ↦ rw (e, add_callback, nowhere) refl
      | inr (r, there) ↦
          rw (e, add_callback, there)
            (add_callback_to-Gives setup index reader func queue async r g m e)
    ]
  ]

  pub add_data_listener-stage :
      (reader : Text) (listener : Option ℕ) (mask : ℕ) (m : Manager)
      → stage k name (add_data_listener name reader listener mask m) ≡ stage k name m
  unfolding add_data_listener slot
  add_data_listener-stage [] listener mask m = refl
  add_data_listener-stage (c ∷ cs) listener mask m =
      elim (Option-cases (get_reader m name (c ∷ cs))) [
        | inl nowhere ↦ rw nowhere refl
        | inr (r, there) ↦ rw there refl
      ]

  set_params-Gives :
      (d : Dds) (params : List Text) (m : Manager) (g : TopicGroup) (o : Option ℕ)
      → Gives (Keeps m) (set_params d params m g o)
  unfolding set_params slot
  set_params-Gives d params m g none = refl
  set_params-Gives d params m g (some topic) =
      elim (Option-cases (filter_key topic g.filtered_topics)) [
        | inl nowhere ↦ rw (set_params, nowhere) refl
        | inr (key, there) ↦ rw (set_params, there) refl
      ]

  pub replace_filter_params-Gives :
      (d : Dds) (reader : Text) (params : List Text) (m : Manager)
      → Gives (Keeps m) (replace_filter_params d name reader params m)
  unfolding replace_filter_params
  replace_filter_params-Gives d [] params m = refl
  replace_filter_params-Gives d (c ∷ cs) params m =
      asking-Gives (Keeps m) (get_subscriber m name) _ λ subscriber.
        elim (Option-cases subscriber) [
          | inl e ↦ rw e refl
          | inr (s, e) ↦ elim (Option-cases (get_reader m name (c ∷ cs))) [
            | inl nowhere ↦ rw (e, nowhere) refl
            | inr (r, there) ↦
                rw (e, there)
                  (asking-Gives (Keeps m) (group_at m name) _ λ g. set_params-Gives d params m g _)
          ]
        ]

  pub set_max_data_rate-Gives :
      (reader : Text) (rate : ℤ) (m : Manager)
      → Gives (Keeps m) (set_max_data_rate name reader rate m)
  unfolding set_max_data_rate limit_rate slot
  set_max_data_rate-Gives reader (negsuc n) m = refl
  set_max_data_rate-Gives reader (pos zero) m = refl
  set_max_data_rate-Gives reader (pos (suc n)) m = elim (Option-cases (get_reader m name reader)) [
    | inl nowhere ↦ rw (limit_rate, nowhere) refl
    | inr (r, there) ↦
        rw (limit_rate, there) (asking-Gives (Keeps m) (get_reader_qos m name) _ λ qos. refl)
  ]

  handle_topic_readers-stage :
      (h : Option ℕ) (ts ts' : Dict (Option TopicGroup))
      → handle_topic_readers h ts ≡ done ts'
      → stage_of k (slot_of (lookup name ts')) ≡ stage_of k (slot_of (lookup name ts))
  unfolding handle_topic_readers lookup
  handle_topic_readers-stage h [] ts' e =
      let eq : [] ≡ ts' = cc in subst (λ x. stage_of k (slot_of (lookup name x)) ≡ absent) eq refl
  handle_topic_readers-stage h ((j, none) ∷ ts) ts' e = absurd (cc)
  handle_topic_readers-stage h ((j, some g) ∷ ts) ts' e =
      let (us, e₁, e₂) = >>=-eq-done (handle_topic_readers h ts) _ e in
      let eq : (j, some (record g { reader_listeners = handle_readers h g.reader_listeners })) ∷ us
          ≡ ts' =
        cc in
      subst
        (λ x.
          stage_of k (slot_of (lookup name x))
          ≡ stage_of k (slot_of (lookup name ((j, some g) ∷ ts))))
        eq
        (elim (Bool-cases (same name j)) [
          | inl here ↦ rw here refl
          | inr on ↦ rw on (handle_topic_readers-stage h ts us e₁)
        ])

  handled-stage :
      (h : Option ℕ) (m : Manager) (r : Outcome (Dict (Option TopicGroup)))
      → handle_topic_readers h m.topics ≡ r
      → GivesState
          (λ m'. stage k name m' ≡ stage k name m)
          (r >>= λ ts. done (record m { rl_handler = h; topics = ts }))
  unfolding slot
  handled-stage h m (done ts) e = handle_topic_readers-stage h m.topics ts e
  handled-stage h m null_dereference e = tt
  handled-stage h m (throws message) e = tt
  handled-stage h m terminates e = tt

  pub set_reader_listener_handler-stage :
      (h : Option ℕ) (m : Manager)
      → GivesState
          (λ m'. stage k name m' ≡ stage k name m)
          (Settings.set_reader_listener_handler h m)
  unfolding Settings.set_reader_listener_handler
  set_reader_listener_handler-stage h m = handled-stage h m (handle_topic_readers h m.topics) refl
