-- ===== src/Manager/Footprint/Calls.antt =====
-- Callbacks, listeners, filter parameters and data rates keep to the topic.
use open_ddw.Base.{
  ℕ, zero, suc, ◌≡◌, Bool, true, false, Option, none, some, List, [], ◌∷◌, inl, inr, Option-cases,
}
use open_ddw.Base.Int.{ℤ, pos, negsuc}
use open_ddw.Base.Text.{Text}
use open_ddw.Base.Dict.{lookup}
use open_ddw.Dds.{Dds, Outcome, done, null_dereference, throws, terminates, ◌>>=◌, run_emitter}
use open_ddw.Emitter
use open_ddw.Emitter.{Setup}
use open_ddw.Group.{TopicGroup}
use open_ddw.Manager.{
  Manager, found, slot, put_group, call, get_reader, get_subscriber, get_reader_qos,
}
use open_ddw.Manager.Settings.{group_at}
use open_ddw.Manager.Callbacks.{emitter_for, add_callback_to, add_callback, add_data_listener}
use open_ddw.Manager.Filter.{
  filter_key, set_params, replace_filter_params, limit_rate, set_max_data_rate,
}
use open_ddw.Manager.Footprint.{
  Footprint, Footprint-refl, Post, call-Post, put_group-Footprint, call-Footprint, found-Fits,
  Slot-cases,
}
use open_ddw.Manager.Footprint.Settings.{second}

-- An answer that is asked for and changes nothing.
pub asking-Post {ℓ} :
    {A : Type ℓ} (name : Text) (m : Manager) (r : Outcome A) (f : A → Outcome (Bool × Manager))
    → ((a : A) → Post second name m (f a))
    → Post second name m (r >>= f)
asking-Post name m (done a) f k = k a
asking-Post name m null_dereference f k = tt
asking-Post name m (throws message) f k = tt
asking-Post name m terminates f k = tt

add_callback_to-Post :
    (setup : Setup) (index name reader : Text) (func : ℕ) (queue async : Bool) (r : ℕ)
    (g : TopicGroup) (m : Manager)
    → slot m name ≡ found g
    → Post second name m (add_callback_to setup index name reader func queue async r g m)
unfolding add_callback_to slot
add_callback_to-Post setup index name reader func true async r g m e =
    put_group-Footprint name _ m (found-Fits name g m e)
add_callback_to-Post setup index name reader func false async r g m e =
    let e₁ =
      Emitter.set_async async
        (Emitter.add_callback index func (emitter_for r (lookup reader g.emitters))) in
    let m₁ = call (run_emitter reader) m in
    elim (Option-cases (Emitter.run setup e₁)) [
      | inl stuck ↦ rw stuck tt
      | inr (x, ran) ↦ rw ran (
          call-Post second name (run_emitter reader) m (done (true, put_group name _ m₁))
            (put_group-Footprint name _ m₁ (found-Fits name g m e)))
    ]

pub add_callback-Post :
    (setup : Setup) (index name reader : Text) (func : ℕ) (queue async : Bool) (m : Manager)
    → Post second name m (add_callback setup index name reader func queue async m)
unfolding add_callback
add_callback-Post setup index name reader func queue async m = elim (Slot-cases (slot m name)) [
  | inl e ↦ rw (e, add_callback) (Footprint-refl name m)
  | inr (inl e) ↦ rw (e, add_callback) (Footprint-refl name m)
  | inr (inr (g, e)) ↦ elim (Option-cases (get_reader m name reader)) [
    | inl absent ↦ rw (e, add_callback, absent) (Footprint-refl name m)
    | inr (r, there) ↦
        rw (e, add_callback, there)
          (add_callback_to-Post setup index name reader func queue async r g m e)
  ]
]

pub add_data_listener-Footprint :
    (name reader : Text) (listener : Option ℕ) (mask : ℕ) (m : Manager)
    → Footprint name m (add_data_listener name reader listener mask m)
unfolding add_data_listener
add_data_listener-Footprint name [] listener mask m = Footprint-refl name m
add_data_listener-Footprint name (c ∷ cs) listener mask m =
    elim (Option-cases (get_reader m name (c ∷ cs))) [
      | inl absent ↦ rw absent (Footprint-refl name m)
      | inr (r, there) ↦ rw there (call-Footprint name _ m)
    ]

set_params-Post :
    (d : Dds) (name : Text) (params : List Text) (m : Manager) (g : TopicGroup) (o : Option ℕ)
    → Post second name m (set_params d params m g o)
unfolding set_params
set_params-Post d name params m g none = Footprint-refl name m
set_params-Post d name params m g (some topic) =
    elim (Option-cases (filter_key topic g.filtered_topics)) [
      | inl absent ↦ rw (set_params, absent) (Footprint-refl name m)
      | inr (key, there) ↦ rw (set_params, there) (call-Footprint name _ m)
    ]

pub replace_filter_params-Post :
    (d : Dds) (name reader : Text) (params : List Text) (m : Manager)
    → Post second name m (replace_filter_params d name reader params m)
unfolding replace_filter_params
replace_filter_params-Post d name [] params m = Footprint-refl name m
replace_filter_params-Post d name (c ∷ cs) params m =
    asking-Post name m (get_subscriber m name) _ λ subscriber. elim (Option-cases subscriber) [
      | inl e ↦ rw e (Footprint-refl name m)
      | inr (s, e) ↦ elim (Option-cases (get_reader m name (c ∷ cs))) [
        | inl absent ↦ rw (e, absent) (Footprint-refl name m)
        | inr (r, there) ↦
            rw (e, there)
              (asking-Post name m (group_at m name) _ λ g. set_params-Post d name params m g _)
      ]
    ]

pub set_max_data_rate-Post :
    (name reader : Text) (rate : ℤ) (m : Manager)
    → Post second name m (set_max_data_rate name reader rate m)
unfolding set_max_data_rate limit_rate
set_max_data_rate-Post name reader (negsuc n) m = Footprint-refl name m
set_max_data_rate-Post name reader (pos zero) m = Footprint-refl name m
set_max_data_rate-Post name reader (pos (suc k)) m =
    elim (Option-cases (get_reader m name reader)) [
      | inl absent ↦ rw (limit_rate, absent) (Footprint-refl name m)
      | inr (r, there) ↦
          rw (limit_rate, there)
            (asking-Post name m (get_reader_qos m name) _ λ qos. call-Footprint name _ m)
    ]
