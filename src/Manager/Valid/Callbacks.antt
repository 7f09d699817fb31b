-- ===== src/Manager/Valid/Callbacks.antt =====
-- Callbacks, listeners, filter parameters and data rates keep the manager valid, and go through no
-- null pointer.
use open_ddw.Base.{
  ℕ, zero, suc, ◌≡◌, refl, inl, inr, Bool, true, false, Option, none, some, List, [], ◌∷◌,
  Option-cases,
}
use open_ddw.Base.Int.{ℤ, pos, negsuc}
use open_ddw.Base.Text.{Text}
use open_ddw.Base.Dict.{All, lookup, insert, insert-All, lookup-All}
use open_ddw.Dds.{Dds, run_emitter}
use open_ddw.Emitter
use open_ddw.Emitter.{Emitter, Setup}
use open_ddw.Emitter.Listen.{IsConsistent, run-IsConsistent}
use open_ddw.Group.{TopicGroup, IsValid}
use open_ddw.Manager.{Manager, call, get_reader, get_subscriber, get_reader_qos}
use open_ddw.Manager.Settings.{group_at-found}
use open_ddw.Manager.Filter.{
  filter_key, set_params, replace_filter_params, limit_rate, set_max_data_rate,
}
use open_ddw.Manager.Callbacks.{emitter_for, add_callback_to, add_callback, add_data_listener}
use open_ddw.Manager.Valid.{IsWell, IsSafe, slot-cases, put_group-IsWell}

emitter_for-IsConsistent :
    (r : ℕ) (k : Text) (g : TopicGroup)
    → All IsConsistent g.emitters
    → IsConsistent (emitter_for r (lookup k g.emitters))
unfolding Emitter.new_emitter
emitter_for-IsConsistent r k g a = go (lookup k g.emitters) refl
  where
    go : (o : Option Emitter) → lookup k g.emitters ≡ o → IsConsistent (emitter_for r o)
    go none e = refl
    go (some x) e = lookup-All IsConsistent k g.emitters x a e

emitter-IsValid :
    (p : Option ℕ) (g : TopicGroup) (k : Text) (x : Emitter)
    → IsConsistent x
    → IsValid p g
    → IsValid p (record g { emitters = insert k x g.emitters })
emitter-IsValid p g k x c v =
    let a : All IsConsistent (insert k x g.emitters) =
      insert-All IsConsistent k x g.emitters c v.emitters_consistent in
    (assumption)

add_callback_to-IsSafe :
    (setup : Setup) (index name reader : Text) (func : ℕ) (queue async : Bool) (r : ℕ)
    (g : TopicGroup) (m : Manager)
    → IsValid m.participant g
    → IsWell m
    → IsSafe (add_callback_to setup index name reader func queue async r g m)
unfolding add_callback_to
add_callback_to-IsSafe setup index name reader func queue async r g m v w =
    go queue (Emitter.run setup e₁) refl
  where
    e₁ : Emitter
    e₁ =
        Emitter.set_async async
          (Emitter.add_callback index func (emitter_for r (lookup reader g.emitters)))

    consistent : IsConsistent e₁
    consistent = emitter_for-IsConsistent r reader g v.emitters_consistent

    go :
        (b : Bool) (o : Option Emitter)
        → Emitter.run setup e₁ ≡ o
        → IsSafe (add_callback_to setup index name reader func b async r g m)
    go true o e = put_group-IsWell name _ m (emitter-IsValid _ g reader e₁ consistent v) w
    go false o e =
        let (e₂, ran, c) = run-IsConsistent setup e₁ consistent in
        rw (add_callback_to, ran)
          (put_group-IsWell name _ (call (run_emitter reader) m) (emitter-IsValid _ g reader e₂ c v)
            w)

pub add_callback-IsSafe :
    (setup : Setup) (index name reader : Text) (func : ℕ) (queue async : Bool) (m : Manager)
    → IsWell m
    → IsSafe (add_callback setup index name reader func queue async m)
unfolding add_callback
add_callback-IsSafe setup index name reader func queue async m w = elim (slot-cases m name w) [
  | inl e ↦ rw (e, add_callback) w
  | inr (g, e, v) ↦ elim (Option-cases (get_reader m name reader)) [
    | inl absent ↦ rw (e, add_callback, absent) w
    | inr (r, there) ↦
        rw (e, add_callback, there)
          (add_callback_to-IsSafe setup index name reader func queue async r g m v w)
  ]
]

pub add_data_listener-IsWell :
    (name reader : Text) (listener : Option ℕ) (mask : ℕ) (m : Manager)
    → IsWell m
    → IsWell (add_data_listener name reader listener mask m)
unfolding add_data_listener
add_data_listener-IsWell name [] listener mask m w = w
add_data_listener-IsWell name (c ∷ cs) listener mask m w =
    elim (Option-cases (get_reader m name (c ∷ cs))) [
      | inl absent ↦ rw (absent, add_data_listener) w
      | inr (r, there) ↦ rw (there, add_data_listener) w
    ]

pub replace_filter_params-IsSafe :
    (d : Dds) (name reader : Text) (params : List Text) (m : Manager)
    → IsWell m
    → IsSafe (replace_filter_params d name reader params m)
unfolding replace_filter_params get_subscriber
replace_filter_params-IsSafe d name [] params m w = w
replace_filter_params-IsSafe d name (c ∷ cs) params m w = elim (slot-cases m name w) [
  | inl e ↦ rw (e, replace_filter_params, get_subscriber) w
  | inr (g, e, v) ↦ elim (Option-cases g.subscriber) [
    | inl bare ↦ rw (e, replace_filter_params, get_subscriber, bare) w
    | inr (s, subscribed) ↦ elim (Option-cases (get_reader m name (c ∷ cs))) [
      | inl absent ↦ rw (e, replace_filter_params, get_subscriber, subscribed, absent) w
      | inr (r, there) ↦
          rw
            (e, replace_filter_params, get_subscriber, subscribed, there, group_at-found m name g e)
            (go g (d.narrow_to_filtered m.calls (d.topicdescription m.calls r)))
    ]
  ]
]
  where
    go : (g : TopicGroup) (o : Option ℕ) → IsSafe (set_params d params m g o)
    go g none = w
    go g (some topic) = elim (Option-cases (filter_key topic g.filtered_topics)) [
      | inl absent ↦ rw (absent, set_params) w
      | inr (key, there) ↦ rw (there, set_params) w
    ]

pub set_max_data_rate-IsSafe :
    (name reader : Text) (rate : ℤ) (m : Manager)
    → IsWell m
    → IsSafe (set_max_data_rate name reader rate m)
unfolding set_max_data_rate limit_rate get_reader_qos
set_max_data_rate-IsSafe name reader (negsuc n) m w = w
set_max_data_rate-IsSafe name reader (pos zero) m w = w
set_max_data_rate-IsSafe name reader (pos (suc k)) m w =
    elim (Option-cases (get_reader m name reader)) [
      | inl absent ↦ rw (limit_rate, absent) w
      | inr (r, there) ↦ elim (slot-cases m name w) [
        | inl e ↦ rw (limit_rate, there, get_reader_qos, e) w
        | inr (g, e, v) ↦ rw (limit_rate, there, get_reader_qos, e) w
      ]
    ]
