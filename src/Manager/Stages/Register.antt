-- ===== src/Manager/Stages/Register.antt =====
-- What registering and unregistering a topic does to its stage.
use open_ddw.Base.{
  ◌≡◌, refl, ◌∙◌, inl, inr, ap, subst, sym, Bool, true, false, none, some, List, [], arith, is_some,
  Bool-cases, Option-cases,
}
use open_ddw.Base.Text.{Text, same_refl}
use open_ddw.Base.Dict.{contains, lookup, erase, lookup-erase}
use open_ddw.Qos.{QosType}
use open_ddw.Dds.{
  Dds, Trace, Outcome, done, null_dereference, throws, terminates, ◌>>=◌, create_topic,
  register_type,
}
use open_ddw.Group.{TopicGroup, new_group}
use open_ddw.Group.Teardown.{teardown}
use open_ddw.Manager.{Manager, slot, call, missing, null, found, put_group}
use open_ddw.Manager.Register.{
  register_qos, create_topic_for, register_with, register_topic, unregister_topic, clean_up_topics,
  unregister_all, clear_topics, started, in_order,
}
use open_ddw.Manager.Footprint.{Slot-cases}
use open_ddw.Manager.Stages.{
  Stage, absent, stands, stage, group_stage, stage_of, Gives, NeedsGroup, Registers, Unregisters,
  stage-put_group, Gives-eq, Gives-map,
}
use open_ddw.Manager.Stages.Presets.{register_qos-Gives}

-- What is left of the topic's creation, from the group `g` and the stage before.
abbrev Creates : Text → Text → Bool → TopicGroup → Stage → Bool → Manager → Type 0
Creates k name stored g u true m' =
    stage k name m' ≡ stands true (is_some g.publisher) (is_some g.writer) (contains k g.readers)
Creates k name true g u false m' =
    stage k name m' ≡ stands false (is_some g.publisher) (is_some g.writer) (contains k g.readers)
Creates k name false g u false m' = stage k name m' ≡ u

needs-Creates :
    (k name : Text) (stored b : Bool) (g g₁ : TopicGroup) (u : Stage) (m m' : Manager)
    → stage k name m ≡ group_stage k g₁
    → group_stage k g₁ ≡ stands true (is_some g.publisher) (is_some g.writer) (contains k g.readers)
    → NeedsGroup b (stage k name m) (stage k name m')
    → Creates k name stored g u b m'
needs-Creates k name stored b g g₁ u m m' h alike n =
    let (is_true, stays) = rw h at n in rw is_true (stays ∙ alike)

module _ (d : Dds) (k : Text) where
  create_topic_for-Gives :
      (name : Text) (qos : QosType) (stored : Bool) (g : TopicGroup) (m : Manager)
      → Gives (Creates k name stored g (stage k name m)) (create_topic_for d name qos stored g m)
  unfolding create_topic_for slot
  create_topic_for-Gives name qos stored g m =
      let m₁ = call (create_topic name g.type_name g.topic_qos) m in
      elim (Option-cases (d.object m₁.calls)) [
        | inl e ↦ elim (Bool-cases stored) [
          | inl s ↦ rw (e, create_topic_for, s) (stage-put_group k name _ m₁)
          | inr s ↦ rw (e, create_topic_for, s) refl
        ]
        | inr (t, e) ↦
            let g₁ = record g { topic = some t; domain = m.participant; listener = true } in
            let m₂ = put_group name g₁ m₁ in
            rw (e, create_topic_for)
              (Gives-map _ _ (register_qos name qos m₂)
                (λ b m'.
                  needs-Creates k name stored b g g₁ (stage k name m) m₂ m'
                    (stage-put_group k name g₁ m₁) refl)
                (register_qos-Gives k name qos m₂))
      ]

  -- A new group, and one that stands already without a topic.
  Creates-new :
      (name : Text) (b : Bool) (type_name : Text) (m m' : Manager)
      → stage k name m ≡ absent
      → Creates k name false
          (record (new_group m.order) { type_name = type_name })
          (stage k name m)
          b
          m'
      → Registers b (stage k name m) (stage k name m')
  unfolding new_group lookup
  Creates-new name true type_name m m' e c = rw e c
  Creates-new name false type_name m m' e c = rw e (c ∙ e)

  Creates-again :
      (name : Text) (b : Bool) (g : TopicGroup) (u : Stage) (m m' : Manager)
      → g.topic ≡ none
      → Creates k name true g u b m'
      → Registers b (group_stage k g) (stage k name m')
  Creates-again name true g u m m' bare c = c
  Creates-again name false g u m m' bare c = ground arith

  abbrev RegistersAt : Text → Manager → Bool → Manager → Type 0
  RegistersAt name m b m' = Registers b (stage k name m) (stage k name m')

  register_topic-new :
      (type_name name : Text) (qos : QosType) (m : Manager)
      → is_some m.participant ≡ true
      → slot m name ≡ missing
      → register_topic d type_name name qos m
        ≡ create_topic_for d name qos false
            (record (new_group m.order) { type_name = type_name })
            (call (register_type type_name) m)
  unfolding register_topic register_with
  register_topic-new type_name name qos m joined e = ground arith

  register_topic-again :
      (type_name name : Text) (qos : QosType) (m : Manager) (g : TopicGroup)
      → is_some m.participant ≡ true
      → slot m name ≡ found g
      → is_some g.topic ≡ false
      → register_topic d type_name name qos m
        ≡ create_topic_for d name qos true
            (record g { type_name = type_name })
            (call (register_type type_name) m)
  unfolding register_topic register_with
  register_topic-again type_name name qos m g joined e bare = ground arith

  register_topic-there :
      (type_name name : Text) (qos : QosType) (m : Manager) (g : TopicGroup)
      → is_some m.participant ≡ true
      → slot m name ≡ found g
      → is_some g.topic ≡ true
      → register_topic d type_name name qos m ≡ done (true, m)
  unfolding register_topic
  register_topic-there type_name name qos m g joined e there = ground arith

  register_topic-null :
      (type_name name : Text) (qos : QosType) (m : Manager)
      → is_some m.participant ≡ true
      → slot m name ≡ null
      → register_topic d type_name name qos m ≡ done (true, m)
  unfolding register_topic
  register_topic-null type_name name qos m joined e = ground arith

  Registers-there :
      (g : TopicGroup) → is_some g.topic ≡ true → Registers true (group_stage k g) (group_stage k g)
  Registers-there g there = ground arith

  pub register_topic-Gives :
      (type_name name : Text) (qos : QosType) (m : Manager)
      → Gives (RegistersAt name m) (register_topic d type_name name qos m)
  unfolding register_topic slot
  register_topic-Gives type_name name qos m =
      let P = RegistersAt name m in
      let m₁ = call (register_type type_name) m in
      elim (Bool-cases (is_some m.participant)) [
        | inr alone ↦ rw (alone, register_topic) tt
        | inl joined ↦ elim (Slot-cases (slot m name)) [
          | inl e ↦
              let g = record (new_group m.order) { type_name = type_name } in
              Gives-eq P _ _ (register_topic-new type_name name qos m joined e) (
                Gives-map _ P (create_topic_for d name qos false g m₁)
                  (λ b m'. Creates-new name b type_name m m' (ap (stage_of k) e))
                  (create_topic_for-Gives name qos false g m₁))
          | inr (inl e) ↦
              Gives-eq P _ _ (register_topic-null type_name name qos m joined e)
                (subst (λ u. Registers true u u) (sym (ap (stage_of k) e)) (refl, refl))
          | inr (inr (g, e)) ↦
              let at_g : stage k name m ≡ group_stage k g = ap (stage_of k) e in
              elim (Bool-cases (is_some g.topic)) [
                | inl there ↦
                    Gives-eq P _ _ (register_topic-there type_name name qos m g joined e there)
                      (subst (λ u. Registers true u u) (sym at_g) (Registers-there g there))
                | inr bare ↦
                    let g₁ = record g { type_name = type_name } in
                    Gives-eq P _ _ (register_topic-again type_name name qos m g joined e bare) (
                      subst
                        (λ u.
                          Gives (λ b m'. Registers b u (stage k name m'))
                            (create_topic_for d name qos true g₁ m₁))
                        (sym at_g)
                        (Gives-map _ _ (create_topic_for d name qos true g₁ m₁)
                          (λ b m'. Creates-again name b g₁ (stage k name m) m m' (ground arith))
                          (create_topic_for-Gives name qos true g₁ m₁)))
              ]
        ]
      ]

  erased-Gives :
      (name : Text) (m : Manager) (r : Outcome Trace)
      → Gives
          (λ b m'. (b ≡ true) × (stage k name m' ≡ absent))
          (r >>= λ calls. done (true, record m { topics = erase name m.topics; calls = calls }))
  unfolding slot
  erased-Gives name m (done calls) =
      (refl, rw (lookup-erase name name m.topics, same_refl name) refl)
  erased-Gives name m null_dereference = tt
  erased-Gives name m (throws message) = tt
  erased-Gives name m terminates = tt

  pub unregister_topic-Gives :
      (name : Text) (m : Manager)
      → Gives (λ b m'. Unregisters b (stage k name m) (stage k name m')) (unregister_topic d name m)
  unfolding unregister_topic
  unregister_topic-Gives name m = elim (Slot-cases (slot m name)) [
    | inl e ↦ rw (e, unregister_topic) (refl, ap (stage_of k) e)
    | inr (inl e) ↦ rw (e, unregister_topic) (refl, ap (stage_of k) e)
    | inr (inr (g, e)) ↦ rw (e, unregister_topic) (erased-Gives name m (teardown d g m.calls))
  ]

  cleared-Gives :
      (name : Text) (b : Bool) (m : Manager) (r : Outcome Trace)
      → Gives
          (λ b m'. stage k name m' ≡ absent)
          (r >>= λ calls. done (b, record m { topics = []; calls = calls }))
  unfolding slot lookup
  cleared-Gives name b m (done calls) = refl
  cleared-Gives name b m null_dereference = tt
  cleared-Gives name b m (throws message) = tt
  cleared-Gives name b m terminates = tt

  all_cleared-Gives :
      (name : Text) (r : Outcome (Bool × Manager))
      → Gives
          (λ b m'. stage k name m' ≡ absent)
          (r >>= λ (b, m'). clear_topics d m'.topics m'.calls >>= λ calls.
            done (b, record m' { topics = []; calls = calls }))
  all_cleared-Gives name (done (b, m')) =
      cleared-Gives name b m' (clear_topics d m'.topics m'.calls)
  all_cleared-Gives name null_dereference = tt
  all_cleared-Gives name (throws message) = tt
  all_cleared-Gives name terminates = tt

  pub clean_up_topics-Gives :
      (name : Text) (schedule : List Text) (m : Manager)
      → Gives (λ b m'. stage k name m' ≡ absent) (clean_up_topics d schedule m)
  unfolding clean_up_topics
  clean_up_topics-Gives name schedule m =
      all_cleared-Gives name (unregister_all d (in_order schedule (started m.topics)) true m)
