-- ===== src/Manager/Stages/Presets.antt =====
-- What `registerQos` does to the stage of a topic.
use open_ddw.Base.{◌≡◌, refl, ◌∙◌, inl, inr, ap, sym, Bool, true, is_some, Bool-cases}
use open_ddw.Base.Text.{Text}
use open_ddw.Qos.{QosType}
use open_ddw.Dds.{Outcome, done, null_dereference, throws, terminates, ◌>>=◌}
use open_ddw.Manager.{Manager, slot}
use open_ddw.Manager.Settings.{group_at}
use open_ddw.Manager.Register.{apply_preset, register_qos}
use open_ddw.Manager.Footprint.{Slot-cases}
use open_ddw.Manager.Stages.{
  Stage, stands, stage, stage_of, Gives, GivesState, ensured, NeedsGroup, stage-put_group,
}
use open_ddw.Manager.Stages.Settings.{
  set_topic_qos-stage, set_reader_qos-stage, set_writer_qos-stage,
}

>>=-Gives :
    (P : Manager → Type 0) (Q : Bool → Manager → Type 0) (r : Outcome Manager)
    (f : Manager → Outcome (Bool × Manager))
    → GivesState P r
    → ((m : Manager) → P m → Gives Q (f m))
    → Gives Q (r >>= f)
>>=-Gives P Q (done m) f p k = k m p
>>=-Gives P Q null_dereference f p k = tt
>>=-Gives P Q (throws message) f p k = tt
>>=-Gives P Q terminates f p k = tt

-- The group stands already, in the stage.
abbrev Stays : Text → Text → Stage → Bool → Manager → Type 0
Stays k name u b m' = (b ≡ true) × (stage k name m' ≡ u)

apply_preset-Gives :
    (k name : Text) (qos : QosType) (m : Manager) (a b c e : Bool)
    → stage k name m ≡ stands a b c e
    → Gives (Stays k name (stands a b c e)) (apply_preset name qos m)
unfolding apply_preset group_at
apply_preset-Gives k name qos m a b c e h =
    let u = stands a b c e in
    let P = Stays k name u in
    let from = λ (x y : Manager). stage k name y ≡ ensured (stage k name x) in
    >>=-Gives (from m) P _ _ (set_topic_qos-stage k name m _) λ m₁ h₁.
      >>=-Gives (from m₁) P _ _ (set_reader_qos-stage k name m₁ _) λ m₂ h₂.
        >>=-Gives (from m₂) P _ _ (set_writer_qos-stage k name m₂ _) λ m₃ h₃.
          let s₁ : stage k name m₁ ≡ u = rw h at h₁ in
          let s₂ : stage k name m₂ ≡ u = rw s₁ at h₂ in
          let s₃ : stage k name m₃ ≡ u = rw s₂ at h₃ in
          elim (Slot-cases (slot m₃ name)) [
            | inl x ↦ rw (x, group_at) tt
            | inr (inl x) ↦ rw (x, group_at) tt
            | inr (inr (g, x)) ↦
                rw (x, group_at) (refl, stage-put_group k name _ m₃ ∙ sym (ap (stage_of k) x) ∙ s₃)
          ]

pub register_qos-Gives :
    (k name : Text) (qos : QosType) (m : Manager)
    → Gives (λ b m'. NeedsGroup b (stage k name m) (stage k name m')) (register_qos name qos m)
unfolding register_qos
register_qos-Gives k name qos m = elim (Slot-cases (slot m name)) [
  | inl e ↦ rw (e, register_qos) (refl, ap (stage_of k) e)
  | inr (inl e) ↦ rw (e, register_qos) tt
  | inr (inr (g, e)) ↦ elim (Bool-cases (is_some g.qos_preset)) [
    | inl chosen ↦ rw (e, register_qos, chosen) (refl, ap (stage_of k) e)
    | inr unset ↦
        rw (e, register_qos, unset) (apply_preset-Gives k name qos m _ _ _ _ (ap (stage_of k) e))
  ]
]
