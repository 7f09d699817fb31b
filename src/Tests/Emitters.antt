-- ===== src/Tests/Emitters.antt =====
-- Theorems on emitters, applied to concrete callbacks and rounds.
use open_ddw.Base.{ℕ, ◌≡◌, refl, true, false, some, List, [], ◌∷◌}
use open_ddw.Base.Text.{Text, text, text_discrete}
use open_ddw.Dds.{retcode_ok, retcode_timeout}
use open_ddw.Emitter.{Emitter, called, new_emitter, set_async, emit_message, joinable}
use open_ddw.Emitter.Routing.{add_all, emit_message-add_all}
use open_ddw.Emitter.Listen.{Round, listen_loop, Action, adds, runs, stops, act_all, act_all_total}
use open_ddw.Emitter.Heard.{each, deliveries, listen_loop-deliveries}
use open_ddw.Tests.{setup}

abbrev registrations : List (Text × ℕ)
registrations = (text "Alarm", 1) ∷ (text "Status", 2) ∷ (text "Alarm", 3) ∷ []

emit_message-add_all_example :
    emit_message {A = ℕ} true
      (set_async false (add_all registrations (new_emitter (some 4))))
      (text "Alarm")
      70
    ≡ called 1 70 ∷ called 3 70 ∷ []
unfolding text_discrete
emit_message-add_all_example =
    emit_message-add_all true 70 (some 4) false (text "Alarm") registrations

abbrev actions : List Action
actions = adds (text "Alarm") 1 ∷ runs setup ∷ runs setup ∷ stops ∷ runs setup ∷ []

act_all_total_example :
    (e : Emitter) × (act_all actions (new_emitter (some 4)) ≡ some e)
    × (joinable e.thread ≡ e.running)
act_all_total_example = act_all_total actions (some 4)

abbrev busy : Round ℕ
busy = record {
  running = true;
  waited = retcode_ok;
  narrowed = true;
  taken = retcode_ok;
  messages = 70 ∷ [];
}

abbrev stopped : Round ℕ
stopped = record busy { running = false }

-- The wait runs out.
abbrev idle : Round ℕ
idle = record busy { waited = retcode_timeout }

listen_loop-deliveries_example :
    listen_loop true
      (set_async false (add_all registrations (new_emitter (some 4))))
      (text "Alarm")
      (busy ∷ idle ∷ stopped ∷ busy ∷ [])
    ≡ some (each (deliveries true false (1 ∷ 3 ∷ [])) (70 ∷ []))
unfolding text_discrete
listen_loop-deliveries_example =
    listen_loop-deliveries true (some 4) false (text "Alarm") registrations (busy ∷ idle ∷ [])
      stopped (busy ∷ []) (refl, (refl, tt)) refl
