-- ===== src/Tests/Policies.antt =====
-- Theorems on the QoS, applied to concrete presets and environments.
use open_ddw.Base.{◌≡◌, false}
use open_ddw.Qos.{by_source_timestamp, best_effort, strict_reliable}
use open_ddw.Qos.Presets.{reader_preset, writer_preset}
use open_ddw.Qos.Matching.{compatible, compatible_presets}

compatible_presets_example :
    compatible
      (writer_preset best_effort by_source_timestamp)
      (reader_preset strict_reliable by_source_timestamp)
    ≡ false
compatible_presets_example =
    compatible_presets best_effort strict_reliable by_source_timestamp by_source_timestamp
