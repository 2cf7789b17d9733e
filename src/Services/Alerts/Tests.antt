-- ===== src/Services/Alerts/Tests.antt =====
-- Alerts of one camera that goes offline, is acknowledged, and goes offline again.
use caps_dash.Prelude.{refl, some, List, [], ◌∷◌, arith}
use caps_dash.Services.Alerts.{
  Alert, AlertKey, warning, create_deduplicated, get_latest_by_key, newer,
}
use caps_dash.Services.Alerts.Dedup.{OpenIsLatest, create_deduplicated-OpenIsLatest}

abbrev offline : AlertKey
offline = record { alert_type = "CAMERA_OFFLINE"; entity_type = "camera"; entity_id = "3" }

abbrev past : List Alert
past =
    record {
      id = 1;
      key = offline;
      severity = warning;
      created_at = 100;
      acknowledged_at = some 150;
      acknowledged_by = some 7;
    }
    ∷ []

create_deduplicated-OpenIsLatest_example :
    OpenIsLatest (create_deduplicated past 2 offline warning 600 800).0 offline
unfolding get_latest_by_key newer
create_deduplicated-OpenIsLatest_example =
    create_deduplicated-OpenIsLatest past 2 offline offline warning 600 800 (omega arith) refl
