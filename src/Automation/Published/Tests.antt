-- ===== src/Automation/Published/Tests.antt =====
-- Times read by tools/data-poc/src/automation/publishedSnapshotTimes.ts.
use crypto_edge_ai.Common.{str_eq, if◌then◌else◌, String, ◌≡◌, refl, Option, none, some}
use crypto_edge_ai.Json.{Value, str, obj, end, field}
use crypto_edge_ai.Date.{DateText, iso, other, parse}
use crypto_edge_ai.Scanner.Fixtures.{ten_thousandths}
use crypto_edge_ai.Automation.State.{AutomationState, create_initial_automation_state}
use crypto_edge_ai.Automation.Published.{read_published_snapshot_times}
use crypto_edge_ai.Automation.Published.Laws.{IsDated, read_published_snapshot_times-IsDated}

abbrev date_of : String → DateText
date_of s = if str_eq s "2026-01-01T00:00:00.000Z" then iso 100 else other s none

abbrev read_file : String → String → Option (Value ten_thousandths)
read_file run_id file =
    some (
      obj
        (field "provenance" (obj (field "generated_at" (str "2026-01-01T00:00:00.000Z") end)) end))

abbrev state : AutomationState
state = record create_initial_automation_state { last_published_scanner_run_id = some "scan-1" }

scanner_time :
    (read_published_snapshot_times ten_thousandths date_of read_file state).scanner_published_at
    ≡ some (iso 100)
unfolding read_published_snapshot_times parse
scanner_time = refl

read_published_snapshot_times-IsDated_example :
    let times = read_published_snapshot_times ten_thousandths date_of read_file state in
    IsDated times.scanner_published_at
    × IsDated times.context_published_at
    × IsDated times.alternative_me_published_at
    × IsDated times.defillama_published_at
read_published_snapshot_times-IsDated_example =
    read_published_snapshot_times-IsDated ten_thousandths date_of read_file state
