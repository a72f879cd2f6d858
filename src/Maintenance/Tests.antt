-- ===== src/Maintenance/Tests.antt =====
-- internal/maintenance/window.go: the theorems on the window of half past two on Sundays.
use eth_node_operator.Common.{◌≡◌, refl, ok}
use eth_node_operator.Common.Int.{pos, atoi}
use eth_node_operator.Common.Text.{fields, trim_space}
use eth_node_operator.Maintenance.{Window, Time, new, parse_cron}
use eth_node_operator.Maintenance.Laws.{InRange, new-InRange}

abbrev window : Window
window = record {
  schedule = "30 2 * * 7";
  parsed = record { minute = pos 30; hour = pos 2; weekday = pos 0 };
}

new_test : new "30 2 * * 7" ≡ ok window
unfolding parse_cron fields trim_space atoi
new_test = refl

new-InRange_example : InRange window.parsed
new-InRange_example = new-InRange "30 2 * * 7" window new_test

abbrev monday : Time
monday = record { minutes = 0; nanoseconds = 5; location = λ m. m }
