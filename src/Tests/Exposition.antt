-- ===== src/Tests/Exposition.antt =====
-- The exporter's lines and the console's parser at concrete inputs.
use muser_console.Base.{some, suc, ◌+◌, length, codes, [], ◌≡◌}
use muser_console.History.Prom.Labels.{parse_labels, parse_labels_with}
use muser_console.History.Prom.Labels.Fuel.{parse_labels-enough}

parse_labels-enough_example :
    parse_labels_with (7 + suc (length (codes "a=\"1\""))) (codes "a=\"1\"") []
    ≡ some (parse_labels (codes "a=\"1\""))
parse_labels-enough_example = parse_labels-enough 7 (codes "a=\"1\"")
