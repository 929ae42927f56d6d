-- ===== src/Relations/Node/Tests.antt =====
-- Runs of the payload values of ranges.
use oh_my_document.Prelude.{some, arith, ◌≡◌}
use oh_my_document.Relations.Range.{text, Range}
use oh_my_document.Relations.Node.Position.{position_value, position_from_value}
use oh_my_document.Relations.Node.Decimal.{position_from_value-position_value}

abbrev sample : Range
sample = record { start = 7; end = 120; mode = text }

position_from_value-position_value_example :
    position_from_value (position_value sample) ≡ some sample
position_from_value-position_value_example =
    position_from_value-position_value sample (omega arith) (omega arith)
