-- ===== src/Samples/Stamps.antt =====
-- Texts of instants within one second.
use model_lib.Prelude.{◌≡◌, true}
use model_lib.Stamp.{text_lt}
use model_lib.Stamp.Order.{text_lt_exact}

text_lt_exact_example : text_lt 500000 0 ≡ true
text_lt_exact_example = text_lt_exact 500000 0
