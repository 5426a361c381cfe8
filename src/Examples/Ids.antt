-- ===== src/Examples/Ids.antt =====
-- An identifier (internal/scalegraph/id.go) of twenty bytes.
use sg_emulator.Base.{◌≡◌, refl, length, arith, ◌↔◌}
use sg_emulator.Base.Bytes.{AreBytes}
use sg_emulator.Base.Action.{ok}
use sg_emulator.Id.{from_string, to_string, id_length}
use sg_emulator.Id.RoundTrip.{from_string-to_string, from_string_bounds, to_string_iff}
use sg_emulator.Examples.Data.{are_bytes, id_of}

from_string-to_string_example : from_string (to_string (id_of 171)) ≡ ok (id_of 171)
from_string-to_string_example = from_string-to_string (id_of 171) (are_bytes 171 (omega arith)) refl

from_string_bounds_example : (length (id_of 171) ≡ id_length) × AreBytes (id_of 171)
from_string_bounds_example =
    from_string_bounds (to_string (id_of 171)) (id_of 171)
      (from_string-to_string (id_of 171) (are_bytes 171 (omega arith)) refl)

to_string_iff_example : (to_string (id_of 171) ≡ to_string (id_of 7)) ↔ (id_of 171 ≡ id_of 7)
to_string_iff_example =
    to_string_iff (id_of 171) (id_of 7) (are_bytes 171 (omega arith)) (are_bytes 7 (omega arith))
