-- ===== src/Core/Digest/Examples.antt =====
-- The text form of crates/kanbei-core/src/digest.rs at one digest.
use kanbei.Base.{◌≡◌, arith}
use kanbei.Core.Digest.{from_str, display, ok}
use kanbei.Core.Digest.Roundtrip.{from_str-display}

from_str-display_example : from_str (display 258) ≡ ok 258
from_str-display_example = from_str-display 258 (omega arith)
