-- ===== src/Adapter/Jsonc/Laws.antt =====
-- What the two loops of JSONC keep and what they take out.
use mathlib.Core.Option
use shadow_relay.Adapter.Jsonc.{Mode, code, quoted, escaped}

-- The mode in which the output of a mode is read.
unfoldable resting : Mode → Mode
resting quoted = quoted
resting escaped = escaped
resting _ = code
