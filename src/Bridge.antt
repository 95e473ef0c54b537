-- ===== src/Bridge.antt =====
-- The stores of chatgpt-gui-bridge: each keeps one JSON file, which an operation reads, changes and
-- replaces as a whole. An operation that raises has not written. A refusal is the message of a
-- `ValueError`. Instants are numbers of microseconds, which these stores compare as instants.
pub mod Rules
pub mod Window
pub mod Chat
pub mod Pool
pub mod Turns
use model_lib.Prelude.{String}
use model_lib.Text.{strip, is_empty}
use model_lib.Tx.{Body, return, raise_if, ◌>>=◌, ◌>>◌}

module _ {S : Type 0} where
  -- `_text(value, error)`
  unfoldable pub require_text : String → String → Body S String String
  require_text value error = do raise_if (is_empty (strip value)) error; return (strip value)
