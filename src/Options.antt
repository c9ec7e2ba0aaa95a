-- ===== src/Options.antt =====
-- The options of the command line (src/config_opt.h, src/config_opt.cc), from what `getopt_long` returns.
pub mod Last
mod Tests
use h2_server.Prelude.{ℕ, ◌%◌, ◌^◌, Bytes, bytes, Bool, true, false, List, [], ◌∷◌}

-- One result of `getopt_long`, with `optarg`, or with the `int` that `atoi` makes of it, kept as its
-- 32-bit word. For `--h2c`, `getopt_long` itself clears `use_tls`; `unknown` only prints the usage.
pub data Parsed : Type 0 where
  h2c help unknown : Parsed
  port_value thread_value : ℕ → Parsed
  key_value cert_value : Bytes → Parsed

pub record ConfigOption : Type 0 where
  pub is_help_mode : Bool
  pub use_tls : Bool
  pub port : ℕ
  pub num_threads : ℕ
  pub key_path : Bytes
  pub cert_path : Bytes

unfoldable pub take_option : Parsed → ConfigOption → ConfigOption
take_option h2c c = record c { use_tls = false }
take_option help c = record c { is_help_mode = true }
take_option unknown c = c
take_option (port_value word) c = record c { port = word % 2 ^ 16 }
take_option (thread_value word) c = record c { num_threads = word % 2 ^ 8 }
take_option (key_value path) c = record c { key_path = path }
take_option (cert_value path) c = record c { cert_path = path }

unfoldable pub parse_command_line : List Parsed → ConfigOption → ConfigOption
unfolding take_option
parse_command_line [] c = c
parse_command_line (o ∷ options) c = parse_command_line options (take_option o c)

abbrev pub default_option : ConfigOption
default_option = record {
  is_help_mode = false;
  use_tls = true;
  port = 443;
  num_threads = 1;
  key_path = bytes "./cert/server.key";
  cert_path = bytes "./cert/server.crt";
}

-- The constructor.
unfoldable pub make : List Parsed → ConfigOption
unfolding parse_command_line
make options = parse_command_line options default_option
