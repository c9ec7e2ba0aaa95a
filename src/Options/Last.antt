-- ===== src/Options/Last.antt =====
-- The last option of each kind counts.
use h2_server.Prelude.{
  ℕ, ◌%◌, ◌^◌, ◌≡◌, refl, ◌∙◌, Bytes, bytes, Bool, true, false, Option, none, some, List, [], ◌∷◌,
}
use h2_server.Options.{
  Parsed, h2c, help, port_value, thread_value, key_value, cert_value, ConfigOption, take_option,
  parse_command_line, make,
}

-- What is said, or the default.
abbrev pub said : {A B : Type 0} → (A → B) → B → Option A → B
said convert b none = b
said convert b (some a) = convert a

-- The last that an option of one kind says.
abbrev pub last_some : {A : Type 0} → (Parsed → Option A) → List Parsed → Option A
last_some says [] = none
last_some says (o ∷ options) = elim (last_some says options) [ some a ↦ some a | none ↦ says o ]

abbrev pub ports : Parsed → Option ℕ
ports (port_value word) = some word
ports _ = none

abbrev pub threads : Parsed → Option ℕ
threads (thread_value word) = some word
threads _ = none

abbrev pub keys : Parsed → Option Bytes
keys (key_value path) = some path
keys _ = none

abbrev pub certs : Parsed → Option Bytes
certs (cert_value path) = some path
certs _ = none

abbrev pub switches_tls : Parsed → Option Bool
switches_tls h2c = some false
switches_tls _ = none

abbrev pub helps : Parsed → Option Bool
helps help = some true
helps _ = none

-- A field that one kind of option sets.
module _ {A B : Type 0} (says : Parsed → Option A) (field : ConfigOption → B) (convert : A → B)
    (sets : (o : Parsed) (c : ConfigOption)
      → field (take_option o c) ≡ said convert (field c) (says o)) where
  parse-last :
      (options : List Parsed) (c : ConfigOption)
      → field (parse_command_line options c) ≡ said convert (field c) (last_some says options)
  unfolding parse_command_line
  parse-last [] c = refl
  parse-last (o ∷ options) c =
      parse-last options (take_option o c) ∙ by_rest (last_some says options) (says o) (sets o c)
    where
      by_rest :
          (rest this : Option A)
          → field (take_option o c) ≡ said convert (field c) this
          → said convert (field (take_option o c)) rest
            ≡ said convert (field c) (elim rest [ some a ↦ some a | none ↦ this ])
      by_rest none none e = e
      by_rest none (some a) e = e
      by_rest (some a) this e = refl

port_set :
    (o : Parsed) (c : ConfigOption)
    → (take_option o c).port ≡ said (λ word. word % 2 ^ 16) c.port (ports o)
unfolding take_option
port_set (port_value word) c = refl
port_set _ c = refl

threads_set :
    (o : Parsed) (c : ConfigOption)
    → (take_option o c).num_threads ≡ said (λ word. word % 2 ^ 8) c.num_threads (threads o)
unfolding take_option
threads_set (thread_value word) c = refl
threads_set _ c = refl

key_set :
    (o : Parsed) (c : ConfigOption) → (take_option o c).key_path ≡ said (λ p. p) c.key_path (keys o)
unfolding take_option
key_set (key_value path) c = refl
key_set _ c = refl

cert_set :
    (o : Parsed) (c : ConfigOption)
    → (take_option o c).cert_path ≡ said (λ p. p) c.cert_path (certs o)
unfolding take_option
cert_set (cert_value path) c = refl
cert_set _ c = refl

tls_set :
    (o : Parsed) (c : ConfigOption)
    → (take_option o c).use_tls ≡ said (λ b. b) c.use_tls (switches_tls o)
unfolding take_option
tls_set h2c c = refl
tls_set _ c = refl

help_set :
    (o : Parsed) (c : ConfigOption)
    → (take_option o c).is_help_mode ≡ said (λ b. b) c.is_help_mode (helps o)
unfolding take_option
help_set help c = refl
help_set _ c = refl

-- The options that a command line gives, whatever stands on it: for the port, the number of threads and
-- the two paths, the last option of its kind counts, and the default where there is none; the port is
-- taken modulo 2^16 and the number of threads modulo 2^8. TLS is used unless there is `--h2c`, and help
-- is wanted only if it is asked for.
pub make-last :
    (options : List Parsed)
    → let c = make options in
      (c.port ≡ said (λ word. word % 2 ^ 16) 443 (last_some ports options))
      × (c.num_threads ≡ said (λ word. word % 2 ^ 8) 1 (last_some threads options))
      × (c.key_path ≡ said (λ p. p) (bytes "./cert/server.key") (last_some keys options))
      × (c.cert_path ≡ said (λ p. p) (bytes "./cert/server.crt") (last_some certs options))
      × (c.use_tls ≡ said (λ b. b) true (last_some switches_tls options))
      × (c.is_help_mode ≡ said (λ b. b) false (last_some helps options))
unfolding make
make-last options = (
  parse-last ports (λ c. c.port) (λ word. word % 2 ^ 16) port_set options _,
  parse-last threads (λ c. c.num_threads) (λ word. word % 2 ^ 8) threads_set options _,
  parse-last keys (λ c. c.key_path) (λ p. p) key_set options _,
  parse-last certs (λ c. c.cert_path) (λ p. p) cert_set options _,
  parse-last switches_tls (λ c. c.use_tls) (λ b. b) tls_set options _,
  parse-last helps (λ c. c.is_help_mode) (λ b. b) help_set options _,
)
