-- ===== src/Options/Tests.antt =====
-- One command line.
use h2_server.Prelude.{◌≡◌, bytes, false, [], ◌∷◌}
use h2_server.Options.{port_value, thread_value, h2c, make}
use h2_server.Options.Last.{make-last}

make-last_example :
    let c = make (port_value 80 ∷ thread_value 258 ∷ h2c ∷ port_value 65616 ∷ []) in
    (c.port ≡ 80)
    × (c.num_threads ≡ 2)
    × (c.key_path ≡ bytes "./cert/server.key")
    × (c.cert_path ≡ bytes "./cert/server.crt")
    × (c.use_tls ≡ false)
    × (c.is_help_mode ≡ false)
make-last_example = make-last (port_value 80 ∷ thread_value 258 ∷ h2c ∷ port_value 65616 ∷ [])
