-- ===== src/Connection/Tests.antt =====
-- A connection with bytes in both buffers.
use h2_server.Prelude.{◌≡◌, some, [], ◌∷◌, bytes, arith}
use h2_server.Connection.{
  SessionData, established, success, takes, write_interrupted, flush_output_buffer_h2c,
}
use h2_server.Connection.Buffers.{flush_output_buffer_h2c-completes}

abbrev busy : SessionData
busy = record {
  output_buffer = bytes "hello";
  input_buffer = bytes "ping";
  events = 1;
  state = established;
}

flush_output_buffer_h2c-completes_example :
    (flush_output_buffer_h2c
      (takes 2 ∷ write_interrupted ∷ takes 1 ∷ takes 1 ∷ takes 1 ∷ takes 1 ∷ [])
      busy).2
    ≡ some success
flush_output_buffer_h2c-completes_example =
    flush_output_buffer_h2c-completes
      (takes 2 ∷ write_interrupted ∷ takes 1 ∷ takes 1 ∷ takes 1 ∷ takes 1 ∷ []) busy
      (omega arith, (tt, (omega arith, (omega arith, (omega arith, (omega arith, tt))))))
      (omega arith)
