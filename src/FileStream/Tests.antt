-- ===== src/FileStream/Tests.antt =====
-- A reply in frames of two bytes.
use h2_server.Prelude.{◌≡◌, some, [], ◌∷◌, arith, length, Bytes, bytes, take, leb}
use h2_server.FileStream.{read_frames}
use h2_server.FileStream.Delivery.{sum, read_frames-take}

abbrev hello : Bytes
hello = bytes "hello"

read_frames-take_example :
    read_frames (2 ∷ 2 ∷ 2 ∷ []) record { size = length hello; offset = 0; content = hello }
    ≡ some (take (sum (2 ∷ 2 ∷ 2 ∷ [])) hello, leb (length hello) (sum (2 ∷ 2 ∷ 2 ∷ [])))
read_frames-take_example = read_frames-take (2 ∷ 2 ∷ 2 ∷ []) hello (omega arith) (omega arith)
