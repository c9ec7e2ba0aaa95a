-- ===== src/Session/Links.antt =====
-- Objects at addresses, and the streams that nghttp2 knows.
use h2_server.Prelude.{
  ℕ, none, some, List, [], ◌∷◌, ◌++◌, ◌≡◌, ◌≢◌, ◌==◌, refl, if◌then◌else◌, arith,
}
use h2_server.Session.{StreamData, find_stream, write_stream, delete_stream_data}

pub find_stream-write_stream :
    (streams : List (ℕ × StreamData)) (a b : ℕ) (old new : StreamData)
    → find_stream a streams ≡ some old
    → find_stream b (write_stream a new streams)
      ≡ (if a == b then some new else find_stream b streams)
unfolding find_stream write_stream
find_stream-write_stream [] a b old new h = absurd cc
find_stream-write_stream ((c, x) ∷ streams) a b old new h =
    ground (arith, find_stream-write_stream streams a b old new)

pub find_stream-append :
    (streams : List (ℕ × StreamData)) (a b : ℕ) (new : StreamData)
    → find_stream a streams ≡ none
    → find_stream b (streams ++ (a, new) ∷ [])
      ≡ (if a == b then some new else find_stream b streams)
unfolding find_stream
find_stream-append [] a b new h = refl
find_stream-append ((c, x) ∷ streams) a b new h = ground (arith, find_stream-append streams a b new)

pub find_stream-delete :
    (streams : List (ℕ × StreamData)) (a b : ℕ)
    → a ≢ b
    → find_stream b (delete_stream_data a streams) ≡ find_stream b streams
unfolding find_stream delete_stream_data
find_stream-delete [] a b h = refl
find_stream-delete ((c, x) ∷ streams) a b h = ground (arith, find_stream-delete streams a b)
