-- ===== src/Session/Pointers.antt =====
-- nghttp2's pointers to the objects of the streams, behind a change at one stream.
use h2_server.Prelude.{
  ℕ, Option, none, some, List, ◌≡◌, ◌≢◌, ◌==◌, sym, ◌∙◌, if◌then◌else◌, arith, ℕ_discrete,
}
use h2_server.Session.{UserData, StreamData, find_stream}
use h2_server.Session.Run.{put}

pub if_same : {A : Type 0} (i j : ℕ) (x y : A) → i ≡ j → (if i == j then x else y) ≡ x
if_same i j x y e = ground arith

pub if_other : {A : Type 0} (i j : ℕ) (x y : A) → i ≢ j → (if i == j then x else y) ≡ y
if_other i j x y ne = ground arith

module _ {T : Type 0} (nghttp2 : UserData T) where
  -- nghttp2's pointer for a stream is to a living object, which is of that stream and is seen there.
  abbrev pub Linked : T → List (ℕ × StreamData) → (ℕ → Option StreamData) → Type 0
  Linked u streams seen =
      (id address : ℕ)
      → nghttp2.get_user_data id u ≡ some address
      → (stream : StreamData) × (find_stream address streams ≡ some stream)
        × (stream.stream_id ≡ id)
        × (seen id ≡ some stream)

  -- No stream is seen that nghttp2 does not know.
  abbrev pub Closed : T → (ℕ → Option StreamData) → Type 0
  Closed u seen = (id : ℕ) → nghttp2.get_user_data id u ≡ none → seen id ≡ none

  -- The pointer for one stream is another one, and the others are as they were.
  abbrev pub PointsTo : ℕ → Option ℕ → T → T → Type 0
  PointsTo id p u u' =
      (other : ℕ)
      → nghttp2.get_user_data other u' ≡ (if id == other then p else nghttp2.get_user_data other u)

  pub unchanged-PointsTo :
      (id : ℕ) (p : Option ℕ) (u : T) → nghttp2.get_user_data id u ≡ p → PointsTo id p u u
  unchanged-PointsTo id p u e other = ground (arith, e)

  module _ (id : ℕ) (p : Option ℕ) (u u' : T) (changed : PointsTo id p u u') (x : Option StreamData)
      (seen : ℕ → Option StreamData) where
    there : (other : ℕ) → id ≡ other → p ≡ nghttp2.get_user_data other u'
    there other e = sym (if_same id other p _ e) ∙ sym (changed other)

    elsewhere :
        (other : ℕ) → id ≢ other → nghttp2.get_user_data other u ≡ nghttp2.get_user_data other u'
    elsewhere other ne = sym (if_other id other p _ ne) ∙ sym (changed other)

    pub Linked-put :
        (streams streams' : List (ℕ × StreamData))
        → Linked u streams seen
        → ((address : ℕ)
            → p ≡ some address
            → (stream : StreamData) × (find_stream address streams' ≡ some stream)
              × (stream.stream_id ≡ id)
              × (x ≡ some stream))
        → ((other address : ℕ) (stream : StreamData)
            → id ≢ other
            → nghttp2.get_user_data other u ≡ some address
            → find_stream address streams ≡ some stream
            → find_stream address streams' ≡ some stream)
        → Linked u' streams' (put id x seen)
    Linked-put streams streams' linked here away other address h = elim (ℕ_discrete id other) [
      | yes e ↦
          let (stream, found, of_id, is_seen) = here address (there other e ∙ h) in
          (stream, found, of_id ∙ e, if_same id other x _ e ∙ is_seen)
      | no ne ↦
          let known = elsewhere other ne ∙ h in
          let (stream, found, of_other, is_seen) = linked other address known in
          (
            stream,
            away other address stream ne known found,
            of_other,
            if_other id other x _ ne ∙ is_seen,
          )
    ]

    pub Closed-put : Closed u seen → (p ≡ none → x ≡ none) → Closed u' (put id x seen)
    Closed-put closed here other h = elim (ℕ_discrete id other) [
      | yes e ↦ if_same id other x _ e ∙ here (there other e ∙ h)
      | no ne ↦ if_other id other x _ ne ∙ closed other (elsewhere other ne ∙ h)
    ]
