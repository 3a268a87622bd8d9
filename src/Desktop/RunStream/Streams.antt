-- ===== src/Desktop/RunStream/Streams.antt =====
-- Frames may come twice or late, and the text of a stream is still the pieces in their order.
use Prim.Native.String
use onecatch.Base.{
  ℕ, ◌≤◌, ◌<◌, String, true, false, Option, none, some, List, [], ◌∷◌, ◌==◌, ◌&&◌, ◌∙◌, Bool-cases,
  if◌then◌else◌, ◌≡◌, ◌≢◌, ◌⊎◌, inl, inr, ap, refl, arith,
}
use onecatch.Base.Dict
use onecatch.Desktop.RunStream.{
  atomic, delta, Frame, Key, same_key, lookup, insert, Hub, streams_of, key_of, advance, is_news,
  updated, publish,
}

same_key_refl : (k : Key) → same_key k k ≡ true
unfolding same_key
same_key_refl k = ground arith

module _ {R : Type 0} where
  lookup-insert :
      (k j : Key) (f : Frame R) (m : List (Key × Frame R))
      → lookup j (insert k f m) ≡ (if same_key k j then some f else lookup j m)
  unfolding lookup insert same_key
  lookup-insert k j f [] = refl
  lookup-insert k j f ((i, g) ∷ m) = ground (arith, lookup-insert k j f m)

  -- The frame that the hub holds for a stream of a run.
  abbrev pub current : String → Key → Hub R → Option (Frame R)
  current id k h = lookup k (streams_of id h)

  abbrev pub result : Frame R → Hub R → Hub R
  result f h = (publish f h).0

  -- What publishing a streamed frame does to any stream: the stream of the frame advances unless the
  -- frame is old, and every other stream is as before.
  current-publish :
      (f : Frame R) (h : Hub R) (id : String) (k : Key)
      → f.run_id ≢ ""
      → f.stream_id ≢ ""
      → f.phase ≢ atomic
      → current id k (result f h) ≡ (
          if f.run_id == id
          then if same_key (key_of f) k
            then if is_news (current f.run_id (key_of f) h) f
              then some (advance (current f.run_id (key_of f) h) f)
              else current f.run_id k h
            else current id k h
          else current id k h)
  unfolding publish streams_of
  current-publish f h id k r s p = ground (
    arith,
    Dict.lookup-insert f.run_id id (updated f (streams_of f.run_id h)) h.runs,
    lookup-insert (key_of f) k (advance (current f.run_id (key_of f) h) f) (streams_of f.run_id h),
  )

  -- A frame that carries a piece of a stream.
  abbrev Streamed : Frame R → Type 0
  Streamed f = (f.run_id ≢ "") × (f.stream_id ≢ "") × (f.phase ≢ atomic)

  Streamed-cases : (f : Frame R) → (h : Hub R) → Streamed f ⊎ ((result f h) ≡ h)
  unfolding publish
  Streamed-cases f h = ground arith

  news_once :
      (c : Option (Frame R)) (f : Frame R)
      → f.phase ≢ atomic
      → is_news (some (advance c f)) f ≡ false
  unfolding is_news advance
  news_once none f p = ground arith
  news_once (some c) f p = ground arith

  -- A frame that is published twice leaves every stream of every run as one publication leaves it.
  publish_twice :
      (f : Frame R) (h : Hub R) (id : String) (k : Key)
      → current id k (result f (result f h)) ≡ current id k (result f h)
  publish_twice f h id k = elim (Streamed-cases f h) [
    | inl (r, s, p) ↦ ground (
      arith,
      current-publish f h id k r s p,
      current-publish f (result f h) id k r s p,
      current-publish f h f.run_id (key_of f) r s p,
      same_key_refl (key_of f),
      news_once (current f.run_id (key_of f) h) f p,
    )
    | inr e ↦ ap (current id k) (ap (result f) e)
  ]

  revision_advance : (c : Option (Frame R)) (f : Frame R) → (advance c f).revision ≡ f.revision
  unfolding advance
  revision_advance c f = ground arith

  -- A frame that is not newer than what the hub holds of its stream changes no stream.
  publish_stale :
      (f g : Frame R) (h : Hub R) (id : String) (k : Key)
      → current f.run_id (key_of f) h ≡ some g
      → f.revision ≤ g.revision
      → current id k (result f h) ≡ current id k h
  unfolding is_news
  publish_stale f g h id k e l = elim (Streamed-cases f h) [
    | inl (r, s, p) ↦ ground (arith, e, current-publish f h id k r s p)
    | inr same ↦ ap (current id k) same
  ]

  -- A stream that the hub holds is not lost by a publication, and its frame stays or is replaced by one of
  -- a higher revision.
  publish_advances :
      (f g : Frame R) (h : Hub R) (id : String) (k : Key)
      → current id k h ≡ some g
      → (new : Frame R) × (current id k (result f h) ≡ some new)
        × ((new ≡ g) ⊎ (g.revision < new.revision))
  unfolding is_news same_key
  publish_advances f g h id k e = elim (Streamed-cases f h) [
    | inl (r, s, p) ↦
        elim (Bool-cases ((f.run_id == id) && (same_key (key_of f) k && is_news (some g) f))) [
          | inl y ↦ (
            advance (some g) f,
            ground (arith, y, current-publish f h id k r s p),
            inr (ground (arith, y, revision_advance (some g) f)),
          )
          | inr n ↦ (g, ground (arith, n, current-publish f h id k r s p), inl refl)
        ]
    | inr same ↦ (g, ap (current id k) same ∙ e, inl refl)
  ]

  abbrev pub publish_all : List (Frame R) → Hub R → Hub R
  publish_all [] h = h
  publish_all (f ∷ fs) h = publish_all fs (result f h)

  -- The frames are pieces of one stream of a run, with rising revisions above `n`.
  abbrev pub Pieces : String → Key → ℕ → List (Frame R) → Type 0
  Pieces id k n [] = Unit
  Pieces id k n (f ∷ fs) =
      (f.run_id ≡ id)
      × (key_of f ≡ k)
      × (f.phase ≡ delta)
      × (n < f.revision)
      × Pieces id k f.revision fs

  abbrev pub joined : String → List (Frame R) → String
  joined text [] = text
  joined text (f ∷ fs) = joined (String.◌++◌ text f.text) fs

  -- The texts of a stream's pieces are joined in their order: after the pieces of a stream with rising
  -- revisions, its text is the text that it had followed by the texts of the pieces.
  pub publish_all-joined :
      (fs : List (Frame R)) (g : Frame R) (h : Hub R) (id : String) (k : Key)
      → id ≢ ""
      → k.stream_id ≢ ""
      → current id k h ≡ some g
      → Pieces id k g.revision fs
      → (out : Frame R) × (current id k (publish_all fs h) ≡ some out)
        × (out.text ≡ joined g.text fs)
  unfolding is_news same_key advance
  publish_all-joined [] g h id k r s e ps = (g, e, refl)
  publish_all-joined (f ∷ fs) g h id k r s e (fr, fk, fp, l, ps) =
      let c = advance (some g) f in
      let now : current id k (result f h) ≡ some c =
        ground (arith, e, current-publish f h id k (ground arith) (ground arith) (ground arith)) in
      let (out, held, text) = publish_all-joined fs c (result f h) id k r s now (ground arith) in
      (out, held, text ∙ ap (λ u. joined u fs) (ground arith))
